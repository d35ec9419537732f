-- ===== src/Rsabssa/Unblinding.antt =====
-- The round trip of src/ovpoc/rsabssa.py: blinded by the voter, signed by the office, unblinded by
-- the voter.
use native.Mathlib.Nat.{mod-lt, le_trans}
use online_voting_poc.Prelude.{
  ℕ, zero, suc, ◌-◌, ◌*◌, ◌%◌, ◌^◌, ◌<◌, ◌≡◌, refl, ap, sym, ◌∙◌, true, some, length, arith, nat_eq,
  nat_eq_iff, Bool-cases, inl, inr,
}
use online_voting_poc.Bytes.{Bytes, to_bytes, from_bytes, bit_length}
use online_voting_poc.Bytes.BigEndian.{length-to_bytes, from_bytes-to_bytes, lt-pow-bytes}
use online_voting_poc.Crypto.{Crypto, PublicKey}
use online_voting_poc.Rsabssa.{
  PrivateKey, BlindState, modulus_bytes, pow_mod, inverse_below, inverse, verify, blind, blind_sign,
  finalize, check_blind_signature,
}
use online_voting_poc.Rsabssa.Pss.{ok, emsa_pss_encode}
use online_voting_poc.Rsabssa.Modular.{unblinding, exponents_undo}

-- A residue survives the way to the modulus's number of bytes and back.
residue_bytes : (n x : ℕ) → x < n → from_bytes (to_bytes (modulus_bytes n) x) ≡ x
residue_bytes n x h =
    from_bytes-to_bytes (modulus_bytes n) x (le_trans h (omega (arith, lt-pow-bytes n)))

inverse_below_sound : (m r n x : ℕ) → inverse_below m r n ≡ some x → r * x % n ≡ 1 % n
unfolding inverse_below
inverse_below_sound zero r n x h = cc
inverse_below_sound (suc m) r n x h = elim (Bool-cases (nat_eq (r * m % n) (1 % n))) [
  | inl found ↦ let e : m ≡ x = ground arith in rw (← e) ((nat_eq_iff (r * m % n) (1 % n)).0 found)
  | inr more ↦ inverse_below_sound m r n x (ground arith)
]

inverse_sound : (r n x : ℕ) → inverse r n ≡ some x → r * x % n ≡ 1 % n
unfolding inverse
inverse_sound r n x h = inverse_below_sound n r n x h

-- What the private key's numbers satisfy: the two exponents undo one another modulo n.
abbrev pub IsRsaKey : PrivateKey → Type 0
IsRsaKey key =
    (0 < key.public.modulus)
    × ((x : ℕ)
        → x ^ (key.public.exponent * key.secret) % key.public.modulus ≡ x % key.public.modulus)

module _ ⦃crypto : Crypto⦄ where
  -- What `blind` has done when it returns.
  pub record Blinding (key : PublicKey) (msg salt : Bytes) (r : ℕ) (c : Bytes) (state : BlindState)
      : Type 0 where
    pub encodes : emsa_pss_encode msg (bit_length key.modulus - 1) salt ≡ ok state.encoded_msg
    pub reduced : from_bytes state.encoded_msg < key.modulus
    pub modulus : state.modulus ≡ key.modulus
    pub inverts : r * state.r_inv % key.modulus ≡ 1 % key.modulus
    pub blinds :
        c
        ≡ to_bytes
            (modulus_bytes key.modulus)
            (from_bytes state.encoded_msg * pow_mod r key.exponent key.modulus % key.modulus)

  blind-Blinding :
      (key : PublicKey) (msg salt : Bytes) (r : ℕ) (c : Bytes) (state : BlindState)
      → blind key msg salt r ≡ ok (c, state)
      → Blinding key msg salt r c state
  unfolding blind
  blind-Blinding key msg salt r c state h = ground (arith, inverse_sound r key.modulus state.r_inv)

-- What `blind_sign` has done when it returns.
pub blind_sign-ok :
    (key : PrivateKey) (c s : Bytes)
    → blind_sign key c ≡ ok s
    → (length c ≡ modulus_bytes key.public.modulus)
      × (from_bytes c < key.public.modulus)
      × (s
          ≡ to_bytes
              (modulus_bytes key.public.modulus)
              (pow_mod (from_bytes c) key.secret key.public.modulus))
unfolding blind_sign
blind_sign-ok key c s h = ground arith

-- With a key whose exponents undo one another, what `blind_sign` returns for a blinded value are
-- bytes that the fault check accepts.
pub blind_sign-check :
    (key : PrivateKey) (c s : Bytes)
    → IsRsaKey key
    → blind_sign key c ≡ ok s
    → check_blind_signature key.public c s ≡ true
unfolding check_blind_signature
blind_sign-check key c s (pos, law) h =
    let n = key.public.modulus in
    let (len, range, out) = blind_sign-ok key c s h in
    let value : from_bytes s ≡ pow_mod (from_bytes c) key.secret n =
      ap from_bytes out ∙ residue_bytes n _ (mod-lt _ pos) in
    let small : from_bytes s < n = rw value (mod-lt _ pos) in
    let len' : length s ≡ modulus_bytes n = ap length out ∙ length-to_bytes _ _ in
    let undone : pow_mod (from_bytes s) key.public.exponent n ≡ from_bytes c =
      ap (λ t. pow_mod t key.public.exponent n) value
      ∙ exponents_undo n key.public.exponent key.secret (from_bytes c) law range in
    ground arith

pub blind_sign-returns :
    (key : PrivateKey) (c : Bytes)
    → length c ≡ modulus_bytes key.public.modulus
    → from_bytes c < key.public.modulus
    → blind_sign key c
      ≡ ok (
          to_bytes
            (modulus_bytes key.public.modulus)
            (pow_mod (from_bytes c) key.secret key.public.modulus))
unfolding blind_sign
blind_sign-returns key c len range = ground arith

module _ ⦃crypto : Crypto⦄ where
  finalize-returns :
      (key : PublicKey) (msg s : Bytes) (state : BlindState)
      → length s ≡ modulus_bytes state.modulus
      → let sig =
          to_bytes (modulus_bytes state.modulus) (from_bytes s * state.r_inv % state.modulus) in
        verify key msg sig ≡ true → finalize key msg s state ≡ ok sig
  unfolding finalize
  finalize-returns key msg s state len h = ground arith

  -- What standard verification accepts: bytes of the modulus's length whose public power is an
  -- encoding of the message with a salt of 48 bytes.
  abbrev pub AcceptsPss : PublicKey → Type 0
  AcceptsPss key =
      (msg salt em sig : Bytes)
      → length salt ≡ 48
      → emsa_pss_encode msg (bit_length key.modulus - 1) salt ≡ ok em
      → length sig ≡ modulus_bytes key.modulus
      → from_bytes sig < key.modulus
      → pow_mod (from_bytes sig) key.exponent key.modulus ≡ from_bytes em
      → verify key msg sig ≡ true

  -- For a key whose exponents undo one another, a verification that accepts what the standard one
  -- does, and a salt of 48 bytes: when `blind` returns, the office's signature of the
  -- blinded value and the voter's unblinding return too, the result verifies over the message, and
  -- it is the private power of the encoding, in which nothing of the blinding factor is left.
  pub finalize-blind_sign-blind :
      (key : PrivateKey) (msg salt : Bytes) (r : ℕ) (c : Bytes) (state : BlindState)
      → IsRsaKey key
      → AcceptsPss key.public
      → length salt ≡ 48
      → blind key.public msg salt r ≡ ok (c, state)
      → let n = key.public.modulus in
        (s : Bytes) × (sig : Bytes) × (blind_sign key c ≡ ok s)
        × (finalize key.public msg s state ≡ ok sig)
        × (verify key.public msg sig ≡ true)
        × (sig ≡ to_bytes (modulus_bytes n) (pow_mod (from_bytes state.encoded_msg) key.secret n))
  finalize-blind_sign-blind key msg salt r c state (pos, law) pss len h =
      let n = key.public.modulus in
      let k = modulus_bytes n in
      let e = key.public.exponent in
      let d = key.secret in
      let b = blind-Blinding key.public msg salt r c state h in
      let m = from_bytes state.encoded_msg in
      let x = m * pow_mod r e n % n in
      let x_lt : x < n = mod-lt _ pos in
      let c_value : from_bytes c ≡ x = ap from_bytes b.blinds ∙ residue_bytes n x x_lt in
      let s = to_bytes k (pow_mod (from_bytes c) d n) in
      let s_value : from_bytes s ≡ pow_mod x d n =
        residue_bytes n _ (mod-lt _ pos) ∙ ap (λ t. pow_mod t d n) c_value in
      let left : from_bytes s * state.r_inv % n ≡ pow_mod m d n =
        ap (λ t. t * state.r_inv % n) s_value ∙ unblinding n e d m r state.r_inv law b.inverts in
      let sig = to_bytes k (pow_mod m d n) in
      let sig_value : from_bytes sig ≡ pow_mod m d n = residue_bytes n _ (mod-lt _ pos) in
      let good : verify key.public msg sig ≡ true =
        pss msg salt state.encoded_msg sig len b.encodes (length-to_bytes k _)
          (rw sig_value (mod-lt _ pos))
          (ap (λ t. pow_mod t e n) sig_value ∙ exponents_undo n e d m law b.reduced) in
      let kk : modulus_bytes state.modulus ≡ k = ap modulus_bytes b.modulus in
      let same : to_bytes (modulus_bytes state.modulus) (from_bytes s * state.r_inv % state.modulus)
          ≡ sig =
        ap (λ t. to_bytes (modulus_bytes t) (from_bytes s * state.r_inv % t)) b.modulus
        ∙ ap (to_bytes k) left in
      (
        s,
        sig,
        blind_sign-returns key c (ap length b.blinds ∙ length-to_bytes k x) (rw c_value x_lt),
        finalize-returns key.public msg s state (length-to_bytes k _ ∙ sym kk)
              (ap (verify key.public msg) same ∙ good)
            ∙ ap ok same,
        good,
        refl,
      )
