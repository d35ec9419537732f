-- ===== src/Rsabssa/Pss.antt =====
-- EMSA-PSS encoding in src/ovpoc/rsabssa.py: `_mgf1` and `emsa_pss_encode`.
use Prim.Native.Nat.{bit_and, bit_xor}
use online_voting_poc.Prelude.{
  ℕ, zero, suc, ◌+◌, ◌-◌, ◌*◌, ◌/◌, ◌^◌, Bool, [], ◌∷◌, ◌++◌, length, take, replicate, ltb, nat_eq,
  if◌then◌else◌,
}
use online_voting_poc.Bytes.{Bytes, to_bytes}
use online_voting_poc.Crypto.{Crypto}

-- The ways in which an operation of the module raises.
pub data BlindError : Type 0 where
  modulus_too_small not_reduced wrong_length out_of_range does_not_verify : BlindError
  -- `ModulusCompromised`: the encoded message, or the blinding factor, shares a factor with it.
  message_not_coprime factor_not_invertible : BlindError

pub data Result (A : Type 0) : Type 0 where
  ok : A → Result A
  raise : BlindError → Result A

infixl 5 ◌>>=◌ ◌>>◌
abbrev pub ◌>>=◌ : {A B : Type 0} → Result A → (A → Result B) → Result B
ok a >>= f = f a
raise e >>= f = raise e

abbrev pub ◌>>◌ : {B : Type 0} → Result (Unit {0}) → Result B → Result B
m >> k = m >>= λ _. k

abbrev pub raise_if : Bool → BlindError → Result (Unit {0})
raise_if b e = if b then raise e else ok tt

-- `bytes(a ^ b for a, b in zip(xs, ys))`.
unfoldable pub xor_bytes : Bytes → Bytes → Bytes
xor_bytes [] ys = []
xor_bytes (x ∷ xs) [] = []
xor_bytes (x ∷ xs) (y ∷ ys) = bit_xor x y ∷ xor_bytes xs ys

-- `bytes([data[0] & mask]) + data[1:]`.
unfoldable pub mask_first : ℕ → Bytes → Bytes
mask_first mask [] = []
mask_first mask (x ∷ xs) = bit_and x mask ∷ xs

module _ ⦃crypto : Crypto⦄ where
  -- The loop of `_mgf1`; each round adds the 48 bytes of a hash, so `length` rounds are enough.
  unfoldable pub mgf1_loop : ℕ → Bytes → ℕ → ℕ → Bytes → Bytes
  mgf1_loop zero seed len counter out = out
  mgf1_loop (suc f) seed len counter out =
      let rest =
        mgf1_loop f seed len (counter + 1) (out ++ crypto.sha384 (seed ++ to_bytes 4 counter)) in
      if ltb (length out) len then rest else out

  unfoldable pub mgf1 : Bytes → ℕ → Bytes
  unfolding mgf1_loop
  mgf1 seed len = take len (mgf1_loop len seed len 0 [])

  unfoldable pub emsa_pss_encode : Bytes → ℕ → Bytes → Result Bytes
  unfolding mgf1 xor_bytes mask_first
  emsa_pss_encode msg em_bits salt =
      let em_len = (em_bits + 7) / 8 in
      let h = crypto.sha384 (replicate 8 0 ++ (crypto.sha384 msg ++ salt)) in
      let db = replicate (em_len - 98) 0 ++ (1 ∷ salt) in
      let masked_db = xor_bytes db (mgf1 h (em_len - 49)) in
      let zero_bits = 8 * em_len - em_bits in
      let cleared =
        if nat_eq zero_bits 0 then masked_db else mask_first (0xff / 2 ^ zero_bits) masked_db in
      if ltb em_len 98 then raise modulus_too_small else ok (cleared ++ (h ++ 0xbc ∷ []))
