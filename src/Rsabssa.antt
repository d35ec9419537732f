-- ===== src/Rsabssa.antt =====
-- The blind signatures of src/ovpoc/rsabssa.py. A random draw is an argument: the salt of the
-- encoding and the blinding factor.
pub mod Pss
pub mod Modular
pub mod Unblinding
use online_voting_poc.Prelude.{
  ℕ, zero, suc, ◌+◌, ◌-◌, ◌*◌, ◌/◌, ◌%◌, ◌^◌, Bool, false, not, ◌||◌, Option, none, some, length,
  leb, nat_eq, if◌then◌else◌,
}
use online_voting_poc.Bytes.{Bytes, Text, hex, to_bytes, from_bytes, bit_length}
use online_voting_poc.Crypto.{Crypto, PublicKey}
use Pss.{
  ◌>>=◌, ◌>>◌, Result, ok, raise, raise_if, not_reduced, wrong_length, out_of_range,
  does_not_verify, message_not_coprime, factor_not_invertible, emsa_pss_encode,
}

-- `private_numbers()`: the public numbers and the private exponent.
pub record PrivateKey : Type 0 where
  pub public : PublicKey
  pub secret : ℕ

-- `(n.bit_length() + 7) // 8`.
abbrev pub modulus_bytes : ℕ → ℕ
modulus_bytes n = (bit_length n + 7) / 8

-- `pow(x, e, n)`.
abbrev pub pow_mod : ℕ → ℕ → ℕ → ℕ
pow_mod x e n = x ^ e % n

unfoldable pub gcd_fuel : ℕ → ℕ → ℕ → ℕ
gcd_fuel zero a b = a
gcd_fuel (suc f) a b = let rest = gcd_fuel f b (a % b) in if nat_eq b 0 then a else rest

-- `math.gcd(a, b)`: the second number falls in every round.
unfoldable pub gcd : ℕ → ℕ → ℕ
unfolding gcd_fuel
gcd a b = gcd_fuel (suc b) a b

-- A number below `m` that is an inverse of `r` modulo `n`.
unfoldable pub inverse_below : ℕ → ℕ → ℕ → Option ℕ
inverse_below zero r n = none
inverse_below (suc m) r n =
    let rest = inverse_below m r n in if nat_eq (r * m % n) (1 % n) then some m else rest

-- `pow(r, -1, n)`: `none` where it raises ValueError.
unfoldable pub inverse : ℕ → ℕ → Option ℕ
unfolding inverse_below
inverse r n = inverse_below n r n

pub record BlindState : Type 0 where
  pub r_inv : ℕ
  pub encoded_msg : Bytes
  pub modulus : ℕ

abbrev pub with_inverse : {A : Type 0} → Option ℕ → (ℕ → A) → Result A
with_inverse none f = raise factor_not_invertible
with_inverse (some x) f = ok (f x)

module _ ⦃crypto : Crypto⦄ where
  -- Standard RSASSA-PSS verification: false where the package raises.
  unfoldable pub verify : PublicKey → Bytes → Bytes → Bool
  verify key msg signature = crypto.pss_verify key msg signature

  -- The hash of the key's encoding, in hexadecimal.
  unfoldable pub public_key_fingerprint : PublicKey → Text
  public_key_fingerprint key = hex (crypto.sha256 (crypto.subject_public_key_info key))

  unfoldable pub blind : PublicKey → Bytes → Bytes → ℕ → Result (Bytes × BlindState)
  unfolding emsa_pss_encode inverse
  blind key msg salt r = do
    let n = key.modulus
    encoded ← emsa_pss_encode msg (bit_length n - 1) salt
    let m = from_bytes encoded
    raise_if (leb n m) not_reduced
    raise_if (not (nat_eq (gcd m n) 1)) message_not_coprime
    with_inverse (inverse r n) (λ r_inv. (
      to_bytes (modulus_bytes n) (m * pow_mod r key.exponent n % n),
      record { r_inv = r_inv; encoded_msg = encoded; modulus = n },
    ))

  unfoldable pub finalize : PublicKey → Bytes → Bytes → BlindState → Result Bytes
  unfolding verify
  finalize key msg blind_sig state = do
    let n = state.modulus
    let k = modulus_bytes n
    raise_if (not (nat_eq (length blind_sig) k)) wrong_length
    let sig = to_bytes k (from_bytes blind_sig * state.r_inv % n)
    raise_if (not (verify key msg sig)) does_not_verify
    ok sig

unfoldable pub blind_sign : PrivateKey → Bytes → Result Bytes
blind_sign key blinded = do
  let n = key.public.modulus
  let k = modulus_bytes n
  raise_if (not (nat_eq (length blinded) k)) wrong_length
  let c = from_bytes blinded
  raise_if (leb n c) out_of_range
  ok (to_bytes k (pow_mod c key.secret n))

unfoldable pub check_blind_signature : PublicKey → Bytes → Bytes → Bool
check_blind_signature key blinded blind_sig =
    let n = key.modulus in
    let k = modulus_bytes n in
    let s = from_bytes blind_sig in
    let c = from_bytes blinded in
    if not (nat_eq (length blind_sig) k) || not (nat_eq (length blinded) k)
    then false
    else if leb n s || leb n c
    then false
    else nat_eq (pow_mod s key.exponent n) c
