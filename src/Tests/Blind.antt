-- ===== src/Tests/Blind.antt =====
-- A run of the blind signature protocol with a key that is wide enough for its encoding.
use online_voting_poc.Tests.Toy.{toy}
use online_voting_poc.Prelude.{
  ℕ, ◌+◌, ◌*◌, ◌^◌, ◌%◌, ◌≡◌, ap, ◌∙◌, refl, true, [], ◌∷◌, arith, length, replicate, lt→ltb,
  nat_eq_iff,
}
use native.Mathlib.Nat.{pow-suc, pow-zero}
use online_voting_poc.Bytes.{Bytes, bit_length, from_bytes, to_bytes}
use online_voting_poc.Rsabssa.{
  PrivateKey, BlindState, gcd, modulus_bytes, pow_mod, blind, blind_sign, finalize, verify,
}
use online_voting_poc.Rsabssa.Pss.{ok, raise}
use online_voting_poc.Rsabssa.Unblinding.{IsRsaKey, AcceptsPss, finalize-blind_sign-blind}

-- The modulus is odd, since the encoding is even.
abbrev pub wide_key : PrivateKey
wide_key = record { public = record { modulus = 2 ^ 800 + 1; exponent = 1 }; secret = 1 }

abbrev pub message : Bytes
message = 9 ∷ []

abbrev pub salt : Bytes
salt = replicate 48 6

abbrev pub blinded : Bytes × BlindState
blinded = elim (blind wide_key.public message salt (2 ^ 800)) [
  | ok result ↦ result
  | raise e ↦ ([], record { r_inv = 0; encoded_msg = []; modulus = 0 })
]

pub blind_returns : blind wide_key.public message salt (2 ^ 800) ≡ ok (blinded.0, blinded.1)
unfolding blind gcd bit_length from_bytes to_bytes
blind_returns = refl

pub wide_key-IsRsaKey : IsRsaKey wide_key
wide_key-IsRsaKey = (omega arith, λ x. ap (λ y. y % (2 ^ 800 + 1)) (one x))
  where
    one : (x : ℕ) → x ^ 1 ≡ x
    one x = pow-suc x 0 ∙ ap (λ t. t * x) (pow-zero x) ∙ omega arith

pub accepts : AcceptsPss wide_key.public
unfolding verify
accepts msg salt em sig hs enc len range power =
    let a = (nat_eq_iff (length sig) (modulus_bytes wide_key.public.modulus)).1 len in
    let b = lt→ltb (from_bytes sig) wide_key.public.modulus range in ground (arith, a, b)

finalize-blind_sign-blind_example :
    let n = wide_key.public.modulus in
    let (c, state) = blinded in
    (s : Bytes) × (sig : Bytes) × (blind_sign wide_key c ≡ ok s)
    × (finalize wide_key.public message s state ≡ ok sig)
    × (verify wide_key.public message sig ≡ true)
    × (sig ≡ to_bytes (modulus_bytes n) (pow_mod (from_bytes state.encoded_msg) wide_key.secret n))
finalize-blind_sign-blind_example =
    finalize-blind_sign-blind wide_key message salt (2 ^ 800) blinded.0 blinded.1 wide_key-IsRsaKey
      accepts refl blind_returns
