-- ===== src/Crypto.antt =====
-- What the program takes from `hashlib` and the `cryptography` package, with the behaviour that
-- they document. Keys are byte strings: an Ed25519 private key by its seed.
use online_voting_poc.Prelude.{ℕ, ◌≡◌, Bool, true, length, All}
use online_voting_poc.Bytes.{Bytes, IsByte}

-- `rsa.RSAPublicKey.public_numbers()`.
pub record PublicKey : Type 0 where
  pub modulus : ℕ
  pub exponent : ℕ

pub record Crypto : Type 0 where
  pub sha256 : Bytes → Bytes
  pub length-sha256 : (x : Bytes) → length (sha256 x) ≡ 32
  pub sha256-IsByte : (x : Bytes) → All IsByte (sha256 x)
  pub sha384 : Bytes → Bytes
  pub length-sha384 : (x : Bytes) → length (sha384 x) ≡ 48
  pub sha384-IsByte : (x : Bytes) → All IsByte (sha384 x)
  -- Ed25519: the raw public key of a private key, a signature, and a check of one, which is false
  -- where the package raises.
  pub ed_public : Bytes → Bytes
  pub ed_sign : Bytes → Bytes → Bytes
  pub ed_verify : Bytes → Bytes → Bytes → Bool
  pub ed_verify-ed_sign : (k x : Bytes) → ed_verify (ed_public k) (ed_sign k x) x ≡ true
  pub ed_public-IsByte : (k : Bytes) → All IsByte (ed_public k)
  pub ed_sign-IsByte : (k x : Bytes) → All IsByte (ed_sign k x)
  -- RSASSA-PSS with SHA-384 and a salt of 48 bytes: key, message, signature; false where it raises.
  pub pss_verify : PublicKey → Bytes → Bytes → Bool
  -- The DER encoding of a public key as SubjectPublicKeyInfo.
  pub subject_public_key_info : PublicKey → Bytes
  pub subject_public_key_info-IsByte : (key : PublicKey) → All IsByte (subject_public_key_info key)
