-- ===== src/Keys.antt =====
-- src/ovpoc/keys.py: an Ed25519 pair is its private key.
use online_voting_poc.Prelude.{◌≡◌, Bool, true}
use online_voting_poc.Bytes.{Bytes}
use online_voting_poc.Crypto.{Crypto}

pub record SigningKeyPair : Type 0 where
  pub private : Bytes

module _ ⦃crypto : Crypto⦄ where
  unfoldable pub public_bytes : SigningKeyPair → Bytes
  public_bytes pair = crypto.ed_public pair.private

  unfoldable pub sign : SigningKeyPair → Bytes → Bytes
  sign pair data' = crypto.ed_sign pair.private data'

  unfoldable pub verify_signature : Bytes → Bytes → Bytes → Bool
  verify_signature public signature data' = crypto.ed_verify public signature data'

  pub verify_signature-sign :
      (pair : SigningKeyPair) (data' : Bytes)
      → verify_signature (public_bytes pair) (sign pair data') data' ≡ true
  unfolding public_bytes sign verify_signature
  verify_signature-sign pair data' = crypto.ed_verify-ed_sign pair.private data'
