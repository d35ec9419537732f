-- ===== src/Messages.antt =====
-- The wire objects of src/ovpoc/messages.py. A dictionary with fixed keys is a record, whose
-- `to_dict` gives the keys and values that are serialised.
use online_voting_poc.Prelude.{[], ◌∷◌, Option, none, some}
use online_voting_poc.Prelude.Int.{ℤ}
use online_voting_poc.Bytes.{Bytes, Text}
use online_voting_poc.Base64.{b64, unb64}
use online_voting_poc.Json.{Fields, number, text, canonical_bytes}
use online_voting_poc.Crypto.{Crypto}

-- A record that is written as a dictionary.
pub record Wire (P : Type 0) : Type 0 where
  pub to_fields : P → Fields

abbrev pub fields_of : {P : Type 0} ⦃w : Wire P⦄ → P → Fields
fields_of ⦃w⦄ = w.to_fields

pub record AuthRequest : Type 0 where
  pub voter_id : Text
  pub blinded_key : Bytes
  pub wallet_signature : Bytes

pub record Ballot : Type 0 where
  pub selection : ℤ
  pub adhoc_public_key : Bytes
  pub token : Bytes
  pub vote_signature : Bytes
  pub nonce : Bytes

-- What `Ballot.to_dict` returns.
pub record BallotRecord : Type 0 where
  pub selection : ℤ
  pub adhoc_public_key : Text
  pub token : Text
  pub nonce : Text
  pub vote_signature : Text

instance abbrev pub BallotRecord-wire : Wire BallotRecord
BallotRecord-wire = record {
  to_fields = λ r.
      ("selection", number r.selection)
      ∷ ("adhoc_public_key", text r.adhoc_public_key)
      ∷ ("token", text r.token)
      ∷ ("nonce", text r.nonce)
      ∷ ("vote_signature", text r.vote_signature)
      ∷ [];
}

unfoldable pub to_dict : Ballot → BallotRecord
to_dict b = record {
  selection = b.selection;
  adhoc_public_key = b64 b.adhoc_public_key;
  token = b64 b.token;
  nonce = b64 b.nonce;
  vote_signature = b64 b.vote_signature;
}

-- `none` where a value is no base64.
unfoldable pub from_dict : BallotRecord → Option Ballot
from_dict r = elim (unb64 r.adhoc_public_key) [
  | none ↦ none
  | some key ↦ elim (unb64 r.token) [
    | none ↦ none
    | some token ↦ elim (unb64 r.nonce) [
      | none ↦ none
      | some nonce ↦ elim (unb64 r.vote_signature) [
        | none ↦ none
        | some signature ↦ some (record {
          selection = r.selection;
          adhoc_public_key = key;
          token = token;
          vote_signature = signature;
          nonce = nonce;
        })
      ]
    ]
  ]
]

module _ ⦃crypto : Crypto⦄ where
  unfoldable pub digest : Fields → Bytes
  digest fields = crypto.sha256 (canonical_bytes fields)

  -- `AuthRequest.signed_payload`: the bytes that the wallet signs.
  unfoldable pub request_payload : AuthRequest → Bytes
  unfolding digest
  request_payload r =
      digest (("voter_id", text r.voter_id) ∷ ("blinded_key", text (b64 r.blinded_key)) ∷ [])

  -- `Ballot.signed_payload`: the bytes that the ad-hoc key signs.
  unfoldable pub ballot_payload : Ballot → Bytes
  unfolding digest
  ballot_payload b = digest (
      ("selection", number b.selection)
      ∷ ("adhoc_public_key", text (b64 b.adhoc_public_key))
      ∷ ("nonce", text (b64 b.nonce))
      ∷ [])
