-- ===== src/Vro/State.antt =====
-- The state of `VRO` in src/ovpoc/vro.py, and the statements that the office signs.
use Prim.Native.String.{String}
use online_voting_poc.Prelude.{ℕ, Bool, false, Option, List, [], ◌∷◌, ◌++◌}
use online_voting_poc.Prelude.Int.{pos}
use online_voting_poc.Prelude.Dict.{Dict}
use online_voting_poc.Bytes.{Bytes, Text}
use online_voting_poc.Base64.{b64}
use online_voting_poc.Json.{codes, text, number, encode_utf8}
use online_voting_poc.Crypto.{Crypto, PublicKey}
use online_voting_poc.Keys.{SigningKeyPair, public_bytes, verify_signature}
use online_voting_poc.Messages.{AuthRequest, Wire, digest}
use online_voting_poc.Ledger.{Ledger, empty}
use online_voting_poc.Rsabssa.{PrivateKey}
use online_voting_poc.PopulationRegister.{PopulationRegister}

pub data Outcome : Type 0 where
  issued not_identified certificate_revoked certificate_expired not_eligible : Outcome
  token_already_issued reserved request_pending document_refused : Outcome

pub record TokenResponse : Type 0 where
  pub outcome : Outcome
  pub blind_signature : Option Bytes

-- The two routes: a wallet's signature, or a signed document with what the validator found.
pub data SignedRequest : Type 0 where
  wallet : (blinded_key wallet_signature : Bytes) → SignedRequest
  document :
      (blinded_key document : Bytes) (qualified signing_time_vouched : Option Bool) → SignedRequest

-- `AuthRequest.evidence`.
abbrev pub evidence_of : AuthRequest → SignedRequest
evidence_of r = wallet r.blinded_key r.wallet_signature

-- What `_claim` and `release` read of a request of either route.
pub record TokenRequest : Type 0 where
  pub voter_id : Text
  pub blinded_key : Bytes
  pub evidence : SignedRequest

abbrev pub token_request : AuthRequest → TokenRequest
token_request r = record {
  voter_id = r.voter_id;
  blinded_key = r.blinded_key;
  evidence = evidence_of r;
}

pub record AuditEntry : Type 0 where
  pub voter_id : Text
  pub outcome : Outcome
  pub reason : String

-- An entry of the release log.
pub record Release : Type 0 where
  pub commitment : Text

instance abbrev pub Release-wire : Wire Release
Release-wire = record { to_fields = λ r. ("commitment", text r.commitment) ∷ [] }

pub record Vro : Type 0 where
  pub private_key : PrivateKey
  pub public_key : PublicKey
  pub population_register : PopulationRegister
  pub office_key : SigningKeyPair
  pub election_id : Text
  pub register : List Text
  pub enrol_on_qualified_signature : Bool
  pub self_enrolled : List Text
  pub release_log : Ledger Release
  pub released : List Text
  pub openings : Dict Text Bytes
  pub audit : List AuditEntry
  pub requests : Dict Text SignedRequest
  pub supervisor_downloads : ℕ
  pub reserved : Dict Text Bytes

-- `VRO.create`, with the keys that it generates.
unfoldable pub create : PopulationRegister → PrivateKey → SigningKeyPair → Text → Vro
create people key pair election = record {
  private_key = key;
  public_key = key.public;
  population_register = people;
  office_key = pair;
  election_id = election;
  register = [];
  enrol_on_qualified_signature = false;
  self_enrolled = [];
  release_log = empty;
  released = [];
  openings = [];
  audit = [];
  requests = [];
  supervisor_downloads = 0;
  reserved = [];
}

module _ ⦃crypto : Crypto⦄ where
  unfoldable pub commit : Text → Bytes → Bytes
  commit voter_id opening = crypto.sha256 (encode_utf8 voter_id ++ opening)

  unfoldable pub release_query_payload : Text → Bytes
  release_query_payload voter_id =
      digest (("query", text (codes "token-release")) ∷ ("voter_id", text voter_id) ∷ [])

  unfoldable pub denial_payload : Text → Bytes
  denial_payload voter_id =
      digest (("statement", text (codes "no-token-released")) ∷ ("voter_id", text voter_id) ∷ [])

  unfoldable pub release_count_payload : Text → ℕ → Bytes
  release_count_payload election count = digest (
      ("statement", text (codes "tokens-released"))
      ∷ ("election_id", text election)
      ∷ ("count", number (pos count))
      ∷ [])

  unfoldable pub release_head_payload : Text → Bytes → Bytes
  release_head_payload election head = digest (
      ("statement", text (codes "release-register-head"))
      ∷ ("election_id", text election)
      ∷ ("head", text (b64 head))
      ∷ [])

  unfoldable pub verify_release_head : Bytes → Text → Bytes → Bytes → Bool
  verify_release_head key election head signature =
      verify_signature key signature (release_head_payload election head)

  unfoldable pub verify_release_count : Bytes → Text → ℕ → Bytes → Bool
  verify_release_count key election count signature =
      verify_signature key signature (release_count_payload election count)

  unfoldable pub verify_denial : Bytes → Text → Bytes → Bool
  verify_denial key voter_id signature = verify_signature key signature (denial_payload voter_id)

  unfoldable pub office_public_key : Vro → Bytes
  office_public_key v = public_bytes v.office_key
