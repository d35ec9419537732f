-- ===== src/Vro/Document.antt =====
-- The requests by a signed document in src/ovpoc/vro.py, on an office that offers the route: without
-- a validator the code raises RuntimeError before anything else. The validator, which stands for
-- trust lists and certificate chains, is an argument.
use Prim.Native.String.{String}
use online_voting_poc.Prelude.{
  Bool, false, Option, none, some, [], ◌∷◌, ◌++◌, contains, add, List-eq, if◌then◌else◌, ℕ, not,
}
use online_voting_poc.Bytes.{Bytes, Text}
use online_voting_poc.Json.Value.{Value}
use online_voting_poc.Crypto.{Crypto}
use online_voting_poc.PdfRequest.{
  Refusal, not_a_request_document, carriers_disagree, not_as_rendered, signature_does_not_cover_it,
  DocumentCheck, accepted, refused, check,
}
use online_voting_poc.PdfRequest.Render.{decoded_key}
use online_voting_poc.Vro.State.{
  Vro, TokenResponse, TokenRequest, document, not_identified, document_refused, reserved,
}
use online_voting_poc.Vro.Office.{Reply, answer, refuse, log_audit, claim, release}

-- What the office reads of a signature that verified and chained.
pub record ValidatedSignature : Type 0 where
  pub identifier : Option Text
  pub covered_prefix_length : ℕ
  pub revoked : Option Bool
  pub expired : Option Bool
  pub qualified : Option Bool
  pub signing_time_vouched : Option Bool

-- `unvalidated` is SignatureRefused with its reason, or None.
pub data Validation : Type 0 where
  validated : ValidatedSignature → Validation
  unvalidated : Option String → Validation

pub record DocumentRequest : Type 0 where
  pub voter_id : Text
  pub blinded_key : Bytes
  pub signed : Bytes
  pub revoked : Bool
  pub expired : Bool
  pub qualified : Option Bool
  pub signing_time_vouched : Option Bool

-- `DocumentRequest.evidence`, and what `_claim` and `release` read.
abbrev pub document_token_request : DocumentRequest → TokenRequest
document_token_request r = record {
  voter_id = r.voter_id;
  blinded_key = r.blinded_key;
  evidence = document r.blinded_key r.signed r.qualified r.signing_time_vouched;
}

-- `bool(flag)`: not determined counts as false.
abbrev pub truth : Option Bool → Bool
truth none = false
truth (some b) = b

-- What `interpret_signed_document` returns.
pub data Interpreted : Type 0 where
  request : DocumentRequest → Interpreted
  refusal : TokenResponse → Interpreted

abbrev pub unvalidated_reason : Option String → String
unvalidated_reason (some reason) = reason
unvalidated_reason none =
    "no valid signature over this document, or none that chains to a trusted anchor — the validator gave no further detail"

abbrev pub refused_reason : Refusal → String
refused_reason not_a_request_document = "the signed document was refused: not_a_request_document"
refused_reason carriers_disagree = "the signed document was refused: carriers_disagree"
refused_reason not_as_rendered = "the signed document was refused: not_as_rendered"
refused_reason signature_does_not_cover_it =
    "the signed document was refused: signature_does_not_cover_it"

-- `found.identifier`, where it is not empty.
abbrev pub subject_of : Option Text → Option Text
subject_of (some (c ∷ cs)) = some (c ∷ cs)
subject_of _ = none

abbrev pub turned_down : Vro × TokenResponse → Vro × Interpreted
turned_down (v, response) = (v, refusal response)

unfoldable pub enrol_on_signature : DocumentRequest → Vro → Vro
enrol_on_signature r v =
    if not v.enrol_on_qualified_signature
    then v
    else if contains r.voter_id v.register
    then v
    else log_audit r.voter_id reserved
        "enrolled on the strength of their own qualified signature (clause S7); this office was not given a roll naming them"
        (record v {
          register = add r.voter_id v.register;
          self_enrolled = v.self_enrolled ++ r.voter_id ∷ [];
        })

-- Claim what was read, after the enrolment.
abbrev pub claim_interpreted : Vro × Interpreted → Vro × TokenResponse × Option DocumentRequest
claim_interpreted (v, refusal response) = (v, response, none)
claim_interpreted (v, request r) =
    let (w, response) =
      claim (document_token_request r) r.revoked r.expired (enrol_on_signature r v) in
    (w, response, some r)

module _ ⦃crypto : Crypto⦄ (validate : Bytes → Validation) (loads : Bytes → Option Value) where
  -- Step 3, below the identity boundary: the sender is known, and is told why a document is refused.
  abbrev pub interpret_checked :
      Bytes → Vro → ValidatedSignature → Text → DocumentCheck → Vro × Interpreted
  interpret_checked doc v found subject (refused why n) =
      turned_down (refuse subject document_refused (refused_reason why) v)
  interpret_checked doc v found subject (accepted payload place n) = (
    v,
    request (record {
      voter_id = subject;
      blinded_key = decoded_key payload;
      signed = doc;
      revoked = truth found.revoked;
      expired = truth found.expired;
      qualified = found.qualified;
      signing_time_vouched = found.signing_time_vouched;
    }),
  )

  -- Step 2: who the certificate names.
  abbrev pub interpret_subject : Bytes → Vro → ValidatedSignature → Option Text → Vro × Interpreted
  interpret_subject doc v found none = turned_down (
      refuse [] not_identified
        "the signing certificate carries nothing that identifies its subject to this office" v)
  interpret_subject doc v found (some subject) =
      interpret_checked doc v found subject (check loads doc found.covered_prefix_length)

  -- Step 1: one answer, whatever the reason.
  abbrev pub interpret_validation : Bytes → Vro → Validation → Vro × Interpreted
  interpret_validation doc v (unvalidated reason) =
      turned_down (refuse [] not_identified (unvalidated_reason reason) v)
  interpret_validation doc v (validated found) =
      interpret_subject doc v found (subject_of found.identifier)

  unfoldable pub interpret_signed_document : Bytes → Vro → Vro × Interpreted
  interpret_signed_document doc v = interpret_validation doc v (validate doc)

  unfoldable pub reserve_signed_document :
      Bytes → Vro → Vro × TokenResponse × Option DocumentRequest
  unfolding interpret_signed_document
  reserve_signed_document doc v = claim_interpreted (interpret_signed_document doc v)

  -- The outcome is `reserved` only where there is a request.
  unfoldable pub issue_token_for_signed_document : Bytes → Bytes → Vro → Vro × Reply
  unfolding reserve_signed_document release
  issue_token_for_signed_document opening doc v =
      let (w, response, r) = reserve_signed_document doc v in
      elim response.outcome [
        | reserved ↦ elim r [
          | none ↦ (w, answer response)
          | some asked ↦ release opening (document_token_request asked) w
        ]
        | _ ↦ (w, answer response)
      ]
