-- ===== src/Tests/Documents.antt =====
-- The theorems on the document route at a concrete document.
use Prim.Native.String.{String}
use online_voting_poc.Prelude.{
  ◌≡◌, ◌≢◌, ◌↔◌, refl, ap, ◌∙◌, true, false, Option, some, none, [], ◌∷◌, ◌++◌, contains, list_eq,
  List-eq, eq_refl, ℕ,
}
use online_voting_poc.Prelude.Dict.{keys}
use online_voting_poc.Base64.{unb64}
use online_voting_poc.Bytes.{Bytes, Text, hex, to_bytes, from_bytes}
use online_voting_poc.Json.{codes, canonical_bytes}
use online_voting_poc.Json.Value.{Value, dictionary, string}
use online_voting_poc.PdfRequest.{accepted, candidate, extract, check}
use online_voting_poc.PdfRequest.Render.{Payload, render, lines, content_of}
use online_voting_poc.PdfRequest.Checked.{IsRequest, check-accepted_iff}
use online_voting_poc.Vro.State.{Vro, not_identified}
use online_voting_poc.Vro.Office.{respond}
use online_voting_poc.Vro.Document.{
  Validation, validated, ValidatedSignature, DocumentRequest, request, interpret_signed_document,
  reserve_signed_document, issue_token_for_signed_document,
}
use online_voting_poc.Vro.Steps.{here}
use online_voting_poc.Vro.Register.{published}
use online_voting_poc.Vro.Remembering.{signature_of}
use online_voting_poc.Vro.BothRoutes.{
  IsVouched, interpret-request, document_boundary, one_token_by_document,
}
use online_voting_poc.Tests.Storage.{office_openings}
use online_voting_poc.Tests.Office.{office_issued-IsConsistent}
use online_voting_poc.Tests.Toy.{toy, election, voter, opening, office, office_issued}

abbrev payload : Payload
payload = record { blinded_key = codes "Bw"; config_digest = codes "ab"; election_id = election }

abbrev content : Bytes
content = elim (content_of (lines payload)) [ none ↦ [] | some c ↦ c ]

abbrev signed_file : Bytes
signed_file = elim (render payload) [ none ↦ [] | some bytes ↦ bytes ]

abbrev loads : Bytes → Option Value
loads raw = some (
    dictionary (
      ("blinded_key", string (codes "Bw"))
      ∷ ("config_digest", string (codes "ab"))
      ∷ ("election_id", string election)
      ∷ []))

abbrev signature : ValidatedSignature
signature = record {
  identifier = some voter;
  covered_prefix_length = 9000;
  revoked = some false;
  expired = none;
  qualified = some true;
  signing_time_vouched = none;
}

abbrev validate : Bytes → Validation
validate doc = validated signature

abbrev asked : DocumentRequest
asked = record {
  voter_id = voter;
  blinded_key = 7 ∷ [];
  signed = signed_file;
  revoked = false;
  expired = false;
  qualified = some true;
  signing_time_vouched = none;
}

released_voter : contains voter office_issued.released ≡ true
released_voter =
    ap (contains voter) (office_issued-IsConsistent.opened ∙ ap keys office_openings) ∙ eq_contains
  where
    eq_contains : contains voter (voter ∷ []) ≡ true
    eq_contains = rw (eq_refl voter) refl

check-accepted_iff_example :
    ((place : String) × (n : ℕ) × (check loads signed_file 9000 ≡ accepted payload place n)) ↔ (
      ((place : String) × (extract loads signed_file ≡ candidate payload place))
      × IsRequest signed_file 9000 payload)
check-accepted_iff_example = check-accepted_iff loads signed_file 9000 payload

interprets : (v : Vro) → interpret_signed_document validate loads signed_file v ≡ (v, request asked)
unfolding interpret_signed_document check extract render unb64 hex to_bytes from_bytes list_eq
    canonical_bytes
interprets v = refl

interpret-request_example :
    (office ≡ office)
    × ((found : ValidatedSignature) × (p : Payload) × IsVouched validate loads signed_file found
          asked.voter_id
        × IsRequest signed_file found.covered_prefix_length p
        × (unb64 p.blinded_key ≡ some asked.blinded_key)
        × (asked.signed ≡ signed_file))
interpret-request_example =
    interpret-request validate loads signed_file office office asked (interprets office)

document_boundary_example :
    let t = reserve_signed_document validate loads signed_file office in
    ((¬ (
        (found : ValidatedSignature) × (subject : Text) × IsVouched validate loads signed_file found
          subject))
      → (t.1 ≡ respond not_identified)
        × (t.2 ≡ none)
        × ((why : String) × (t.0 ≡ record office {
          audit =
              office.audit ++ record { voter_id = []; outcome = not_identified; reason = why } ∷ [];
        })))
    × ((found : ValidatedSignature) (subject : Text)
        → IsVouched validate loads signed_file found subject
        → t.1.outcome ≢ not_identified)
document_boundary_example = document_boundary validate loads signed_file office

one_token_by_document_example :
    let t = issue_token_for_signed_document validate loads opening signed_file office_issued in
    (published t.0 ≡ published office_issued) × (signature_of t.1 ≡ none)
one_token_by_document_example =
    one_token_by_document validate loads office_issued office_issued opening signed_file asked
      released_voter here (interprets office_issued)
