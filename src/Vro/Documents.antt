-- ===== src/Vro/Documents.antt =====
-- What the document route of src/ovpoc/vro.py does to the office.
use mathlib.Core.Path.{subst}
use online_voting_poc.Prelude.{
  ◌≡◌, ◌≢◌, ◌⊎◌, inl, inr, refl, ap, sym, ◌∙◌, Option, none, some, List, List-eq, arith,
}
use online_voting_poc.Bytes.{Bytes, Text}
use online_voting_poc.Json.Value.{Value}
use online_voting_poc.Crypto.{Crypto}
use online_voting_poc.Prelude.Dict.{Dict}
use online_voting_poc.Ledger.{Ledger}
use online_voting_poc.PdfRequest.{DocumentCheck, accepted, refused, check}
use online_voting_poc.Vro.State.{Release, SignedRequest, Vro, TokenResponse, reserved}
use online_voting_poc.Vro.Office.{refuse, claim, release, answer}
use online_voting_poc.Vro.Boundary.{published-claim}
use online_voting_poc.Vro.Register.{
  Core, core, published, IsConsistent, IsConsistentCore, claim-IsConsistent, release-IsConsistent,
}
use online_voting_poc.Vro.Document.{
  Validation, validated, unvalidated, ValidatedSignature, DocumentRequest, document_token_request,
  Interpreted, request, refusal, subject_of, interpret_checked, interpret_subject,
  interpret_validation, interpret_signed_document, enrol_on_signature, claim_interpreted,
  reserve_signed_document, issue_token_for_signed_document,
}

-- The part of the office that a refusal or an enrolment leaves.
pub enrol_on_signature-core :
    (r : DocumentRequest) (v : Vro) → core (enrol_on_signature r v) ≡ core v
unfolding enrol_on_signature
enrol_on_signature-core r v = ground arith

abbrev published_part :
    Core → Ledger Release × List Text × Dict Text Bytes × Dict Text SignedRequest
published_part c = (c.log, c.released, c.openings, c.requests)

module _ ⦃crypto : Crypto⦄ (validate : Bytes → Validation) (loads : Bytes → Option Value) where
  -- A document is refused, and the register of releases and the reservations stay; or it is read as a
  -- request, and nothing changes.
  pub interpret-cases :
      (doc : Bytes) (v : Vro)
      → ((w : Vro) × (response : TokenResponse) × (interpret_signed_document validate loads doc v
            ≡ (w, refusal response))
          × (core w ≡ core v)
          × (response.outcome ≢ reserved))
        ⊎ ((r : DocumentRequest) × (interpret_signed_document validate loads doc v
              ≡ (v, request r)))
  unfolding interpret_signed_document
  interpret-cases doc v = at_validation (validate doc)
    where
      Cases : Vro × Interpreted → Type 0
      Cases t =
          ((w : Vro) × (response : TokenResponse) × (t ≡ (w, refusal response))
            × (core w ≡ core v)
            × (response.outcome ≢ reserved))
          ⊎ ((r : DocumentRequest) × (t ≡ (v, request r)))

      at_check :
          (found : ValidatedSignature) (subject : Text) (c : DocumentCheck)
          → Cases (interpret_checked validate loads doc v found subject c)
      at_check found subject (refused why n) =
          inl (_, _, refl, unfold refuse in refl, unfold refuse in λ e. cc)
      at_check found subject (accepted payload place n) = inr (_, refl)

      at_subject :
          (found : ValidatedSignature) (s : Option Text)
          → Cases (interpret_subject validate loads doc v found s)
      at_subject found none = inl (_, _, refl, unfold refuse in refl, unfold refuse in λ e. cc)
      at_subject found (some subject) =
          at_check found subject (check loads doc found.covered_prefix_length)

      at_validation : (x : Validation) → Cases (interpret_validation validate loads doc v x)
      at_validation (unvalidated reason) =
          inl (_, _, refl, unfold refuse in refl, unfold refuse in λ e. cc)
      at_validation (validated found) = at_subject found (subject_of found.identifier)

  -- A document is not reserved for, and the office keeps what it has published; or it is claimed for
  -- like a request of the other route, after an enrolment.
  pub reserve_signed-cases :
      (doc : Bytes) (v : Vro)
      → let t = reserve_signed_document validate loads doc v in
        ((core t.0 ≡ core v) × (t.1.outcome ≢ reserved))
        ⊎ ((r : DocumentRequest) × (interpret_signed_document validate loads doc v ≡ (v, request r))
            × (t.0
                ≡ (claim (document_token_request r) r.revoked r.expired (enrol_on_signature r v)).0)
            × (t.1
                ≡ (claim (document_token_request r) r.revoked r.expired (enrol_on_signature r v)).1)
            × (t.2 ≡ some r))
  unfolding reserve_signed_document
  reserve_signed-cases doc v = elim (interpret-cases doc v) [
    | inl (w, response, e, same, other) ↦
        let t = ap claim_interpreted e in
        inl (ap (λ x. core x.0) t ∙ same, λ h. other (sym (ap (λ x. x.1.outcome) t) ∙ h))
    | inr (r, e) ↦
        let t = ap claim_interpreted e in
        inr (r, e, ap (λ x. x.0) t, ap (λ x. x.1) t, ap (λ x. x.2) t)
  ]

  pub issue_signed-cases :
      (opening doc : Bytes) (v : Vro)
      → let t = reserve_signed_document validate loads doc v in
        (issue_token_for_signed_document validate loads opening doc v ≡ (t.0, answer t.1))
        ⊎ ((r : DocumentRequest) × (t.1.outcome ≡ reserved)
            × (t.2 ≡ some r)
            × (issue_token_for_signed_document validate loads opening doc v
                ≡ release opening (document_token_request r) t.0))
  unfolding issue_token_for_signed_document
  issue_signed-cases opening doc v = ground arith

  pub reserve_signed-IsConsistent :
      (doc : Bytes) (v : Vro)
      → IsConsistent v
      → IsConsistent (reserve_signed_document validate loads doc v).0
  reserve_signed-IsConsistent doc v s = elim (reserve_signed-cases doc v) [
    | inl (same, _) ↦ subst IsConsistentCore (sym same) s
    | inr (r, _, e, _, _) ↦ subst IsConsistent (sym e) (
        claim-IsConsistent (document_token_request r) r.revoked r.expired (enrol_on_signature r v)
          (subst IsConsistentCore (sym (enrol_on_signature-core r v)) s))
  ]

  pub issue_signed-IsConsistent :
      (opening doc : Bytes) (v : Vro)
      → IsConsistent v
      → IsConsistent (issue_token_for_signed_document validate loads opening doc v).0
  issue_signed-IsConsistent opening doc v s =
      let t = reserve_signed-IsConsistent doc v s in
      elim (issue_signed-cases opening doc v) [
        | inl e ↦ subst (λ x. IsConsistent x.0) (sym e) t
        | inr (r, _, _, e) ↦
            subst (λ x. IsConsistent x.0) (sym e)
              (release-IsConsistent opening (document_token_request r) _ t)
      ]

  -- A reservation by a document, granted or refused, publishes nothing.
  pub published-reserve_signed :
      (doc : Bytes) (v : Vro)
      → published (reserve_signed_document validate loads doc v).0 ≡ published v
  published-reserve_signed doc v = elim (reserve_signed-cases doc v) [
    | inl (same, _) ↦ ap published_part same
    | inr (r, _, e, _, _) ↦
        ap published e
        ∙ published-claim (document_token_request r) r.revoked r.expired (enrol_on_signature r v)
        ∙ ap published_part (enrol_on_signature-core r v)
  ]
