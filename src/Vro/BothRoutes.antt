-- ===== src/Vro/BothRoutes.antt =====
-- Who the office of src/ovpoc/vro.py serves by a signed document, and one token over both routes.
use mathlib.Core.Path.{subst}
use Prim.Native.String.{String}
use online_voting_poc.Prelude.{
  ◌≡◌, ◌≢◌, inl, inr, refl, ap, sym, ◌∙◌, Bool, true, false, Option, none, some, [], ◌∷◌, ◌++◌,
  contains, List-eq, arith,
}
use online_voting_poc.Bytes.{Bytes, Text}
use online_voting_poc.Base64.{unb64}
use online_voting_poc.Json.Value.{Value}
use online_voting_poc.Crypto.{Crypto}
use online_voting_poc.PdfRequest.{DocumentCheck, accepted, refused, check}
use online_voting_poc.PdfRequest.Render.{Payload, decoded_key}
use online_voting_poc.PdfRequest.Checked.{IsRequest, check-accepted_iff, rendered-decoded_key}
use online_voting_poc.Vro.State.{
  Vro, TokenResponse, TokenRequest, reserved, document_refused, not_identified,
}
use online_voting_poc.Vro.Office.{refuse, claim, respond}
use online_voting_poc.Vro.Steps.{Reach}
use online_voting_poc.Vro.Register.{published}
use online_voting_poc.Vro.Boundary.{claim_lem}
use online_voting_poc.Vro.Remembering.{signature_of, Reach-remembers}
use online_voting_poc.Vro.Document.{
  Validation, validated, unvalidated, ValidatedSignature, DocumentRequest, document_token_request,
  Interpreted, request, refusal, subject_of, interpret_checked, interpret_subject,
  interpret_validation, interpret_signed_document, enrol_on_signature, claim_interpreted,
  reserve_signed_document, issue_token_for_signed_document,
}
use online_voting_poc.Vro.Documents.{
  issue_signed-cases, published-reserve_signed, enrol_on_signature-core,
}

-- A field of the request that was read, where one was.
abbrev read : {A : Type 0} → (DocumentRequest → A) → A → Interpreted → A
read f a (refusal response) = a
read f a (request r) = f r

claim-unsigned :
    (r : TokenRequest) (revoked expired : Bool) (v : Vro)
    → (claim r revoked expired v).1.blind_signature ≡ none
unfolding claim refuse
claim-unsigned r revoked expired v = ground arith

claim_identifies :
    (r : TokenRequest) (revoked expired : Bool) (v : Vro)
    → (claim r revoked expired v).1.outcome ≢ not_identified
unfolding claim refuse
claim_identifies r revoked expired v h = ground arith

module _ ⦃crypto : Crypto⦄ (validate : Bytes → Validation) (loads : Bytes → Option Value) where
  -- The validator vouches for a signature of the subject.
  pub record IsVouched (doc : Bytes) (found : ValidatedSignature) (subject : Text) : Type 0 where
    pub valid : validate doc ≡ validated found
    pub named : subject_of found.identifier ≡ some subject

  -- Whose request a document is taken for comes from the validated certificate, never from the
  -- document; and what it asks for was signed: the document begins with what its payload is written
  -- as, the signature covers that, and the blinded key is the payload's.
  pub interpret-request :
      (doc : Bytes) (v w : Vro) (r : DocumentRequest)
      → interpret_signed_document validate loads doc v ≡ (w, request r)
      → (w ≡ v)
        × ((found : ValidatedSignature) × (p : Payload) × IsVouched doc found r.voter_id
            × IsRequest doc found.covered_prefix_length p
            × (unb64 p.blinded_key ≡ some r.blinded_key)
            × (r.signed ≡ doc))
  unfolding interpret_signed_document
  interpret-request doc v w r h = at_validation (validate doc) refl h
    where
      Result : Type 0
      Result =
          (w ≡ v)
          × ((found : ValidatedSignature) × (p : Payload) × IsVouched doc found r.voter_id
              × IsRequest doc found.covered_prefix_length p
              × (unb64 p.blinded_key ≡ some r.blinded_key)
              × (r.signed ≡ doc))

      not_request :
          {t : Vro} {s : TokenResponse}
          → ◌≡◌ {A = Vro × Interpreted} (t, refusal s) (w, request r)
          → ⊥
      not_request e = cc

      at_check :
          (found : ValidatedSignature) (subject : Text) (c : DocumentCheck)
          → check loads doc found.covered_prefix_length ≡ c
          → IsVouched doc found subject
          → interpret_checked validate loads doc v found subject c ≡ (w, request r)
          → Result
      at_check found subject (refused why n) e vouched g = absurd (not_request g)
      at_check found subject (accepted p place n) e vouched g =
          let (_, is_request) =
            (check-accepted_iff loads doc found.covered_prefix_length p).0 (place, n, e) in
          let key = rendered-decoded_key p is_request.rendered is_request.is_rendered in
          let subject_is : subject ≡ r.voter_id = ap (λ t. read (λ x. x.voter_id) [] t.1) g in
          let key_is : decoded_key p ≡ r.blinded_key =
            ap (λ t. read (λ x. x.blinded_key) [] t.1) g in
          (
            sym (ap (λ t. t.0) g),
            (
              found,
              p,
              subst (IsVouched doc found) subject_is vouched,
              is_request,
              key ∙ ap some key_is,
              sym (ap (λ t. read (λ x. x.signed) [] t.1) g),
            ),
          )

      at_subject :
          (found : ValidatedSignature) (s : Option Text)
          → subject_of found.identifier ≡ s
          → validate doc ≡ validated found
          → interpret_subject validate loads doc v found s ≡ (w, request r)
          → Result
      at_subject found none e valid g = absurd (not_request g)
      at_subject found (some subject) e valid g =
          at_check found subject (check loads doc found.covered_prefix_length) refl
            (record { valid = valid; named = e }) g

      at_validation :
          (x : Validation)
          → validate doc ≡ x
          → interpret_validation validate loads doc v x ≡ (w, request r)
          → Result
      at_validation (unvalidated reason) e g = absurd (not_request g)
      at_validation (validated found) e g = at_subject found (subject_of found.identifier) refl e g

  -- Before the validator has vouched for somebody, one answer: whatever the reason, the document and
  -- the registers are, it is not identified, without a signature, and the office stays as it is, field
  -- by field, but for one entry more in the private log, which names nobody. Once it has vouched for
  -- somebody, that answer is never given.
  pub document_boundary :
      (doc : Bytes) (v : Vro)
      → let t = reserve_signed_document validate loads doc v in
        ((¬ ((found : ValidatedSignature) × (subject : Text) × IsVouched doc found subject))
          → (t.1 ≡ respond not_identified)
            × (t.2 ≡ none)
            × ((why : String) × (t.0 ≡ record v {
              audit =
                  v.audit ++ record { voter_id = []; outcome = not_identified; reason = why } ∷ [];
            })))
        × ((found : ValidatedSignature) (subject : Text)
            → IsVouched doc found subject
            → t.1.outcome ≢ not_identified)
  unfolding reserve_signed_document interpret_signed_document
  document_boundary doc v = (
    λ nobody. at_validation nobody (validate doc) refl,
    λ found subject vouched h.
        at_check found subject (check loads doc found.covered_prefix_length)
          (ap (λ t. (claim_interpreted t).1.outcome) (sym (identified found subject vouched)) ∙ h),
  )
    where
      Nobody : Type 0
      Nobody = ¬ ((found : ValidatedSignature) × (subject : Text) × IsVouched doc found subject)

      Opaque : Vro × Interpreted → Type 0
      Opaque t =
          ((claim_interpreted t).1 ≡ respond not_identified)
          × ((claim_interpreted t).2 ≡ none)
          × ((why : String) × ((claim_interpreted t).0 ≡ record v {
            audit =
                v.audit ++ record { voter_id = []; outcome = not_identified; reason = why } ∷ [];
          }))

      at_subject :
          Nobody
          → (found : ValidatedSignature) (s : Option Text) → subject_of found.identifier ≡ s
          → validate doc ≡ validated found
          → Opaque (interpret_subject validate loads doc v found s)
      at_subject nobody found none e valid = unfold refuse in (refl, refl, (_, refl))
      at_subject nobody found (some subject) e valid =
          absurd (nobody (found, subject, record { valid = valid; named = e }))

      at_validation :
          Nobody
          → (x : Validation) → validate doc ≡ x
          → Opaque (interpret_validation validate loads doc v x)
      at_validation nobody (unvalidated reason) e = unfold refuse in (refl, refl, (_, refl))
      at_validation nobody (validated found) e =
          at_subject nobody found (subject_of found.identifier) refl e

      identified :
          (found : ValidatedSignature) (subject : Text)
          → IsVouched doc found subject
          → interpret_validation validate loads doc v (validate doc)
            ≡ interpret_checked validate loads doc v found subject
                (check loads doc found.covered_prefix_length)
      identified found subject vouched =
          ap (interpret_validation validate loads doc v) vouched.valid
          ∙ ap (interpret_subject validate loads doc v found) vouched.named

      at_check :
          (found : ValidatedSignature) (subject : Text) (c : DocumentCheck)
          → (claim_interpreted (interpret_checked validate loads doc v found subject c)).1.outcome
            ≡ not_identified
          → ⊥
      at_check found subject (refused why n) h = differ (unfold refuse in h)
        where
          differ : document_refused ≡ not_identified → ⊥
          differ g = cc
      at_check found subject (accepted p place n) h = claim_identifies _ _ _ _ h

  -- One token over both routes. Once an identifier is released by a consistent office, a signed
  -- document of the same person gives no signature and changes neither the log nor the released
  -- identifiers, the openings or the kept requests, whatever the calls of both routes, the supervisors
  -- and the settings did to the office between.
  pub one_token_by_document :
      (v w : Vro) (opening doc : Bytes) (r : DocumentRequest)
      → contains r.voter_id v.released ≡ true
      → Reach v w
      → interpret_signed_document validate loads doc w ≡ (w, request r)
      → let t = issue_token_for_signed_document validate loads opening doc w in
        (published t.0 ≡ published w) × (signature_of t.1 ≡ none)
  one_token_by_document v w opening doc r h reach e =
      elim (issue_signed-cases validate loads opening doc w) [
        | inr (_, taken, _, _) ↦ absurd (fresh taken)
        | inl same ↦ (
          ap (λ t. published t.0) same ∙ published-reserve_signed validate loads doc w,
          ap (λ t. signature_of t.1) same ∙ unsigned,
        )
      ]
    where
      known : contains r.voter_id w.released ≡ true
      known = Reach-remembers r.voter_id reach h

      claimed :
          (reserve_signed_document validate loads doc w).1
          ≡ (claim (document_token_request r) r.revoked r.expired (enrol_on_signature r w)).1
      claimed = unfold reserve_signed_document in ap (λ t. (claim_interpreted t).1) e

      unsigned : (reserve_signed_document validate loads doc w).1.blind_signature ≡ none
      unsigned =
          ap (λ t. t.blind_signature) claimed
          ∙ claim-unsigned (document_token_request r) r.revoked r.expired (enrol_on_signature r w)

      clash : true ≡ false → ⊥
      clash g = cc

      fresh : (reserve_signed_document validate loads doc w).1.outcome ≡ reserved → ⊥
      fresh taken =
          let (_, _, _, new, _) =
            (claim_lem (document_token_request r) r.revoked r.expired (enrol_on_signature r w)).0
              (sym (ap (λ t. t.outcome) claimed) ∙ taken) in
          let same : (enrol_on_signature r w).released ≡ w.released =
            ap (λ c. c.released) (enrol_on_signature-core r w) in
          clash (sym known ∙ ap (contains r.voter_id) (sym same) ∙ new)
