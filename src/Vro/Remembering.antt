-- ===== src/Vro/Remembering.antt =====
-- Who is released stays released, whatever step a running office of src/ovpoc/vro.py takes.
use online_voting_poc.Prelude.{
  ℕ, ◌≡◌, ap, ◌∙◌, inl, inr, ◌⊎◌, true, false, Option, none, contains, contains-add, List-eq, arith,
}
use online_voting_poc.Bytes.{Bytes, Text}
use online_voting_poc.Crypto.{Crypto}
use online_voting_poc.Messages.{AuthRequest}
use online_voting_poc.Vro.State.{Vro, TokenRequest, Release-wire, token_request}
use online_voting_poc.Vro.Office.{
  refuse, reserve, record_release, sign_release, release, enrol_voter, Reply, answer,
  fault_detected, signing_error, reserved_for,
}
use online_voting_poc.Vro.Steps.{
  Step, claims, reserves, releases, issues, reserves_document, issues_document, cancels, enrols,
  supervises, opens_enrolment, peoples, Reach, here, next,
}
use online_voting_poc.Vro.Storage.{supervision_dump}
use online_voting_poc.Vro.Document.{document_token_request}
use online_voting_poc.Vro.Documents.{published-reserve_signed, issue_signed-cases}
use online_voting_poc.Vro.Register.{core, published, sign_release-core}
use online_voting_poc.Vro.Boundary.{
  reserve-cancel_reservation-published, published-claim, published-cancel_reservation,
}
use online_voting_poc.Vro.OneToken.{issue_token-cases}

abbrev pub signature_of : Reply → Option Bytes
signature_of (answer t) = t.blind_signature
signature_of fault_detected = none
signature_of (signing_error e) = none

module _ ⦃crypto : Crypto⦄ where
  pub release-cases :
      (opening : Bytes) (r : TokenRequest) (v : Vro)
      → ((reserved_for r v ≡ false)
          × (published (release opening r v).0 ≡ published v)
          × (signature_of (release opening r v).1 ≡ none))
        ⊎ ((reserved_for r v ≡ true)
            × (release opening r v ≡ sign_release r (record_release opening r v)))
  unfolding release refuse
  release-cases opening r v = ground arith

  release-remembers :
      (opening : Bytes) (r : TokenRequest) (v : Vro) (k : Text)
      → contains k v.released ≡ true
      → contains k (release opening r v).0.released ≡ true
  release-remembers opening r v k h = elim (release-cases opening r v) [
    | inl (_, same, _) ↦ ap (λ p. contains k p.1) same ∙ h
    | inr (_, e) ↦
        ap (λ x. contains k x.released)
          (ap (λ x. core x.0) e ∙ sign_release-core r (record_release opening r v))
        ∙ (unfold record_release in contains-add k r.voter_id v.released ∙ rw h ground arith)
  ]

  reserve-remembers :
      (now : ℕ) (r : AuthRequest) (v : Vro) (k : Text)
      → contains k v.released ≡ true
      → contains k (reserve now r v).0.released ≡ true
  reserve-remembers now r v k h =
      ap (λ p. contains k p.1) (reserve-cancel_reservation-published now r k v).0 ∙ h

  pub Step-remembers :
      {v w : Vro} (k : Text)
      → Step v w
      → contains k v.released ≡ true
      → contains k w.released ≡ true
  Step-remembers {v} k (claims r revoked expired) h =
      ap (λ p. contains k p.1) (published-claim r revoked expired v) ∙ h
  Step-remembers {v} k (reserves now r) h = reserve-remembers now r v k h
  Step-remembers {v} k (releases opening r) h = release-remembers opening r v k h
  Step-remembers {v} k (issues now opening r) h = elim (issue_token-cases now opening r v) [
    | inl (_, e) ↦
        ap (λ x. contains k x.0.released) e
        ∙ release-remembers opening (token_request r) _ k (reserve-remembers now r v k h)
    | inr (_, e) ↦ ap (λ x. contains k x.0.released) e ∙ reserve-remembers now r v k h
  ]
  Step-remembers {v} k (reserves_document validate loads doc) h =
      ap (λ p. contains k p.1) (published-reserve_signed validate loads doc v) ∙ h
  Step-remembers {v} k (issues_document validate loads opening doc) h =
      let kept = ap (λ p. contains k p.1) (published-reserve_signed validate loads doc v) ∙ h in
      elim (issue_signed-cases validate loads opening doc v) [
        | inl e ↦ ap (λ x. contains k x.0.released) e ∙ kept
        | inr (r, _, _, e) ↦
            ap (λ x. contains k x.0.released) e
            ∙ release-remembers opening (document_token_request r) _ k kept
      ]
  Step-remembers {v} k (cancels q) h =
      ap (λ p. contains k p.1) (published-cancel_reservation q v) ∙ h
  Step-remembers k (enrols q) h = unfold enrol_voter in h
  Step-remembers k supervises h = unfold supervision_dump in h
  Step-remembers k (opens_enrolment b) h = h
  Step-remembers k (peoples people) h = h

  pub Reach-remembers :
      {v w : Vro} (k : Text)
      → Reach v w
      → contains k v.released ≡ true
      → contains k w.released ≡ true
  Reach-remembers k here h = h
  Reach-remembers k (next r st) h = Step-remembers k st (Reach-remembers k r h)
