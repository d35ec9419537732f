-- ===== src/Vro/Requests.antt =====
-- Every token that the office of src/ovpoc/vro.py released was asked for, and it keeps the request.
use online_voting_poc.Prelude.{
  ◌≡◌, refl, ap, sym, ◌∙◌, ◌⊎◌, inl, inr, Bool-cases, Option-cases, true, some, [], All,
  All-contained, contains, is_some, List-eq, eq_iff, ◌==◌, arith,
}
use online_voting_poc.Prelude.Dict.{Dict, lookup, insert, lookup-insert, contains-keys}
use online_voting_poc.Bytes.{Bytes, Text}
use online_voting_poc.Crypto.{Crypto}
use online_voting_poc.Keys.{SigningKeyPair}
use online_voting_poc.Rsabssa.{PrivateKey}
use online_voting_poc.PopulationRegister.{PopulationRegister, Certificate}
use online_voting_poc.Vro.State.{
  Vro, TokenRequest, SignedRequest, Release-wire, create, token_request, reserved, wallet, document,
}
use online_voting_poc.Vro.Office.{reserved_for, release, reserve, record_release, enrol_voter}
use online_voting_poc.Vro.Storage.{supervision_dump}
use online_voting_poc.Vro.Document.{
  DocumentRequest, document_token_request, request, interpret_signed_document,
  reserve_signed_document,
}
use online_voting_poc.Vro.Documents.{
  reserve_signed-cases, issue_signed-cases, published-reserve_signed,
}
use online_voting_poc.Vro.Steps.{
  Step, claims, reserves, releases, issues, reserves_document, issues_document, cancels, enrols,
  supervises, opens_enrolment, peoples, Reach, here, next,
}
use online_voting_poc.Vro.Register.{core, IsConsistent, sign_release-core}
use online_voting_poc.Vro.Boundary.{
  IsEntitled, reserve-reserved_iff, reserve-cancel_reservation-published, published-claim,
  published-cancel_reservation,
}
use online_voting_poc.Vro.OneToken.{issue_token-cases, create-IsConsistent}
use online_voting_poc.Vro.Remembering.{release-cases}

module _ ⦃crypto : Crypto⦄ where
  -- The step releases a token for the request: to the caller of `release` for what is reserved, to a
  -- person who is entitled and whose certificate verifies the request, or to the subject of the
  -- document that the request was read from.
  abbrev pub Releases : {v w : Vro} → Step v w → TokenRequest → Type 0
  Releases {v} (claims r revoked expired) q = ⊥
  Releases {v} (reserves now r) q = ⊥
  Releases {v} (releases opening r) q = (q ≡ r) × (reserved_for r v ≡ true)
  Releases {v} (issues now opening r) q =
      (q ≡ record {
        voter_id = r.voter_id;
        blinded_key = r.blinded_key;
        evidence = wallet r.blinded_key r.wallet_signature;
      })
      × ((cert : Certificate) × IsEntitled now v r cert)
  Releases {v} (reserves_document validate loads doc) q = ⊥
  Releases {v} (issues_document validate loads opening doc) q =
      (r : DocumentRequest) × (q ≡ record {
        voter_id = r.voter_id;
        blinded_key = r.blinded_key;
        evidence = document r.blinded_key r.signed r.qualified r.signing_time_vouched;
      })
      × (interpret_signed_document validate loads doc v ≡ (v, request r))
      × ((reserve_signed_document validate loads doc v).1.outcome ≡ reserved)
  Releases {v} (cancels k) q = ⊥
  Releases {v} (enrols k) q = ⊥
  Releases {v} supervises q = ⊥
  Releases {v} (opens_enrolment b) q = ⊥
  Releases {v} (peoples people) q = ⊥

  -- Somewhere in the run a token is released for the request.
  abbrev pub Asked : {v w : Vro} → Reach v w → TokenRequest → Type 0
  Asked here q = ⊥
  Asked (next r st) q = Asked r q ⊎ Releases st q

  release-requests :
      (opening : Bytes) (r : TokenRequest) (v : Vro)
      → ((release opening r v).0.requests ≡ v.requests)
        ⊎ ((reserved_for r v ≡ true)
            × ((release opening r v).0.requests ≡ insert r.voter_id r.evidence v.requests))
  release-requests opening r v = elim (release-cases opening r v) [
    | inl (_, same, _) ↦ inl (ap (λ p. p.3) same)
    | inr (held, e) ↦ inr (
      held,
      ap (λ c. c.requests) (ap (λ x. core x.0) e ∙ sign_release-core r (record_release opening r v))
          ∙ (unfold record_release in refl),
    )
  ]

  -- A step keeps the requests, or adds the one that it releases a token for.
  Step-requests :
      {v w : Vro} (st : Step v w)
      → (w.requests ≡ v.requests)
        ⊎ ((q : TokenRequest) × Releases st q
            × (w.requests ≡ insert q.voter_id q.evidence v.requests))
  Step-requests {v} (claims r revoked expired) =
      inl (ap (λ p. p.3) (published-claim r revoked expired v))
  Step-requests {v} (reserves now r) =
      inl (ap (λ p. p.3) (reserve-cancel_reservation-published now r [] v).0)
  Step-requests {v} (releases opening r) = elim (release-requests opening r v) [
    | inl same ↦ inl same
    | inr (held, added) ↦ inr (r, (refl, held), added)
  ]
  Step-requests {v} (issues now opening r) =
      let kept = ap (λ p. p.3) (reserve-cancel_reservation-published now r [] v).0 in
      elim (issue_token-cases now opening r v) [
        | inr (_, e) ↦ inl (ap (λ x. x.0.requests) e ∙ kept)
        | inl (taken, e) ↦ elim (release-requests opening (token_request r) (reserve now r v).0) [
          | inl same ↦ inl (ap (λ x. x.0.requests) e ∙ same ∙ kept)
          | inr (_, added) ↦ inr (
            token_request r,
            (refl, (reserve-reserved_iff now v r).0 taken),
            ap (λ x. x.0.requests) e
                ∙ added
                ∙ ap (insert r.voter_id (token_request r).evidence) kept,
          )
        ]
      ]
  Step-requests {v} (reserves_document validate loads doc) =
      inl (ap (λ p. p.3) (published-reserve_signed validate loads doc v))
  Step-requests {v} (issues_document validate loads opening doc) =
      let t = reserve_signed_document validate loads doc v in
      let kept = ap (λ p. p.3) (published-reserve_signed validate loads doc v) in
      elim (issue_signed-cases validate loads opening doc v) [
        | inl e ↦ inl (ap (λ x. x.0.requests) e ∙ kept)
        | inr (r, taken, some_r, e) ↦
            elim (release-requests opening (document_token_request r) t.0) [
              | inl same ↦ inl (ap (λ x. x.0.requests) e ∙ same ∙ kept)
              | inr (_, added) ↦ inr (
                document_token_request r,
                (r, refl, read_from taken some_r, taken),
                ap (λ x. x.0.requests) e
                    ∙ added
                    ∙ ap (insert r.voter_id (document_token_request r).evidence) kept,
              )
            ]
      ]
    where
      read_from :
          {r : DocumentRequest}
          → (reserve_signed_document validate loads doc v).1.outcome ≡ reserved
          → (reserve_signed_document validate loads doc v).2 ≡ some r
          → interpret_signed_document validate loads doc v ≡ (v, request r)
      read_from {r} taken some_r = elim (reserve_signed-cases validate loads doc v) [
        | inl (_, other) ↦ absurd (other taken)
        | inr (s, e, _, _, some_s) ↦ e ∙ ap (λ x. (v, request x)) (same s some_s)
      ]
        where
          same :
              (s : DocumentRequest)
              → (reserve_signed_document validate loads doc v).2 ≡ some s
              → s ≡ r
          same s h = cc
  Step-requests {v} (cancels k) = inl (ap (λ p. p.3) (published-cancel_reservation k v))
  Step-requests (enrols k) = inl (unfold enrol_voter in refl)
  Step-requests supervises = inl (unfold supervision_dump in refl)
  Step-requests (opens_enrolment b) = inl refl
  Step-requests (peoples people) = inl refl

  lookup-insert-some :
      (k j : Text) (e x : SignedRequest) (d : Dict Text SignedRequest)
      → lookup k (insert j x d) ≡ some e
      → (lookup k d ≡ some e) ⊎ ((j ≡ k) × (x ≡ e))
  lookup-insert-some k j e x d h = elim (Bool-cases (k == j)) [
    | inl same ↦ inr (sym ((eq_iff k j).0 same), taken (lookup-insert j k x d ∙ rw same refl))
    | inr other ↦ inl (sym (lookup-insert j k x d ∙ rw other refl) ∙ h)
  ]
    where
      taken : lookup k (insert j x d) ≡ some x → x ≡ e
      taken g = cc

  Reach-requests :
      {v w : Vro} (k : Text) (e : SignedRequest) (r : Reach v w)
      → lookup k w.requests ≡ some e
      → (lookup k v.requests ≡ some e)
        ⊎ ((q : TokenRequest) × Asked r q × (q.voter_id ≡ k) × (q.evidence ≡ e))
  Reach-requests k e here h = inl h
  Reach-requests {v} k e (next {w = x} r st) h =
      let earlier : lookup k x.requests ≡ some e
          → (lookup k v.requests ≡ some e)
            ⊎ ((q : TokenRequest) × Asked (next r st) q × (q.voter_id ≡ k) × (q.evidence ≡ e)) =
        λ g. elim (Reach-requests k e r g) [
          | inl first ↦ inl first
          | inr (q, asked, named, shown) ↦ inr (q, inl asked, named, shown)
        ] in
      elim (Step-requests st) [
        | inl same ↦ earlier (ap (lookup k) (sym same) ∙ h)
        | inr (q, asked, added) ↦
            elim (lookup-insert-some k q.voter_id e q.evidence x.requests
              (ap (lookup k) (sym added) ∙ h)) [
                | inl before ↦ earlier before
                | inr (named, shown) ↦ inr (q, inr asked, named, shown)
              ]
      ]

  -- The identifier is released for a request of the run, which the office keeps as it was made.
  abbrev pub IsAskedFor : {v w : Vro} → Reach v w → Text → Type 0
  IsAskedFor {v} {w} r k =
      (q : TokenRequest) × Asked r q × (q.voter_id ≡ k) × (lookup k w.requests ≡ some q.evidence)

  pub released-IsAskedFor :
      (people : PopulationRegister) (key : PrivateKey) (pair : SigningKeyPair) (election : Text)
      (v : Vro) (r : Reach (create people key pair election) v) (k : Text)
      → contains k v.released ≡ true
      → IsAskedFor r k
  unfolding create
  released-IsAskedFor people key pair election v r k h =
      let s = create-IsConsistent people key pair election v r in
      let known : is_some (lookup k v.requests) ≡ true =
        sym (contains-keys k v.requests) ∙ ap (contains k) (s.requested ∙ sym s.opened) ∙ h in
      elim (Option-cases (lookup k v.requests)) [
        | inl missing ↦ absurd (ground (arith, known, missing))
        | inr (e, found) ↦ elim (Reach-requests k e r found) [
          | inl never ↦ absurd (ground (arith, never))
          | inr (q, asked, named, shown) ↦ (q, asked, named, found ∙ ap some (sym shown))
        ]
      ]

  -- Whatever the calls of both routes, the supervisors and the settings do to a new office, in any
  -- order: its release log verifies, the entries of the log are the commitments of the openings that
  -- it keeps, in the same order, one for each released identifier and no identifier twice; no
  -- released identifier is reserved; and for each of them a token was released in the run for a
  -- request under that identifier, the evidence of which the office keeps under it: a reserved one,
  -- one that the certificate on file verified, or one that was read from a validated document.
  pub create-IsAskedFor :
      (people : PopulationRegister) (key : PrivateKey) (pair : SigningKeyPair) (election : Text)
      (v : Vro) (r : Reach (create people key pair election) v)
      → IsConsistent v × All (IsAskedFor r) v.released
  create-IsAskedFor people key pair election v r = (
    create-IsConsistent people key pair election v r,
    All-contained (IsAskedFor r) v.released (released-IsAskedFor people key pair election v r),
  )
