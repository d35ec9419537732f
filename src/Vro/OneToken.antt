-- ===== src/Vro/OneToken.antt =====
-- One token for one identifier in src/ovpoc/vro.py, whatever the order of the steps.
use Prim.Native.String.{String}
use mathlib.Core.Path.{subst}
use online_voting_poc.Prelude.{
  ℕ, ◌≡◌, refl, ap, sym, ◌∙◌, inl, inr, ◌⊎◌, ◌≢◌, Bool, true, false, none, List-eq, arith,
  Bool-cases, Option-cases, is_some, ◌==◌, eq_iff,
}
use online_voting_poc.Prelude.Dict.{lookup, erase, lookup-erase, lookup-erase_ne}
use online_voting_poc.Bytes.{Bytes, Text}
use online_voting_poc.Crypto.{Crypto}
use online_voting_poc.Keys.{SigningKeyPair, verify_signature}
use online_voting_poc.Messages.{AuthRequest, request_payload}
use online_voting_poc.Ledger.{verify_chain}
use online_voting_poc.Rsabssa.{PrivateKey}
use online_voting_poc.PopulationRegister.{PopulationRegister, certificate_of, is_expired}
use online_voting_poc.Vro.State.{
  Vro, TokenResponse, Release-wire, Outcome, reserved, token_request, create, not_identified,
}
use online_voting_poc.Vro.Office.{
  claim, refuse, reserve, release, issue_token, cancel_reservation, enrol_voter, answer,
}
use online_voting_poc.Vro.Steps.{
  Step, claims, reserves, releases, issues, reserves_document, issues_document, cancels, enrols,
  supervises, opens_enrolment, peoples, Reach, here, next,
}
use online_voting_poc.Vro.Register.{IsConsistent, claim-IsConsistent, release-IsConsistent}
use online_voting_poc.Vro.Storage.{supervision_dump}
use online_voting_poc.Vro.Documents.{reserve_signed-IsConsistent, issue_signed-IsConsistent}

module _ ⦃crypto : Crypto⦄ where
  -- What holds after every claim and every refusal holds after a reservation.
  reserve-elim {ℓ} :
      (P : Vro × TokenResponse → Type ℓ) (now : ℕ) (r : AuthRequest) (v : Vro)
      → ((why : Outcome) (text : String) → P (refuse r.voter_id why text v))
      → ((revoked expired : Bool) → P (claim (token_request r) revoked expired v))
      → P (reserve now r v)
  unfolding reserve
  reserve-elim P now r v refused claimed =
      elim (Option-cases (certificate_of v.population_register r.voter_id)) [
        | inl absent ↦
            let e : reserve now r v
                ≡ refuse r.voter_id not_identified "no entry for this id in the population register"
                    v =
              rw (absent, reserve) in
            subst P (sym e) (refused _ _)
        | inr (cert, found) ↦
            elim (Bool-cases
              (verify_signature cert.public_key r.wallet_signature (request_payload r))) [
                | inr bad ↦
                    let e : reserve now r v
                        ≡ refuse r.voter_id not_identified
                            "request signature does not verify under the certified key" v =
                      rw (found, reserve, bad) in
                    subst P (sym e) (refused _ _)
                | inl good ↦
                    let e : reserve now r v
                        ≡ claim (token_request r) cert.revoked (is_expired now cert) v =
                      rw (found, reserve, good) in
                    subst P (sym e) (claimed _ _)
              ]
      ]

  cancel-IsConsistent :
      (k : Text) (v : Vro) → IsConsistent v → IsConsistent (cancel_reservation k v).0
  unfolding cancel_reservation
  cancel-IsConsistent k v s = elim (Bool-cases (is_some (lookup k v.reserved))) [
    | inr absent ↦ rw absent s
    | inl held ↦ rw held (record {
      verifies = s.verifies;
      logged = s.logged;
      opened = s.opened;
      requested = s.requested;
      distinct = s.distinct;
      settled = λ q h. erased q (s.settled q h);
    })
  ]
    where
      differs : (q : Text) → (q == k) ≡ false → q ≢ k
      differs q other e = ground (arith, eq_iff q k)

      erased : (q : Text) → lookup q v.reserved ≡ none → lookup q (erase k v.reserved) ≡ none
      erased q h = elim (Bool-cases (q == k)) [
        | inl same ↦
            ap (λ x. lookup x (erase k v.reserved)) ((eq_iff q k).0 same)
            ∙ lookup-erase k v.reserved
        | inr other ↦ lookup-erase_ne k q v.reserved (differs q other) ∙ h
      ]

  reserve-IsConsistent :
      (now : ℕ) (r : AuthRequest) (v : Vro) → IsConsistent v → IsConsistent (reserve now r v).0
  reserve-IsConsistent now r v s =
      reserve-elim (λ t. IsConsistent t.0) now r v (λ why text. unfold refuse in s)
        (λ revoked expired. claim-IsConsistent (token_request r) revoked expired v s)

  -- A token request comes to its reservation, or to the release of what it reserved.
  pub issue_token-cases :
      (now : ℕ) (opening : Bytes) (r : AuthRequest) (v : Vro)
      → ((reserve now r v).1.outcome ≡ reserved
          × (issue_token now opening r v ≡ release opening (token_request r) (reserve now r v).0))
        ⊎ ((reserve now r v).1.outcome ≢ reserved
            × (issue_token now opening r v ≡ ((reserve now r v).0, answer (reserve now r v).1)))
  unfolding issue_token
  issue_token-cases now opening r v = ground arith

  issue_token-IsConsistent :
      (now : ℕ) (opening : Bytes) (r : AuthRequest) (v : Vro)
      → IsConsistent v
      → IsConsistent (issue_token now opening r v).0
  issue_token-IsConsistent now opening r v s =
      let t = reserve-IsConsistent now r v s in
      elim (issue_token-cases now opening r v) [
        | inl (_, e) ↦
            subst (λ x. IsConsistent x.0) (sym e)
              (release-IsConsistent opening (token_request r) _ t)
        | inr (_, e) ↦ subst (λ x. IsConsistent x.0) (sym e) t
      ]

  pub Step-IsConsistent : {v w : Vro} → Step v w → IsConsistent v → IsConsistent w
  Step-IsConsistent {v} (claims r revoked expired) s = claim-IsConsistent r revoked expired v s
  Step-IsConsistent {v} (reserves now r) s = reserve-IsConsistent now r v s
  Step-IsConsistent {v} (releases opening r) s = release-IsConsistent opening r v s
  Step-IsConsistent {v} (issues now opening r) s = issue_token-IsConsistent now opening r v s
  Step-IsConsistent {v} (reserves_document validate loads doc) s =
      reserve_signed-IsConsistent validate loads doc v s
  Step-IsConsistent {v} (issues_document validate loads opening doc) s =
      issue_signed-IsConsistent validate loads opening doc v s
  Step-IsConsistent {v} (cancels k) s = cancel-IsConsistent k v s
  Step-IsConsistent (enrols k) s = unfold enrol_voter in s
  Step-IsConsistent supervises s = unfold supervision_dump in s
  Step-IsConsistent (opens_enrolment b) s = s
  Step-IsConsistent (peoples people) s = s

  pub Reach-IsConsistent : {v w : Vro} → Reach v w → IsConsistent v → IsConsistent w
  Reach-IsConsistent here s = s
  Reach-IsConsistent (next r st) s = Step-IsConsistent st (Reach-IsConsistent r s)

  -- Whatever these steps do to a new office, in any order: its release log verifies, the entries of the log
  -- are the commitments of the openings that it keeps, in the same order, one for each released
  -- identifier and no identifier twice, a request being kept for each; and no released identifier is
  -- reserved.
  pub create-IsConsistent :
      (people : PopulationRegister) (key : PrivateKey) (pair : SigningKeyPair) (election : Text)
      (v : Vro)
      → Reach (create people key pair election) v
      → IsConsistent v
  unfolding create
  create-IsConsistent people key pair election v r = Reach-IsConsistent r (record {
    verifies = unfold verify_chain in refl;
    logged = refl;
    opened = refl;
    requested = refl;
    distinct = tt;
    settled = λ q h. absurd (nothing h);
  })
    where
      nothing : false ≡ true → ⊥
      nothing h = cc
