-- ===== src/Vro/Boundary.antt =====
-- Who is told what in src/ovpoc/vro.py: the identity boundary of `reserve`, and its outcomes.
use Prim.Native.String.{String}
use online_voting_poc.Bytes.{Text}
use online_voting_poc.Prelude.{
  ℕ, ◌≡◌, refl, ap, sym, ◌∙◌, ◌↔◌, ◌⊎◌, ◌≢◌, Bool, true, false, some, none, contains, List-eq, [],
  ◌∷◌, ◌++◌, arith, Bool-cases, Option-cases, inl, inr,
}
use online_voting_poc.Prelude.Dict.{lookup}
use online_voting_poc.Crypto.{Crypto}
use online_voting_poc.Keys.{verify_signature}
use online_voting_poc.Messages.{AuthRequest, request_payload}
use online_voting_poc.PopulationRegister.{Certificate, certificate_of, is_expired}
use online_voting_poc.Vro.State.{Vro, TokenRequest, not_identified, reserved, token_request}
use online_voting_poc.Vro.Office.{claim, refuse, reserve, respond, cancel_reservation}
use online_voting_poc.Vro.Register.{published}

module _ ⦃crypto : Crypto⦄ where
  -- The certificate of the named person verifies the request.
  pub record IsIdentified (v : Vro) (r : AuthRequest) (cert : Certificate) : Type 0 where
    pub found : certificate_of v.population_register r.voter_id ≡ some cert
    pub signed : verify_signature cert.public_key r.wallet_signature (request_payload r) ≡ true

  pub record IsEntitled (now : ℕ) (v : Vro) (r : AuthRequest) (cert : Certificate) : Type 0 where
    pub identified : IsIdentified v r cert
    pub not_revoked : cert.revoked ≡ false
    pub not_expired : is_expired now cert ≡ false
    pub on_register : contains r.voter_id v.register ≡ true
    pub not_released : contains r.voter_id v.released ≡ false
    pub not_pending : lookup r.voter_id v.reserved ≡ none

  pub identified-reserve :
      (now : ℕ) (v : Vro) (r : AuthRequest) (cert : Certificate)
      → IsIdentified v r cert
      → reserve now r v ≡ claim (token_request r) cert.revoked (is_expired now cert) v
  unfolding reserve
  identified-reserve now v r cert i = rw (i.found, reserve, i.signed)

  reserve-cases :
      (now : ℕ) (v : Vro) (r : AuthRequest)
      → ((why : String) × (¬ ((cert : Certificate) × IsIdentified v r cert))
          × (reserve now r v ≡ refuse r.voter_id not_identified why v))
        ⊎ ((cert : Certificate) × IsIdentified v r cert)
  unfolding reserve
  reserve-cases now v r = elim (Option-cases (certificate_of v.population_register r.voter_id)) [
    | inl absent ↦
        inl ("no entry for this id in the population register", nobody absent, rw (absent, reserve))
    | inr (cert, found) ↦
        elim (Bool-cases
          (verify_signature cert.public_key r.wallet_signature (request_payload r))) [
            | inr bad ↦ inl (
              "request signature does not verify under the certified key",
              unsigned cert found bad,
              rw (found, reserve, bad),
            )
            | inl good ↦ inr (cert, record { found = found; signed = good })
          ]
  ]
    where
      nobody :
          certificate_of v.population_register r.voter_id ≡ none
          → ¬ ((cert : Certificate) × IsIdentified v r cert)
      nobody absent (cert, i) = ground (arith, i.found)

      unsigned :
          (cert : Certificate)
          → certificate_of v.population_register r.voter_id ≡ some cert
          → verify_signature cert.public_key r.wallet_signature (request_payload r) ≡ false
          → ¬ ((c : Certificate) × IsIdentified v r c)
      unsigned cert found bad (c, i) = ground (arith, i.found, i.signed)

  claim-identifies :
      (r : AuthRequest) (revoked expired : Bool) (v : Vro)
      → (claim (token_request r) revoked expired v).1.outcome ≢ not_identified
  unfolding claim refuse
  claim-identifies r revoked expired v h = ground arith

  pub claim_lem :
      (r : TokenRequest) (revoked expired : Bool) (v : Vro)
      → ((claim r revoked expired v).1.outcome ≡ reserved) ↔ (
          (revoked ≡ false)
          × (expired ≡ false)
          × (contains r.voter_id v.register ≡ true)
          × (contains r.voter_id v.released ≡ false)
          × (lookup r.voter_id v.reserved ≡ none))
  unfolding claim refuse
  claim_lem r revoked expired v = ground arith

  -- A request that the certificate on file does not verify is answered in one way, whatever is on
  -- the office's registers, without a reason, and the office stays as it is, field by field, but for
  -- one entry more in the private log; a request that it verifies is never answered so.
  pub reserve-boundary :
      (now : ℕ) (v : Vro) (r : AuthRequest)
      → ((¬ ((cert : Certificate) × IsIdentified v r cert))
          → ((reserve now r v).1 ≡ respond not_identified)
            × ((why : String) × ((reserve now r v).0 ≡ record v {
              audit =
                  v.audit
                  ++ record { voter_id = r.voter_id; outcome = not_identified; reason = why } ∷ [];
            })))
        × ((cert : Certificate)
            → IsIdentified v r cert
            → (reserve now r v).1.outcome ≢ not_identified)
  reserve-boundary now v r = (
    λ no_one. elim (reserve-cases now v r) [
      | inl (why, _, e) ↦ (
        ap (λ t. t.1) e ∙ (unfold refuse in refl),
        (why, ap (λ t. t.0) e ∙ (unfold refuse in refl)),
      )
      | inr someone ↦ absurd (no_one someone)
    ],
    λ cert i h.
        claim-identifies r cert.revoked (is_expired now cert) v
          (ap (λ t. t.1.outcome) (sym (identified-reserve now v r cert i)) ∙ h),
  )

  -- A request is reserved exactly for a person whose certificate verifies it and is neither revoked
  -- nor expired, who is on the register, and for whom no token is released and no request pending.
  pub reserve-reserved_iff :
      (now : ℕ) (v : Vro) (r : AuthRequest)
      → ((reserve now r v).1.outcome ≡ reserved) ↔ ((cert : Certificate) × IsEntitled now v r cert)
  reserve-reserved_iff now v r = (forth, back)
    where
      differ : {P : Type 0} → not_identified ≡ reserved → P
      differ h = cc

      forth :
          (reserve now r v).1.outcome ≡ reserved → (cert : Certificate) × IsEntitled now v r cert
      forth h = elim (reserve-cases now v r) [
        | inl (why, _, e) ↦ differ (sym (ap (λ t. t.1.outcome) e ∙ (unfold refuse in refl)) ∙ h)
        | inr (cert, i) ↦
            let claimed = ap (λ t. t.1.outcome) (sym (identified-reserve now v r cert i)) ∙ h in
            let (a, b, c, d, e) =
              (claim_lem (token_request r) cert.revoked (is_expired now cert) v).0 claimed in
            (
              cert,
              record {
                identified = i;
                not_revoked = a;
                not_expired = b;
                on_register = c;
                not_released = d;
                not_pending = e;
              },
            )
      ]

      back :
          ((cert : Certificate) × IsEntitled now v r cert) → (reserve now r v).1.outcome ≡ reserved
      back (cert, t) =
          ap (λ x. x.1.outcome) (identified-reserve now v r cert t.identified)
          ∙ (claim_lem (token_request r) cert.revoked (is_expired now cert) v).1
              (t.not_revoked, t.not_expired, t.on_register, t.not_released, t.not_pending)

  pub published-claim :
      (r : TokenRequest) (revoked expired : Bool) (v : Vro)
      → published (claim r revoked expired v).0 ≡ published v
  unfolding claim refuse
  published-claim r revoked expired v = ground arith

  pub published-cancel_reservation :
      (k : Text) (v : Vro) → published (cancel_reservation k v).0 ≡ published v
  unfolding cancel_reservation
  published-cancel_reservation k v = ground arith

  -- Neither a reservation, granted or refused, nor its cancellation changes the release log, the
  -- released identifiers, the openings or the kept requests.
  pub reserve-cancel_reservation-published :
      (now : ℕ) (r : AuthRequest) (k : Text) (v : Vro)
      → (published (reserve now r v).0 ≡ published v)
        × (published (cancel_reservation k v).0 ≡ published v)
  reserve-cancel_reservation-published now r k v = (
    elim (reserve-cases now v r) [
      | inl (why, _, e) ↦ ap (λ t. published t.0) e ∙ (unfold refuse in refl)
      | inr (cert, i) ↦
          ap (λ t. published t.0) (identified-reserve now v r cert i)
          ∙ published-claim (token_request r) cert.revoked (is_expired now cert) v
    ],
    published-cancel_reservation k v,
  )
