-- ===== src/Vro/Issuing.antt =====
-- What a release in src/ovpoc/vro.py records and gives out, and that it happens once.
use online_voting_poc.Prelude.{
  ℕ, ◌<◌, ◌≡◌, refl, ap, ◌∙◌, inl, inr, true, false, some, none, [], ◌∷◌, ◌++◌, contains,
  contains-add, List-eq, arith, length, eq_refl, if◌then◌else◌, ◌==◌,
}
use online_voting_poc.Prelude.Dict.{lookup, insert, lookup-insert, lookup-erase}
use online_voting_poc.Bytes.{Bytes, from_bytes, to_bytes}
use online_voting_poc.Crypto.{Crypto}
use online_voting_poc.Messages.{AuthRequest}
use online_voting_poc.Ledger.{payloads}
use online_voting_poc.Rsabssa.{modulus_bytes, pow_mod, blind_sign, check_blind_signature}
use online_voting_poc.Rsabssa.Pss.{ok}
use online_voting_poc.Rsabssa.Unblinding.{IsRsaKey, blind_sign-check, blind_sign-returns}
use online_voting_poc.PopulationRegister.{Certificate}
use online_voting_poc.Vro.State.{Vro, TokenRequest, Release-wire, reserved, issued, token_request}
use online_voting_poc.Vro.Office.{
  claim, refuse, reserve, record_release, sign_release, release, issue_token, answer, reserved_for,
  log_audit, respond,
}
use online_voting_poc.Vro.Steps.{Reach}
use online_voting_poc.Vro.Register.{
  core, published, entry_of, IsConsistent, record_release-appends, reserved_for-new,
  sign_release-core, release-IsConsistent,
}
use online_voting_poc.Vro.Boundary.{
  IsEntitled, identified-reserve, reserve-reserved_iff, reserve-cancel_reservation-published,
}
use online_voting_poc.Vro.OneToken.{issue_token-cases, Reach-IsConsistent}
use online_voting_poc.Vro.Remembering.{signature_of, release-cases, Reach-remembers}

module _ ⦃crypto : Crypto⦄ where
  -- In an office that is consistent, a release for a matching reservation is on record whatever
  -- becomes of the signature: the log has the commitment at its end, the identifier is released and
  -- no longer reserved, and the office is consistent. Without a matching reservation nothing is
  -- recorded and nothing signed.
  pub release-recorded :
      (opening : Bytes) (r : TokenRequest) (v : Vro)
      → IsConsistent v
      → let (w, reply) = release opening r v in
        (reserved_for r v ≡ true
          → (payloads w.release_log ≡ payloads v.release_log ++ entry_of (r.voter_id, opening) ∷ [])
            × (w.released ≡ v.released ++ r.voter_id ∷ [])
            × (lookup r.voter_id w.reserved ≡ none)
            × IsConsistent w)
        × (reserved_for r v ≡ false → (published w ≡ published v) × (signature_of reply ≡ none))
  release-recorded opening r v s = elim (release-cases opening r v) [
    | inl (absent, same, unsigned) ↦ (λ h. absurd (not_both h absent), λ _. (same, unsigned))
    | inr (held, e) ↦ (
      λ _.
          let (grown, new, _, t) =
            record_release-appends opening r v s (reserved_for-new r v s held) in
          let c : core (release opening r v).0 ≡ core (record_release opening r v) =
            ap (λ x. core x.0) e ∙ sign_release-core r (record_release opening r v) in
          (
            ap (λ x. payloads x.log) c ∙ grown,
            ap (λ x. x.released) c ∙ new,
            ap (λ x. lookup r.voter_id x.reserved) c
                ∙ (unfold record_release in lookup-erase r.voter_id v.reserved),
            release-IsConsistent opening r v s,
          ),
      λ h. absurd (not_both held h),
    )
  ]
    where
      not_both : reserved_for r v ≡ true → reserved_for r v ≡ false → ⊥
      not_both h k = cc

  -- `reserve` gives no signature.
  reserve-unsigned :
      (now : ℕ) (r : AuthRequest) (v : Vro) → (reserve now r v).1.blind_signature ≡ none
  unfolding reserve claim refuse
  reserve-unsigned now r v = ground arith

  -- Once an identifier is released by an office that is consistent, no later request for it, and no
  -- later release of it, gives a signature or changes the log, the released identifiers, the
  -- openings or the kept requests, whatever the calls of both routes, the supervisors and the settings
  -- did to the office between.
  pub one_token :
      (v w : Vro) (r : AuthRequest) (now : ℕ) (opening : Bytes)
      → IsConsistent v
      → contains r.voter_id v.released ≡ true
      → Reach v w
      → (published (issue_token now opening r w).0 ≡ published w)
        × (signature_of (issue_token now opening r w).1 ≡ none)
        × (published (release opening (token_request r) w).0 ≡ published w)
        × (signature_of (release opening (token_request r) w).1 ≡ none)
  one_token v w r now opening s h reach =
      let known = Reach-remembers r.voter_id reach h in
      let (same, unsigned) = (release-recorded opening (token_request r) w t).1 unreserved in
      elim (issue_token-cases now opening r w) [
        | inl (taken, _) ↦ absurd (fresh known taken)
        | inr (_, e) ↦ (
          ap (λ x. published x.0) e ∙ (reserve-cancel_reservation-published now r [] w).0,
          ap (λ x. signature_of x.1) e ∙ reserve-unsigned now r w,
          same,
          unsigned,
        )
      ]
    where
      t : IsConsistent w
      t = Reach-IsConsistent reach s

      unreserved : reserved_for (token_request r) w ≡ false
      unreserved = rw (t.settled r.voter_id (Reach-remembers r.voter_id reach h), reserved_for) refl

      fresh : contains r.voter_id w.released ≡ true → (reserve now r w).1.outcome ≡ reserved → ⊥
      fresh known taken =
          let (cert, i) = (reserve-reserved_iff now w r).0 taken in let new = i.not_released in cc

  reserve-entitled :
      (now : ℕ) (v : Vro) (r : AuthRequest) (cert : Certificate)
      → IsEntitled now v r cert
      → reserve now r v ≡ (
        log_audit r.voter_id reserved "validated and reserved"
            (record v { reserved = insert r.voter_id r.blinded_key v.reserved }),
        respond reserved,
      )
  unfolding claim refuse
  reserve-entitled now v r cert i =
      identified-reserve now v r cert i.identified
      ∙ ground (arith, i.not_revoked, i.not_expired, i.on_register, i.not_released, i.not_pending)

  sign_release-signs :
      (r : TokenRequest) (v : Vro) (s : Bytes)
      → blind_sign v.private_key r.blinded_key ≡ ok s
      → check_blind_signature v.public_key r.blinded_key s ≡ true
      → sign_release r v ≡ (
        log_audit r.voter_id issued "token released" v,
        answer (record { outcome = issued; blind_signature = some s }),
      )
  unfolding sign_release
  sign_release-signs r v s h k = rw (h, sign_release, k)

  -- An entitled person whose blinded value has the modulus's length and is below it gets, from an
  -- office with matching keys, the blind signature of the value, which satisfies the check, and is
  -- on record as released.
  pub issue_token-issued :
      (now : ℕ) (opening : Bytes) (v : Vro) (r : AuthRequest) (cert : Certificate)
      → IsEntitled now v r cert
      → IsRsaKey v.private_key
      → v.public_key ≡ v.private_key.public
      → length r.blinded_key ≡ modulus_bytes v.private_key.public.modulus
      → from_bytes r.blinded_key < v.private_key.public.modulus
      → let (w, reply) = issue_token now opening r v in
        (s : Bytes) × (reply ≡ answer (record { outcome = issued; blind_signature = some s }))
        × (blind_sign v.private_key r.blinded_key ≡ ok s)
        × (check_blind_signature v.public_key r.blinded_key s ≡ true)
        × (contains r.voter_id w.released ≡ true)
  issue_token-issued now opening v r cert entitled rsa match' len range =
      let v' =
        log_audit r.voter_id reserved "validated and reserved"
          (record v { reserved = insert r.voter_id r.blinded_key v.reserved }) in
      let w = record_release opening (token_request r) v' in
      let n = v.private_key.public.modulus in
      let s =
        to_bytes (modulus_bytes n) (pow_mod (from_bytes r.blinded_key) v.private_key.secret n) in
      let signed : blind_sign v.private_key r.blinded_key ≡ ok s =
        blind_sign-returns v.private_key r.blinded_key len range in
      let checks : check_blind_signature v.public_key r.blinded_key s ≡ true =
        ap (λ key. check_blind_signature key r.blinded_key s) match'
        ∙ blind_sign-check v.private_key r.blinded_key s rsa signed in
      let released =
        release-reserved v' (lookup-insert r.voter_id r.voter_id r.blinded_key v.reserved)
        ∙ sign_release-signs (token_request r) w s (unfold record_release in signed)
            (unfold record_release in checks) in
      let whole = issued_by_release ∙ released in
      (
        s,
        ap (λ t. t.1) whole,
        signed,
        checks,
        ap (λ t. contains r.voter_id t.0.released) whole
            ∙ (unfold record_release in
                contains-add r.voter_id r.voter_id v.released ∙ rw (eq_refl r.voter_id)),
      )
    where
      release-reserved :
          (u : Vro)
          → lookup r.voter_id u.reserved ≡ (
              if r.voter_id == r.voter_id then some r.blinded_key else lookup r.voter_id v.reserved)
          → release opening (token_request r) u
            ≡ sign_release (token_request r) (record_release opening (token_request r) u)
      release-reserved u e = elim (release-cases opening (token_request r) u) [
        | inl (absent, _, _) ↦
            absurd
              (not_both (rw (e, reserved_for, eq_refl r.voter_id) (eq_refl r.blinded_key)) absent)
        | inr (_, taken) ↦ taken
      ]
        where
          not_both :
              reserved_for (token_request r) u ≡ true → reserved_for (token_request r) u ≡ false → ⊥
          not_both h k = cc

      issued_by_release :
          issue_token now opening r v
          ≡ release opening (token_request r) (
              log_audit r.voter_id reserved "validated and reserved"
                (record v { reserved = insert r.voter_id r.blinded_key v.reserved }))
      issued_by_release =
          let e = reserve-entitled now v r cert entitled in
          elim (issue_token-cases now opening r v) [
            | inl (_, whole) ↦ whole ∙ ap (λ t. release opening (token_request r) t.0) e
            | inr (refused, _) ↦ absurd (refused (ap (λ t. t.1.outcome) e))
          ]
