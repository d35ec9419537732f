-- ===== src/Verifier/Typed.antt =====
-- Every record that src/ovpoc/ballotbox.py accepts verifies for tools/verify_election.py as well,
-- where the ballots that were submitted were made of bytes.
use mathlib.Core.Path.{subst}
use online_voting_poc.Prelude.{ap, sym, ◌∙◌, inl, inr, [], ◌∷◌, Bool-cases, All, All-append}
use online_voting_poc.Bytes.{IsByte}
use online_voting_poc.Base64.RoundTrip.{unb64-b64}
use online_voting_poc.Crypto.{Crypto}
use online_voting_poc.Keys.{verify_signature}
use online_voting_poc.Messages.{Ballot, BallotRecord-wire, to_dict}
use online_voting_poc.Rsabssa.{verify}
use online_voting_poc.Ledger.{payloads}
use online_voting_poc.Ledger.Chain.{append-verify_chain}
use online_voting_poc.BallotBox.State.{BallotBox}
use online_voting_poc.BallotBox.Cadence.{catch_up}
use online_voting_poc.BallotBox.Submit.{accept, judge, submit}
use online_voting_poc.BallotBox.Verdict.{
  IsAcceptable, judge-accept, accepted-IsAcceptable, not_accepted-keeps, judge-keeps_chains,
}
use online_voting_poc.BallotBox.Steps.{
  Step, submits, opens, closes, reads, retimes, Reach, here, next,
}
use online_voting_poc.BallotBox.Invariant.{
  IsSound, IsSoundCore, Core, core, catch_up-core, close_poll-core, open_poll-core,
  set_publication_interval-core, Reach-IsSound,
}
use online_voting_poc.Verifier.Agreement.{Audited, vote_payload-ballot_payload}

-- What the types of the source say: these fields are `bytes`.
pub record IsBallotOfBytes (ballot : Ballot) : Type 0 where
  pub key_bytes : All IsByte ballot.adhoc_public_key
  pub token_bytes : All IsByte ballot.token
  pub signature_bytes : All IsByte ballot.vote_signature

module _ ⦃crypto : Crypto⦄ where
  abbrev pub OfBytes : {b c : BallotBox} → Step b c → Type 0
  OfBytes (submits now ballot) = IsBallotOfBytes ballot
  OfBytes (opens now e) = Unit
  OfBytes (closes now now') = Unit
  OfBytes (reads now) = Unit
  OfBytes (retimes now interval e) = Unit

  -- Every ballot submitted on the way was made of bytes.
  abbrev pub AllOfBytes : {b c : BallotBox} → Reach b c → Type 0
  AllOfBytes here = Unit
  AllOfBytes (next r s) = AllOfBytes r × OfBytes s

  abbrev AuditedCore : Core → Type 0
  AuditedCore c = All (Audited c.key) (payloads c.accepted)

  -- Every accepted record verifies for the verifier.
  abbrev pub IsAudited : BallotBox → Type 0
  IsAudited b = AuditedCore (core b)

  acceptable-Audited :
      (b : BallotBox) (ballot : Ballot)
      → IsAcceptable b ballot
      → IsBallotOfBytes ballot
      → Audited b.vro_public_key (to_dict ballot)
  unfolding verify verify_signature to_dict
  acceptable-Audited b ballot a t = (
    ballot.adhoc_public_key,
    ballot.token,
    ballot.vote_signature,
    unb64-b64 ballot.adhoc_public_key t.key_bytes,
    unb64-b64 ballot.token t.token_bytes,
    unb64-b64 ballot.vote_signature t.signature_bytes,
    a.is_certified,
    ap (crypto.ed_verify ballot.adhoc_public_key ballot.vote_signature)
          (vote_payload-ballot_payload ballot)
        ∙ a.is_signed,
  )

  judge-IsAudited :
      (b : BallotBox) (ballot : Ballot)
      → IsBallotOfBytes ballot
      → IsSound b
      → IsAudited b
      → IsAudited (judge ballot b).0
  unfolding accept
  judge-IsAudited b ballot t s h = elim (Bool-cases (judge ballot b).1.accepted) [
    | inl taken ↦
        let a = accepted-IsAcceptable b ballot taken in
        let (_, grown, _) = append-verify_chain b.accepted (to_dict ballot) s.accepted_verifies in
        subst (λ x. IsAudited x.0) (sym (judge-accept b ballot a))
          (rw grown (
            All-append (Audited b.vro_public_key) (payloads b.accepted) (to_dict ballot ∷ []) h
              (acceptable-Audited b ballot a t, tt)))
    | inr refused ↦
        let (same, _) = not_accepted-keeps b ballot refused in
        let (_, key) = judge-keeps_chains b ballot s.rejected_verifies in rw (same, key) h
  ]

  Step-IsAudited :
      {b c : BallotBox} (st : Step b c) → OfBytes st → IsSound b → IsAudited b → IsAudited c
  unfolding submit
  Step-IsAudited {b} (submits now ballot) t s h =
      let e = catch_up-core now b in
      judge-IsAudited (catch_up now b) ballot t (subst IsSoundCore (sym e) s)
        (subst AuditedCore (sym e) h)
  Step-IsAudited {b} {c} (opens now e) t s h = subst AuditedCore (sym (open_poll-core now b c e)) h
  Step-IsAudited {b} (closes now now') t s h =
      subst AuditedCore (sym (close_poll-core now now' b)) h
  Step-IsAudited {b} (reads now) t s h = subst AuditedCore (sym (catch_up-core now b)) h
  Step-IsAudited {b} {c} (retimes now interval e) t s h =
      subst AuditedCore (sym (set_publication_interval-core now interval b c e)) h

  pub Reach-IsAudited :
      {b c : BallotBox} (r : Reach b c) → AllOfBytes r → IsSound b → IsAudited b → IsAudited c
  Reach-IsAudited here t s h = h
  Reach-IsAudited (next r st) (t, u) s h =
      Step-IsAudited st u (Reach-IsSound r s) (Reach-IsAudited r t s h)
