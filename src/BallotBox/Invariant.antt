-- ===== src/BallotBox/Invariant.antt =====
-- What holds of every box of src/ovpoc/ballotbox.py that its methods can reach.
use mathlib.Core.Path.{subst}
use online_voting_poc.Prelude.{
  ℕ, ◌≡◌, refl, ap, sym, ◌∙◌, inl, inr, true, Option, some, List, [], ◌∷◌, ◌++◌, map, add, List-eq,
  arith, Bool-cases, All, All-append, Distinct, Distinct-snoc, map-append,
}
use online_voting_poc.Bytes.{Bytes, Text}
use online_voting_poc.Crypto.{Crypto, PublicKey}
use online_voting_poc.Keys.{SigningKeyPair, verify_signature}
use online_voting_poc.Messages.{Ballot, BallotRecord, BallotRecord-wire, to_dict, ballot_payload}
use online_voting_poc.Rsabssa.{verify}
use online_voting_poc.Ledger.{Ledger, payloads, verify_chain}
use online_voting_poc.Ledger.Chain.{append-verify_chain}
use online_voting_poc.BallotBox.State.{BallotBox, RejectedRecord, RejectedRecord-wire, new_box}
use online_voting_poc.BallotBox.Cadence.{catch_up, set_publication_interval, publish}
use online_voting_poc.BallotBox.Timer.{catch_up-keeps}
use online_voting_poc.BallotBox.Phase.{open_poll, close_poll, declare}
use online_voting_poc.BallotBox.Submit.{content_digest, record_digest, accept, judge, submit}
use online_voting_poc.BallotBox.Verdict.{
  IsAcceptable, judge-accept, accepted-IsAcceptable, not_accepted-keeps, judge-keeps_chains,
}
use online_voting_poc.BallotBox.Steps.{
  Step, submits, opens, closes, reads, retimes, Reach, here, next,
}

module _ ⦃crypto : Crypto⦄ where
  -- The record of a ballot that the office certified and whose own key signed it.
  abbrev pub Genuine : PublicKey → BallotRecord → Type 0
  Genuine key p =
      (ballot : Ballot) × (p ≡ to_dict ballot)
      × (verify key ballot.adhoc_public_key ballot.token ≡ true)
      × (verify_signature ballot.adhoc_public_key ballot.vote_signature (ballot_payload ballot)
          ≡ true)

  -- The part of a box that the invariant reads.
  pub record Core : Type 0 where
    pub key : PublicKey
    pub accepted : Ledger BallotRecord
    pub rejected : Ledger RejectedRecord
    pub records : List Bytes

  abbrev pub core : BallotBox → Core
  core b = record {
    key = b.vro_public_key;
    accepted = b.accepted;
    rejected = b.rejected;
    records = b.accepted_records;
  }

  pub record IsSoundCore (c : Core) : Type 0 where
    pub accepted_verifies : verify_chain c.accepted ≡ true
    pub rejected_verifies : verify_chain c.rejected ≡ true
    pub genuine : All (Genuine c.key) (payloads c.accepted)
    pub indexed : c.records ≡ map content_digest (payloads c.accepted)
    pub distinct : Distinct c.records

  -- Both chains verify, every accepted record is of a genuine ballot, and the content hashes are
  -- those of the accepted records, no two of them equal.
  abbrev pub IsSound : BallotBox → Type 0
  IsSound b = IsSoundCore (core b)

  IsSound-core : (b c : BallotBox) → core c ≡ core b → IsSound b → IsSound c
  IsSound-core b c e s = subst IsSoundCore (sym e) s

  accept-IsSound :
      (b : BallotBox) (ballot : Ballot)
      → IsAcceptable b ballot
      → IsSound b
      → IsSound (accept ballot b).0
  unfolding accept
  accept-IsSound b ballot a s =
      let p = to_dict ballot in
      let (verifies, grown, _) = append-verify_chain b.accepted p s.accepted_verifies in
      let added : add (record_digest ballot) b.accepted_records
          ≡ b.accepted_records ++ record_digest ballot ∷ [] =
        rw a.is_new in
      record {
        accepted_verifies = verifies;
        rejected_verifies = s.rejected_verifies;
        genuine = rw grown (
            All-append (Genuine b.vro_public_key) (payloads b.accepted) (p ∷ []) s.genuine
              ((ballot, refl, a.is_certified, a.is_signed), tt));
        indexed =
            added
            ∙ ap (λ l. l ++ record_digest ballot ∷ []) s.indexed
            ∙ sym (
                ap (map content_digest) grown
                ∙ map-append content_digest (payloads b.accepted) (p ∷ []));
        distinct =
            rw added (Distinct-snoc (record_digest ballot) b.accepted_records s.distinct a.is_new);
      }

  judge-IsSound : (b : BallotBox) (ballot : Ballot) → IsSound b → IsSound (judge ballot b).0
  judge-IsSound b ballot s = elim (Bool-cases (judge ballot b).1.accepted) [
    | inl taken ↦
        let a = accepted-IsAcceptable b ballot taken in
        subst (λ t. IsSound t.0) (sym (judge-accept b ballot a)) (accept-IsSound b ballot a s)
    | inr refused ↦
        let (same, records) = not_accepted-keeps b ballot refused in
        let (verifies, key) = judge-keeps_chains b ballot s.rejected_verifies in
        let kept : core (judge ballot b).0
            ≡ record (core b) { rejected = (judge ballot b).0.rejected } =
          cc in
        subst IsSoundCore (sym kept) (record {
          accepted_verifies = s.accepted_verifies;
          rejected_verifies = verifies;
          genuine = s.genuine;
          indexed = s.indexed;
          distinct = s.distinct;
        })
  ]

  pub catch_up-core : (now : ℕ) (b : BallotBox) → core (catch_up now b) ≡ core b
  catch_up-core = catch_up-keeps core (λ b s n. refl)

  pub close_poll-core : (now now' : ℕ) (b : BallotBox) → core (close_poll now now' b) ≡ core b
  unfolding close_poll publish declare
  close_poll-core now now' b = catch_up-core now b

  pub open_poll-core : (now : ℕ) (b b' : BallotBox) → open_poll now b ≡ some b' → core b' ≡ core b
  unfolding open_poll declare
  open_poll-core now b b' e = ground arith

  pub set_publication_interval-core :
      (now : ℕ) (interval : Option ℕ) (b b' : BallotBox)
      → set_publication_interval now interval b ≡ some b'
      → core b' ≡ core b
  unfolding set_publication_interval
  set_publication_interval-core now interval b b' e = ground arith

  submit-IsSound :
      (now : ℕ) (b : BallotBox) (ballot : Ballot) → IsSound b → IsSound (submit now ballot b).0
  unfolding submit
  submit-IsSound now b ballot s =
      let caught_up = IsSound-core b (catch_up now b) (catch_up-core now b) s in
      judge-IsSound (catch_up now b) ballot caught_up

  pub Step-IsSound : {b c : BallotBox} → Step b c → IsSound b → IsSound c
  Step-IsSound {b} (submits now ballot) s = submit-IsSound now b ballot s
  Step-IsSound {b} {c} (opens now e) s = IsSound-core b c (open_poll-core now b c e) s
  Step-IsSound {b} (closes now now') s =
      IsSound-core b (close_poll now now' b) (close_poll-core now now' b) s
  Step-IsSound {b} (reads now) s = IsSound-core b (catch_up now b) (catch_up-core now b) s
  Step-IsSound {b} {c} (retimes now interval e) s =
      IsSound-core b c (set_publication_interval-core now interval b c e) s

  pub Reach-IsSound : {b c : BallotBox} → Reach b c → IsSound b → IsSound c
  Reach-IsSound here s = s
  Reach-IsSound (next r st) s = Step-IsSound st (Reach-IsSound r s)

  -- Whatever is done to a new box, in any order and at any times: both hash chains verify, every
  -- accepted record is of a ballot whose token and signature verify, and no accepted record stands twice.
  pub new_box-IsSound :
      (key : PublicKey) (choices : ℕ) (election : Text) (pair : SigningKeyPair)
      (interval : Option ℕ) (now : ℕ) (b : BallotBox)
      → Reach (new_box key choices election pair interval now) b
      → IsSound b
  unfolding new_box
  new_box-IsSound key choices election pair interval now b r = Reach-IsSound r (record {
    accepted_verifies = unfold verify_chain in refl;
    rejected_verifies = unfold verify_chain in refl;
    genuine = tt;
    indexed = refl;
    distinct = tt;
  })
