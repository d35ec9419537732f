-- ===== src/BallotBox/History.antt =====
-- What later calls cannot undo in a box of src/ovpoc/ballotbox.py.
use online_voting_poc.Prelude.{
  ℕ, ◌≡◌, refl, ap, sym, ◌∙◌, inl, inr, true, false, Option, some, List, [], ◌∷◌, ◌++◌, contains,
  contains-add, List-eq, arith, Bool-cases, Extends, append-nil, append_assoc, eq_refl,
}
use online_voting_poc.Bytes.{Bytes}
use online_voting_poc.Crypto.{Crypto}
use online_voting_poc.Messages.{Ballot, BallotRecord, BallotRecord-wire, to_dict, Wire}
use online_voting_poc.Ledger.{Ledger, append, new_entry}
use online_voting_poc.BallotBox.State.{BallotBox, RejectedRecord, RejectedRecord-wire}
use online_voting_poc.BallotBox.Cadence.{catch_up, set_publication_interval, publish}
use online_voting_poc.BallotBox.Timer.{catch_up-keeps}
use online_voting_poc.BallotBox.Phase.{open_poll, close_poll, declare}
use online_voting_poc.BallotBox.Submit.{record_digest, accept, judge, submit, turn_away, reject}
use online_voting_poc.BallotBox.Verdict.{
  IsAcceptable, judge-accept, accepted-IsAcceptable, not_accepted-keeps, submit_records,
  submit-accepted_iff, keeps_IsAcceptable,
}
use online_voting_poc.BallotBox.Steps.{
  Step, submits, opens, closes, reads, retimes, Reach, here, next,
}

Extends-same {ℓ} : {A : Type ℓ} (xs ys : List A) → ys ≡ xs → Extends xs ys
Extends-same xs ys e = ([], e ∙ sym (append-nil xs))

Extends-trans {ℓ} : {A : Type ℓ} (xs ys zs : List A) → Extends xs ys → Extends ys zs → Extends xs zs
Extends-trans xs ys zs (r, e) (s, f) = (r ++ s, f ∙ ap (λ l. l ++ s) e ∙ append_assoc xs r s)

module _ ⦃crypto : Crypto⦄ where
  Extends-append :
      {P : Type 0} ⦃w : Wire P⦄ (l : Ledger P) (p : P) {m : Ledger P}
      → m ≡ (append l p).0
      → Extends l.entries m.entries
  Extends-append l p e = (new_entry l p ∷ [], ap (λ t. t.entries) e ∙ (unfold append in refl))

  -- Both ledgers of the later box begin with those of the earlier one, and a closed box stays
  -- closed with the same ledgers.
  pub record Follows (b c : BallotBox) : Type 0 where
    pub accepted : Extends b.accepted.entries c.accepted.entries
    pub rejected : Extends b.rejected.entries c.rejected.entries
    pub remembers :
        (d : Bytes) → contains d b.accepted_records ≡ true → contains d c.accepted_records ≡ true
    pub sealed :
        b.closed ≡ true → (c.closed ≡ true) × (c.accepted ≡ b.accepted) × (c.rejected ≡ b.rejected)

  abbrev kept : BallotBox → Ledger BallotRecord × Ledger RejectedRecord × List Bytes
  kept b = (b.accepted, b.rejected, b.accepted_records)

  Follows-kept :
      (b c : BallotBox) → kept c ≡ kept b → (b.closed ≡ true → c.closed ≡ true) → Follows b c
  Follows-kept b c e stays =
      let acc = ap (λ t. t.0) e in
      let rej = ap (λ t. t.1) e in
      let recs = ap (λ t. t.2) e in
      record {
        accepted = Extends-same _ _ (ap (λ l. l.entries) acc);
        rejected = Extends-same _ _ (ap (λ l. l.entries) rej);
        remembers = λ d h. ap (contains d) recs ∙ h;
        sealed = λ h. (stays h, acc, rej);
      }

  Follows-trans : {b c d : BallotBox} → Follows b c → Follows c d → Follows b d
  Follows-trans f g = record {
    accepted = Extends-trans _ _ _ f.accepted g.accepted;
    rejected = Extends-trans _ _ _ f.rejected g.rejected;
    remembers = λ d h. g.remembers d (f.remembers d h);
    sealed = λ h.
        let (shut, acc, rej) = f.sealed h in
        let (shut', acc', rej') = g.sealed shut in (shut', acc' ∙ acc, rej' ∙ rej);
  }

  judge-remembers :
      (b : BallotBox) (ballot : Ballot) (d : Bytes)
      → contains d b.accepted_records ≡ true
      → contains d (judge ballot b).0.accepted_records ≡ true
  judge-remembers b ballot d h = elim (Bool-cases (judge ballot b).1.accepted) [
    | inl taken ↦
        rw (judge-accept b ballot (accepted-IsAcceptable b ballot taken)) (
          unfold accept in ground (arith, contains-add d (record_digest ballot) b.accepted_records))
    | inr refused ↦ ap (contains d) (not_accepted-keeps b ballot refused).1 ∙ h
  ]

  submit_closed :
      (now : ℕ) (ballot : Ballot) (b : BallotBox) → (submit now ballot b).0.closed ≡ b.closed
  unfolding submit judge turn_away reject accept
  submit_closed now ballot b = ground (arith, catch_up-keeps (λ x. x.closed) (λ b s n. refl) now b)

  submit-Follows : (now : ℕ) (ballot : Ballot) (b : BallotBox) → Follows b (submit now ballot b).0
  submit-Follows now ballot b = elim (submit_records now b ballot) [
    | inl (running, closed, taken, acc, rej) ↦ record {
      accepted = Extends-append b.accepted (to_dict ballot) acc;
      rejected = Extends-same _ _ (ap (λ l. l.entries) rej);
      remembers = remembers;
      sealed = λ h. absurd (not_both h closed);
    }
    | inr (inl (running, closed, refused, acc, rej)) ↦ record {
      accepted = Extends-same _ _ (ap (λ l. l.entries) acc);
      rejected = Extends-append b.rejected _ rej;
      remembers = remembers;
      sealed = λ h. absurd (not_both h closed);
    }
    | inr (inr (idle, refused, acc, rej)) ↦ record {
      accepted = Extends-same _ _ (ap (λ l. l.entries) acc);
      rejected = Extends-same _ _ (ap (λ l. l.entries) rej);
      remembers = remembers;
      sealed = λ h. (submit_closed now ballot b ∙ h, acc, rej);
    }
  ]
    where
      not_both : b.closed ≡ true → b.closed ≡ false → ⊥
      not_both h k = cc

      remembers :
          (d : Bytes)
          → contains d b.accepted_records ≡ true
          → contains d (submit now ballot b).0.accepted_records ≡ true
      remembers d h =
          unfold submit in
          judge-remembers (catch_up now b) ballot d
            (ap (contains d) (catch_up-keeps (λ x. x.accepted_records) (λ b s n. refl) now b) ∙ h)

  catch_up-Follows : (now : ℕ) (b : BallotBox) → Follows b (catch_up now b)
  catch_up-Follows now b =
      Follows-kept b (catch_up now b) (catch_up-keeps kept (λ b s n. refl) now b)
        (λ h. catch_up-keeps (λ x. x.closed) (λ b s n. refl) now b ∙ h)

  close_poll-Follows : (now now' : ℕ) (b : BallotBox) → Follows b (close_poll now now' b)
  unfolding close_poll publish declare
  close_poll-Follows now now' b =
      Follows-kept b (close_poll now now' b) (catch_up-keeps kept (λ b s n. refl) now b) (λ h. refl)

  open_poll-kept :
      (now : ℕ) (b c : BallotBox)
      → open_poll now b ≡ some c
      → (kept c ≡ kept b) × (c.closed ≡ b.closed)
  unfolding open_poll declare
  open_poll-kept now b c e = ground arith

  set_publication_interval-kept :
      (now : ℕ) (interval : Option ℕ) (b c : BallotBox)
      → set_publication_interval now interval b ≡ some c
      → (kept c ≡ kept b) × (c.closed ≡ b.closed)
  unfolding set_publication_interval
  set_publication_interval-kept now interval b c e = ground arith

  Step-Follows : {b c : BallotBox} → Step b c → Follows b c
  Step-Follows {b} (submits now ballot) = submit-Follows now ballot b
  Step-Follows {b} {c} (opens now e) =
      let (same, shut) = open_poll-kept now b c e in Follows-kept b c same (λ h. shut ∙ h)
  Step-Follows {b} (closes now now') = close_poll-Follows now now' b
  Step-Follows {b} (reads now) = catch_up-Follows now b
  Step-Follows {b} {c} (retimes now interval e) =
      let (same, shut) = set_publication_interval-kept now interval b c e in
      Follows-kept b c same (λ h. shut ∙ h)

  -- Whatever is done to a box later, in any order: both ledgers only grow at their ends, a content
  -- hash once recorded stays recorded, and once the box is closed it stays closed with both ledgers
  -- unchanged.
  pub Reach-Follows : {b c : BallotBox} → Reach b c → Follows b c
  Reach-Follows {b} here = Follows-kept b b refl (λ h. h)
  Reach-Follows (next r st) = Follows-trans (Reach-Follows r) (Step-Follows st)

  accept-remembers :
      (now : ℕ) (b : BallotBox) (ballot : Ballot)
      → IsAcceptable b ballot
      → contains (record_digest ballot) (submit now ballot b).0.accepted_records ≡ true
  unfolding submit
  accept-remembers now b ballot a =
      let t = catch_up now b in
      rw (judge-accept t ballot ((keeps_IsAcceptable now b ballot).1 a)) (
        unfold accept in
        rw (
          contains-add (record_digest ballot) (record_digest ballot) t.accepted_records,
          eq_refl (record_digest ballot),
        ))

  -- An acceptable ballot that was submitted once is refused whenever it is submitted again, whatever was done to
  -- the box between, and the accepted ledger stays as it is.
  pub replay_refused :
      (now later : ℕ) (b c : BallotBox) (ballot : Ballot)
      → IsAcceptable b ballot
      → Reach (submit now ballot b).0 c
      → let (c', r) = submit later ballot c in (r.accepted ≡ false) × (c'.accepted ≡ c.accepted)
  replay_refused now later b c ballot a r =
      let known =
        (Reach-Follows r).remembers (record_digest ballot) (accept-remembers now b ballot a) in
      elim (submit_records later c ballot) [
        | inl (running, closed, taken, acc, rej) ↦
            absurd (not_new c ballot ((submit-accepted_iff later c ballot).0 taken) known)
        | inr (inl (running, closed, refused, acc, rej)) ↦ (refused, acc)
        | inr (inr (idle, refused, acc, rej)) ↦ (refused, acc)
      ]
    where
      not_new :
          (c : BallotBox) (ballot : Ballot)
          → IsAcceptable c ballot
          → contains (record_digest ballot) c.accepted_records ≡ true
          → ⊥
      not_new c ballot a h = ground (arith, a.is_new)
