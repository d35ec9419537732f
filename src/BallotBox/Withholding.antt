-- ===== src/BallotBox/Withholding.antt =====
-- What src/ovpoc/ballotbox.py discloses, and when.
use online_voting_poc.Prelude.{
  ℕ, suc, ◌+◌, ◌-◌, ◌*◌, ◌<◌, ◌≡◌, refl, ap, sym, ◌∙◌, inl, inr, true, false, some, none, List,
  map-append, get_last?, Extends, arith, Bool-cases, ◌||◌, nat_eq,
}
use online_voting_poc.Bytes.{hex}
use online_voting_poc.Crypto.{Crypto}
use online_voting_poc.Messages.{Ballot}
use online_voting_poc.Ledger.{Entry, payloads}
use online_voting_poc.BallotBox.State.{BallotBox, period}
use online_voting_poc.BallotBox.Cadence.{roll, catch_up}
use online_voting_poc.BallotBox.Timer.{
  catch_up-keeps, catch_up-after_rounds, after_rounds, catch_up_no_interval, zero-or-pos,
}
use online_voting_poc.BallotBox.Submit.{submit, judge, turn_away, reject, accept}
use online_voting_poc.BallotBox.Steps.{Reach}
use online_voting_poc.BallotBox.History.{Reach-Follows}
use online_voting_poc.BallotBox.Published.{
  commitments, view_of, last_published, no_publication_yet, tally,
}

catch_up_early : (now : ℕ) (b : BallotBox) → now < b.next_boundary → catch_up now b ≡ b
unfolding catch_up roll
catch_up_early now b h =
    elim (Bool-cases (b.closed || nat_eq (period b.tally_interval_seconds) 0)) [
      | inl idle ↦ rw idle
      | inr active ↦
          let none_left : suc now - b.next_boundary ≡ 0 = omega arith in rw active (rw none_left)
    ]

module _ ⦃crypto : Crypto⦄ where
  judge-cadence :
      (b : BallotBox) (ballot : Ballot)
      → ((judge ballot b).0.snapshots ≡ b.snapshots)
        × ((judge ballot b).0.next_boundary ≡ b.next_boundary)
        × ((judge ballot b).0.tally_interval_seconds ≡ b.tally_interval_seconds)
        × ((judge ballot b).0.closed ≡ b.closed)
  unfolding judge turn_away reject accept
  judge-cadence b ballot = ground arith

  -- A box that has caught up stays as it is when it is read again at the same time, also after a
  -- submission has been judged.
  judge-settled :
      (now : ℕ) (ballot : Ballot) (b : BallotBox)
      → b.closed ≡ false
      → catch_up now (judge ballot (catch_up now b)).0 ≡ (judge ballot (catch_up now b)).0
  judge-settled now ballot b is_open =
      let t = catch_up now b in
      let (_, next, interval, _) = judge-cadence t ballot in
      let same = catch_up-keeps (λ x. x.tally_interval_seconds) (λ b s n. refl) now b in
      elim (zero-or-pos (period b.tally_interval_seconds)) [
        | inl off ↦ catch_up_no_interval now _ (ap period (interval ∙ same) ∙ off)
        | inr on ↦
            let (n, rounds, past, _) = catch_up-after_rounds now b is_open on in
            let due : t.next_boundary ≡ b.next_boundary + n * period b.tally_interval_seconds =
              ap (λ x. x.next_boundary) rounds ∙ (unfold after_rounds in refl) in
            catch_up_early now _ (omega (arith, next, due, past))
      ]

  tally_open :
      (now : ℕ) (b : BallotBox)
      → b.closed ≡ false
      → (tally now b).1 ≡ last_published (catch_up now b) (get_last? (catch_up now b).snapshots)
  unfolding tally
  tally_open now b h = rw h

  last_published_eq :
      (b c : BallotBox)
      → c.snapshots ≡ b.snapshots
      → c.next_boundary ≡ b.next_boundary
      → c.tally_interval_seconds ≡ b.tally_interval_seconds
      → last_published c (get_last? c.snapshots) ≡ last_published b (get_last? b.snapshots)
  unfolding no_publication_yet
  last_published_eq b c s n i = ground arith

  -- While the poll is open a submission changes nothing in the tally that is asked for at the same
  -- time: neither the figures that were published last nor the refusal.
  pub tally-submit :
      (now : ℕ) (ballot : Ballot) (b : BallotBox)
      → b.closed ≡ false
      → (tally now (submit now ballot b).0).1 ≡ (tally now b).1
  unfolding submit
  tally-submit now ballot b is_open =
      let t = catch_up now b in
      let c = (judge ballot t).0 in
      let (snapshots, next, interval, closed) = judge-cadence t ballot in
      let still = closed ∙ catch_up-keeps (λ x. x.closed) (λ b s n. refl) now b ∙ is_open in
      tally_open now c still
      ∙ ap (λ x. last_published x (get_last? x.snapshots)) (judge-settled now ballot b is_open)
      ∙ last_published_eq t c snapshots next interval
      ∙ sym (tally_open now b is_open)

  Extends-commitments :
      {P : Type 0} (xs ys : List (Entry P))
      → Extends xs ys
      → Extends (commitments xs) (commitments ys)
  Extends-commitments xs ys (rest, e) =
      (commitments rest, ap commitments e ∙ map-append (λ e. (e.index, hex e.entry_hash)) xs rest)

  -- Before the close the view carries no record, from the close on all of them; and whatever
  -- happens to the box, the commitments of the earlier view stand at the head of those of the later one.
  pub view_discloses :
      (b c : BallotBox)
      → Reach b c
      → let v = view_of b in
        let w = view_of c in
        (b.closed ≡ false → v.records ≡ none)
        × (b.closed ≡ true → v.records ≡ some (payloads b.accepted, payloads b.rejected))
        × (b.closed ≡ true → w.records ≡ v.records)
        × Extends v.accepted_commitments w.accepted_commitments
        × Extends v.rejected_commitments w.rejected_commitments
  unfolding view_of
  view_discloses b c r =
      let f = Reach-Follows r in
      (
        λ h. rw h,
        λ h. rw h,
        λ h. let (shut, acc, rej) = f.sealed h in rw (h, shut, acc, rej),
        Extends-commitments b.accepted.entries c.accepted.entries f.accepted,
        Extends-commitments b.rejected.entries c.rejected.entries f.rejected,
      )
