-- ===== src/Tests/Box.antt =====
-- The theorems on the ballot box at a concrete box.
use online_voting_poc.Prelude.{
  ℕ, ◌+◌, ◌*◌, ◌<◌, ◌≤◌, ◌≡◌, ◌↔◌, ◌⊎◌, refl, true, false, none, some, [], ◌∷◌, map, arith, length,
  length-map, List-eq, ℕ-eq, list_eq, Extends,
}
use online_voting_poc.Bytes.{bit_length, from_bytes, to_bytes}
use online_voting_poc.Json.{canonical_bytes}
use online_voting_poc.Keys.{public_bytes, sign, verify_signature, verify_signature-sign}
use online_voting_poc.Messages.{BallotRecord-wire, ballot_payload}
use online_voting_poc.Rsabssa.{verify}
use online_voting_poc.BallotBox.State.{RejectedRecord-wire, period, new_box, verify_receipt}
use online_voting_poc.BallotBox.Cadence.{catch_up}
use online_voting_poc.BallotBox.Phase.{open_poll}
use online_voting_poc.BallotBox.Submit.{submit}
use online_voting_poc.BallotBox.Verdict.{IsAcceptable, submit-accepted_iff, submit-verify_receipt}
use online_voting_poc.BallotBox.Steps.{submits, opens, closes, Reach, here, next}
use online_voting_poc.BallotBox.History.{Follows, Reach-Follows, replay_refused}
use online_voting_poc.BallotBox.Timer.{after_rounds, catch_up-after_rounds, catch_up-catch_up}
use online_voting_poc.BallotBox.Count.{find_ballot, effective_ballots, count, get_count, sum}
use online_voting_poc.BallotBox.Supersession.{last_under, find_ballot-last_under}
use online_voting_poc.BallotBox.Totals.{occurrences, count_lem}
use online_voting_poc.BallotBox.Restore.{restore}
use online_voting_poc.BallotBox.Reloading.{restore-stored, restore_detects_alteration}
use online_voting_poc.BallotBox.Published.{tally, view_of}
use online_voting_poc.BallotBox.Withholding.{tally-submit, view_discloses}
use online_voting_poc.Ledger.{verify_chain, append, payloads, size, head}
use online_voting_poc.Ledger.Chain.{chain}
use online_voting_poc.Ledger.Tamper.{Broken, hashed, serialised}
use online_voting_poc.Base64.{b64, symbol}
use online_voting_poc.Prelude.Dict.{lookup, values}
use online_voting_poc.Prelude.Int.{ℤ, pos, in_range}
use online_voting_poc.BallotBox.Invariant.{IsSound, new_box-IsSound}
use online_voting_poc.Tests.Toy.{
  toy, office_key, election, pair, ad_hoc, ballot, unsigned_ballot, box_new, box_open, box_voted,
  box_closed,
}

pub opens_box : open_poll 1 box_new ≡ some box_open
unfolding open_poll new_box
opens_box = refl

box_open-Reach : Reach box_new box_open
box_open-Reach = next here (opens 1 opens_box)

box_voted-Reach : Reach box_new box_voted
box_voted-Reach = next box_open-Reach (submits 2 ballot)

pub box_closed-Reach : Reach box_new box_closed
box_closed-Reach = next box_voted-Reach (closes 50 50)

new_box-IsSound_example : IsSound box_voted
new_box-IsSound_example =
    new_box-IsSound office_key.public 2 election pair (some 10) 0 box_voted box_voted-Reach

ballot-IsAcceptable : IsAcceptable box_open ballot
unfolding open_poll new_box verify public_bytes ballot_payload bit_length from_bytes
ballot-IsAcceptable = record {
  is_opened = refl;
  is_not_closed = refl;
  is_certified = refl;
  is_signed = verify_signature-sign ad_hoc (ballot_payload unsigned_ballot);
  is_new = refl;
}

box_open_is_open : box_open.closed ≡ false
unfolding open_poll new_box
box_open_is_open = refl

submit-accepted_iff_example :
    ((submit 2 ballot box_open).1.accepted ≡ true) ↔ IsAcceptable box_open ballot
submit-accepted_iff_example = submit-accepted_iff 2 box_open ballot

submit-verify_receipt_example :
    let r = (submit 2 ballot box_open).1 in
    verify_receipt
      (public_bytes box_open.statement_key)
      box_open.election_id
      r.accepted
      r.reason
      r.index
      (b64 r.entry_hash)
      r.signature
    ≡ some true
submit-verify_receipt_example = submit-verify_receipt 2 box_open ballot

Reach-Follows_example : Follows box_voted box_closed
Reach-Follows_example = Reach-Follows (next here (closes 50 50))

replay_refused_example :
    let (c', r) = submit 3 ballot box_voted in
    (r.accepted ≡ false) × (c'.accepted ≡ box_voted.accepted)
replay_refused_example = replay_refused 2 3 box_open box_voted ballot ballot-IsAcceptable here

box_open_interval : 0 < period box_open.tally_interval_seconds
unfolding open_poll new_box
box_open_interval = omega arith

catch_up-after_rounds_example :
    (n : ℕ) × (catch_up 25 box_open ≡ after_rounds n box_open)
    × (25 < box_open.next_boundary + n * period box_open.tally_interval_seconds)
    × ((k : ℕ) → k < n → box_open.next_boundary + k * period box_open.tally_interval_seconds ≤ 25)
catch_up-after_rounds_example = catch_up-after_rounds 25 box_open box_open_is_open box_open_interval

catch_up-catch_up_example : catch_up 40 (catch_up 25 box_voted) ≡ catch_up 40 box_voted
catch_up-catch_up_example = catch_up-catch_up 25 40 box_voted (omega arith)

find_ballot-last_under_example :
    (find_ballot box_voted (9 ∷ []) ≡ last_under (b64 (9 ∷ [])) (payloads box_voted.accepted))
    × (lookup (b64 (9 ∷ [])) (effective_ballots box_voted)
        ≡ last_under (b64 (9 ∷ [])) (payloads box_voted.accepted))
find_ballot-last_under_example = find_ballot-last_under box_voted (9 ∷ [])

count_lem_example :
    let ballots = values (effective_ballots box_voted) in
    let f = count box_voted in
    ((i : ℕ)
      → 1 ≤ i
      → i ≤ box_voted.num_choices
      → lookup i f.counts ≡ some (occurrences (pos i) ballots))
    × ((s : ℤ)
        → in_range box_voted.num_choices s ≡ false
        → get_count s f.protest_codes ≡ occurrences s ballots)
    × (sum (values f.counts) ≡ f.valid)
    × (f.valid + f.invalid ≡ f.voters)
    × (f.voters ≡ length ballots)
count_lem_example = count_lem box_voted

restore-stored_example :
    restore box_voted.vro_public_key box_voted.num_choices box_voted.election_id
      box_voted.statement_key box_voted.tally_interval_seconds 99
      (payloads box_voted.accepted)
      (payloads box_voted.rejected)
      box_voted.acts
      box_voted.snapshots
      (head box_voted.accepted)
      (head box_voted.rejected)
    ≡ some (record box_voted {
      closed = true;
      anchor = 99;
      next_boundary = 99 + period box_voted.tally_interval_seconds;
    })
restore-stored_example = restore-stored box_voted 99 new_box-IsSound_example

tally-submit_example : (tally 2 (submit 2 ballot box_open).0).1 ≡ (tally 2 box_open).1
tally-submit_example = tally-submit 2 ballot box_open box_open_is_open

view_discloses_example :
    let v = view_of box_voted in
    let w = view_of box_closed in
    (box_voted.closed ≡ false → v.records ≡ none)
    × (box_voted.closed ≡ true
        → v.records ≡ some (payloads box_voted.accepted, payloads box_voted.rejected))
    × (box_voted.closed ≡ true → w.records ≡ v.records)
    × Extends v.accepted_commitments w.accepted_commitments
    × Extends v.rejected_commitments w.rejected_commitments
view_discloses_example = view_discloses box_voted box_closed (next here (closes 50 50))

one_accepted : size box_voted.accepted ≡ 1
unfolding open_poll new_box submit catch_up verify bit_length from_bytes verify_signature list_eq
    sign ballot_payload to_bytes canonical_bytes b64 symbol append
one_accepted = refl

none_rejected : size box_voted.rejected ≡ 0
unfolding open_poll new_box submit catch_up verify bit_length from_bytes verify_signature list_eq
    sign ballot_payload to_bytes canonical_bytes b64 symbol
none_rejected = refl

restore_detects_alteration_example :
    let c = record box_voted {
      closed = true;
      anchor = 99;
      next_boundary = 99 + period box_voted.tally_interval_seconds;
    } in
    ((c.closed ≡ true)
      × (verify_chain c.accepted ≡ true)
      × (verify_chain c.rejected ≡ true)
      × (map serialised (payloads c.accepted) ≡ map serialised (payloads box_voted.accepted))
      × (map serialised (payloads c.rejected) ≡ map serialised (payloads box_voted.rejected)))
    ⊎ Broken (hashed (chain (payloads box_voted.accepted))) (hashed box_voted.accepted)
    ⊎ Broken (hashed (chain (payloads box_voted.rejected))) (hashed box_voted.rejected)
restore_detects_alteration_example =
    restore_detects_alteration box_voted _ 99 (payloads box_voted.accepted)
      (payloads box_voted.rejected) box_voted.acts box_voted.snapshots new_box-IsSound_example
      (omega (arith, one_accepted)) (omega (arith, none_rejected))
      (omega (arith, one_accepted, length-map (λ e. e.payload) box_voted.accepted.entries))
      (omega (arith, none_rejected, length-map (λ e. e.payload) box_voted.rejected.entries))
      restore-stored_example
