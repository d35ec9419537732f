-- ===== src/BallotBox/Cadence.antt =====
-- The publication cadence of src/ovpoc/ballotbox.py: `_publish`, `_catch_up` and
-- `set_publication_interval`.
use online_voting_poc.Prelude.{
  ℕ, zero, suc, ◌+◌, ◌-◌, true, false, ◌||◌, Option, none, some, [], ◌∷◌, ◌++◌, leb, nat_eq,
  if◌then◌else◌,
}
use online_voting_poc.Ledger.{size}
use online_voting_poc.BallotBox.State.{BallotBox, Snapshot, period, opened}
use online_voting_poc.BallotBox.Count.{count}

unfoldable pub snapshot_at : ℕ → BallotBox → Snapshot
snapshot_at at b = record { at = at; after_accepted = size b.accepted; figures = count b }

unfoldable pub publish : ℕ → BallotBox → BallotBox
publish at b = record b { snapshots = b.snapshots ++ snapshot_at at b ∷ [] }

-- One round of the loop of `_catch_up`.
unfoldable pub advance : BallotBox → BallotBox
unfolding publish
advance b = record (publish b.next_boundary b) {
  next_boundary = b.next_boundary + period b.tally_interval_seconds;
}

-- `while now >= self._next_boundary`, for at most the given number of rounds.
unfoldable pub roll : ℕ → ℕ → BallotBox → BallotBox
roll zero now b = b
roll (suc f) now b = elim (leb b.next_boundary now) [ true ↦ roll f now (advance b) | false ↦ b ]

-- The interval is at least a second, so that the rounds never outnumber the seconds passed.
unfoldable pub catch_up : ℕ → BallotBox → BallotBox
unfolding roll
catch_up now b =
    if b.closed || nat_eq (period b.tally_interval_seconds) 0
    then b
    else roll (suc now - b.next_boundary) now b

-- `none` where the code raises RuntimeError: the poll has been opened.
unfoldable pub set_publication_interval : ℕ → Option ℕ → BallotBox → Option BallotBox
set_publication_interval now interval b =
    if opened b
    then none
    else some (record b {
      tally_interval_seconds = interval;
      anchor = now;
      next_boundary = now + period interval;
    })
