-- ===== src/BallotBox/Phase.antt =====
-- Opening and closing the poll in src/ovpoc/ballotbox.py.
use Prim.Native.String.{String}
use online_voting_poc.Prelude.{
  ℕ, ◌+◌, true, Option, none, some, List, [], ◌∷◌, ◌++◌, ◌==◌, String-eq, if◌then◌else◌,
}
use online_voting_poc.Bytes.{Bytes}
use online_voting_poc.Crypto.{Crypto}
use online_voting_poc.Keys.{sign}
use online_voting_poc.BallotBox.State.{BallotBox, Act, period, opened, phase_payload}
use online_voting_poc.BallotBox.Cadence.{publish, catch_up}

abbrev pub first_act : String → List Act → Option (ℕ × Bytes)
first_act phase [] = none
first_act phase (a ∷ as') =
    if a.phase == phase then some (a.at, a.signature) else first_act phase as'

abbrev pub opened_at : BallotBox → Option (ℕ × Bytes)
opened_at b = first_act "opened" b.acts

abbrev pub closed_at : BallotBox → Option (ℕ × Bytes)
closed_at b = first_act "closed" b.acts

module _ ⦃crypto : Crypto⦄ where
  unfoldable pub signed_act : String → ℕ → BallotBox → Act
  signed_act phase at b = record {
    phase = phase;
    at = at;
    signature = sign b.statement_key (phase_payload b.election_id phase at);
  }

  -- `_declare`; the instant that it returns is the reading of the clock.
  unfoldable pub declare : String → ℕ → BallotBox → BallotBox
  unfolding signed_act
  declare phase now b = record b { acts = b.acts ++ signed_act phase now b ∷ [] }

  -- `none` where the code raises RuntimeError: the poll has been opened before.
  unfoldable pub open_poll : ℕ → BallotBox → Option BallotBox
  unfolding declare
  open_poll now b =
      if opened b
      then none
      else some (record (declare "opened" now b) {
        anchor = now;
        next_boundary = now + period b.tally_interval_seconds;
      })

  -- `close` reads the clock twice: to catch up, and to declare the act.
  unfoldable pub close_poll : ℕ → ℕ → BallotBox → BallotBox
  unfolding catch_up declare publish
  close_poll now now' b = record (publish now' (declare "closed" now' (catch_up now b))) {
    closed = true;
  }
