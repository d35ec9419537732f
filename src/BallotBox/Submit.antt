-- ===== src/BallotBox/Submit.antt =====
-- `BallotBox.submit` of src/ovpoc/ballotbox.py.
use Prim.Native.String.{String}
use online_voting_poc.Prelude.{
  ℕ, true, false, not, none, some, [], contains, add, List-eq, if◌then◌else◌,
}
use online_voting_poc.Bytes.{Bytes}
use online_voting_poc.Crypto.{Crypto}
use online_voting_poc.Keys.{verify_signature}
use online_voting_poc.Messages.{
  Ballot, BallotRecord, BallotRecord-wire, fields_of, to_dict, digest, ballot_payload,
}
use online_voting_poc.Rsabssa.{verify}
use online_voting_poc.Ledger.{append}
use online_voting_poc.BallotBox.State.{
  BallotBox, SubmissionResult, RejectedRecord-wire, opened, receipt, box_closed, already_accepted,
  not_open,
}
use online_voting_poc.BallotBox.Cadence.{catch_up}

module _ ⦃crypto : Crypto⦄ where
  -- The content hash by which a replay is recognised.
  unfoldable pub content_digest : BallotRecord → Bytes
  content_digest p = digest (fields_of p)

  abbrev pub record_digest : Ballot → Bytes
  record_digest ballot = content_digest (to_dict ballot)

  -- A refusal that leaves no record.
  unfoldable pub turn_away : String → BallotBox → BallotBox × SubmissionResult
  turn_away reason b = (b, receipt b false reason none [])

  unfoldable pub reject : String → Ballot → BallotBox → BallotBox × SubmissionResult
  reject reason ballot b =
      let (rejected, entry) =
        append b.rejected (record { ballot = to_dict ballot; reason = reason }) in
      (record b { rejected = rejected }, receipt b false reason (some entry.index) entry.entry_hash)

  unfoldable pub accept : Ballot → BallotBox → BallotBox × SubmissionResult
  accept ballot b =
      let (accepted, entry) = append b.accepted (to_dict ballot) in
      (
        record b {
          accepted = accepted;
          accepted_records = add (record_digest ballot) b.accepted_records;
        },
        receipt b true "accepted" (some entry.index) entry.entry_hash,
      )

  -- The checks of steps 10/1 and 10/2, on a box that has caught up with the clock.
  unfoldable pub judge : Ballot → BallotBox → BallotBox × SubmissionResult
  unfolding turn_away reject accept
  judge ballot b =
      if not (opened b)
      then turn_away not_open b
      else if b.closed
      then turn_away box_closed b
      else if not (verify b.vro_public_key ballot.adhoc_public_key ballot.token)
      then reject "token not signed by VRO" ballot b
      else if not
          (verify_signature ballot.adhoc_public_key ballot.vote_signature (ballot_payload ballot))
      then reject "vote signature invalid" ballot b
      else if contains (record_digest ballot) b.accepted_records
      then reject already_accepted ballot b
      else accept ballot b

  unfoldable pub submit : ℕ → Ballot → BallotBox → BallotBox × SubmissionResult
  unfolding judge
  submit now ballot b = judge ballot (catch_up now b)
