-- ===== src/BallotBox/Restore.antt =====
-- Storing a poll and reloading it, as in src/ovpoc/ballotbox.py: `stored_state` and `restore`.
use Prim.Native.String.{String}
use online_voting_poc.Prelude.{
  ℕ, true, ◌&&◌, Option, none, some, List, [], ◌∷◌, map, add, List-eq, ◌==◌, if◌then◌else◌,
}
use online_voting_poc.Bytes.{Bytes, Text}
use online_voting_poc.Base64.{b64}
use online_voting_poc.Crypto.{Crypto, PublicKey}
use online_voting_poc.Keys.{SigningKeyPair}
use online_voting_poc.Messages.{BallotRecord, BallotRecord-wire}
use online_voting_poc.Ledger.{head, payloads, append, append_all}
use online_voting_poc.BallotBox.State.{
  BallotBox, RejectedRecord, RejectedRecord-wire, Act, Snapshot, new_box,
}
use online_voting_poc.BallotBox.Submit.{content_digest}

pub record StoredBox : Type 0 where
  pub accepted : List BallotRecord
  pub rejected : List RejectedRecord
  pub accepted_head : Text
  pub rejected_head : Text
  -- Phase, instant, and the signature in base64.
  pub acts : List (String × ℕ × Text)
  pub snapshots : List Snapshot

unfoldable pub stored_state : BallotBox → StoredBox
stored_state b = record {
  accepted = payloads b.accepted;
  rejected = payloads b.rejected;
  accepted_head = b64 (head b.accepted);
  rejected_head = b64 (head b.rejected);
  acts = map (λ a. (a.phase, a.at, b64 a.signature)) b.acts;
  snapshots = b.snapshots;
}

module _ ⦃crypto : Crypto⦄ where
  -- The replay of the accepted payloads through `append`, with their content hashes.
  unfoldable pub replay_accepted : BallotBox → List BallotRecord → BallotBox
  replay_accepted b [] = b
  replay_accepted b (p ∷ ps) =
      replay_accepted
        (record b {
          accepted = (append b.accepted p).0;
          accepted_records = add (content_digest p) b.accepted_records;
        })
        ps

  unfoldable pub replay_rejected : BallotBox → List RejectedRecord → BallotBox
  replay_rejected b ps = record b { rejected = append_all b.rejected ps }

  -- The two heads are those that the box is expected to reach; `none` where the code raises
  -- ValueError because it reaches others.
  unfoldable pub restore :
      PublicKey
      → ℕ
      → Text
      → SigningKeyPair
      → Option ℕ
      → ℕ
      → List BallotRecord
      → List RejectedRecord
      → List Act
      → List Snapshot
      → Bytes
      → Bytes
      → Option BallotBox
  unfolding replay_accepted replay_rejected
  restore key choices election pair interval now accepted rejected acts snapshots head_a head_r =
      let b =
        replay_rejected (replay_accepted (new_box key choices election pair interval now) accepted)
          rejected in
      if (head b.accepted == head_a) && (head b.rejected == head_r)
      then some (record b { acts = acts; snapshots = snapshots; closed = true })
      else none
