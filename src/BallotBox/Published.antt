-- ===== src/BallotBox/Published.antt =====
-- What src/ovpoc/ballotbox.py shows: `published_view` and `tally`.
use Prim.Native.String.{String}
use online_voting_poc.Prelude.{ℕ, Option, none, some, List, map, get_last?, nat_eq, if◌then◌else◌}
use online_voting_poc.Bytes.{Text, hex}
use online_voting_poc.Base64.{b64}
use online_voting_poc.Crypto.{Crypto}
use online_voting_poc.Keys.{public_bytes, sign}
use online_voting_poc.Messages.{BallotRecord}
use online_voting_poc.Ledger.{Entry, head, size, payloads}
use online_voting_poc.BallotBox.State.{
  BallotBox, RejectedRecord, Figures, Snapshot, period, opened, head_payload,
}
use online_voting_poc.BallotBox.Count.{count}
use online_voting_poc.BallotBox.Cadence.{catch_up}

-- A row of `commitments`: the index, and the entry hash in hexadecimal.
abbrev pub commitments : {P : Type 0} → List (Entry P) → List (ℕ × Text)
commitments = map (λ e. (e.index, hex e.entry_hash))

-- An act as it is published, its signature in base64.
pub record PublishedAct : Type 0 where
  pub phase : String
  pub at : ℕ
  pub signature : Text

pub record View : Type 0 where
  pub phase : String
  pub accepted_commitments : List (ℕ × Text)
  pub rejected_commitments : List (ℕ × Text)
  pub accepted_head : Text
  pub rejected_head : Text
  pub accepted_head_signature : Text
  pub rejected_head_signature : Text
  pub statement_key : Text
  pub acts : List PublishedAct
  pub accepted_count : ℕ
  pub rejected_count : ℕ
  pub running_tally : List Snapshot
  -- `view["records"]`, where the key is there.
  pub records : Option (List BallotRecord × List RejectedRecord)

-- Why `tally` raises BoxStillOpen: no interval is set, or the first boundary is at this instant.
pub data StillOpen : Type 0 where
  no_interval : StillOpen
  first_due : ℕ → StillOpen

pub data Tally : Type 0 where
  final : Figures → Tally
  published : Snapshot → Tally
  still_open : StillOpen → Tally

abbrev pub phase_name : BallotBox → String
phase_name b = if b.closed then "closed" else if opened b then "open" else "not opened"

module _ ⦃crypto : Crypto⦄ where
  unfoldable pub view_of : BallotBox → View
  view_of b = record {
    phase = phase_name b;
    accepted_commitments = commitments b.accepted.entries;
    rejected_commitments = commitments b.rejected.entries;
    accepted_head = hex (head b.accepted);
    rejected_head = hex (head b.rejected);
    accepted_head_signature =
        b64 (sign b.statement_key (head_payload b.election_id "accepted" (head b.accepted)));
    rejected_head_signature =
        b64 (sign b.statement_key (head_payload b.election_id "rejected" (head b.rejected)));
    statement_key = b64 (public_bytes b.statement_key);
    acts = map (λ a. record { phase = a.phase; at = a.at; signature = b64 a.signature }) b.acts;
    accepted_count = size b.accepted;
    rejected_count = size b.rejected;
    running_tally = b.snapshots;
    records = if b.closed then some (payloads b.accepted, payloads b.rejected) else none;
  }

  -- Reading the box also lets it catch up with the clock.
  unfoldable pub published_view : ℕ → BallotBox → BallotBox × View
  unfolding view_of
  published_view now b = let b' = catch_up now b in (b', view_of b')

unfoldable pub no_publication_yet : BallotBox → StillOpen
no_publication_yet b =
    if nat_eq (period b.tally_interval_seconds) 0 then no_interval else first_due b.next_boundary

abbrev pub last_published : BallotBox → Option Snapshot → Tally
last_published b none = still_open (no_publication_yet b)
last_published b (some s) = published s

unfoldable pub tally : ℕ → BallotBox → BallotBox × Tally
unfolding no_publication_yet
tally now b =
    let b' = catch_up now b in
    if b.closed then (b, final (count b)) else (b', last_published b' (get_last? b'.snapshots))
