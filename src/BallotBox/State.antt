-- ===== src/BallotBox/State.antt =====
-- The state of `BallotBox` in src/ovpoc/ballotbox.py, and the statements that it signs. A reading
-- of the clock is a number of whole seconds: the code floors it, or compares it with whole seconds.
use Prim.Native.String.{String}
use online_voting_poc.Prelude.{
  ℕ, ◌+◌, Bool, false, ◌||◌, Option, none, some, List, [], ◌∷◌, ◌++◌, ◌==◌, String-eq,
}
use online_voting_poc.Prelude.Int.{ℤ, pos}
use online_voting_poc.Prelude.Dict.{Dict}
use online_voting_poc.Bytes.{Bytes, Text}
use online_voting_poc.Base64.{b64, unb64}
use online_voting_poc.Json.{codes, text, boolean, null, number, seconds, Scalar}
use online_voting_poc.Crypto.{Crypto, PublicKey}
use online_voting_poc.Keys.{SigningKeyPair, sign, verify_signature}
use online_voting_poc.Messages.{BallotRecord, BallotRecord-wire, Wire, fields_of, digest}
use online_voting_poc.Ledger.{Ledger, empty}

abbrev pub box_closed : String
box_closed = "voting has closed"

abbrev pub already_accepted : String
already_accepted = "already accepted"

abbrev pub not_open : String
not_open = "the poll has not opened"

-- `{**ballot.to_dict(), "reason": ...}`.
pub record RejectedRecord : Type 0 where
  pub ballot : BallotRecord
  pub reason : String

instance abbrev pub RejectedRecord-wire : Wire RejectedRecord
RejectedRecord-wire = record {
  to_fields = λ r. fields_of r.ballot ++ ("reason", text (codes r.reason)) ∷ [];
}

pub record Act : Type 0 where
  pub phase : String
  pub at : ℕ
  pub signature : Bytes

-- What `_count` returns.
pub record Figures : Type 0 where
  pub counts : List (ℕ × ℕ)
  pub valid : ℕ
  pub invalid : ℕ
  pub protest_codes : Dict ℤ ℕ
  pub voters : ℕ
  pub rejected : ℕ
  pub ledger_head : Text

-- One publication; `at` is the instant that the published label renders.
pub record Snapshot : Type 0 where
  pub at : ℕ
  pub after_accepted : ℕ
  pub figures : Figures

pub record SubmissionResult : Type 0 where
  pub accepted : Bool
  pub reason : String
  pub entry_hash : Bytes
  pub index : Option ℕ
  pub signature : Bytes

pub record BallotBox : Type 0 where
  pub vro_public_key : PublicKey
  pub num_choices : ℕ
  pub tally_interval_seconds : Option ℕ
  pub accepted : Ledger BallotRecord
  pub rejected : Ledger RejectedRecord
  pub closed : Bool
  pub acts : List Act
  pub snapshots : List Snapshot
  pub statement_key : SigningKeyPair
  pub election_id : Text
  pub accepted_records : List Bytes
  pub anchor : ℕ
  pub next_boundary : ℕ

-- `tally_interval_seconds or 0`: no interval and an interval of zero are treated alike.
abbrev pub period : Option ℕ → ℕ
period none = 0
period (some s) = s

-- The dataclass's constructor with `__post_init__`.
unfoldable pub new_box : PublicKey → ℕ → Text → SigningKeyPair → Option ℕ → ℕ → BallotBox
new_box key choices election pair interval now = record {
  vro_public_key = key;
  num_choices = choices;
  tally_interval_seconds = interval;
  accepted = empty;
  rejected = empty;
  closed = false;
  acts = [];
  snapshots = [];
  statement_key = pair;
  election_id = election;
  accepted_records = [];
  anchor = now;
  next_boundary = now + period interval;
}

abbrev pub any_phase : String → List Act → Bool
any_phase phase [] = false
any_phase phase (a ∷ as') = a.phase == phase || any_phase phase as'

abbrev pub opened : BallotBox → Bool
opened b = any_phase "opened" b.acts

abbrev pub index_scalar : Option ℕ → Scalar
index_scalar none = null
index_scalar (some i) = number (pos i)

module _ ⦃crypto : Crypto⦄ where
  unfoldable pub receipt_payload : Text → Bool → String → Option ℕ → Bytes → Bytes
  receipt_payload election accepted reason index entry_hash = digest (
      ("statement", text (codes "ballot-receipt"))
      ∷ ("election_id", text election)
      ∷ ("accepted", boolean accepted)
      ∷ ("reason", text (codes reason))
      ∷ ("index", index_scalar index)
      ∷ ("entry_hash", text (b64 entry_hash))
      ∷ [])

  unfoldable pub phase_payload : Text → String → ℕ → Bytes
  phase_payload election phase at = digest (
      ("statement", text (codes "poll-phase"))
      ∷ ("election_id", text election)
      ∷ ("phase", text (codes phase))
      ∷ ("at", seconds at)
      ∷ [])

  unfoldable pub head_payload : Text → String → Bytes → Bytes
  head_payload election ledger head = digest (
      ("statement", text (codes "registry-head"))
      ∷ ("election_id", text election)
      ∷ ("ledger", text (codes ledger))
      ∷ ("head", text (b64 head))
      ∷ [])

  unfoldable pub verify_phase : Bytes → Text → String → ℕ → Bytes → Bool
  verify_phase key election phase at signature =
      verify_signature key signature (phase_payload election phase at)

  unfoldable pub verify_head : Bytes → Text → String → Bytes → Bytes → Bool
  verify_head key election ledger head signature =
      verify_signature key signature (head_payload election ledger head)

  -- The wire form of a receipt carries the entry hash in base64; `none` where that raises.
  unfoldable pub verify_receipt :
      Bytes → Text → Bool → String → Option ℕ → Text → Bytes → Option Bool
  verify_receipt key election accepted reason index entry_hash signature = elim (unb64 entry_hash) [
    | none ↦ none
    | some hash ↦
        some (verify_signature key signature (receipt_payload election accepted reason index hash))
  ]

  -- `_receipt`, and the receipts of the two refusals that record nothing.
  unfoldable pub receipt : BallotBox → Bool → String → Option ℕ → Bytes → SubmissionResult
  receipt b accepted reason index entry_hash = record {
    accepted = accepted;
    reason = reason;
    entry_hash = entry_hash;
    index = index;
    signature =
        sign b.statement_key (receipt_payload b.election_id accepted reason index entry_hash);
  }
