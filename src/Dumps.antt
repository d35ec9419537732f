-- ===== src/Dumps.antt =====
-- What src/service/api.py serves for checking elsewhere: `ledger_dump` and `releases_dump`, and the
-- bytes they are downloaded as.
use Prim.Native.String.{String}
use online_voting_poc.Prelude.{ℕ, Option, none, some, List, [], ◌∷◌, map}
use online_voting_poc.Bytes.{Bytes, Text, hex}
use online_voting_poc.Base64.{b64}
use online_voting_poc.Json.{codes}
use online_voting_poc.Json.Value.{
  Value, array, items_of, object, scalars_of, string, count_of, dictionary, canonical_value,
}
use online_voting_poc.Crypto.{Crypto}
use online_voting_poc.Messages.{Wire, fields_of, BallotRecord, BallotRecord-wire}
use online_voting_poc.BallotBox.State.{BallotBox, RejectedRecord, RejectedRecord-wire}
use online_voting_poc.BallotBox.Published.{View, published_view}
use online_voting_poc.Vro.State.{Vro}
use online_voting_poc.Vro.Query.{signed_release_head, signed_release_count}
use online_voting_poc.Election.{ElectionConfig, digest_hex}

-- The parts of `Deployment` in src/service/state.py that hold the election.
pub record Deployment : Type 0 where
  pub vro : Vro
  pub ebb : BallotBox
  pub config : ElectionConfig

-- A row of the dump; `recorded` is the source's key `record`.
pub record Row (P : Type 0) : Type 0 where
  pub index : ℕ
  pub commitment : Text
  pub recorded : P

pub record LedgerDump : Type 0 where
  pub format : String
  pub election_id : Text
  pub configuration_digest : Text
  pub genesis_hash : Text
  pub accepted : List (Row BallotRecord)
  pub rejected : List (Row RejectedRecord)
  pub accepted_head : Text
  pub rejected_head : Text
  pub accepted_head_signature : Text
  pub rejected_head_signature : Text

-- An entry of the release register: its index and its payload.
pub record ReleaseRow : Type 0 where
  pub index : ℕ
  pub commitment : Text

pub record ReleasesDump : Type 0 where
  pub format : String
  pub election_id : Text
  pub configuration_digest : Text
  pub genesis_hash : Text
  pub entries : List ReleaseRow
  pub head : Text
  pub head_signature : Text
  pub count : ℕ
  pub count_signature : Text
  pub supervisor_downloads : ℕ

-- `zip` of the commitments and the records.
abbrev pub zip_rows : {P : Type 0} → List (ℕ × Text) → List P → List (Row P)
zip_rows ((i, c) ∷ cs) (p ∷ ps) =
    record { index = i; commitment = c; recorded = p } ∷ zip_rows cs ps
zip_rows _ _ = []

unfoldable pub row_value : {P : Type 0} ⦃w : Wire P⦄ → Row P → Value
row_value r = dictionary (
    ("index", count_of r.index)
    ∷ ("commitment", string r.commitment)
    ∷ ("record", object (scalars_of (fields_of r.recorded)))
    ∷ [])

unfoldable pub ledger_value : LedgerDump → Value
unfolding row_value
ledger_value d = dictionary (
    ("format", string (codes d.format))
    ∷ ("election_id", string d.election_id)
    ∷ ("configuration_digest", string d.configuration_digest)
    ∷ ("genesis_hash", string d.genesis_hash)
    ∷ ("accepted", array (items_of row_value d.accepted))
    ∷ ("rejected", array (items_of row_value d.rejected))
    ∷ (
      "heads",
      dictionary (("accepted", string d.accepted_head) ∷ ("rejected", string d.rejected_head) ∷ []),
    )
    ∷ (
      "head_signatures",
      dictionary (
          ("accepted", string d.accepted_head_signature)
          ∷ ("rejected", string d.rejected_head_signature)
          ∷ []),
    )
    ∷ [])

module _ ⦃crypto : Crypto⦄ where
  -- The dump of a view that shows the records.
  unfoldable pub dump_of :
      ElectionConfig → View → List BallotRecord × List RejectedRecord → LedgerDump
  dump_of config view (accepted, rejected) = record {
    format = "ovpoc-ledger/1";
    election_id = config.election_id;
    configuration_digest = digest_hex config;
    genesis_hash = hex config.genesis_hash;
    accepted = zip_rows view.accepted_commitments accepted;
    rejected = zip_rows view.rejected_commitments rejected;
    accepted_head = view.accepted_head;
    rejected_head = view.rejected_head;
    accepted_head_signature = view.accepted_head_signature;
    rejected_head_signature = view.rejected_head_signature;
  }

  -- `none` where the code raises BoxStillOpen. The box catches up with the clock either way.
  unfoldable pub ledger_dump : ℕ → Deployment → Deployment × Option LedgerDump
  unfolding dump_of
  ledger_dump now d =
      let (ebb, view) = published_view now d.ebb in
      (
        record d { ebb = ebb },
        elim view.records [ none ↦ none | some records ↦ some (dump_of d.config view records) ],
      )

  unfoldable pub releases_dump : Deployment → ReleasesDump
  releases_dump d =
      let (head, head_signature) = signed_release_head d.vro in
      let (count, count_signature) = signed_release_count d.vro in
      record {
        format = "ovpoc-releases/1";
        election_id = d.config.election_id;
        configuration_digest = digest_hex d.config;
        genesis_hash = hex d.config.genesis_hash;
        entries =
            map (λ e. record { index = e.index; commitment = e.payload.commitment })
              d.vro.release_log.entries;
        head = hex head;
        head_signature = b64 head_signature;
        count = count;
        count_signature = b64 count_signature;
        supervisor_downloads = d.vro.supervisor_downloads;
      }

-- What `/ledger` serves.
unfoldable pub ledger_bytes : LedgerDump → Bytes
unfolding ledger_value
ledger_bytes d = canonical_value (ledger_value d)
