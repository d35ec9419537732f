-- ===== src/Verifier.antt =====
-- The independent verifier, tools/verify_election.py: `run_checks` over the three downloaded files.
-- The files are given as they are read by `json.loads`, and the ledger also as its bytes.
pub mod Checks
pub mod Agreement
pub mod Verdict
pub mod Files
pub mod Sections
pub mod Evidence
pub mod Typed
pub mod Served
pub mod Honest
pub mod Figures
pub mod Forgery
use online_voting_poc.Prelude.{
  ℕ, suc, Bool, true, false, not, Option, some, List, [], ◌∷◌, ◌++◌, length, map, leb, nat_eq, ℕ-eq,
  List-eq, String-eq, ◌==◌, add, if◌then◌else◌,
}
use online_voting_poc.Prelude.Int.{ℤ, pos, ℤ-eq, in_range}
use online_voting_poc.Prelude.Dict.{Dict, insert, values}
use online_voting_poc.Prelude.Options.{◌>>=◌}
use online_voting_poc.Bytes.{Bytes, Text, to_bytes, hex, from_hex}
use online_voting_poc.Base64.{b64, unb64}
use online_voting_poc.Json.{Fields, codes, text, number, canonical_bytes}
use online_voting_poc.Json.Value.{canonical_value}
use online_voting_poc.Crypto.{Crypto, PublicKey}
use online_voting_poc.Messages.{fields_of, BallotRecord, BallotRecord-wire}
use online_voting_poc.Vro.State.{Release-wire}
use online_voting_poc.BallotBox.Count.{get_count, bump, range_from}
use online_voting_poc.Election.{ConfigFile}
use online_voting_poc.Dumps.{Row, LedgerDump, ReleaseRow, ReleasesDump, ledger_value}
use Checks.{Tally, Report, new_report, section, check, mark_generated}

abbrev pub concat : List Bytes → Bytes
concat [] = []
concat (p ∷ ps) = p ++ concat ps

-- The last record of each ad-hoc key.
unfoldable pub final_from :
    Dict Text BallotRecord → List (Row BallotRecord) → Dict Text BallotRecord
final_from final [] = final
final_from final (e ∷ es) = final_from (insert e.recorded.adhoc_public_key e.recorded final) es

-- `Counter` of the selections.
unfoldable pub selections_from : Dict ℤ ℕ → List BallotRecord → Dict ℤ ℕ
selections_from counts [] = counts
selections_from counts (r ∷ rs) = selections_from (bump r.selection counts) rs

abbrev pub outside : ℕ → Dict ℤ ℕ → Dict ℤ ℕ
outside n [] = []
outside n ((s, k) ∷ counts) = if in_range n s then outside n counts else (s, k) ∷ outside n counts

unfoldable pub tally_of : ConfigFile → Text → LedgerDump → Tally
unfolding final_from selections_from
tally_of config digest ledger =
    let final = final_from [] ledger.accepted in
    let counts = selections_from [] (values final) in
    record {
      election_id = config.election_id;
      configuration_digest = digest;
      options = map (λ c. (c, get_count (pos c) counts)) (range_from 1 config.num_choices);
      outside_the_list = outside config.num_choices counts;
      ballots = length ledger.accepted;
      voters = length final;
      rejected = length ledger.rejected;
    }

module _ ⦃crypto : Crypto⦄ where
  unfoldable pub sha256 : List Bytes → Bytes
  sha256 parts = crypto.sha256 (concat parts)

  unfoldable pub entry_hash : ℕ → Fields → Bytes → Bytes
  unfolding sha256
  entry_hash index payload prev = sha256 (to_bytes 8 index ∷ prev ∷ canonical_bytes payload ∷ [])

  -- `{canonical(e["record"]) for e in accepted}`.
  unfoldable pub distinct_records : List Bytes → List (Row BallotRecord) → List Bytes
  distinct_records seen [] = seen
  distinct_records seen (e ∷ es) =
      distinct_records (add (canonical_bytes (fields_of e.recorded)) seen) es

  unfoldable pub vote_payload : BallotRecord → Bytes
  unfolding sha256
  vote_payload r = sha256 (
      canonical_bytes (
        ("adhoc_public_key", text r.adhoc_public_key)
        ∷ ("nonce", text r.nonce)
        ∷ ("selection", number r.selection)
        ∷ [])
      ∷ [])

  -- The numbers of tokens and of votes that verify; `none` where a value is no base64.
  unfoldable pub signatures : PublicKey → List (Row BallotRecord) → Option (ℕ × ℕ)
  unfolding vote_payload
  signatures key [] = some (0, 0)
  signatures key (e ∷ es) = do
    adhoc ← unb64 e.recorded.adhoc_public_key
    token ← unb64 e.recorded.token
    vote_signature ← unb64 e.recorded.vote_signature
    (tokens, votes) ← signatures key es
    some (
      if crypto.pss_verify key adhoc token then suc tokens else tokens,
      if crypto.ed_verify adhoc vote_signature (vote_payload e.recorded) then suc votes else votes,
    )

  -- The loop over the accepted entries, which ends at the first that does not fit: the head that it
  -- has reached, and whether all fitted.
  unfoldable pub walk : ℕ → Bytes → List (Row BallotRecord) → Bytes × Bool
  unfolding entry_hash
  walk i head [] = (head, true)
  walk i head (e ∷ es) =
      let next = entry_hash i (fields_of e.recorded) head in
      let rest = walk (suc i) next es in
      if not (hex next == e.commitment)
      then (next, false)
      else if not (nat_eq e.index i)
      then (next, false)
      else rest

  unfoldable pub rebuild : ℕ → Bytes → List ReleaseRow → Bytes
  unfolding entry_hash
  rebuild i head [] = head
  rebuild i head (e ∷ es) =
      rebuild (suc i) (entry_hash i (("commitment", text e.commitment) ∷ []) head) es

  unfoldable pub head_statement : Text → Bytes → Bytes
  unfolding sha256
  head_statement election head = sha256 (
      canonical_bytes (
        ("election_id", text election)
        ∷ ("head", text (b64 head))
        ∷ ("ledger", text (codes "accepted"))
        ∷ ("statement", text (codes "registry-head"))
        ∷ [])
      ∷ [])

  unfoldable pub release_head_statement : Text → Bytes → Bytes
  unfolding sha256
  release_head_statement election head = sha256 (
      canonical_bytes (
        ("election_id", text election)
        ∷ ("head", text (b64 head))
        ∷ ("statement", text (codes "release-register-head"))
        ∷ [])
      ∷ [])

  unfoldable pub count_statement : Text → ℕ → Bytes
  unfolding sha256
  count_statement election count = sha256 (
      canonical_bytes (
        ("count", number (pos count))
        ∷ ("election_id", text election)
        ∷ ("statement", text (codes "tokens-released"))
        ∷ [])
      ∷ [])

  -- The sections of `run_checks`, each on the report so far.
  unfoldable pub check_files :
      ConfigFile → Text → Bytes → LedgerDump → ReleasesDump → Report → Report
  check_files config digest bytes ledger releases r =
      let r = section "The files describe this election" r in
      let r = check (ledger.format == "ovpoc-ledger/1") "ledger format understood" r in
      let r = check (ledger.election_id == config.election_id) "ledger names this election" r in
      let r =
        check (ledger.configuration_digest == digest) "ledger pins the configuration being used"
          r in
      let r =
        check (releases.configuration_digest == digest)
          "release register pins the same configuration" r in
      let r =
        check (bytes == canonical_value (ledger_value ledger))
          "ledger is canonically serialised, so its hash is comparable" r in
      let r = mark_generated config.generated r in
      check true
        (if config.generated
          then "this election was GENERATED -- a synthetic electorate, no human chose any selection"
          else "the configuration does not declare a generated electorate")
        r

  unfoldable pub check_ballots : ℕ × ℕ → LedgerDump → Report → Report
  unfolding distinct_records
  check_ballots (tokens_ok, votes_ok) ledger r =
      let n = length ledger.accepted in
      let r = section "Every ballot came from an eligible voter, and said what it says" r in
      let r = check (nat_eq tokens_ok n) "every token signed by the VRO" r in
      let r = check (nat_eq votes_ok n) "every selection signed by its certified key" r in
      check (nat_eq (length (distinct_records [] ledger.accepted)) n)
        "no record appears twice among the accepted" r

  unfoldable pub check_registry : Bytes → Text → Bytes → Bytes → LedgerDump → Report → Report
  unfolding walk head_statement
  check_registry box_key election start signature ledger r =
      let (head, intact) = walk 0 start ledger.accepted in
      let r = section "The registry has not been altered since each ballot was accepted" r in
      let r = check intact "each record hashes to the commitment published for its position" r in
      let r = check (hex head == ledger.accepted_head) "the chain reaches the published head" r in
      check (crypto.ed_verify box_key signature (head_statement election head))
        "the head is signed by the box's published statement key" r

  unfoldable pub check_votes : Report → Report
  check_votes r =
      check true "supersession applied among accepted entries only"
        (section "One vote each, the last one counted" r)

  unfoldable pub check_releases :
      Bytes → Text → Bytes → Bytes → Bytes → ℕ → ReleasesDump → Report → Report
  unfolding rebuild release_head_statement count_statement
  check_releases office_key election start head_signature count_signature voters releases r =
      let head = rebuild 0 start releases.entries in
      let r = section "The count audit, across two components" r in
      let r = check (hex head == releases.head) "the release register rebuilds" r in
      let r =
        check (crypto.ed_verify office_key head_signature (release_head_statement election head))
          "its head is signed by the office" r in
      let r =
        check
          (crypto.ed_verify office_key count_signature (count_statement election releases.count))
          "the released-token count is signed by the office" r in
      check (leb voters releases.count) "distinct ad-hoc keys do not exceed tokens released" r

  -- `none` where a value cannot be decoded and the code raises. `load` is `load_der_public_key`.
  unfoldable pub run_checks :
      (Bytes → Option PublicKey)
      → Bytes
      → ConfigFile
      → Bytes
      → LedgerDump
      → ReleasesDump
      → Option Report
  unfolding check_files signatures check_ballots check_registry check_votes check_releases tally_of
  run_checks load config_bytes config bytes ledger releases = do
    spki ← unb64 config.vro_token_key_spki
    token_key ← load spki
    box_key ← unb64 config.ebb_statement_key
    office_key ← unb64 config.vro_statement_key
    verified ← signatures token_key ledger.accepted
    start ← from_hex ledger.genesis_hash
    signature ← unb64 ledger.accepted_head_signature
    office_start ← from_hex releases.genesis_hash
    head_signature ← unb64 releases.head_signature
    count_signature ← unb64 releases.count_signature
    let digest = hex (crypto.sha256 config_bytes)
    let election = config.election_id
    let tally = tally_of config digest ledger
    let r = check_files config digest bytes ledger releases new_report
    let r = check_ballots verified ledger r
    let r = check_registry box_key election start signature ledger r
    let r = check_votes r
    let r =
        check_releases office_key election office_start head_signature count_signature tally.voters
          releases r
    some (record r { tally = some tally })
