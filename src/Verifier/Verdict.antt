-- ===== src/Verifier/Verdict.antt =====
-- What the verdict of tools/verify_election.py comes to: the conjunction of the checks of
-- `run_checks`, on values that could all be decoded.
use online_voting_poc.Prelude.{
  ℕ, ◌≡◌, Bool, ◌&&◌, Option, some, [], length, leb, nat_eq, arith, List-eq, String-eq, ◌==◌,
}
use online_voting_poc.Prelude.Options.{bind-elim}
use online_voting_poc.Bytes.{Bytes, Text, hex, from_hex}
use online_voting_poc.Base64.{unb64}
use online_voting_poc.Json.Value.{canonical_value}
use online_voting_poc.Crypto.{Crypto, PublicKey}
use online_voting_poc.Election.{ConfigFile}
use online_voting_poc.Dumps.{LedgerDump, ReleasesDump, ledger_value}
use online_voting_poc.Verifier.Checks.{
  Report, new_report, passes, verdicts, passes-new_report, passes-with_tally, and_assoc,
}
use online_voting_poc.Verifier.{
  run_checks, check_files, check_ballots, check_registry, check_votes, check_releases, signatures,
  walk, rebuild, distinct_records, head_statement, release_head_statement, count_statement,
  tally_of, final_from,
}

-- The values that `run_checks` decodes.
pub record Decoded : Type 0 where
  pub token_key : PublicKey
  pub box_key : Bytes
  pub office_key : Bytes
  pub verified : ℕ × ℕ
  pub start : Bytes
  pub signature : Bytes
  pub office_start : Bytes
  pub head_signature : Bytes
  pub count_signature : Bytes

module _ ⦃crypto : Crypto⦄ where
  pub record IsDecoded (load : Bytes → Option PublicKey) (config : ConfigFile) (ledger : LedgerDump)
      (releases : ReleasesDump) (d : Decoded) : Type 0 where
    pub spki : Bytes
    pub key_text : unb64 config.vro_token_key_spki ≡ some spki
    pub key : load spki ≡ some d.token_key
    pub box : unb64 config.ebb_statement_key ≡ some d.box_key
    pub office : unb64 config.vro_statement_key ≡ some d.office_key
    pub counted : signatures d.token_key ledger.accepted ≡ some d.verified
    pub genesis : from_hex ledger.genesis_hash ≡ some d.start
    pub head_signed : unb64 ledger.accepted_head_signature ≡ some d.signature
    pub office_genesis : from_hex releases.genesis_hash ≡ some d.office_start
    pub releases_signed : unb64 releases.head_signature ≡ some d.head_signature
    pub count_signed : unb64 releases.count_signature ≡ some d.count_signature

  abbrev pub report_of : Bytes → ConfigFile → Bytes → LedgerDump → ReleasesDump → Decoded → Report
  report_of config_bytes config bytes ledger releases d =
      let digest = hex (crypto.sha256 config_bytes) in
      let tally = tally_of config digest ledger in
      let r = check_files config digest bytes ledger releases new_report in
      let r = check_ballots d.verified ledger r in
      let r = check_registry d.box_key config.election_id d.start d.signature ledger r in
      let r = check_votes r in
      let r =
        check_releases d.office_key config.election_id d.office_start d.head_signature
          d.count_signature tally.voters releases r in
      record r { tally = some tally }

  pub decoded-run_checks :
      (load : Bytes → Option PublicKey) (config_bytes : Bytes) (config : ConfigFile) (bytes : Bytes)
      (ledger : LedgerDump) (releases : ReleasesDump) (d : Decoded)
      → IsDecoded load config ledger releases d
      → run_checks load config_bytes config bytes ledger releases
        ≡ some (report_of config_bytes config bytes ledger releases d)
  unfolding run_checks
  decoded-run_checks load config_bytes config bytes ledger releases d i = rw (
    i.key_text, i.key, i.box, i.office, i.counted, i.genesis, i.head_signed, i.office_genesis,
    i.releases_signed, i.count_signed,
  )

  pub run_checks-decoded :
      (load : Bytes → Option PublicKey) (config_bytes : Bytes) (config : ConfigFile) (bytes : Bytes)
      (ledger : LedgerDump) (releases : ReleasesDump) (r : Report)
      → run_checks load config_bytes config bytes ledger releases ≡ some r
      → (d : Decoded) × IsDecoded load config ledger releases d
        × (report_of config_bytes config bytes ledger releases d ≡ r)
  unfolding run_checks
  run_checks-decoded load config_bytes config bytes ledger releases r h =
      bind-elim (unb64 config.vro_token_key_spki) h (λ spki e1 h.
        bind-elim (load spki) h (λ token_key e2 h.
          bind-elim (unb64 config.ebb_statement_key) h (λ box_key e3 h.
            bind-elim (unb64 config.vro_statement_key) h (λ office_key e4 h.
              bind-elim (signatures token_key ledger.accepted) h (λ verified e5 h.
                bind-elim (from_hex ledger.genesis_hash) h (λ start e6 h.
                  bind-elim (unb64 ledger.accepted_head_signature) h (λ signature e7 h.
                    bind-elim (from_hex releases.genesis_hash) h (λ office_start e8 h.
                      bind-elim (unb64 releases.head_signature) h (λ head_signature e9 h.
                        bind-elim (unb64 releases.count_signature) h (λ count_signature e10 h. (
                          record {
                            token_key = token_key;
                            box_key = box_key;
                            office_key = office_key;
                            verified = verified;
                            start = start;
                            signature = signature;
                            office_start = office_start;
                            head_signature = head_signature;
                            count_signature = count_signature;
                          },
                          record {
                            spki = spki;
                            key_text = e1;
                            key = e2;
                            box = e3;
                            office = e4;
                            counted = e5;
                            genesis = e6;
                            head_signed = e7;
                            office_genesis = e8;
                            releases_signed = e9;
                            count_signed = e10;
                          },
                          ground (arith, h),
                        )))))))))))

  -- The checks of each section, in their order.
  abbrev pub files_ok : ConfigFile → Text → Bytes → LedgerDump → ReleasesDump → Bool
  files_ok config digest bytes ledger releases =
      (ledger.format == "ovpoc-ledger/1")
      && ((ledger.election_id == config.election_id)
          && ((ledger.configuration_digest == digest)
              && ((releases.configuration_digest == digest)
                  && (bytes == canonical_value (ledger_value ledger)))))

  abbrev pub ballots_ok : ℕ × ℕ → LedgerDump → Bool
  ballots_ok verified ledger =
      let n = length ledger.accepted in
      nat_eq verified.0 n
      && (nat_eq verified.1 n && nat_eq (length (distinct_records [] ledger.accepted)) n)

  abbrev pub registry_ok : Bytes → Text → Bytes → Bytes → LedgerDump → Bool
  registry_ok box_key election start signature ledger =
      let (head, intact) = walk 0 start ledger.accepted in
      intact
      && ((hex head == ledger.accepted_head)
          && crypto.ed_verify box_key signature (head_statement election head))

  abbrev pub releases_ok : Bytes → Text → Bytes → Bytes → Bytes → ℕ → ReleasesDump → Bool
  releases_ok office_key election start head_signature count_signature voters releases =
      let head = rebuild 0 start releases.entries in
      (hex head == releases.head)
      && (crypto.ed_verify office_key head_signature (release_head_statement election head)
          && (crypto.ed_verify office_key count_signature (count_statement election releases.count)
              && leb voters releases.count))

  passes-check_files :
      (config : ConfigFile) (digest : Text) (bytes : Bytes) (ledger : LedgerDump)
      (releases : ReleasesDump) (r : Report)
      → passes (check_files config digest bytes ledger releases r)
        ≡ (passes r && files_ok config digest bytes ledger releases)
  unfolding check_files
  passes-check_files config digest bytes ledger releases r = simp verdicts

  passes-check_ballots :
      (verified : ℕ × ℕ) (ledger : LedgerDump) (r : Report)
      → passes (check_ballots verified ledger r) ≡ (passes r && ballots_ok verified ledger)
  unfolding check_ballots
  passes-check_ballots verified ledger r = simp verdicts

  passes-check_registry :
      (box_key : Bytes) (election : Text) (start signature : Bytes) (ledger : LedgerDump)
      (r : Report)
      → passes (check_registry box_key election start signature ledger r)
        ≡ (passes r && registry_ok box_key election start signature ledger)
  unfolding check_registry
  passes-check_registry box_key election start signature ledger r = simp verdicts

  passes-check_votes : (r : Report) → passes (check_votes r) ≡ passes r
  unfolding check_votes
  passes-check_votes r = simp verdicts

  passes-check_releases :
      (office_key : Bytes) (election : Text) (start head_signature count_signature : Bytes)
      (voters : ℕ) (releases : ReleasesDump) (r : Report)
      → passes (
          check_releases office_key election start head_signature count_signature voters releases r)
        ≡ (passes r
            && releases_ok office_key election start head_signature count_signature voters releases)
  unfolding check_releases
  passes-check_releases office_key election start head_signature count_signature voters releases r =
      simp verdicts

  -- The verdict is the conjunction of the checks.
  pub passes-report_of :
      (config_bytes : Bytes) (config : ConfigFile) (bytes : Bytes) (ledger : LedgerDump)
      (releases : ReleasesDump) (d : Decoded)
      → passes (report_of config_bytes config bytes ledger releases d) ≡ (
          files_ok config (hex (crypto.sha256 config_bytes)) bytes ledger releases
          && (ballots_ok d.verified ledger
              && (registry_ok d.box_key config.election_id d.start d.signature ledger
                  && releases_ok d.office_key config.election_id d.office_start d.head_signature
                      d.count_signature
                      (length (final_from [] ledger.accepted))
                      releases)))
  unfolding tally_of
  passes-report_of config_bytes config bytes ledger releases d = simp (
    passes-with_tally, passes-check_releases, passes-check_votes, passes-check_registry,
    passes-check_ballots, passes-check_files, passes-new_report, and_assoc,
  )
