-- ===== src/Verifier/Evidence.antt =====
-- What a report of tools/verify_election.py without a failure establishes of the files.
use online_voting_poc.Prelude.{
  ◌≡◌, ap, sym, ◌∙◌, ◌↔◌, true, Option, some, arith, List-eq, String-eq, &&-true,
}
use online_voting_poc.Bytes.{Bytes, hex}
use online_voting_poc.Crypto.{Crypto, PublicKey}
use online_voting_poc.Messages.{BallotRecord-wire}
use online_voting_poc.Vro.State.{Release-wire}
use online_voting_poc.Election.{ConfigFile}
use online_voting_poc.Dumps.{LedgerDump, ReleasesDump}
use online_voting_poc.Verifier.{run_checks}
use online_voting_poc.Verifier.Checks.{Report, passes}
use online_voting_poc.Verifier.Verdict.{
  Decoded, IsDecoded, decoded-run_checks, run_checks-decoded, passes-report_of, report_of, files_ok,
  ballots_ok, registry_ok,
}
use online_voting_poc.Verifier.Files.{IsEvidence}
use online_voting_poc.Verifier.Sections.{
  files_ok_iff, ballots_ok_iff, registry_ok_iff, releases_ok_iff,
}

module _ ⦃crypto : Crypto⦄ where
  -- What the verifier decodes, and what its verdict then depends on.
  pub passes_iff :
      (load : Bytes → Option PublicKey) (config_bytes : Bytes) (config : ConfigFile) (bytes : Bytes)
      (ledger : LedgerDump) (releases : ReleasesDump) (d : Decoded)
      → IsDecoded load config ledger releases d
      → (passes (report_of config_bytes config bytes ledger releases d) ≡ true)
        ↔ IsEvidence load config_bytes config bytes ledger releases d
  passes_iff load config_bytes config bytes ledger releases d i = (forth, back)
    where
      forth :
          passes (report_of config_bytes config bytes ledger releases d) ≡ true
          → IsEvidence load config_bytes config bytes ledger releases d
      forth h =
          let h = sym (passes-report_of config_bytes config bytes ledger releases d) ∙ h in
          let (a, h) =
            &&-true (files_ok config (hex (crypto.sha256 config_bytes)) bytes ledger releases) _
              h in
          let (b, h) = &&-true (ballots_ok d.verified ledger) _ h in
          let (c, e) =
            &&-true (registry_ok d.box_key config.election_id d.start d.signature ledger) _ h in
          record {
            decoded = i;
            pinned = (files_ok_iff config_bytes config bytes ledger releases).0 a;
            ballots = (ballots_ok_iff ledger d i.counted).0 b;
            registry = (registry_ok_iff config ledger d).0 c;
            released = (releases_ok_iff config ledger releases d).0 e;
          }

      back :
          IsEvidence load config_bytes config bytes ledger releases d
          → passes (report_of config_bytes config bytes ledger releases d) ≡ true
      back p =
          passes-report_of config_bytes config bytes ledger releases d
          ∙ rw (
            (files_ok_iff config_bytes config bytes ledger releases).1 p.pinned,
            (ballots_ok_iff ledger d i.counted).1 p.ballots,
            (registry_ok_iff config ledger d).1 p.registry,
            (releases_ok_iff config ledger releases d).1 p.released,
          )

  -- A run of the verifier that ends with a report finds no failure exactly if the files are evidence:
  -- the ledger names the configuration's election, it and the register name its digest, and the ledger
  -- is in its canonical form; every accepted
  -- record carries a token that the office's key verifies and a vote that its own key verifies, and
  -- none stands twice; the published rows are those of the hash chain of the records, whose last hash
  -- is the published head, signed by the box; the office's register likewise, signed by the office;
  -- and no more ad-hoc keys voted than the office signed that it released tokens.
  pub run_checks-passes_iff :
      (load : Bytes → Option PublicKey) (config_bytes : Bytes) (config : ConfigFile) (bytes : Bytes)
      (ledger : LedgerDump) (releases : ReleasesDump) (r : Report)
      → run_checks load config_bytes config bytes ledger releases ≡ some r
      → (passes r ≡ true)
        ↔ ((d : Decoded) × IsEvidence load config_bytes config bytes ledger releases d)
  run_checks-passes_iff load config_bytes config bytes ledger releases r h = (forth, back)
    where
      forth :
          passes r ≡ true
          → (d : Decoded) × IsEvidence load config_bytes config bytes ledger releases d
      forth p =
          let (d, i, e) = run_checks-decoded load config_bytes config bytes ledger releases r h in
          (d, (passes_iff load config_bytes config bytes ledger releases d i).0 (ap passes e ∙ p))

      back :
          ((d : Decoded) × IsEvidence load config_bytes config bytes ledger releases d)
          → passes r ≡ true
      back (d, p) =
          let same : some r ≡ some (report_of config_bytes config bytes ledger releases d) =
            sym h ∙ decoded-run_checks load config_bytes config bytes ledger releases d p.decoded in
          let e : r ≡ report_of config_bytes config bytes ledger releases d =
            ground (arith, same) in
          ap passes e ∙ (passes_iff load config_bytes config bytes ledger releases d p.decoded).1 p
