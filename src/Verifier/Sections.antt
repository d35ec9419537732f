-- ===== src/Verifier/Sections.antt =====
-- Each section of the report of tools/verify_election.py against what it stands for.
use online_voting_poc.Prelude.{
  ℕ, Bool, ◌≡◌, ap, sym, ◌∙◌, ◌↔◌, true, ◌&&◌, some, [], map, length, arith, List-eq, String-eq,
  ◌==◌, eq_iff, nat_eq, nat_eq_iff, leb, leb→le, le→leb, &&-true,
}
use online_voting_poc.Bytes.{Bytes, Text, hex}
use online_voting_poc.Json.Value.{canonical_value}
use online_voting_poc.Crypto.{Crypto}
use online_voting_poc.Keys.{verify_signature}
use online_voting_poc.Messages.{BallotRecord-wire}
use online_voting_poc.Ledger.Chain.{hash_from}
use online_voting_poc.BallotBox.State.{verify_head}
use online_voting_poc.BallotBox.Count.{latest_from}
use online_voting_poc.Vro.State.{
  Release-wire, verify_release_head, verify_release_count, release_head_payload,
  release_count_payload,
}
use online_voting_poc.Election.{ConfigFile}
use online_voting_poc.Dumps.{LedgerDump, ReleasesDump, ledger_value}
use online_voting_poc.Verifier.{final_from, signatures, walk, distinct_records, head_statement}
use online_voting_poc.Verifier.Agreement.{
  records_of, release_of, Audited-signatures, signatures-cases, distinct_records-Distinct,
  walk-chain_from, rebuild-hash_from, final_from-latest_from, head_statement-head_payload,
  release_head_statement-release_head_payload, count_statement-release_count_payload,
}
use online_voting_poc.Verifier.Verdict.{Decoded, files_ok, ballots_ok, registry_ok, releases_ok}
use online_voting_poc.Verifier.Files.{IsPinned, IsBallots, IsRegistry, IsReleases}

module _ ⦃crypto : Crypto⦄ where
  pub files_ok_iff :
      (config_bytes : Bytes) (config : ConfigFile) (bytes : Bytes) (ledger : LedgerDump)
      (releases : ReleasesDump)
      → (files_ok config (hex (crypto.sha256 config_bytes)) bytes ledger releases ≡ true)
        ↔ IsPinned config_bytes config bytes ledger releases
  files_ok_iff config_bytes config bytes ledger releases = (forth, back)
    where
      digest : Text
      digest = hex (crypto.sha256 config_bytes)

      forth :
          files_ok config digest bytes ledger releases ≡ true
          → IsPinned config_bytes config bytes ledger releases
      forth h =
          let (a, h) = &&-true (ledger.format == "ovpoc-ledger/1") _ h in
          let (b, h) = &&-true (ledger.election_id == config.election_id) _ h in
          let (c, h) = &&-true (ledger.configuration_digest == digest) _ h in
          let (d, e) = &&-true (releases.configuration_digest == digest) _ h in
          record {
            format = (eq_iff ledger.format "ovpoc-ledger/1").0 a;
            election = (eq_iff ledger.election_id config.election_id).0 b;
            ledger_pins = (eq_iff ledger.configuration_digest digest).0 c;
            releases_pin = (eq_iff releases.configuration_digest digest).0 d;
            canonical = (eq_iff bytes (canonical_value (ledger_value ledger))).0 e;
          }

      back :
          IsPinned config_bytes config bytes ledger releases
          → files_ok config digest bytes ledger releases ≡ true
      back p = rw (
        (eq_iff ledger.format "ovpoc-ledger/1").1 p.format,
        (eq_iff ledger.election_id config.election_id).1 p.election,
        (eq_iff ledger.configuration_digest digest).1 p.ledger_pins,
        (eq_iff releases.configuration_digest digest).1 p.releases_pin,
        (eq_iff bytes (canonical_value (ledger_value ledger))).1 p.canonical,
      )

  pub ballots_ok_iff :
      (ledger : LedgerDump) (d : Decoded)
      → signatures d.token_key ledger.accepted ≡ some d.verified
      → (ballots_ok d.verified ledger ≡ true) ↔ IsBallots ledger d
  ballots_ok_iff ledger d counted = (forth, back)
    where
      forth : ballots_ok d.verified ledger ≡ true → IsBallots ledger d
      forth h =
          let n : ℕ = length ledger.accepted in
          let (a, h) = &&-true (nat_eq d.verified.0 n) _ h in
          let (b, c) = &&-true (nat_eq d.verified.1 n) _ h in
          let (_, _, all) =
            signatures-cases d.token_key ledger.accepted d.verified.0 d.verified.1 counted in
          record {
            audited = all ((nat_eq_iff _ _).0 a) ((nat_eq_iff _ _).0 b);
            distinct = (distinct_records-Distinct ledger.accepted).0 ((nat_eq_iff _ _).0 c);
          }

      back : IsBallots ledger d → ballots_ok d.verified ledger ≡ true
      back p =
          let same = sym counted ∙ Audited-signatures d.token_key ledger.accepted p.audited in
          let n : ℕ = length ledger.accepted in
          let m : ℕ = length (distinct_records [] ledger.accepted) in
          let many : m ≡ n = (distinct_records-Distinct ledger.accepted).1 p.distinct in
          ground (arith, nat_eq_iff d.verified.0 n, nat_eq_iff d.verified.1 n, nat_eq_iff m n)

  pub registry_ok_iff :
      (config : ConfigFile) (ledger : LedgerDump) (d : Decoded)
      → (registry_ok d.box_key config.election_id d.start d.signature ledger ≡ true)
        ↔ IsRegistry config ledger d
  unfolding verify_head verify_signature
  registry_ok_iff config ledger d = (forth, back)
    where
      reached : Bytes
      reached = hash_from 0 d.start (records_of ledger.accepted)

      forth :
          registry_ok d.box_key config.election_id d.start d.signature ledger ≡ true
          → IsRegistry config ledger d
      forth h =
          let (a, h) = &&-true (walk 0 d.start ledger.accepted).1 _ h in
          let (fits, ends) = walk-chain_from 0 d.start ledger.accepted in
          let e = ends a in
          let (b, c) = &&-true (hex reached == ledger.accepted_head) _ (
            ap
              (λ x.
                (hex x == ledger.accepted_head)
                && crypto.ed_verify d.box_key d.signature (head_statement config.election_id x))
              (sym e)
            ∙ h) in
          record {
            committed = fits.0 a;
            headed = (eq_iff (hex reached) ledger.accepted_head).0 b;
            signed =
                ap (crypto.ed_verify d.box_key d.signature)
                  (sym (head_statement-head_payload config.election_id reached))
                ∙ c;
          }

      back :
          IsRegistry config ledger d
          → registry_ok d.box_key config.election_id d.start d.signature ledger ≡ true
      back p =
          let (fits, ends) = walk-chain_from 0 d.start ledger.accepted in
          let a = fits.1 p.committed in
          rw (
            a,
            ends a,
            (eq_iff (hex reached) ledger.accepted_head).1 p.headed,
            head_statement-head_payload config.election_id reached,
            p.signed,
          )

  pub releases_ok_iff :
      (config : ConfigFile) (ledger : LedgerDump) (releases : ReleasesDump) (d : Decoded)
      → (releases_ok d.office_key config.election_id d.office_start d.head_signature
            d.count_signature
            (length (final_from [] ledger.accepted))
            releases
          ≡ true)
        ↔ IsReleases config ledger releases d
  unfolding verify_release_head verify_release_count verify_signature
  releases_ok_iff config ledger releases d =
      rw
        (
          rebuild-hash_from 0 d.office_start releases.entries,
          release_head_statement-release_head_payload config.election_id reached,
          count_statement-release_count_payload config.election_id releases.count,
          final_from-latest_from [] ledger.accepted,
        )
        (forth, back)
    where
      reached : Bytes
      reached = hash_from 0 d.office_start (map release_of releases.entries)

      n : ℕ
      n = length (latest_from [] (records_of ledger.accepted))

      verdict : Bool
      verdict =
          (hex reached == releases.head)
          && (crypto.ed_verify d.office_key d.head_signature
                (release_head_payload config.election_id reached)
              && (crypto.ed_verify d.office_key d.count_signature
                    (release_count_payload config.election_id releases.count)
                  && leb n releases.count))

      forth : verdict ≡ true → IsReleases config ledger releases d
      forth h =
          let (a, h) = &&-true (hex reached == releases.head) _ h in
          let (b, h) = &&-true (crypto.ed_verify d.office_key d.head_signature _) _ h in
          let (c, e) = &&-true (crypto.ed_verify d.office_key d.count_signature _) _ h in
          record {
            headed = (eq_iff (hex reached) releases.head).0 a;
            signed = b;
            counted = c;
            bounded = leb→le n releases.count e;
          }

      back : IsReleases config ledger releases d → verdict ≡ true
      back p = rw (
        (eq_iff (hex reached) releases.head).1 p.headed,
        p.signed,
        p.counted,
        le→leb n releases.count p.bounded,
      )
