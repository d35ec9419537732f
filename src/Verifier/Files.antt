-- ===== src/Verifier/Files.antt =====
-- What the three files that tools/verify_election.py reads must be evidence of.
use online_voting_poc.Prelude.{
  ◌≤◌, ◌≡◌, true, Option, [], map, length, All, Distinct, List-eq, String-eq,
}
use online_voting_poc.Bytes.{Bytes, hex}
use online_voting_poc.Json.Value.{canonical_value}
use online_voting_poc.Crypto.{Crypto, PublicKey}
use online_voting_poc.Messages.{BallotRecord-wire}
use online_voting_poc.Ledger.Chain.{chain_from, hash_from}
use online_voting_poc.Ledger.Tamper.{serialised}
use online_voting_poc.BallotBox.State.{verify_head}
use online_voting_poc.BallotBox.Count.{latest_from}
use online_voting_poc.BallotBox.Published.{commitments}
use online_voting_poc.Vro.State.{Release-wire, verify_release_head, verify_release_count}
use online_voting_poc.Election.{ConfigFile}
use online_voting_poc.Dumps.{LedgerDump, ReleasesDump, ledger_value}
use online_voting_poc.Verifier.Agreement.{Audited, records_of, published_of, release_of}
use online_voting_poc.Verifier.Verdict.{Decoded, IsDecoded}

module _ ⦃crypto : Crypto⦄ where
  -- The ledger names the configuration's election, the ledger and the register name its digest, and the
  -- ledger is in its canonical form.
  pub record IsPinned (config_bytes : Bytes) (config : ConfigFile) (bytes : Bytes)
      (ledger : LedgerDump) (releases : ReleasesDump) : Type 0 where
    pub format : ledger.format ≡ "ovpoc-ledger/1"
    pub election : ledger.election_id ≡ config.election_id
    pub ledger_pins : ledger.configuration_digest ≡ hex (crypto.sha256 config_bytes)
    pub releases_pin : releases.configuration_digest ≡ hex (crypto.sha256 config_bytes)
    pub canonical : bytes ≡ canonical_value (ledger_value ledger)

  pub record IsBallots (ledger : LedgerDump) (d : Decoded) : Type 0 where
    pub audited : All (Audited d.token_key) (records_of ledger.accepted)
    pub distinct : Distinct (map serialised (records_of ledger.accepted))

  -- The published rows are those of the hash chain of the records, whose last hash is the published
  -- head, and the box signed it.
  pub record IsRegistry (config : ConfigFile) (ledger : LedgerDump) (d : Decoded) : Type 0 where
    pub committed :
        published_of ledger.accepted
        ≡ commitments (chain_from 0 d.start (records_of ledger.accepted))
    pub headed : hex (hash_from 0 d.start (records_of ledger.accepted)) ≡ ledger.accepted_head
    pub signed :
        verify_head d.box_key config.election_id "accepted"
          (hash_from 0 d.start (records_of ledger.accepted))
          d.signature
        ≡ true

  -- The same for the office's register; and no more ad-hoc keys voted than the office says that it
  -- released tokens.
  pub record IsReleases (config : ConfigFile) (ledger : LedgerDump) (releases : ReleasesDump)
      (d : Decoded) : Type 0 where
    pub headed : hex (hash_from 0 d.office_start (map release_of releases.entries)) ≡ releases.head
    pub signed :
        verify_release_head d.office_key config.election_id
          (hash_from 0 d.office_start (map release_of releases.entries))
          d.head_signature
        ≡ true
    pub counted :
        verify_release_count d.office_key config.election_id releases.count d.count_signature ≡ true
    pub bounded : length (latest_from [] (records_of ledger.accepted)) ≤ releases.count

  pub record IsEvidence (load : Bytes → Option PublicKey) (config_bytes : Bytes)
      (config : ConfigFile) (bytes : Bytes) (ledger : LedgerDump) (releases : ReleasesDump)
      (d : Decoded) : Type 0 where
    pub decoded : IsDecoded load config ledger releases d
    pub pinned : IsPinned config_bytes config bytes ledger releases
    pub ballots : IsBallots ledger d
    pub registry : IsRegistry config ledger d
    pub released : IsReleases config ledger releases d
