-- ===== src/Verifier/Forgery.antt =====
-- What the box's head pins: a ledger that tools/verify_election.py passes and that shows the head of
-- a box of src/ovpoc/ballotbox.py is that box's.
use mathlib.Core.Path.{subst}
use online_voting_poc.Prelude.{
  ℕ, suc, ◌^◌, ◌<◌, ◌≡◌, ap, sym, ◌∙◌, ◌⊎◌, Option, List, [], ◌∷◌, map, length, length-map, All,
  arith,
}
use online_voting_poc.Bytes.{Bytes, IsByte}
use online_voting_poc.Bytes.Hex.{hex_injective}
use online_voting_poc.Crypto.{Crypto, PublicKey}
use online_voting_poc.Messages.{Wire, BallotRecord-wire}
use online_voting_poc.Ledger.{genesis, head, size, payloads, compute_entry_hash}
use online_voting_poc.Ledger.Chain.{
  chain, hash_from, head-chain, size-chain, payloads-chain, verify_chain-chain,
  verify_chain-eq-chain,
}
use online_voting_poc.Ledger.Tamper.{Broken, hashed, serialised, same_head-same_records}
use online_voting_poc.BallotBox.State.{BallotBox}
use online_voting_poc.BallotBox.Invariant.{IsSound}
use online_voting_poc.Election.{ConfigFile}
use online_voting_poc.Dumps.{LedgerDump, ReleasesDump}
use online_voting_poc.Verifier.Agreement.{records_of}
use online_voting_poc.Verifier.Verdict.{Decoded}
use online_voting_poc.Verifier.Files.{IsEvidence}
use online_voting_poc.Bytes.{hex}

module _ ⦃crypto : Crypto⦄ where
  hash_from-IsByte :
      {P : Type 0} ⦃w : Wire P⦄ (i : ℕ) (h : Bytes) (ps : List P)
      → All IsByte h
      → All IsByte (hash_from i h ps)
  unfolding hash_from compute_entry_hash
  hash_from-IsByte i h [] b = b
  hash_from-IsByte i h (p ∷ ps) b =
      hash_from-IsByte (suc i) (compute_entry_hash i p h) ps (crypto.sha256-IsByte _)

  genesis-IsByte : All IsByte genesis
  genesis-IsByte = ground arith

  -- A ledger file that passes, that starts at the genesis hash and that shows the head of a sound box,
  -- holds the records of that box as they are serialised, in the same order, or the hash is broken at
  -- bytes that were hashed for the two. Both have fewer than 2 ^ 64 records.
  pub evidence_pins :
      (load : Bytes → Option PublicKey) (config_bytes : Bytes) (config : ConfigFile) (bytes : Bytes)
      (ledger : LedgerDump) (releases : ReleasesDump) (d : Decoded) (b : BallotBox)
      → IsEvidence load config_bytes config bytes ledger releases d
      → d.start ≡ genesis
      → IsSound b
      → ledger.accepted_head ≡ hex (head b.accepted)
      → length ledger.accepted < 2 ^ 64
      → size b.accepted < 2 ^ 64
      → (map serialised (records_of ledger.accepted) ≡ map serialised (payloads b.accepted))
        ⊎ Broken (hashed (chain (records_of ledger.accepted))) (hashed b.accepted)
  evidence_pins load config_bytes config bytes ledger releases d b p first s shown few many =
      let ps = records_of ledger.accepted in
      let mine : head b.accepted ≡ hash_from 0 genesis (payloads b.accepted) =
        ap head ((verify_chain-eq-chain b.accepted).0 s.accepted_verifies)
        ∙ head-chain (payloads b.accepted) in
      let texts : hex (hash_from 0 genesis ps) ≡ hex (hash_from 0 genesis (payloads b.accepted)) =
        ap (λ h. hex (hash_from 0 h ps)) (sym first) ∙ p.registry.headed ∙ shown ∙ ap hex mine in
      let heads =
        hex_injective _ _ (hash_from-IsByte 0 genesis ps genesis-IsByte)
          (hash_from-IsByte 0 genesis (payloads b.accepted) genesis-IsByte) texts in
      subst
        (λ qs.
          (map serialised qs ≡ map serialised (payloads b.accepted))
          ⊎ Broken (hashed (chain ps)) (hashed b.accepted))
        (payloads-chain ps)
        (same_head-same_records (chain ps) b.accepted
          (omega (arith, few, size-chain ps, length-map (λ e. e.recorded) ledger.accepted)) many
          (verify_chain-chain ps) s.accepted_verifies (head-chain ps ∙ heads ∙ sym mine))
