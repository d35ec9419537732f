-- ===== src/Verifier/Honest.antt =====
-- An election that was run by src/ovpoc/ballotbox.py and src/ovpoc/vro.py, served by
-- src/service/api.py and checked by tools/verify_election.py.
use mathlib.Core.Path.{subst}
use online_voting_poc.Prelude.{
  ℕ, ◌≤◌, ◌≡◌, refl, ap, sym, ◌∙◌, ◌↔◌, true, Option, some, [], map, All, length, Distinct, List-eq,
}
use online_voting_poc.Bytes.{Bytes, Text, hex, from_hex}
use online_voting_poc.Base64.RoundTrip.{unb64-b64}
use online_voting_poc.Crypto.{Crypto, PublicKey}
use online_voting_poc.Keys.{
  SigningKeyPair, public_bytes, sign, verify_signature, verify_signature-sign,
}
use online_voting_poc.Messages.{BallotRecord-wire}
use online_voting_poc.Ledger.{genesis, head, payloads}
use online_voting_poc.Ledger.Chain.{chain_from, hash_from}
use online_voting_poc.Ledger.Tamper.{serialised}
use online_voting_poc.BallotBox.State.{RejectedRecord-wire, head_payload, verify_head}
use online_voting_poc.BallotBox.Count.{effective_ballots, latest_from}
use online_voting_poc.BallotBox.Published.{commitments, view_of}
use online_voting_poc.BallotBox.State.{new_box}
use online_voting_poc.BallotBox.Steps.{here}
use online_voting_poc.BallotBox.Steps.{Reach as Polling}
use online_voting_poc.BallotBox.Invariant.{IsSound, new_box-IsSound}
use online_voting_poc.Rsabssa.{PrivateKey}
use online_voting_poc.PopulationRegister.{PopulationRegister}
use online_voting_poc.Vro.State.{create}
use online_voting_poc.Vro.Steps.{Reach}
use online_voting_poc.Vro.OneToken.{create-IsConsistent}
use online_voting_poc.Vro.State.{
  Release-wire, release_head_payload, release_count_payload, verify_release_head,
  verify_release_count,
}
use online_voting_poc.Vro.Query.{release_count, signed_release_head, signed_release_count}
use online_voting_poc.Vro.Register.{IsConsistent}
use online_voting_poc.Election.{config_file, to_bytes, digest_hex}
use online_voting_poc.Dumps.{Deployment, dump_of, ledger_dump, releases_dump, ledger_bytes}
use online_voting_poc.Verifier.{run_checks}
use online_voting_poc.Verifier.Checks.{Report, passes}
use online_voting_poc.Verifier.Agreement.{Audited, records_of, release_of, Audited-signatures}
use online_voting_poc.Verifier.Verdict.{Decoded, IsDecoded, decoded-run_checks, report_of}
use online_voting_poc.Verifier.Files.{IsPinned, IsRegistry, IsReleases}
use online_voting_poc.Verifier.Evidence.{passes_iff}
use online_voting_poc.Verifier.Typed.{IsAudited, AllOfBytes, Reach-IsAudited}
use online_voting_poc.Verifier.Served.{
  records_of-zip_rows, IsFurnished, Distinct-serialised, verified_rows, served, closed-ledger_dump,
  release_rows,
}

module _ ⦃crypto : Crypto⦄ where
  decoded_of : Deployment → Decoded
  decoded_of d = record {
    token_key = d.ebb.vro_public_key;
    box_key = public_bytes d.ebb.statement_key;
    office_key = public_bytes d.vro.office_key;
    verified = (length (served d).accepted, length (served d).accepted);
    start = genesis;
    signature =
        sign d.ebb.statement_key (head_payload d.ebb.election_id "accepted" (head d.ebb.accepted));
    office_start = genesis;
    head_signature = (signed_release_head d.vro).1;
    count_signature = (signed_release_count d.vro).1;
  }

  genesis_read : (h : Bytes) → h ≡ genesis → from_hex (hex h) ≡ some genesis
  unfolding from_hex hex
  genesis_read h e = rw e refl

  served-IsDecoded :
      (load : Bytes → Option PublicKey) (d : Deployment)
      → IsFurnished load d
      → IsAudited d.ebb
      → IsDecoded load (config_file d.config) (served d) (releases_dump d) (decoded_of d)
  unfolding config_file dump_of view_of releases_dump public_bytes sign signed_release_head
      signed_release_count decoded_of
  served-IsDecoded load d f a = record {
    spki = crypto.subject_public_key_info d.ebb.vro_public_key;
    key_text = rw f.spki (unb64-b64 _ (crypto.subject_public_key_info-IsByte _));
    key = f.loads;
    box = rw f.box_key (unb64-b64 _ (crypto.ed_public-IsByte _));
    office = rw f.office_key (unb64-b64 _ (crypto.ed_public-IsByte _));
    counted = Audited-signatures d.ebb.vro_public_key (served d).accepted (
        subst (All (Audited d.ebb.vro_public_key))
          (sym (records_of-zip_rows d.ebb.accepted.entries).0) a);
    genesis = genesis_read d.config.genesis_hash f.starts;
    head_signed = unb64-b64 _ (crypto.ed_sign-IsByte _ _);
    office_genesis = genesis_read d.config.genesis_hash f.starts;
    releases_signed = unb64-b64 _ (crypto.ed_sign-IsByte _ _);
    count_signed = unb64-b64 _ (crypto.ed_sign-IsByte _ _);
  }

  served-IsPinned :
      (load : Bytes → Option PublicKey) (d : Deployment)
      → IsFurnished load d
      → IsPinned
          (to_bytes d.config)
          (config_file d.config)
          (ledger_bytes (served d))
          (served d)
          (releases_dump d)
  unfolding config_file dump_of view_of releases_dump ledger_bytes digest_hex
  served-IsPinned load d f = record {
    format = refl;
    election = refl;
    ledger_pins = refl;
    releases_pin = refl;
    canonical = refl;
  }

  -- A signed statement verifies under the election's name and for the value that it is about.
  signs :
      {V : Type 0} (pair : SigningKeyPair) (statement : Text → V → Bytes) {x y : Text} {u v : V}
      → y ≡ x
      → u ≡ v
      → verify_signature (public_bytes pair) (sign pair (statement y v)) (statement x u) ≡ true
  signs {V} pair statement {x} {y} {u} {v} e g =
      let same : statement x u ≡ statement y v = cc in
      ap (verify_signature (public_bytes pair) (sign pair (statement y v))) same
      ∙ verify_signature-sign pair (statement y v)

  served-IsRegistry :
      (load : Bytes → Option PublicKey) (d : Deployment)
      → IsFurnished load d
      → IsSound d.ebb
      → IsRegistry (config_file d.config) (served d) (decoded_of d)
  unfolding config_file dump_of view_of decoded_of verify_head
  served-IsRegistry load d f s =
      let (rows, heads) = verified_rows d.ebb.accepted s.accepted_verifies in
      let (records, published) = records_of-zip_rows d.ebb.accepted.entries in
      let reached : hash_from 0 genesis (records_of (served d).accepted) ≡ head d.ebb.accepted =
        ap (hash_from 0 genesis) records ∙ sym heads in
      record {
        committed = published ∙ ap commitments (rows ∙ ap (chain_from 0 genesis) (sym records));
        headed = ap hex reached;
        signed =
            signs d.ebb.statement_key (λ election h. head_payload election "accepted" h)
              f.box_election reached;
      }

  served-IsReleases :
      (load : Bytes → Option PublicKey) (d : Deployment)
      → IsFurnished load d
      → IsConsistent d.vro
      → length (effective_ballots d.ebb) ≤ release_count d.vro
      → IsReleases (config_file d.config) (served d) (releases_dump d) (decoded_of d)
  unfolding config_file dump_of view_of decoded_of releases_dump signed_release_head
      signed_release_count release_count verify_release_head verify_release_count effective_ballots
  served-IsReleases load d f c few =
      let (rows, heads) = verified_rows d.vro.release_log c.verifies in
      let (records, _) = records_of-zip_rows d.ebb.accepted.entries in
      let reached : hash_from 0 genesis (map release_of (releases_dump d).entries)
          ≡ head d.vro.release_log =
        ap (hash_from 0 genesis) (release_rows d.vro.release_log.entries) ∙ sym heads in
      record {
        headed = ap hex reached;
        signed = signs d.vro.office_key release_head_payload f.office_election reached;
        counted = signs d.vro.office_key release_count_payload f.office_election refl;
        bounded = rw records few;
      }

  served-bounded :
      (d : Deployment)
      → IsReleases (config_file d.config) (served d) (releases_dump d) (decoded_of d)
      → length (effective_ballots d.ebb) ≤ release_count d.vro
  unfolding dump_of view_of releases_dump signed_release_count effective_ballots
  served-bounded d p =
      subst (λ ps. length (latest_from [] ps) ≤ release_count d.vro)
        (records_of-zip_rows d.ebb.accepted.entries).0 p.bounded

  -- The same of a box and an office that satisfy the invariants.
  run_checks_sound :
      (load : Bytes → Option PublicKey) (now : ℕ) (d : Deployment)
      → IsFurnished load d
      → d.ebb.closed ≡ true
      → IsSound d.ebb
      → IsAudited d.ebb
      → IsConsistent d.vro
      → (r : Report) × (ledger_dump now d ≡ (d, some (served d)))
        × (run_checks load
              (to_bytes d.config)
              (config_file d.config)
              (ledger_bytes (served d))
              (served d)
              (releases_dump d)
            ≡ some r)
        × ((passes r ≡ true) ↔ (length (effective_ballots d.ebb) ≤ release_count d.vro))
  unfolding config_file dump_of view_of decoded_of
  run_checks_sound load now d f shut s a c =
      let i = served-IsDecoded load d f a in
      let digest = to_bytes d.config in
      let (records, _) = records_of-zip_rows d.ebb.accepted.entries in
      let criterion =
        passes_iff load digest (config_file d.config) (ledger_bytes (served d)) (served d)
          (releases_dump d) (decoded_of d) i in
      (
        report_of digest (config_file d.config) (ledger_bytes (served d)) (served d)
            (releases_dump d) (decoded_of d),
        closed-ledger_dump now d shut,
        decoded-run_checks load digest (config_file d.config) (ledger_bytes (served d)) (served d)
            (releases_dump d) (decoded_of d) i,
        (
          λ p. served-bounded d (criterion.0 p).released,
          λ few. criterion.1 (record {
            decoded = i;
            pinned = served-IsPinned load d f;
            ballots = record {
              audited = subst (All (Audited d.ebb.vro_public_key)) (sym records) a;
              distinct =
                  subst (λ ps. Distinct (map serialised ps)) (sym records)
                    (Distinct-serialised (payloads d.ebb.accepted)
                      (subst Distinct s.indexed s.distinct));
            };
            registry = served-IsRegistry load d f s;
            released = served-IsReleases load d f c few;
          }),
        ),
      )

  -- An election that the code ran passes the independent check, whatever happened in it, exactly if
  -- no more ad-hoc keys voted than tokens were released. Take a new box, and whatever was done to
  -- it, every ballot that was submitted being made of bytes, until it was closed; a new office, and
  -- whatever the calls of both routes, the supervisors and the settings did to it; a configuration
  -- with their election, their keys, the box's number of choices and the ledger's first hash; and a
  -- loader that reads the encoded token key back. Then the ledger is served, the verifier ends with
  -- a report on what is served, and the report is without a failure if and only if the effective
  -- ballots do not outnumber the entries of the office's release log.
  pub run_checks-served :
      (load : Bytes → Option PublicKey) (key : PublicKey) (choices : ℕ) (election : Text)
      (statement_key : SigningKeyPair) (interval : Option ℕ) (start : ℕ)
      (people : PopulationRegister) (secret : PrivateKey) (office_key : SigningKeyPair)
      (office_election : Text) (now : ℕ) (d : Deployment)
      (polling : Polling (new_box key choices election statement_key interval start) d.ebb)
      → AllOfBytes polling
      → d.ebb.closed ≡ true
      → Reach (create people secret office_key office_election) d.vro
      → IsFurnished load d
      → (r : Report) × (ledger_dump now d ≡ (d, some (served d)))
        × (run_checks load
              (to_bytes d.config)
              (config_file d.config)
              (ledger_bytes (served d))
              (served d)
              (releases_dump d)
            ≡ some r)
        × ((passes r ≡ true) ↔ (length (effective_ballots d.ebb) ≤ release_count d.vro))
  run_checks-served load key choices election statement_key interval start people secret office_key
        office_election now d polling bytes shut issuing f =
      let sound = new_box-IsSound key choices election statement_key interval start in
      run_checks_sound load now d f shut (sound d.ebb polling)
        (Reach-IsAudited polling bytes (sound _ here) (unfold new_box in tt))
        (create-IsConsistent people secret office_key office_election d.vro issuing)
