-- ===== src/Tests/Audit.antt =====
-- The theorems on the independent verifier at the files of a concrete election.
use online_voting_poc.Prelude.{
  ℕ, Bool, ◌≤◌, ◌≡◌, ◌↔◌, ◌⊎◌, refl, ap, sym, true, false, Option, some, none, [], ◌++◌, map,
  length, arith, List-eq, list_eq,
}
use online_voting_poc.Prelude.Int.{ℤ, ℤ-eq, in_range}
use online_voting_poc.Bytes.{Bytes, Text, hex, from_hex, to_bytes, from_bytes, bit_length}
use online_voting_poc.Base64.{b64, symbol}
use online_voting_poc.Json.{canonical_bytes}
use online_voting_poc.Crypto.{PublicKey}
use online_voting_poc.Keys.{SigningKeyPair, public_bytes, sign, verify_signature}
use online_voting_poc.Messages.{BallotRecord-wire, ballot_payload, request_payload}
use online_voting_poc.Ledger.{append, genesis, size, payloads}
use online_voting_poc.Ledger.Chain.{chain}
use online_voting_poc.Ledger.Tamper.{Broken, hashed, serialised}
use online_voting_poc.BallotBox.State.{new_box}
use online_voting_poc.BallotBox.Count.{count, effective_ballots, latest_from, get_count}
use online_voting_poc.BallotBox.Steps.{Reach, here, next, opens, submits, closes}
use online_voting_poc.BallotBox.Invariant.{IsSound, new_box-IsSound}
use online_voting_poc.BallotBox.Published.{view_of}
use online_voting_poc.BallotBox.Cadence.{advance}
use online_voting_poc.BallotBox.Phase.{open_poll, close_poll}
use online_voting_poc.BallotBox.Submit.{submit}
use online_voting_poc.Rsabssa.{verify, blind_sign, check_blind_signature}
use online_voting_poc.PopulationRegister.{is_expired}
use online_voting_poc.Vro.State.{create}
use online_voting_poc.Vro.Office.{enrol_voter, issue_token}
use online_voting_poc.Vro.Query.{release_count}
use online_voting_poc.Election.{ElectionConfig, build, config_file, to_bytes as config_bytes}
use online_voting_poc.Dumps.{Deployment, dump_of, ledger_dump, releases_dump, ledger_bytes}
use online_voting_poc.Verifier.{run_checks, tally_of}
use online_voting_poc.Verifier.Checks.{Report, passes}
use online_voting_poc.Verifier.Agreement.{records_of}
use online_voting_poc.Verifier.Verdict.{Decoded}
use online_voting_poc.Verifier.Files.{IsEvidence}
use online_voting_poc.Verifier.Evidence.{run_checks-passes_iff}
use online_voting_poc.Verifier.Typed.{AllOfBytes, IsBallotOfBytes}
use online_voting_poc.Verifier.Served.{IsFurnished, served}
use online_voting_poc.Verifier.Honest.{run_checks-served}
use online_voting_poc.Verifier.Figures.{tally_of-count}
use online_voting_poc.Verifier.Forgery.{evidence_pins}
use online_voting_poc.Tests.Toy.{
  low-IsByte, people, toy, office_key, election, pair, ad_hoc, ballot, unsigned_ballot, box_new,
  box_closed, office_issued,
}
use online_voting_poc.Tests.Box.{box_closed-Reach, opens_box}
use online_voting_poc.Tests.Office.{office-Reach}

abbrev load : Bytes → Option PublicKey
load _ = some office_key.public

abbrev config : ElectionConfig
config =
    build election office_key.public (public_bytes pair) (public_bytes pair) 2 [] [] none none
      (some 10) none none false

abbrev deployment : Deployment
deployment = record { vro = office_issued; ebb = box_closed; config = config }

box_kept :
    ◌≡◌ {A = Text × PublicKey × SigningKeyPair × ℕ × Bool}
      (
        box_closed.election_id, box_closed.vro_public_key, box_closed.statement_key,
        box_closed.num_choices, box_closed.closed,
      )
      (election, office_key.public, pair, 2, true)
unfolding close_poll submit open_poll new_box verify bit_length from_bytes verify_signature list_eq
    sign ballot_payload to_bytes canonical_bytes b64 symbol advance
box_kept = refl

office_kept :
    ◌≡◌ {A = Text × SigningKeyPair}
      (office_issued.election_id, office_issued.office_key)
      (election, pair)
unfolding issue_token enrol_voter create list_eq verify_signature sign request_payload to_bytes
    from_bytes canonical_bytes b64 symbol is_expired blind_sign bit_length check_blind_signature
office_kept = refl

one_voter : length (effective_ballots box_closed) ≡ 1
unfolding close_poll submit open_poll new_box verify bit_length from_bytes verify_signature list_eq
    sign ballot_payload to_bytes canonical_bytes b64 symbol advance append effective_ballots
    latest_from
one_voter = refl

one_release : release_count office_issued ≡ 1
unfolding issue_token enrol_voter create list_eq verify_signature sign request_payload to_bytes
    from_bytes canonical_bytes b64 symbol is_expired blind_sign bit_length check_blind_signature
    release_count append
one_release = refl

deployment-IsFurnished : IsFurnished load deployment
unfolding build
deployment-IsFurnished = record {
  box_election = ap (λ t. t.0) box_kept;
  office_election = ap (λ t. t.0) office_kept;
  spki = ap (λ t. toy.subject_public_key_info t.1) (sym box_kept);
  loads = ap (λ t. some t.1) (sym box_kept);
  box_key = ap (λ t. public_bytes t.2) (sym box_kept);
  office_key = ap (λ t. public_bytes t.1) (sym office_kept);
  starts = refl;
  choices = ap (λ t. t.3) (sym box_kept);
}

box_closed-IsSound : IsSound box_closed
box_closed-IsSound =
    new_box-IsSound office_key.public 2 election pair (some 10) 0 box_closed box_closed-Reach

box_new-IsSound : IsSound box_new
box_new-IsSound = new_box-IsSound office_key.public 2 election pair (some 10) 0 box_new here

ballot-IsBallotOfBytes : IsBallotOfBytes ballot
unfolding sign
ballot-IsBallotOfBytes = record {
  key_bytes = ground arith;
  token_bytes = ground arith;
  signature_bytes = low-IsByte (ad_hoc.private ++ ballot_payload unsigned_ballot);
}

-- The box is opened, takes the ballot, and closes.
abbrev polling : Reach box_new box_closed
polling = next (next (next here (opens 1 opens_box)) (submits 2 ballot)) (closes 50 50)

polling-AllOfBytes : AllOfBytes polling
polling-AllOfBytes = (((tt, tt), ballot-IsBallotOfBytes), tt)

run_checks-served_example :
    (r : Report) × (ledger_dump 60 deployment ≡ (deployment, some (served deployment)))
    × (run_checks load
          (config_bytes config)
          (config_file config)
          (ledger_bytes (served deployment))
          (served deployment)
          (releases_dump deployment)
        ≡ some r)
    × ((passes r ≡ true) ↔ (length (effective_ballots box_closed) ≤ release_count office_issued))
run_checks-served_example =
    run_checks-served load office_key.public 2 election pair (some 10) 0 people office_key pair
      election 60 deployment polling polling-AllOfBytes (ap (λ t. t.4) box_kept) office-Reach
      deployment-IsFurnished

ran :
    (r : Report) × (ledger_dump 60 deployment ≡ (deployment, some (served deployment)))
    × (run_checks load
          (config_bytes config)
          (config_file config)
          (ledger_bytes (served deployment))
          (served deployment)
          (releases_dump deployment)
        ≡ some r)
    × ((passes r ≡ true) ↔ (length (effective_ballots box_closed) ≤ release_count office_issued))
ran =
    run_checks-served load office_key.public 2 election pair (some 10) 0 people office_key pair
      election 60 deployment polling polling-AllOfBytes (ap (λ t. t.4) box_kept) office-Reach
      deployment-IsFurnished

run_checks-passes_iff_example : (passes ran.0 ≡ true) ↔ (
    (d : Decoded) × IsEvidence load
      (config_bytes config)
      (config_file config)
      (ledger_bytes (served deployment))
      (served deployment)
      (releases_dump deployment)
      d)
run_checks-passes_iff_example =
    run_checks-passes_iff load (config_bytes config) (config_file config)
      (ledger_bytes (served deployment)) (served deployment) (releases_dump deployment) ran.0 ran.2

tally_of-count_example :
    let t = tally_of (config_file config) [] (served deployment) in
    let f = count box_closed in
    (t.options ≡ f.counts)
    × ((s : ℤ)
        → in_range box_closed.num_choices s ≡ false
        → get_count s t.outside_the_list ≡ get_count s f.protest_codes)
    × (t.voters ≡ f.voters)
    × (t.ballots ≡ size box_closed.accepted)
    × (t.rejected ≡ f.rejected)
tally_of-count_example = tally_of-count [] deployment deployment-IsFurnished.choices

verified :
    (d : Decoded) × IsEvidence load
      (config_bytes config)
      (config_file config)
      (ledger_bytes (served deployment))
      (served deployment)
      (releases_dump deployment)
      d
verified =
    (run_checks-passes_iff load (config_bytes config) (config_file config)
        (ledger_bytes (served deployment)) (served deployment) (releases_dump deployment) ran.0
        ran.2).0
      (ran.3.1 (omega (arith, one_voter, one_release)))

starts_at_genesis : verified.0.start ≡ genesis
unfolding build dump_of from_hex hex
starts_at_genesis = ground (arith, verified.1.decoded.genesis)

one_accepted : size box_closed.accepted ≡ 1
unfolding close_poll submit open_poll new_box verify bit_length from_bytes verify_signature list_eq
    sign ballot_payload to_bytes canonical_bytes b64 symbol advance append
one_accepted = refl

one_row : length (served deployment).accepted ≡ 1
unfolding close_poll submit open_poll new_box verify bit_length from_bytes verify_signature list_eq
    sign ballot_payload to_bytes canonical_bytes b64 symbol advance append dump_of view_of
one_row = refl

evidence_pins_example :
    (map serialised (records_of (served deployment).accepted)
      ≡ map serialised (payloads box_closed.accepted))
    ⊎ Broken (hashed (chain (records_of (served deployment).accepted))) (hashed box_closed.accepted)
unfolding dump_of view_of
evidence_pins_example =
    evidence_pins load (config_bytes config) (config_file config) (ledger_bytes (served deployment))
      (served deployment) (releases_dump deployment) verified.0 box_closed verified.1
      starts_at_genesis box_closed-IsSound refl (omega (arith, one_row))
      (omega (arith, one_accepted))
