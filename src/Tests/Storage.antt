-- ===== src/Tests/Storage.antt =====
-- The theorems on the storage of the office at a concrete office.
use online_voting_poc.Prelude.{
  ◌+◌, ◌≡◌, ◌⊎◌, inl, inr, refl, ap, sym, ◌∙◌, true, false, some, none, List, [], ◌∷◌, map, All,
  length, arith, Distinct, List-eq, list_eq, ◌==◌, eq_iff, Bool-cases,
}
use online_voting_poc.Prelude.Dict.{keys, lookup}
use online_voting_poc.Bytes.{Bytes, Text, hex, to_bytes, from_bytes, bit_length}
use online_voting_poc.Base64.{b64, symbol}
use online_voting_poc.Json.{canonical_bytes}
use online_voting_poc.Keys.{sign, verify_signature}
use online_voting_poc.Messages.{request_payload}
use online_voting_poc.Ledger.{append, genesis, head, size, payloads, empty}
use online_voting_poc.Ledger.Chain.{chain, hash_from}
use online_voting_poc.Ledger.Tamper.{Broken, hashed, serialised}
use online_voting_poc.Rsabssa.{blind_sign, check_blind_signature}
use online_voting_poc.PopulationRegister.{is_expired}
use online_voting_poc.Vro.State.{Vro, Release, Release-wire, document, create, TokenRequest}
use online_voting_poc.Vro.Office.{enrol_voter, issue_token}
use online_voting_poc.Vro.Requests.{Asked}
use online_voting_poc.Vro.Storage.{
  in_chain_order, restore_releases, supervision_dump, request_to_stored, request_from_stored,
}
use online_voting_poc.Vro.Reordering.{
  Separate, in_chain_order-openings, restore_releases-stored, restore_releases_detects_alteration,
}
use online_voting_poc.Vro.Supervision.{
  Positions, Shows, release_row, supervision_dump_lem, request_from_stored-request_to_stored,
}
use online_voting_poc.Tests.Toy.{
  toy, people, office_key, election, pair, voter, opening, office_issued,
}
use online_voting_poc.Tests.Office.{office-Reach, office_issued-IsConsistent}

pub office_openings : office_issued.openings ≡ (voter, opening) ∷ []
unfolding issue_token enrol_voter create list_eq verify_signature sign request_payload to_bytes
    from_bytes canonical_bytes b64 symbol is_expired blind_sign bit_length check_blind_signature
office_openings = refl

openings-Distinct : Distinct (keys office_issued.openings)
openings-Distinct = rw office_openings (refl, tt)

only : (k : Text) (o : Bytes) → lookup k ((voter, opening) ∷ []) ≡ some o → k ≡ voter
only k o h = elim (Bool-cases (k == voter)) [
  | inl same ↦ (eq_iff k voter).0 same
  | inr differ ↦ absurd (clash differ)
]
  where
    clash : (k == voter) ≡ false → ⊥
    clash differ = ground arith

openings-Separate : Separate office_issued.openings
openings-Separate k j o p found other e =
    only j p (ap (lookup j) (sym office_openings) ∙ other)
    ∙ sym (only k o (ap (lookup k) (sym office_openings) ∙ found))

abbrev forged : List Release
forged = record { commitment = [] } ∷ []

abbrev blank : Vro
blank = create people office_key pair election

blank_is_empty : blank.release_log ≡ empty
unfolding create
blank_is_empty = refl

request_from_stored-request_to_stored_example :
    request_from_stored (request_to_stored (document (7 ∷ []) (1 ∷ 2 ∷ []) (some true) none))
    ≡ some (document (7 ∷ []) (1 ∷ 2 ∷ []) (some true) none)
request_from_stored-request_to_stored_example =
    request_from_stored-request_to_stored (document (7 ∷ []) (1 ∷ 2 ∷ []) (some true) none)
      (ground arith, ground arith)

supervision_dump_lem_example :
    let (w, dump) = supervision_dump office_issued in
    (map (λ r. r.voter_id) dump.releases ≡ office_issued.released)
    × Positions 0 dump.releases
    × All
        (λ row. (q : TokenRequest) × Asked office-Reach q × Shows office_issued row q)
        dump.releases
    × (map release_row dump.releases ≡ payloads office_issued.release_log)
    × (hex (hash_from 0 genesis (map release_row dump.releases)) ≡ dump.head)
    × (dump.count ≡ length dump.releases)
    × (w.supervisor_downloads ≡ office_issued.supervisor_downloads + 1)
supervision_dump_lem_example =
    supervision_dump_lem people office_key pair election office_issued office-Reach

in_chain_order-openings_example :
    in_chain_order office_issued.release_log ((voter, opening) ∷ []) ≡ office_issued.openings
in_chain_order-openings_example =
    in_chain_order-openings office_issued ((voter, opening) ∷ []) office_issued-IsConsistent
      (refl, tt) (λ k. ap (lookup k) (sym office_openings)) openings-Separate

restore_releases-stored_example :
    restore_releases
      (payloads office_issued.release_log)
      office_issued.released
      ((voter, opening) ∷ [])
      office_issued.audit
      office_issued.requests
      office_issued.supervisor_downloads
      (head office_issued.release_log)
      office_issued.self_enrolled
      blank
    ≡ (
      record blank {
        release_log = office_issued.release_log;
        released = office_issued.released;
        openings = office_issued.openings;
        audit = office_issued.audit;
        requests = office_issued.requests;
        self_enrolled = office_issued.self_enrolled;
        supervisor_downloads = office_issued.supervisor_downloads;
      },
      true,
    )
restore_releases-stored_example =
    restore_releases-stored office_issued blank ((voter, opening) ∷ []) office_issued-IsConsistent
      (refl, tt) (λ k. ap (lookup k) (sym office_openings)) openings-Separate blank_is_empty

one_released : size office_issued.release_log ≡ 1
unfolding issue_token enrol_voter create list_eq verify_signature sign request_payload to_bytes
    from_bytes canonical_bytes b64 symbol is_expired blind_sign bit_length check_blind_signature
    append
one_released = refl

restore_releases_detects_alteration_example :
    let t = restore_releases forged [] [] [] [] 0 (head office_issued.release_log) [] blank in
    (t.1 ≡ true
      → (map serialised forged ≡ map serialised (payloads office_issued.release_log))
        ⊎ Broken (hashed (chain forged)) (hashed office_issued.release_log))
    × (t.1 ≡ false → t.0 ≡ record blank { release_log = t.0.release_log })
restore_releases_detects_alteration_example =
    restore_releases_detects_alteration office_issued blank forged [] [] [] [] 0 []
      office_issued-IsConsistent blank_is_empty (omega arith) (omega (arith, one_released))
