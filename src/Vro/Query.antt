-- ===== src/Vro/Query.antt =====
-- Step 12 in src/ovpoc/vro.py: the answer to a voter's query, its check against the published log,
-- and the office's signed figures.
use online_voting_poc.Prelude.{
  ℕ, suc, Bool, false, not, Option, none, some, List, [], ◌∷◌, List-eq, ◌==◌, get_elem?,
  if◌then◌else◌,
}
use online_voting_poc.Prelude.Int.{ℤ, pos, negsuc}
use online_voting_poc.Prelude.Dict.{lookup}
use online_voting_poc.Bytes.{Bytes, Text}
use online_voting_poc.Base64.{b64}
use online_voting_poc.Crypto.{Crypto}
use online_voting_poc.Keys.{sign, verify_signature}
use online_voting_poc.Ledger.{payloads, size, head}
use online_voting_poc.PopulationRegister.{certificate_of}
use online_voting_poc.Vro.State.{
  Vro, Release, commit, release_query_payload, denial_payload, release_count_payload,
  release_head_payload,
}

pub data ReleaseOutcome : Type 0 where
  released not_released not_identified : ReleaseOutcome

pub record ReleaseAnswer : Type 0 where
  pub outcome : ReleaseOutcome
  pub opening : Option Bytes
  pub index : Option ℤ
  pub signed_denial : Option Bytes

abbrev pub unidentified : ReleaseAnswer
unidentified = record {
  outcome = not_identified;
  opening = none;
  index = none;
  signed_denial = none;
}

-- The position of the first entry with the commitment.
unfoldable pub index_of : Text → List Release → Option ℕ
index_of target [] = none
index_of target (r ∷ rs) =
    if r.commitment == target
    then some 0
    else elim (index_of target rs) [ none ↦ none | some i ↦ some (suc i) ]

abbrev pub commitment_at : List Release → ℤ → Option Text
commitment_at published (negsuc i) = none
commitment_at published (pos i) = elim (get_elem? published i) [
  | none ↦ none
  | some r ↦ some r.commitment
]

module _ ⦃crypto : Crypto⦄ where
  -- `none` where `next` finds no entry and raises StopIteration.
  unfoldable pub query_token_release : Text → Bytes → Vro → Option ReleaseAnswer
  unfolding index_of
  query_token_release voter_id signature v = elim (certificate_of v.population_register voter_id) [
    | none ↦ some unidentified
    | some cert ↦
        if not (verify_signature cert.public_key signature (release_query_payload voter_id))
        then some unidentified
        else elim (lookup voter_id v.openings) [
          | none ↦ some (record {
            outcome = not_released;
            opening = none;
            index = none;
            signed_denial = some (sign v.office_key (denial_payload voter_id));
          })
          | some opening ↦
              elim (index_of (b64 (commit voter_id opening)) (payloads v.release_log)) [
                | none ↦ none
                | some i ↦ some (record {
                  outcome = released;
                  opening = some opening;
                  index = some (pos i);
                  signed_denial = none;
                })
              ]
        ]
  ]

  -- An index out of range, or below zero, is refused.
  unfoldable pub verify_release_answer : List Release → Text → ReleaseAnswer → Bool
  verify_release_answer published voter_id a = elim a.outcome [
    | released ↦ elim a.opening [
      | none ↦ false
      | some opening ↦ elim a.index [
        | none ↦ false
        | some i ↦ elim (commitment_at published i) [
          | none ↦ false
          | some c ↦ c == b64 (commit voter_id opening)
        ]
      ]
    ]
    | _ ↦ false
  ]

  unfoldable pub release_count : Vro → ℕ
  release_count v = size v.release_log

  unfoldable pub signed_release_head : Vro → Bytes × Bytes
  signed_release_head v =
      let h = head v.release_log in (h, sign v.office_key (release_head_payload v.election_id h))

  unfoldable pub signed_release_count : Vro → ℕ × Bytes
  unfolding release_count
  signed_release_count v =
      let n = release_count v in (n, sign v.office_key (release_count_payload v.election_id n))
