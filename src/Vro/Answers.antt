-- ===== src/Vro/Answers.antt =====
-- What the answers to a voter's query in src/ovpoc/vro.py show, against the published release log.
use online_voting_poc.Prelude.{
  ℕ, suc, ◌≡◌, refl, ap, sym, ◌∙◌, inl, inr, true, false, some, none, [], ◌∷◌, map, List-eq, arith,
  Bool-cases, Option-cases, get_elem?, ◌==◌, eq_iff, contains, length, length-map,
}
use online_voting_poc.Prelude.Int.{pos}
use online_voting_poc.Prelude.Dict.{Dict, keys, lookup, contains-keys}
use online_voting_poc.Bytes.{Bytes, Text}
use online_voting_poc.Base64.{b64}
use online_voting_poc.Crypto.{Crypto}
use online_voting_poc.Keys.{sign, verify_signature, verify_signature-sign}
use online_voting_poc.Ledger.{payloads, head}
use online_voting_poc.PopulationRegister.{Certificate, certificate_of}
use online_voting_poc.Vro.State.{
  Vro, Release, commit, release_query_payload, denial_payload, verify_denial, office_public_key,
  verify_release_head, verify_release_count,
}
use online_voting_poc.Vro.Query.{
  ReleaseAnswer, released, not_released, index_of, query_token_release, verify_release_answer,
  signed_release_head, signed_release_count, release_count,
}
use online_voting_poc.Vro.Register.{IsConsistent, entry_of}

module _ ⦃crypto : Crypto⦄ where
  -- The commitment of an opening that is on file stands in the log, at the index that is found.
  index_of-entry :
      (k : Text) (opening : Bytes) (openings : Dict Text Bytes)
      → lookup k openings ≡ some opening
      → let target = b64 (commit k opening) in
        (i : ℕ) × (entry : Release) × (index_of target (map entry_of openings) ≡ some i)
        × (get_elem? (map entry_of openings) i ≡ some entry)
        × (entry.commitment ≡ target)
  unfolding index_of
  index_of-entry k opening [] h = ground arith
  index_of-entry k opening ((j, o) ∷ d) h =
      let target = b64 (commit k opening) in
      elim (Bool-cases (b64 (commit j o) == target)) [
        | inl same ↦
            (0, entry_of (j, o), rw same refl, refl, (eq_iff (b64 (commit j o)) target).0 same)
        | inr other ↦
            let (i, entry, found, there, is) = index_of-entry k opening d (later other) in
            (suc i, entry, rw (other, found) refl, there, is)
      ]
    where
      later : (b64 (commit j o) == b64 (commit k opening)) ≡ false → lookup k d ≡ some opening
      later other = elim (Bool-cases (k == j)) [
        | inl same ↦ absurd (clash same)
        | inr differs ↦ ground arith
      ]
        where
          clash : (k == j) ≡ true → ⊥
          clash same =
              let kj : k ≡ j = (eq_iff k j).0 same in
              let oo : o ≡ opening = ground arith in
              let t : b64 (commit j o) ≡ b64 (commit k opening) = cc in
              let u = (eq_iff (b64 (commit j o)) (b64 (commit k opening))).1 t in cc

  -- What a voter who proves who they are is told, of an office that is consistent: where a token was
  -- released for them, an answer that verifies against the published log; where none was, a denial
  -- that verifies under the office's statement key.
  pub query_token_release_lem :
      (k : Text) (signature : Bytes) (v : Vro) (cert : Certificate)
      → IsConsistent v
      → certificate_of v.population_register k ≡ some cert
      → verify_signature cert.public_key signature (release_query_payload k) ≡ true
      → (contains k v.released ≡ true
          → (a : ReleaseAnswer) × (query_token_release k signature v ≡ some a)
            × (a.outcome ≡ released)
            × (verify_release_answer (payloads v.release_log) k a ≡ true))
        × (contains k v.released ≡ false
            → (a : ReleaseAnswer) × (denial : Bytes) × (query_token_release k signature v ≡ some a)
              × (a.outcome ≡ not_released)
              × (a.signed_denial ≡ some denial)
              × (verify_denial (office_public_key v) k denial ≡ true))
  unfolding query_token_release verify_release_answer verify_denial office_public_key
  query_token_release_lem k signature v cert s found good = (
    λ old. elim (Option-cases (lookup k v.openings)) [
      | inl absent ↦ absurd (unopened old absent)
      | inr (opening, open') ↦
          let (i, entry, first, there, is) = index_of-entry k opening v.openings open' in
          let first' : index_of (b64 (commit k opening)) (payloads v.release_log) ≡ some i =
            ap (index_of (b64 (commit k opening))) s.logged ∙ first in
          let there' : get_elem? (payloads v.release_log) i ≡ some entry =
            ap (λ l. get_elem? l i) s.logged ∙ there in
          let a : ReleaseAnswer = record {
            outcome = released;
            opening = some opening;
            index = some (pos i);
            signed_denial = none;
          } in
          (
            a,
            rw (found, query_token_release, good, open', first') refl,
            refl,
            rw (there', verify_release_answer)
                ((eq_iff entry.commitment (b64 (commit k opening))).1 is),
          )
    ],
    λ new.
        let absent : lookup k v.openings ≡ none = unreleased new in
        let a : ReleaseAnswer = record {
          outcome = not_released;
          opening = none;
          index = none;
          signed_denial = some (sign v.office_key (denial_payload k));
        } in
        (
          a,
          sign v.office_key (denial_payload k),
          rw (found, query_token_release, good, absent) refl,
          refl,
          refl,
          verify_signature-sign v.office_key (denial_payload k),
        ),
  )
    where
      unopened : contains k v.released ≡ true → lookup k v.openings ≡ none → ⊥
      unopened old absent =
          let e : contains k (keys v.openings) ≡ true = ap (contains k) (sym s.opened) ∙ old in
          ground (arith, contains-keys {K = Text} {V = Bytes} k v.openings)

      unreleased : contains k v.released ≡ false → lookup k v.openings ≡ none
      unreleased new =
          let e : contains k (keys v.openings) ≡ false = ap (contains k) (sym s.opened) ∙ new in
          ground (arith, contains-keys {K = Text} {V = Bytes} k v.openings)

  -- Of an office that is consistent, the signed count is the number of released identifiers, and the
  -- signatures of the count and of the head verify under the office's statement key.
  pub signed_release_count_lem :
      (v : Vro)
      → IsConsistent v
      → let (n, count_signature) = signed_release_count v in
        let (h, head_signature) = signed_release_head v in
        (n ≡ length v.released)
        × (verify_release_count (office_public_key v) v.election_id n count_signature ≡ true)
        × (h ≡ head v.release_log)
        × (verify_release_head (office_public_key v) v.election_id h head_signature ≡ true)
  unfolding signed_release_count signed_release_head release_count verify_release_count
      verify_release_head office_public_key
  signed_release_count_lem v s = (
    sym (length-map (λ e. e.payload) v.release_log.entries)
        ∙ ap length s.logged
        ∙ length-map entry_of v.openings
        ∙ sym (length-map (λ p. p.0) v.openings)
        ∙ ap length (sym s.opened),
    verify_signature-sign v.office_key _,
    refl,
    verify_signature-sign v.office_key _,
  )
