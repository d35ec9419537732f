-- ===== src/Verifier/Figures.antt =====
-- The tally of tools/verify_election.py against the count of src/ovpoc/ballotbox.py.
use online_voting_poc.Prelude.{
  ℕ, zero, suc, ◌+◌, ◌≤◌, ◌<◌, ◌≡◌, refl, ap, sym, ◌∙◌, false, none, some, List, [], ◌∷◌, map,
  length, length-map, arith, List-eq,
}
use online_voting_poc.Prelude.Int.{ℤ, pos, ℤ-eq, int_eq_iff, in_range}
use online_voting_poc.Prelude.Dict.{Dict, lookup, values}
use online_voting_poc.Bytes.{Text}
use online_voting_poc.Crypto.{Crypto}
use online_voting_poc.Messages.{BallotRecord}
use online_voting_poc.Ledger.{Entry, size, payloads}
use online_voting_poc.BallotBox.Count.{
  get_count, bump, range_from, count, count_from, figures_of, effective_ballots, latest_from,
}
use online_voting_poc.BallotBox.Totals.{occurrences, get_count-bump, counted, coded, in_range_pos}
use online_voting_poc.BallotBox.Published.{commitments, view_of}
use online_voting_poc.Election.{config_file}
use online_voting_poc.Dumps.{Deployment, zip_rows, dump_of}
use online_voting_poc.Verifier.Agreement.{final_from-latest_from}
use online_voting_poc.Verifier.Served.{served, records_of-zip_rows}
use online_voting_poc.Verifier.{final_from, selections_from, outside, tally_of}

get_count-selections_from :
    (s : ℤ) (d : Dict ℤ ℕ) (ps : List BallotRecord)
    → get_count s (selections_from d ps) ≡ get_count s d + occurrences s ps
unfolding selections_from
get_count-selections_from s d [] = omega arith
get_count-selections_from s d (p ∷ ps) =
    ground
      (arith, get_count-selections_from s (bump p.selection d) ps, get_count-bump p.selection s d)

lookup-outside :
    (n : ℕ) (s : ℤ) (d : Dict ℤ ℕ) → in_range n s ≡ false → lookup s (outside n d) ≡ lookup s d
lookup-outside n s [] h = refl
lookup-outside n s ((t, k) ∷ d) h = ground (arith, lookup-outside n s d h, int_eq_iff s t)

get_count-outside :
    (n : ℕ) (s : ℤ) (d : Dict ℤ ℕ)
    → in_range n s ≡ false
    → get_count s (outside n d) ≡ get_count s d
get_count-outside n s d h = ap (λ o. elim o [ none ↦ 0 | some k ↦ k ]) (lookup-outside n s d h)

map-range {ℓ} :
    {A : Type ℓ} (f g : ℕ → A) (i k : ℕ)
    → ((j : ℕ) → i ≤ j → j < i + k → f j ≡ g j)
    → map f (range_from i k) ≡ map g (range_from i k)
map-range f g i zero h = refl
map-range f g i (suc k) h =
    let first = h i (omega arith) (omega arith) in
    let rest = map-range f g (suc i) k (λ j a b. h j (omega arith) (omega arith)) in cc

module _ {P : Type 0} where
  length-zip_rows :
      (es : List (Entry P)) (ps : List P)
      → length ps ≡ length es
      → length (zip_rows (commitments es) ps) ≡ length es
  length-zip_rows [] [] h = refl
  length-zip_rows [] (p ∷ ps) h = absurd (omega arith)
  length-zip_rows (e ∷ es) [] h = absurd (omega arith)
  length-zip_rows (e ∷ es) (p ∷ ps) h = ap suc (length-zip_rows es ps (omega arith))

module _ ⦃crypto : Crypto⦄ where
  -- Under a configuration with the box's number of choices, the verifier's own tally of what a closed
  -- box serves is the box's count: the same options with the
  -- same figures in the same order, the same figure for every selection outside the list, and as many
  -- voters, ballots and rejected ballots.
  pub tally_of-count :
      (digest : Text) (d : Deployment)
      → d.config.num_choices ≡ d.ebb.num_choices
      → let t = tally_of (config_file d.config) digest (served d) in
        let f = count d.ebb in
        (t.options ≡ f.counts)
        × ((s : ℤ)
            → in_range d.ebb.num_choices s ≡ false
            → get_count s t.outside_the_list ≡ get_count s f.protest_codes)
        × (t.voters ≡ f.voters)
        × (t.ballots ≡ size d.ebb.accepted)
        × (t.rejected ≡ f.rejected)
  unfolding tally_of config_file dump_of view_of count figures_of effective_ballots
  tally_of-count digest d same = (
    ap (λ n. map (λ c. (c, get_count (pos c) counts)) (range_from 1 n)) same
        ∙ map-range (λ c. (c, get_count (pos c) counts)) _ 1 d.ebb.num_choices options,
    λ s out.
        ap (λ n. get_count s (outside n counts)) same
        ∙ get_count-outside d.ebb.num_choices s counts out
        ∙ counts_all s
        ∙ sym (coded d.ebb.num_choices s (values (effective_ballots d.ebb)) out),
    ap length finals,
    length-zip_rows d.ebb.accepted.entries (payloads d.ebb.accepted) (length-map _ _),
    length-zip_rows d.ebb.rejected.entries (payloads d.ebb.rejected) (length-map _ _),
  )
    where
      finals : final_from [] (served d).accepted ≡ effective_ballots d.ebb
      finals =
          final_from-latest_from [] (served d).accepted
          ∙ ap (latest_from []) (records_of-zip_rows d.ebb.accepted.entries).0

      counts : Dict ℤ ℕ
      counts = selections_from [] (values (final_from [] (served d).accepted))

      counts_all : (s : ℤ) → get_count s counts ≡ occurrences s (values (effective_ballots d.ebb))
      counts_all s =
          omega (arith, get_count-selections_from s [] (values (final_from [] (served d).accepted)))
          ∙ ap (λ x. occurrences s (values x)) finals

      options :
          (j : ℕ)
          → 1 ≤ j
          → j < 1 + d.ebb.num_choices
          → ◌≡◌ {A = ℕ × ℕ}
              (j, get_count (pos j) counts)
              (
                j,
                get_count
                    (pos j)
                    (count_from d.ebb.num_choices ([], []) (values (effective_ballots d.ebb))).0,
              )
      options j a b =
          let inside = in_range_pos d.ebb.num_choices j a (omega arith) in
          ap (λ k. (j, k))
            (counts_all (pos j)
              ∙ sym (counted d.ebb.num_choices (pos j) (values (effective_ballots d.ebb)) inside))
