-- ===== src/BallotBox/Totals.antt =====
-- The figures of `_count` in src/ovpoc/ballotbox.py against a plain count of the effective ballots.
use online_voting_poc.Prelude.{
  Bool-cases, inl, inr, ℕ-eq, ℕ, zero, suc, ◌+◌, ◌≤◌, ◌<◌, ◌≡◌, refl, ap, ◌∙◌, sym, Bool, true,
  false, some, List, [], ◌∷◌, map, length, length-map, arith, ◌==◌, eq_iff, if◌then◌else◌, leb, ltb,
  ◌&&◌, ltb, ◌&&◌,
}
use online_voting_poc.Prelude.Int.{ℤ, pos, negsuc, ℤ-eq, int_eq_iff, in_range}
use online_voting_poc.Prelude.Dict.{Dict, lookup, insert, values, lookup-insert}
use online_voting_poc.Messages.{BallotRecord}
use online_voting_poc.BallotBox.State.{BallotBox}
use online_voting_poc.BallotBox.Count.{
  effective_ballots, get_count, bump, sum, count_from, range_from, count,
}

-- How many records have the selection.
abbrev pub occurrences : ℤ → List BallotRecord → ℕ
occurrences s [] = 0
occurrences s (p ∷ ps) = (if s == p.selection then 1 else 0) + occurrences s ps

abbrev pub one_if : Bool → ℕ
one_if true = 1
one_if false = 0

pub get_count-bump :
    (k q : ℤ) (d : Dict ℤ ℕ) → get_count q (bump k d) ≡ get_count q d + one_if (q == k)
get_count-bump k q d = ground (arith, lookup-insert k q (get_count k d + 1) d, int_eq_iff q k)

sum-insert :
    (k : ℤ) (v : ℕ) (d : Dict ℤ ℕ)
    → sum (values (insert k v d)) + get_count k d ≡ sum (values d) + v
sum-insert k v [] = omega arith
sum-insert k v ((j, w) ∷ d) = ground (arith, sum-insert k v d)

sum-bump : (k : ℤ) (d : Dict ℤ ℕ) → sum (values (bump k d)) ≡ sum (values d) + 1
sum-bump k d = omega (arith, sum-insert k (get_count k d + 1) d)

count_from-sum :
    (n : ℕ) (counts codes : Dict ℤ ℕ) (ps : List BallotRecord)
    → let (counts', codes') = count_from n (counts, codes) ps in
      sum (values counts') + sum (values codes')
      ≡ sum (values counts) + sum (values codes) + length ps
unfolding count_from
count_from-sum n counts codes [] = omega arith
count_from-sum n counts codes (p ∷ ps) = elim (Bool-cases (in_range n p.selection)) [
  | inl valid ↦ rw valid (
      omega
        (arith, sum-bump p.selection counts, count_from-sum n (bump p.selection counts) codes ps))
  | inr protest ↦ rw protest (
      omega
        (arith, sum-bump p.selection codes, count_from-sum n counts (bump p.selection codes) ps))
]

-- One more record: `same` if it has the selection that is counted, `here` if that selection is
-- counted in this counter.
counted_here :
    (same here : Bool) (a r : ℕ)
    → (same ≡ true → here ≡ true)
    → a + one_if same + (if here then r else 0)
      ≡ a + (if here then (if same then 1 else 0) + r else 0)
counted_here true true a r h = omega arith
counted_here true false a r h = absurd (ground (arith, h refl))
counted_here false true a r h = omega arith
counted_here false false a r h = omega arith

counted_there :
    (same here : Bool) (a r : ℕ)
    → (same ≡ true → here ≡ true)
    → a + (if here then 0 else r) ≡ a + (if here then 0 else (if same then 1 else 0) + r)
counted_there true true a r h = omega arith
counted_there true false a r h = absurd (ground (arith, h refl))
counted_there false true a r h = omega arith
counted_there false false a r h = omega arith

not_counted_here :
    (same here : Bool) (a r : ℕ)
    → (same ≡ true → here ≡ false)
    → a + (if here then r else 0) ≡ a + (if here then (if same then 1 else 0) + r else 0)
not_counted_here true false a r h = omega arith
not_counted_here true true a r h = absurd (ground (arith, h refl))
not_counted_here false true a r h = omega arith
not_counted_here false false a r h = omega arith

not_counted_there :
    (same here : Bool) (a r : ℕ)
    → (same ≡ true → here ≡ false)
    → a + one_if same + (if here then 0 else r)
      ≡ a + (if here then 0 else (if same then 1 else 0) + r)
not_counted_there true false a r h = omega arith
not_counted_there true true a r h = absurd (ground (arith, h refl))
not_counted_there false true a r h = omega arith
not_counted_there false false a r h = omega arith

same_range : (n : ℕ) (s q : ℤ) {b : Bool} → in_range n q ≡ b → (s == q) ≡ true → in_range n s ≡ b
same_range n s q e h = ap (in_range n) ((int_eq_iff s q).0 h) ∙ e

count_from-get :
    (n : ℕ) (s : ℤ) (counts codes : Dict ℤ ℕ) (ps : List BallotRecord)
    → let (counts', codes') = count_from n (counts, codes) ps in
      (get_count s counts' ≡ get_count s counts + (if in_range n s then occurrences s ps else 0))
      × (get_count s codes' ≡ get_count s codes + (if in_range n s then 0 else occurrences s ps))
unfolding count_from
count_from-get n s counts codes [] = ground arith
count_from-get n s counts codes (p ∷ ps) = elim (Bool-cases (in_range n p.selection)) [
  | inl valid ↦
      let (here, there) = count_from-get n s (bump p.selection counts) codes ps in
      let range = same_range n s p.selection valid in
      rw valid (
        here
            ∙ ap (λ a. a + (if in_range n s then occurrences s ps else 0))
                (get_count-bump p.selection s counts)
            ∙ counted_here (s == p.selection) (in_range n s) (get_count s counts) (occurrences s ps)
                range,
        there
            ∙ counted_there (s == p.selection) (in_range n s) (get_count s codes) (occurrences s ps)
                range,
      )
  | inr protest ↦
      let (here, there) = count_from-get n s counts (bump p.selection codes) ps in
      let range = same_range n s p.selection protest in
      rw protest (
        here
            ∙ not_counted_here (s == p.selection) (in_range n s) (get_count s counts)
                (occurrences s ps) range,
        there
            ∙ ap (λ a. a + (if in_range n s then 0 else occurrences s ps))
                (get_count-bump p.selection s codes)
            ∙ not_counted_there (s == p.selection) (in_range n s) (get_count s codes)
                (occurrences s ps) range,
      )
]

-- The options' figures add up.
sum_range : (Dict ℤ ℕ) → ℕ → ℕ → ℕ
sum_range d i n = sum (map (λ j. get_count (pos j) d) (range_from i n))

hits : ℕ → ℕ → ℤ → Bool
hits i n (pos k) = leb i k && ltb k (i + n)
hits i n (negsuc k) = false

hits_none : (i : ℕ) (k : ℤ) → one_if (hits i 0 k) ≡ 0
unfolding hits
hits_none i (pos k) = ground arith
hits_none i (negsuc k) = refl

hits_next :
    (i n : ℕ) (k : ℤ) → one_if (hits i (suc n) k) ≡ one_if (pos i == k) + one_if (hits (suc i) n k)
unfolding hits
hits_next i n (pos k) = ground arith
hits_next i n (negsuc k) = refl

hits-in_range : (n : ℕ) (k : ℤ) → hits 1 n k ≡ in_range n k
unfolding hits
hits-in_range n (pos k) = ground arith
hits-in_range n (negsuc k) = refl

sum_range-bump :
    (k : ℤ) (d : Dict ℤ ℕ) (i n : ℕ)
    → sum_range (bump k d) i n ≡ sum_range d i n + one_if (hits i n k)
unfolding sum_range
sum_range-bump k d i zero = omega (arith, hits_none i k)
sum_range-bump k d i (suc n) =
    omega (arith, get_count-bump k (pos i) d, hits_next i n k, sum_range-bump k d (suc i) n)

count_from-options :
    (n : ℕ) (counts codes : Dict ℤ ℕ) (ps : List BallotRecord)
    → sum_range counts 1 n ≡ sum (values counts)
    → let (counts', _) = count_from n (counts, codes) ps in
      sum_range counts' 1 n ≡ sum (values counts')
unfolding count_from
count_from-options n counts codes [] h = h
count_from-options n counts codes (p ∷ ps) h = elim (Bool-cases (in_range n p.selection)) [
  | inl valid ↦
      let hit : one_if (hits 1 n p.selection) ≡ 1 = rw (hits-in_range n p.selection, valid) in
      rw valid (
        count_from-options n (bump p.selection counts) codes ps
          (omega (arith, hit, sum_range-bump p.selection counts 1 n, sum-bump p.selection counts)))
  | inr protest ↦ rw protest (count_from-options n counts (bump p.selection codes) ps h)
]

sum_range_empty : (i n : ℕ) → sum_range [] i n ≡ 0
unfolding sum_range
sum_range_empty i zero = refl
sum_range_empty i (suc n) = omega (arith, sum_range_empty (suc i) n)

lookup-range :
    (g : ℕ → ℕ) (i j n : ℕ)
    → i ≤ j
    → j < i + n
    → lookup j (map (λ k. (k, g k)) (range_from i n)) ≡ some (g j)
lookup-range g i j zero le lt = absurd (omega arith)
lookup-range g i j (suc n) le lt = elim (Bool-cases (j == i)) [
  | inl same ↦ rw same (ap (λ k. some (g k)) (sym ((eq_iff j i).0 same)))
  | inr differ ↦ rw differ (lookup-range g (suc i) j n (ground (arith, eq_iff j i)) (omega arith))
]

values-options :
    (d : Dict ℤ ℕ) (i n : ℕ)
    → sum (values (map (λ k. (k, get_count (pos k) d)) (range_from i n))) ≡ sum_range d i n
unfolding sum_range
values-options d i zero = refl
values-options d i (suc n) = ap (λ t. get_count (pos i) d + t) (values-options d (suc i) n)

pub counted :
    (n : ℕ) (s : ℤ) (ps : List BallotRecord)
    → in_range n s ≡ true
    → get_count s (count_from n ([], []) ps).0 ≡ occurrences s ps
counted n s ps h = (count_from-get n s [] [] ps).0 ∙ rw h (omega arith)

pub coded :
    (n : ℕ) (s : ℤ) (ps : List BallotRecord)
    → in_range n s ≡ false
    → get_count s (count_from n ([], []) ps).1 ≡ occurrences s ps
coded n s ps h = (count_from-get n s [] [] ps).1 ∙ rw h (omega arith)

pub in_range_pos : (n i : ℕ) → 1 ≤ i → i ≤ n → in_range n (pos i) ≡ true
in_range_pos n i h k = ground arith

-- Each option's published figure is the number of effective ballots for it, each protest code's the
-- number of effective ballots for that selection outside the list, and the figures add up: the
-- options to the valid ones, the valid and the invalid ones to the voters, who are as many as the
-- effective ballots.
pub count_lem :
    (b : BallotBox)
    → let ballots = values (effective_ballots b) in
      let f = count b in
      ((i : ℕ) → 1 ≤ i → i ≤ b.num_choices → lookup i f.counts ≡ some (occurrences (pos i) ballots))
      × ((s : ℤ)
          → in_range b.num_choices s ≡ false
          → get_count s f.protest_codes ≡ occurrences s ballots)
      × (sum (values f.counts) ≡ f.valid)
      × (f.valid + f.invalid ≡ f.voters)
      × (f.voters ≡ length ballots)
unfolding count
count_lem b =
    let n = b.num_choices in
    let ballots = values (effective_ballots b) in
    let (counts, codes) = count_from n ([], []) ballots in
    let number : length ballots ≡ length (effective_ballots b) =
      length-map (λ e. e.1) (effective_ballots b) in
    (
      λ i le le'.
          lookup-range (λ k. get_count (pos k) counts) 1 i n le (omega arith)
          ∙ ap some (counted n (pos i) ballots (in_range_pos n i le le')),
      λ s out. coded n s ballots out,
      values-options counts 1 n ∙ count_from-options n [] [] ballots (sum_range_empty 1 n),
      omega (arith, count_from-sum n [] [] ballots, number),
      sym number,
    )
