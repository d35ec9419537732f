-- ===== src/Generate/Drawn.antt =====
-- The ballots drawn from an accepted plan, `Distribution.selections` of src/service/generate.py.
use online_voting_poc.Prelude.{
  ℕ, zero, suc, ◌+◌, ◌≡◌, refl, ap, ◌∙◌, false, none, some, List, [], ◌∷◌, ◌++◌, ◌==◌, contains,
  Distinct, length, length-append, length-replicate, replicate, if◌then◌else◌, arith, Bool-cases,
  inl, inr,
}
use online_voting_poc.Prelude.Int.{ℤ, pos, negsuc, int_eq_iff, ℤ-eq}
use online_voting_poc.Prelude.Dict.{Dict, keys, values, lookup}
use online_voting_poc.Generate.{insert_item, sort_items, repeat, extend, any_negative}
use online_voting_poc.Generate.Int.{◌+ℤ◌, int_ltb, sum}

-- How often the selection is drawn.
abbrev pub times : ℤ → List ℤ → ℕ
times s [] = 0
times s (q ∷ qs) = (if s == q then 1 else 0) + times s qs

-- What the plan asks of the selection.
abbrev pub planned : ℤ → Dict ℤ ℤ → ℤ
planned s d = elim (lookup s d) [ none ↦ pos 0 | some count ↦ count ]

pub times-append : (s : ℤ) (xs ys : List ℤ) → times s (xs ++ ys) ≡ times s xs + times s ys
times-append s [] ys = omega arith
times-append s (x ∷ xs) ys = omega (arith, times-append s xs ys)

times-replicate : (s q : ℤ) (n : ℕ) → times s (replicate n q) ≡ (if s == q then n else 0)
times-replicate s q zero = ground arith
times-replicate s q (suc n) = ground (arith, times-replicate s q n)

times-insert_item :
    (s : ℤ) (e : ℤ × ℤ) (es : List (ℤ × ℤ))
    → times s (extend (insert_item e es)) ≡ times s (repeat e.0 e.1) + times s (extend es)
times-insert_item s e [] = times-append s (repeat e.0 e.1) []
times-insert_item s e (f ∷ fs) = elim (Bool-cases (int_ltb f.0 e.0)) [
  | inl before ↦ rw before (
      omega (
        arith,
        times-insert_item s e fs,
        times-append s (repeat f.0 f.1) (extend (insert_item e fs)),
        times-append s (repeat f.0 f.1) (extend fs),
      ))
  | inr after ↦ rw after (times-append s (repeat e.0 e.1) (extend (f ∷ fs)))
]

pub times-sort_items :
    (s : ℤ) (es : List (ℤ × ℤ)) → times s (extend (sort_items es)) ≡ times s (extend es)
times-sort_items s [] = refl
times-sort_items s (e ∷ es) = omega (
  arith,
  times-insert_item s e (sort_items es),
  times-sort_items s es,
  times-append s (repeat e.0 e.1) (extend es),
)

length-insert_item :
    (e : ℤ × ℤ) (es : List (ℤ × ℤ))
    → length (extend (insert_item e es)) ≡ length (repeat e.0 e.1) + length (extend es)
length-insert_item e [] = length-append (repeat e.0 e.1) []
length-insert_item e (f ∷ fs) = elim (Bool-cases (int_ltb f.0 e.0)) [
  | inl before ↦ rw before (
      omega (
        arith,
        length-insert_item e fs,
        length-append (repeat f.0 f.1) (extend (insert_item e fs)),
        length-append (repeat f.0 f.1) (extend fs),
      ))
  | inr after ↦ rw after (length-append (repeat e.0 e.1) (extend (f ∷ fs)))
]

pub length-sort_items : (es : List (ℤ × ℤ)) → length (extend (sort_items es)) ≡ length (extend es)
length-sort_items [] = refl
length-sort_items (e ∷ es) = omega (
  arith,
  length-insert_item e (sort_items es),
  length-sort_items es,
  length-append (repeat e.0 e.1) (extend es),
)

-- The sum of counts none of which is negative is the number of ballots.
pub length-extend :
    (d : Dict ℤ ℤ) → any_negative (values d) ≡ false → pos (length (extend d)) ≡ sum (values d)
length-extend [] h = refl
length-extend ((s, pos c) ∷ d) h =
    ap pos (
      length-append (replicate c s) (extend d)
      ∙ ap (λ n. n + length (extend d)) (length-replicate c s))
    ∙ ap (λ z. pos c +ℤ z) (length-extend d (ground arith))
length-extend ((s, negsuc c) ∷ d) h = absurd (ground arith)

pub times-extend_absent :
    (s : ℤ) (d : Dict ℤ ℤ) → contains s (keys d) ≡ false → times s (extend d) ≡ 0
times-extend_absent s [] h = refl
times-extend_absent s ((q, pos c) ∷ d) h = ground (
  arith,
  times-append s (replicate c q) (extend d),
  times-replicate s q c,
  times-extend_absent s d,
)
times-extend_absent s ((q, negsuc c) ∷ d) h = ground (arith, times-extend_absent s d)

pub times-extend :
    (s : ℤ) (d : Dict ℤ ℤ)
    → Distinct (keys d)
    → any_negative (values d) ≡ false
    → pos (times s (extend d)) ≡ planned s d
times-extend s [] _ h = refl
times-extend s ((q, negsuc c) ∷ d) _ h = absurd (ground arith)
times-extend s ((q, pos c) ∷ d) (new, others) h = elim (Bool-cases (s == q)) [
  | inl same ↦
      rw (planned, same)
        (ap pos (
          ground (
            arith,
            times-append s (replicate c q) (extend d),
            times-replicate s q c,
            times-extend_absent s d (ap (λ k. contains k (keys d)) ((int_eq_iff s q).0 same) ∙ new),
          )))
  | inr other ↦
      rw (planned, other)
        (ap pos (ground (arith, times-append s (replicate c q) (extend d), times-replicate s q c))
          ∙ times-extend s d others (ground arith))
]
