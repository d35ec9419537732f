-- ===== src/Generate/Choices.antt =====
-- Who casts and what each chose, in `populate` of src/service/generate.py.
use online_voting_poc.Prelude.{
  ℕ, zero, suc, ◌-◌, ◌≡◌, refl, ap, ◌∙◌, true, false, some, List, [], ◌∷◌, ◌==◌, eq_iff, eq_refl,
  contains, Distinct, length, take, drop, arith, Bool-cases, inl, inr, List-eq, is_some,
}
use online_voting_poc.Prelude.Int.{ℤ, ℤ-eq}
use online_voting_poc.Prelude.Dict.{Dict, lookup, insert, lookup-insert}
use online_voting_poc.Bytes.{Text}
use online_voting_poc.Generate.Casting.{without, dict_zip}

-- The citizens who abstain are the first of the order.
without-absent :
    (v : Text) (xs order : List Text)
    → contains v order ≡ false
    → without (v ∷ xs) order ≡ without xs order
without-absent v xs [] h = refl
without-absent v xs (w ∷ order) h =
    ground (arith, without-absent v xs order, eq_iff v w, eq_iff w v)

without-none : (order : List Text) → without [] order ≡ order
without-none [] = refl
without-none (v ∷ order) = ap (◌∷◌ v) (without-none order)

pub without-take :
    (n : ℕ) (order : List Text) → Distinct order → without (take n order) order ≡ drop n order
without-take zero order d = without-none order
without-take (suc n) [] d = refl
without-take (suc n) (v ∷ order) (new, d) =
    rw (eq_refl v) (without-absent v (take n order) order new ∙ without-take n order d)

pub Distinct-drop : (n : ℕ) (xs : List Text) → Distinct xs → Distinct (drop n xs)
Distinct-drop zero xs d = d
Distinct-drop (suc n) [] d = d
Distinct-drop (suc n) (x ∷ xs) (_, d) = Distinct-drop n xs d

pub length-drop : (n : ℕ) (xs : List Text) → length (drop n xs) ≡ length xs - n
length-drop zero xs = omega arith
length-drop (suc n) [] = omega arith
length-drop (suc n) (x ∷ xs) = omega (arith, length-drop n xs)

-- The voters, one by one, have the selections.
abbrev pub Chosen : Dict Text ℤ → List Text → List ℤ → Type 0
Chosen d [] [] = Unit
Chosen d [] (s ∷ final) = ⊥
Chosen d (v ∷ voters) [] = ⊥
Chosen d (v ∷ voters) (s ∷ final) = (lookup v d ≡ some s) × Chosen d voters final

lookup-dict_zip :
    (d : Dict Text ℤ) (q : Text) (voters : List Text) (final : List ℤ)
    → contains q voters ≡ false
    → lookup q (dict_zip d voters final) ≡ lookup q d
lookup-dict_zip d q [] final h = refl
lookup-dict_zip d q (v ∷ voters) [] h = refl
lookup-dict_zip d q (v ∷ voters) (s ∷ final) h =
    ground (arith, lookup-dict_zip (insert v s d) q voters final, lookup-insert v q s d)

pub dict_zip-Chosen :
    (d : Dict Text ℤ) (voters : List Text) (final : List ℤ)
    → Distinct voters
    → length voters ≡ length final
    → Chosen (dict_zip d voters final) voters final
dict_zip-Chosen d [] [] _ h = tt
dict_zip-Chosen d [] (s ∷ final) _ h = absurd (omega (arith, h))
dict_zip-Chosen d (v ∷ voters) [] _ h = absurd (omega (arith, h))
dict_zip-Chosen d (v ∷ voters) (s ∷ final) (new, others) h = (
  ground
      (arith, lookup-dict_zip (insert v s d) v voters final new, lookup-insert v v s d, eq_refl v),
  dict_zip-Chosen (insert v s d) voters final others (ground arith),
)

pub Chosen-known :
    (d : Dict Text ℤ) (v : Text) (voters : List Text) (final : List ℤ)
    → Chosen d voters final
    → contains v voters ≡ true
    → is_some (lookup v d) ≡ true
Chosen-known d v [] final c h = absurd (ground arith)
Chosen-known d v (w ∷ voters) [] c h = absurd c
Chosen-known d v (w ∷ voters) (s ∷ final) (first, c) h = elim (Bool-cases (v == w)) [
  | inl same ↦ ap (λ x. is_some (lookup x d)) ((eq_iff v w).0 same) ∙ ap is_some first
  | inr other ↦ Chosen-known d v voters final c (ground arith)
]
