-- ===== src/Prelude/Eq.antt =====
-- Equality tests as an interface, with instances for numbers, texts and byte strings.
use Prim.Native.Nat.{ℕ}
use mathlib.Core.Path.{◌≡◌, refl}
use mathlib.Core.Logic.{◌↔◌}
use mathlib.Core.Bool.{Bool, true, false, ◌&&◌, ◌||◌}
use mathlib.Core.List.{List, [], ◌∷◌, ◌++◌}
use native.Mathlib.Omega.{arith}
use Prim.Native.String.{String}
use text.Mathlib.Text.{◌==◌ as str_eq}
use text.Mathlib.TextEquality.{eq_iff as str_eq_iff}
use online_voting_poc.Prelude.Tests.{nat_eq, nat_eq_iff, if◌then◌else◌}
use online_voting_poc.Prelude.Lists.{All}

pub record Eq {ℓ} (A : Type ℓ) : Type ℓ where
  pub equals : A → A → Bool
  pub equals_iff : (a b : A) → (equals a b ≡ true) ↔ (a ≡ b)

unfoldable pub list_eq : List ℕ → List ℕ → Bool
list_eq [] [] = true
list_eq [] (y ∷ ys) = false
list_eq (x ∷ xs) [] = false
list_eq (x ∷ xs) (y ∷ ys) = nat_eq x y && list_eq xs ys

pub list_eq_iff : (xs ys : List ℕ) → (list_eq xs ys ≡ true) ↔ (xs ≡ ys)
unfolding list_eq
list_eq_iff [] [] = ground arith
list_eq_iff [] (y ∷ ys) = ground arith
list_eq_iff (x ∷ xs) [] = ground arith
list_eq_iff (x ∷ xs) (y ∷ ys) = ground (arith, list_eq_iff xs ys)

instance abbrev pub ℕ-eq : Eq ℕ
ℕ-eq = record { equals = nat_eq; equals_iff = nat_eq_iff }

instance abbrev pub List-eq : Eq (List ℕ)
List-eq = record { equals = list_eq; equals_iff = list_eq_iff }

instance abbrev pub String-eq : Eq String
String-eq = record { equals = str_eq; equals_iff = str_eq_iff }

infix 50 ◌==◌
abbrev pub ◌==◌ {ℓ} : {K : Type ℓ} ⦃e : Eq K⦄ (a b : K) → Bool
◌==◌ ⦃e⦄ a b = e.equals a b

pub eq_iff {ℓ} : {A : Type ℓ} ⦃e : Eq A⦄ (a b : A) → ((a == b) ≡ true) ↔ (a ≡ b)
eq_iff ⦃e⦄ = e.equals_iff

pub eq_refl {ℓ} : {A : Type ℓ} ⦃e : Eq A⦄ (a : A) → (a == a) ≡ true
eq_refl ⦃e⦄ a = (e.equals_iff a a).1 refl

-- `x in s`, for a set kept as a list.
module _ {ℓ} {A : Type ℓ} ⦃e : Eq A⦄ where
  abbrev pub contains : A → List A → Bool
  contains a [] = false
  contains a (x ∷ xs) = a == x || contains a xs

  -- `s.add(x)`.
  abbrev pub add : A → List A → List A
  add a xs = if contains a xs then xs else xs ++ a ∷ []

  pub contains-append :
      (a : A) (xs ys : List A) → contains a (xs ++ ys) ≡ (contains a xs || contains a ys)
  contains-append a [] ys = refl
  contains-append a (x ∷ xs) ys = ground (arith, contains-append a xs ys)

  pub contains-add : (a b : A) (xs : List A) → contains a (add b xs) ≡ (a == b || contains a xs)
  contains-add a b xs = ground (arith, contains-append a xs (b ∷ []), e.equals_iff a b)

  -- No element stands twice in the list.
  abbrev pub Distinct : List A → Type 0
  Distinct [] = Unit
  Distinct (x ∷ xs) = (contains x xs ≡ false) × Distinct xs

  pub Distinct-snoc :
      (x : A) (xs : List A) → Distinct xs → contains x xs ≡ false → Distinct (xs ++ x ∷ [])
  Distinct-snoc x [] d h = (refl, tt)
  Distinct-snoc x (y ∷ ys) d h = (
    ground (arith, contains-append y ys (x ∷ []), e.equals_iff y x, e.equals_iff x y),
    Distinct-snoc x ys d.1 (ground arith),
  )

  -- What stands in such a list stands nowhere before.
  pub Distinct-new :
      (before : List A) (x : A) (xs : List A)
      → Distinct (before ++ x ∷ xs)
      → contains x before ≡ false
  Distinct-new [] x xs d = refl
  Distinct-new (y ∷ before) x xs (h, d) = ground (
    arith,
    Distinct-new before x xs d,
    contains-append y before (x ∷ xs),
    e.equals_iff x y,
    e.equals_iff y x,
  )

  -- What holds of whatever the list contains holds all along it.
  pub All-contained {κ} :
      (P : A → Type κ) (xs : List A) → ((a : A) → contains a xs ≡ true → P a) → All P xs
  All-contained P [] f = tt
  All-contained P (x ∷ xs) f =
      (f x (ground (arith, e.equals_iff x x)), All-contained P xs (λ a h. f a (ground (arith, h))))
