-- ===== src/Prelude/Dict.antt =====
-- A Python dict in insertion order: an association list that a write changes in place.
use mathlib.Core.Path.{◌≡◌, refl}
use mathlib.Core.Logic.{◌≢◌}
use mathlib.Core.Option.{Option, none, some}
use mathlib.Core.List.{List, [], ◌∷◌, ◌++◌, map}
use native.Mathlib.Omega.{arith}
use online_voting_poc.Prelude.Tests.{if◌then◌else◌, is_some}
use online_voting_poc.Prelude.Eq.{Eq, ◌==◌, contains}

abbrev pub Dict {ℓ κ} : Type ℓ → Type κ → Type (ℓ ⊔ κ)
Dict K V = List (K × V)

module _ {ℓ κ} {K : Type ℓ} {V : Type κ} where
  abbrev pub keys : Dict K V → List K
  keys = map (λ e. e.0)

  abbrev pub values : Dict K V → List V
  values = map (λ e. e.1)

module _ {ℓ κ} {K : Type ℓ} {V : Type κ} ⦃e : Eq K⦄ where
  -- `d.get(k)`.
  abbrev pub lookup : K → Dict K V → Option V
  lookup k [] = none
  lookup k ((j, v) ∷ d) = if k == j then some v else lookup k d

  -- `d[k] = v`.
  abbrev pub insert : K → V → Dict K V → Dict K V
  insert k v [] = (k, v) ∷ []
  insert k v ((j, w) ∷ d) = if k == j then (j, v) ∷ d else (j, w) ∷ insert k v d

  -- `del d[k]`; the keys of a dict stand in it once.
  abbrev pub erase : K → Dict K V → Dict K V
  erase k [] = []
  erase k ((j, w) ∷ d) = if k == j then erase k d else (j, w) ∷ erase k d

  pub lookup-insert :
      (k q : K) (v : V) (d : Dict K V)
      → lookup q (insert k v d) ≡ (if q == k then some v else lookup q d)
  lookup-insert k q v [] = refl
  lookup-insert k q v ((j, w) ∷ d) =
      ground (arith, e.equals_iff k j, e.equals_iff q j, e.equals_iff q k, lookup-insert k q v d)

  pub contains-keys : (k : K) (d : Dict K V) → contains k (keys d) ≡ is_some (lookup k d)
  contains-keys k [] = refl
  contains-keys k ((j, w) ∷ d) = ground (arith, contains-keys k d)

  pub insert_new :
      (k : K) (v : V) (d : Dict K V) → lookup k d ≡ none → insert k v d ≡ d ++ (k, v) ∷ []
  insert_new k v [] h = refl
  insert_new k v ((j, w) ∷ d) h = ground (arith, insert_new k v d)

  pub lookup-erase_ne : (k q : K) (d : Dict K V) → q ≢ k → lookup q (erase k d) ≡ lookup q d
  lookup-erase_ne k q [] h = refl
  lookup-erase_ne k q ((j, w) ∷ d) h =
      ground (arith, e.equals_iff k j, e.equals_iff q j, lookup-erase_ne k q d h)

  pub lookup-erase : (k : K) (d : Dict K V) → lookup k (erase k d) ≡ none
  lookup-erase k [] = refl
  lookup-erase k ((j, w) ∷ d) = ground (arith, lookup-erase k d)
