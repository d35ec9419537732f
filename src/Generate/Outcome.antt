-- ===== src/Generate/Outcome.antt =====
-- The last submission of each voter in the casting phase of `populate`, src/service/generate.py.
use online_voting_poc.Prelude.{
  nat_eq, ℕ, suc, ◌≡◌, refl, ap, sym, ◌∙◌, true, false, Option, none, some, List, [], ◌∷◌, ◌==◌,
  eq_iff, contains, if◌then◌else◌, arith, Bool-cases, Option-cases, inl, inr, List-eq, is_some, All,
}
use online_voting_poc.Prelude.Int.{ℤ}
use online_voting_poc.Prelude.Dict.{Dict, keys, lookup, insert, lookup-insert}
use online_voting_poc.Prelude.Options.{bind-elim}
use online_voting_poc.Bytes.{Text}
use online_voting_poc.Generate.Casting.{last_positions, selection_at, cast_from}

-- The selection of a voter's last submission: the one that counts.
abbrev pub last_selection : Text → List (Text × ℤ) → Option ℤ
last_selection v [] = none
last_selection v ((w, s) ∷ cast) = elim (last_selection v cast) [
  | none ↦ if v == w then some s else none
  | some later ↦ some later
]

abbrev pub last_index : ℕ → Text → List Text → Option ℕ
last_index i v [] = none
last_index i v (w ∷ ws) = elim (last_index (suc i) v ws) [
  | none ↦ if v == w then some i else none
  | some j ↦ some j
]

pub last_index-contains :
    (i : ℕ) (v : Text) (ws : List Text) → is_some (last_index i v ws) ≡ contains v ws
last_index-contains i v [] = refl
last_index-contains i v (w ∷ ws) = ground (arith, last_index-contains (suc i) v ws)

pub lookup-last_positions :
    (d : Dict Text ℕ) (i : ℕ) (v : Text) (ws : List Text)
    → lookup v (last_positions d i ws)
      ≡ (elim (last_index i v ws) [ none ↦ lookup v d | some j ↦ some j ])
lookup-last_positions d i v [] = refl
lookup-last_positions d i v (w ∷ ws) =
    ground (arith, lookup-last_positions (insert w i d) (suc i) v ws, lookup-insert w v i d)

module _ (chosen : Dict Text ℤ) (last_at : Dict Text ℕ) where
  selected :
      (i : ℕ) (v : Text) (drawn : ℤ)
      → is_some (lookup v chosen) ≡ true
      → is_some (lookup v last_at) ≡ true
      → (s : ℤ) × (selection_at chosen last_at i v drawn ≡ some s)
  unfolding selection_at
  selected i v drawn known placed = elim (Option-cases (lookup v last_at)) [
    | inl missing ↦ absurd (ground (arith, placed, missing))
    | inr (last, at_last) ↦ elim (Bool-cases (nat_eq last i)) [
      | inl here ↦ elim (Option-cases (lookup v chosen)) [
        | inl missing ↦ absurd (ground (arith, known, missing))
        | inr (s, found) ↦ (s, rw (at_last, here, found) refl)
      ]
      | inr earlier ↦ (drawn, rw (at_last, earlier) refl)
    ]
  ]

  -- Nothing is looked up that is not there, so that every submission is made.
  pub cast_from-returns :
      (i : ℕ) (events : List (Text × ℤ))
      → All
          (λ v. (is_some (lookup v chosen) ≡ true) × (is_some (lookup v last_at) ≡ true))
          (keys events)
      → (cast : List (Text × ℤ)) × (cast_from chosen last_at i events ≡ some cast)
  unfolding cast_from
  cast_from-returns i [] _ = ([], refl)
  cast_from-returns i ((v, drawn) ∷ events) ((known, placed), others) =
      let (rest, e) = cast_from-returns (suc i) events others in
      let (s, now) = selected i v drawn known placed in ((v, s) ∷ rest, rw (now, e) refl)

  -- The first event's part of a run.
  cast_from-cons :
      {P : Type 0} (i : ℕ) (w : Text) (drawn : ℤ) (events : List (Text × ℤ))
      {cast : List (Text × ℤ)}
      → cast_from chosen last_at i ((w, drawn) ∷ events) ≡ some cast
      → ((s : ℤ) (rest : List (Text × ℤ))
          → selection_at chosen last_at i w drawn ≡ some s
          → cast_from chosen last_at (suc i) events ≡ some rest
          → cast ≡ (w, s) ∷ rest
          → P)
      → P
  unfolding cast_from
  cast_from-cons i w drawn events h k =
      bind-elim (selection_at chosen last_at i w drawn) h (λ s e h.
        bind-elim (cast_from chosen last_at (suc i) events) h (λ rest e' h. k s rest e e' (cc)))

  pub last_selection-absent :
      (i : ℕ) (v : Text) (events cast : List (Text × ℤ))
      → cast_from chosen last_at i events ≡ some cast
      → contains v (keys events) ≡ false
      → last_selection v cast ≡ none
  unfolding cast_from
  last_selection-absent i v [] [] h absent = refl
  last_selection-absent i v [] (c ∷ cast) h absent = absurd (ground arith)
  last_selection-absent i v ((w, drawn) ∷ events) cast h absent =
      cast_from-cons i w drawn events h (λ s rest _ e same.
        let before = last_selection-absent (suc i) v events rest e (ground arith) in
        ap (last_selection v) same ∙ ground (arith, before, absent))

  last_event :
      (cast : List (Text × ℤ)) (i : ℕ) (v w : Text) (s t drawn : ℤ)
      → lookup v chosen ≡ some s
      → lookup v last_at ≡ some i
      → v ≡ w
      → selection_at chosen last_at i w drawn ≡ some t
      → last_selection v cast ≡ none
      → last_selection v ((w, t) ∷ cast) ≡ some s
  unfolding selection_at
  last_event cast i v w s t drawn found placed same now before =
      let chosen_w = ap (λ x. lookup x chosen) (sym same) ∙ found in
      let placed_w = ap (λ x. lookup x last_at) (sym same) ∙ placed in
      ground (arith, before, chosen_w, placed_w, now, (eq_iff v w).1 same)

  -- The last of a voter's submissions is the one that was chosen for them.
  pub last_selection-chosen :
      (i : ℕ) (v : Text) (s : ℤ) (events cast : List (Text × ℤ))
      → cast_from chosen last_at i events ≡ some cast
      → lookup v chosen ≡ some s
      → lookup v last_at ≡ last_index i v (keys events)
      → contains v (keys events) ≡ true
      → last_selection v cast ≡ some s
  unfolding selection_at
  last_selection-chosen i v s [] cast h found last here = absurd (ground arith)
  last_selection-chosen i v s ((w, drawn) ∷ events) cast h found last here =
      cast_from-cons i w drawn events h (λ t rest now e same.
        ap (last_selection v) same ∙ elim (Bool-cases (contains v (keys events))) [
          | inl later ↦
              let again = last_index-contains (suc i) v (keys events) in
              elim (Option-cases (last_index (suc i) v (keys events))) [
                | inl nowhere ↦ absurd (ground (arith, again, later, nowhere))
                | inr (j, at_j) ↦
                    let kept =
                      last_selection-chosen (suc i) v s events rest e found
                        (ground (arith, last, at_j)) later in
                    ground (arith, kept)
              ]
          | inr never ↦
              let before = last_selection-absent (suc i) v events rest e never in
              let again = last_index-contains (suc i) v (keys events) in
              let voter : (v == w) ≡ true = ground (arith, here, never) in
              let placed : lookup v last_at ≡ some i = ground (arith, last, again, never, voter) in
              last_event rest i v w s t drawn found placed ((eq_iff v w).0 voter) now before
        ])
