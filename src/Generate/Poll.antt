-- ===== src/Generate/Poll.antt =====
-- The poll that `populate` of src/service/generate.py leaves is the one that was asked for.
use mathlib.Core.Path.{subst}
use online_voting_poc.Prelude.{
  All-contained, is_some, ℕ, ◌+◌, ◌≡◌, refl, ap, sym, ◌∙◌, Bool, true, false, Option, none, some,
  List, [], ◌∷◌, ◌++◌, ◌==◌, eq_iff, eq_refl, contains, contains-append, Distinct, length,
  if◌then◌else◌, arith, Bool-cases, inl, inr, List-eq, All,
}
use online_voting_poc.Prelude.Int.{ℤ, pos, negsuc, in_range, ℤ-eq}
use online_voting_poc.Prelude.Dict.{Dict, keys, lookup}
use online_voting_poc.Bytes.{Text}
use online_voting_poc.Generate.{Distribution, casting, citizens, selections, check}
use online_voting_poc.Generate.Int.{◌+ℤ◌, int_ltb}
use online_voting_poc.Generate.Drawn.{times, planned}
use online_voting_poc.Generate.Planned.{Passes, check-Passes, length-selections, times-selections}
use online_voting_poc.Generate.Casting.{
  casting_voters, dict_zip, last_positions, cast_from, cast_all,
}
use online_voting_poc.Generate.Outcome.{
  last_selection, last_index, lookup-last_positions, last_index-contains, cast_from-returns,
  last_selection-absent, last_selection-chosen,
}
use online_voting_poc.Generate.Choices.{
  without-take, Distinct-drop, length-drop, Chosen, dict_zip-Chosen, Chosen-known,
}

abbrev is_vote_for : ℤ → Option ℤ → Bool
is_vote_for s none = false
is_vote_for s (some q) = s == q

-- How many of the voters have the selection in their last submission.
abbrev pub votes_for : ℤ → List (Text × ℤ) → List Text → ℕ
votes_for s cast [] = 0
votes_for s cast (v ∷ voters) =
    (if is_vote_for s (last_selection v cast) then 1 else 0) + votes_for s cast voters

votes_for-Chosen :
    (s : ℤ) (d : Dict Text ℤ) (cast : List (Text × ℤ)) (voters : List Text) (final : List ℤ)
    → Chosen d voters final
    → ((v : Text) (q : ℤ)
        → contains v voters ≡ true
        → lookup v d ≡ some q
        → last_selection v cast ≡ some q)
    → votes_for s cast voters ≡ times s final
votes_for-Chosen s d cast [] [] c last = refl
votes_for-Chosen s d cast [] (q ∷ final) c last = absurd c
votes_for-Chosen s d cast (v ∷ voters) [] c last = absurd c
votes_for-Chosen s d cast (v ∷ voters) (q ∷ final) (first, c) last =
    let now = last v q (ground (arith, eq_refl v)) first in
    let rest = votes_for-Chosen s d cast voters final c (λ w r h. last w r (ground (arith, h))) in
    ground (arith, now, rest)

contains-All :
    (v : Text) (xs ys : List Text)
    → All (λ w. contains w ys ≡ true) xs
    → contains v xs ≡ true
    → contains v ys ≡ true
contains-All v [] ys a h = absurd (ground arith)
contains-All v (x ∷ xs) ys (first, a) h = elim (Bool-cases (v == x)) [
  | inl same ↦ ap (λ w. contains w ys) ((eq_iff v x).0 same) ∙ first
  | inr other ↦ contains-All v xs ys a (ground arith)
]

contains-repeated :
    (v : Text) (xs again : List Text)
    → All (λ w. contains w xs ≡ true) again
    → contains v (xs ++ again) ≡ contains v xs
contains-repeated v xs again a = elim (Bool-cases (contains v again)) [
  | inl repeated ↦ ground (arith, contains-append v xs again, contains-All v again xs a repeated)
  | inr new ↦ ground (arith, contains-append v xs again, new)
]

-- The submissions of voters that each have a choice, the events being those of the voters.
votes_for-cast_from :
    (chosen : Dict Text ℤ) (voters : List Text) (final : List ℤ) (events : List (Text × ℤ))
    → Chosen chosen voters final
    → ((v : Text) → contains v (keys events) ≡ contains v voters)
    → (cast : List (Text × ℤ)) × (cast_from chosen (last_positions [] 0 (keys events)) 0 events
        ≡ some cast)
      × ((s : ℤ) → votes_for s cast voters ≡ times s final)
      × ((v : Text) → contains v voters ≡ false → last_selection v cast ≡ none)
votes_for-cast_from chosen voters final events c same =
    let last_at = last_positions [] 0 (keys events) in
    let (cast, e) = cast_from-returns chosen last_at 0 events (
      All-contained _ (keys events) (λ v h. (
        Chosen-known chosen v voters final c (sym (same v) ∙ h),
        ap is_some (lookup-positions v (keys events)) ∙ last_index-contains 0 v (keys events) ∙ h,
      ))) in
    (
      cast,
      e,
      λ s. votes_for-Chosen s chosen cast voters final c (λ v q h found.
          last_selection-chosen chosen last_at 0 v q events cast e found
            (lookup-positions v (keys events)) (same v ∙ h)),
      λ v h. last_selection-absent chosen last_at 0 v events cast e (same v ∙ h),
    )
  where
    lookup-positions :
        (v : Text) (ws : List Text) → lookup v (last_positions [] 0 ws) ≡ last_index 0 v ws
    lookup-positions v ws = ground (arith, lookup-last_positions [] 0 v ws)

-- Who casts: each citizen once, and as many as the plan has ballots.
casting_voters-split :
    (n : ℕ) (d : Distribution) (order : List Text) (z : ℤ)
    → Passes n d
    → Distinct order
    → int_ltb z (pos 0) ≡ false
    → pos (length order) ≡ casting d +ℤ z
    → Distinct (casting_voters z order) × (length (casting_voters z order) ≡ length (selections d))
unfolding casting_voters
casting_voters-split n d order (negsuc a) p distinct nonneg _ = absurd (ground arith)
casting_voters-split n d order (pos a) p distinct _ size =
    let count = size ∙ ap (λ z. z +ℤ pos a) (sym (length-selections n d p)) in
    let same = without-take a order distinct in
    (
      subst Distinct (sym same) (Distinct-drop a order distinct),
      ap length same ∙ ground (arith, length-drop a order, count),
    )

-- A plan that `Distribution.check` lets pass, whose dictionaries name no selection twice; the
-- citizens, each once, in an order; the plan's selections in another, `final`; and the casting
-- citizens with those of them that vote twice in a third, `events`. Then every submission can be
-- made, and whatever the earlier submissions of the re-voters are drawn to be: counting the last
-- submission of each casting citizen, every selection has the votes that the plan asks, in
-- `per_option` for one that the ballot offers, in `protest` for any other; and who abstains
-- submits nothing.
pub cast_all-planned :
    (n : ℕ) (d : Distribution) (order : List Text) (final : List ℤ) (again : List Text)
    (events : List (Text × ℤ))
    → Distinct (keys d.per_option)
    → Distinct (keys d.protest)
    → check n d ≡ none
    → Distinct order
    → pos (length order) ≡ citizens d
    → length final ≡ length (selections d)
    → ((s : ℤ) → times s final ≡ times s (selections d))
    → All (λ v. contains v (casting_voters d.abstentions order) ≡ true) again
    → ((v : Text)
        → contains v (keys events) ≡ contains v (casting_voters d.abstentions order ++ again))
    → let voters = casting_voters d.abstentions order in
      (cast : List (Text × ℤ)) × (cast_all d.abstentions order final events ≡ some cast)
      × ((s : ℤ)
          → pos (votes_for s cast voters)
            ≡ (if in_range n s then planned s d.per_option else planned s d.protest))
      × ((v : Text) → contains v voters ≡ false → last_selection v cast ≡ none)
unfolding cast_all citizens
cast_all-planned n d order final again events options protests h distinct size all drawn a same =
    let p = check-Passes n d h in
    let voters = casting_voters d.abstentions order in
    let (once, count) =
      casting_voters-split n d order d.abstentions p distinct p.abstentions_counted size in
    let c = dict_zip-Chosen [] voters final once (count ∙ sym all) in
    let (cast, e, votes, absent) =
      votes_for-cast_from (dict_zip [] voters final) voters final events c
        (λ v. same v ∙ contains-repeated v voters again a) in
    (cast, e, λ s. ap pos (votes s ∙ drawn s) ∙ times-selections n s d options protests p, absent)
