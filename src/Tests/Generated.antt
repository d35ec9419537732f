-- ===== src/Tests/Generated.antt =====
-- A small generated election: two options chosen, a protest ballot, one who abstains, one who
-- votes twice.
use online_voting_poc.Prelude.{
  ℕ, ◌+◌, ◌≤◌, false, if◌then◌else◌, contains, arith, List-eq, list_eq, Distinct, ◌≡◌, refl, true,
  none, some, List, [], ◌∷◌, ◌++◌, length,
}
use online_voting_poc.Prelude.Int.{ℤ, pos, in_range}
use online_voting_poc.Prelude.Dict.{keys}
use online_voting_poc.Generate.Drawn.{times, planned}
use online_voting_poc.Generate.Outcome.{last_selection}
use online_voting_poc.Bytes.{Text}
use online_voting_poc.Json.{codes}
use online_voting_poc.Generate.{
  Distribution, identifiers, identifiers_from, identifier, numbered, citizens, casting, selections,
  check, check_options, check_protest, submissions, too_many_revotes, valid_option,
}
use online_voting_poc.Generate.Casting.{casting_voters, cast_all, cast_from, selection_at}
use online_voting_poc.Generate.Planned.{check-selections}
use online_voting_poc.Generate.Poll.{cast_all-planned, votes_for}
use online_voting_poc.Json.{decimal, decimal_fuel}

abbrev plan : Distribution
plan = record {
  per_option = (pos 2, pos 1) ∷ (pos 1, pos 1) ∷ [];
  protest = (pos 99, pos 1) ∷ [];
  abstentions = pos 1;
  revotes = pos 1;
}

plan_passes : check 3 plan ≡ none
unfolding check check_options check_protest casting
plan_passes = refl

protest_in_range : check 99 plan ≡ some (valid_option (pos 99))
unfolding check check_options check_protest casting
protest_in_range = refl

revotes_bounded : check 3 (record plan { revotes = pos 4 }) ≡ some too_many_revotes
unfolding check check_options check_protest casting
revotes_bounded = refl

sorted_selections : selections plan ≡ pos 1 ∷ pos 2 ∷ pos 99 ∷ []
unfolding selections
sorted_selections = refl

first_identifier : identifiers 1 ≡ codes "GEN-000001-Ő" ∷ []
unfolding identifiers identifiers_from identifier numbered decimal decimal_fuel
first_identifier = refl

sixth_identifier : identifier 5 ≡ codes "GEN-000006"
unfolding identifier numbered decimal decimal_fuel
sixth_identifier = refl

abbrev order : List Text
order = codes "d" ∷ codes "a" ∷ codes "c" ∷ codes "b" ∷ []

abbrev final : List ℤ
final = pos 99 ∷ pos 1 ∷ pos 2 ∷ []

abbrev again : List Text
again = codes "c" ∷ []

abbrev events : List (Text × ℤ)
events = (codes "c", pos 99) ∷ (codes "b", pos 1) ∷ (codes "a", pos 2) ∷ (codes "c", pos 2) ∷ []

abbrev submitted : List (Text × ℤ)
submitted = (codes "c", pos 99) ∷ (codes "b", pos 2) ∷ (codes "a", pos 99) ∷ (codes "c", pos 1) ∷ []

casts : cast_all plan.abstentions order final events ≡ some submitted
unfolding cast_all cast_from selection_at casting_voters list_eq
casts = refl

check-selections_example :
    (pos (length (selections plan)) ≡ casting plan)
    × (1 ≤ length (selections plan))
    × ((revotes : ℕ) × (plan.revotes ≡ pos revotes)
        × (revotes ≤ length (selections plan))
        × (submissions plan ≡ pos (length (selections plan) + revotes)))
    × ((s : ℤ)
        → pos (times s (selections plan))
          ≡ (if in_range 3 s then planned s plan.per_option else planned s plan.protest))
check-selections_example = check-selections 3 plan (refl, (refl, tt)) (refl, tt) plan_passes

four_citizens : pos (length order) ≡ citizens plan
unfolding citizens casting
four_citizens = refl

order-Distinct : Distinct order
unfolding list_eq
order-Distinct = (refl, (refl, (refl, (refl, tt))))

abbrev voters : List Text
voters = codes "a" ∷ codes "c" ∷ codes "b" ∷ []

casting_voters-order : casting_voters plan.abstentions order ≡ voters
unfolding casting_voters list_eq
casting_voters-order = refl

same_number : length final ≡ length (selections plan)
unfolding selections
same_number = refl

same_selections : (s : ℤ) → times s final ≡ times s (selections plan)
unfolding selections
same_selections s = omega arith

again_casts : contains (codes "c") (casting_voters plan.abstentions order) ≡ true
unfolding casting_voters list_eq
again_casts = refl

same_members :
    (v : Text)
    → contains v (keys events) ≡ contains v (casting_voters plan.abstentions order ++ again)
same_members v = rw casting_voters-order (ground arith)

cast_all-planned_example :
    (cast : List (Text × ℤ)) × (cast_all plan.abstentions order final events ≡ some cast)
    × ((s : ℤ)
        → pos (votes_for s cast (casting_voters plan.abstentions order))
          ≡ (if in_range 3 s then planned s plan.per_option else planned s plan.protest))
    × ((v : Text)
        → contains v (casting_voters plan.abstentions order) ≡ false
        → last_selection v cast ≡ none)
cast_all-planned_example =
    cast_all-planned 3 plan order final again events (refl, (refl, tt)) (refl, tt) plan_passes
      order-Distinct four_citizens same_number same_selections (again_casts, tt) same_members
