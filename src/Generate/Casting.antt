-- ===== src/Generate/Casting.antt =====
-- The casting phase of `populate`, src/service/generate.py: who casts, what each chose, and the
-- selection of each submission. The lists that `SystemRandom` shuffles, samples and chooses are
-- arguments; an event carries the selection that `draw.choice` would give it.
use online_voting_poc.Prelude.{
  ℕ, suc, ◌-◌, Option, some, List, [], ◌∷◌, contains, length, take, if◌then◌else◌, nat_eq, List-eq,
}
use online_voting_poc.Prelude.Int.{ℤ, pos, negsuc}
use online_voting_poc.Prelude.Dict.{Dict, keys, lookup, insert}
use online_voting_poc.Prelude.Options.{◌>>=◌}
use online_voting_poc.Bytes.{Text}

-- `xs[:n]`; a negative bound counts from the end.
abbrev pub slice {ℓ} : {A : Type ℓ} → ℤ → List A → List A
slice (pos n) xs = take n xs
slice (negsuc n) xs = take (length xs - suc n) xs

-- `[v for v in order if v not in abstaining]`.
abbrev pub without : List Text → List Text → List Text
without abstaining [] = []
without abstaining (v ∷ order) =
    if contains v abstaining then without abstaining order else v ∷ without abstaining order

unfoldable pub casting_voters : ℤ → List Text → List Text
casting_voters abstentions order = without (slice abstentions order) order

-- `dict(zip(voters, final))`, which stops at the end of the shorter list.
abbrev pub dict_zip : Dict Text ℤ → List Text → List ℤ → Dict Text ℤ
dict_zip d [] final = d
dict_zip d (v ∷ voters) [] = d
dict_zip d (v ∷ voters) (s ∷ final) = dict_zip (insert v s d) voters final

-- `{voter_id: i for i, voter_id in enumerate(events)}`.
abbrev pub last_positions : Dict Text ℕ → ℕ → List Text → Dict Text ℕ
last_positions d i [] = d
last_positions d i (v ∷ events) = last_positions (insert v i d) (suc i) events

-- `none` is the KeyError of `last_at[voter_id]` or of `chosen[voter_id]`.
unfoldable pub selection_at : Dict Text ℤ → Dict Text ℕ → ℕ → Text → ℤ → Option ℤ
selection_at chosen last_at position voter_id drawn = do
  last ← lookup voter_id last_at
  if nat_eq last position then lookup voter_id chosen else some drawn

unfoldable pub cast_from :
    Dict Text ℤ → Dict Text ℕ → ℕ → List (Text × ℤ) → Option (List (Text × ℤ))
cast_from chosen last_at position [] = some []
cast_from chosen last_at position ((voter_id, drawn) ∷ events) = do
  selection ← selection_at chosen last_at position voter_id drawn
  rest ← cast_from chosen last_at (suc position) events
  some ((voter_id, selection) ∷ rest)

-- The submissions, in their order.
unfoldable pub cast_all : ℤ → List Text → List ℤ → List (Text × ℤ) → Option (List (Text × ℤ))
cast_all abstentions order final events =
    let chosen = dict_zip [] (casting_voters abstentions order) final in
    cast_from chosen (last_positions [] 0 (keys events)) 0 events
