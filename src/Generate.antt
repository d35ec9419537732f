-- ===== src/Generate.antt =====
-- The plan of a generated election, src/service/generate.py: `identifiers` and `Distribution`,
-- whose counts are Python integers and may be negative. A dictionary is a list of its items.
use online_voting_poc.Prelude.{
  ℕ, zero, suc, ◌-◌, Bool, false, ◌||◌, Option, none, some, List, [], ◌∷◌, ◌++◌, length, get_elem?,
  replicate, if◌then◌else◌,
}
use online_voting_poc.Prelude.Int.{ℤ, pos, negsuc, in_range}
use online_voting_poc.Prelude.Dict.{Dict, values}
use online_voting_poc.Bytes.{Text}
use online_voting_poc.Json.{codes, decimal}
pub mod Int
pub mod Drawn
pub mod Planned
pub mod Casting
pub mod Outcome
pub mod Choices
pub mod Poll
use online_voting_poc.Generate.Int.{◌+ℤ◌, int_ltb, sum}

abbrev pub awkward : List Text
awkward = codes "Ő" ∷ codes "ű" ∷ codes "日本語" ∷ codes "𝔄" ∷ codes "Ágnes" ∷ []

-- `f"GEN-{i:06d}"`.
unfoldable pub numbered : ℕ → Text
numbered i =
    let digits = decimal i in codes "GEN-" ++ (replicate (6 - length digits) b'0' ++ digits)

unfoldable pub identifier : ℕ → Text
identifier i = elim (get_elem? awkward i) [
  | none ↦ numbered (suc i)
  | some accent ↦ numbered (suc i) ++ b'-' ∷ accent
]

unfoldable pub identifiers_from : ℕ → ℕ → List Text
identifiers_from i zero = []
identifiers_from i (suc n) = identifier i ∷ identifiers_from (suc i) n

unfoldable pub identifiers : ℕ → List Text
identifiers count = identifiers_from 0 count

pub record Distribution : Type 0 where
  pub per_option : Dict ℤ ℤ
  pub protest : Dict ℤ ℤ
  pub abstentions : ℤ
  pub revotes : ℤ

unfoldable pub casting : Distribution → ℤ
casting d = sum (values d.per_option) +ℤ sum (values d.protest)

unfoldable pub citizens : Distribution → ℤ
citizens d = casting d +ℤ d.abstentions

unfoldable pub submissions : Distribution → ℤ
submissions d = casting d +ℤ d.revotes

-- `sorted(d.items())`, by the selection: the keys of a dictionary differ.
abbrev pub insert_item : (ℤ × ℤ) → List (ℤ × ℤ) → List (ℤ × ℤ)
insert_item e [] = e ∷ []
insert_item e (f ∷ fs) = if int_ltb f.0 e.0 then f ∷ insert_item e fs else e ∷ f ∷ fs

abbrev pub sort_items : List (ℤ × ℤ) → List (ℤ × ℤ)
sort_items [] = []
sort_items (e ∷ es) = insert_item e (sort_items es)

-- `[selection] * count`, which is empty for a negative count.
abbrev pub repeat : ℤ → ℤ → List ℤ
repeat selection (pos count) = replicate count selection
repeat selection (negsuc count) = []

abbrev pub extend : List (ℤ × ℤ) → List ℤ
extend [] = []
extend ((selection, count) ∷ es) = repeat selection count ++ extend es

unfoldable pub selections : Distribution → List ℤ
selections d = extend (sort_items d.per_option) ++ extend (sort_items d.protest)

pub data PlanError : Type 0 where
  option_outside : ℤ → PlanError
  valid_option : ℤ → PlanError
  negative_count : PlanError
  no_ballots : PlanError
  too_many_revotes : PlanError

-- One check after another: the first that raises ends the chain.
infixr 3 ◌unless◌
abbrev pub ◌unless◌ : Option PlanError → Option PlanError → Option PlanError
none unless next = next
some e unless next = some e

abbrev pub raise_if : Bool → PlanError → Option PlanError
raise_if b e = if b then some e else none

unfoldable pub check_options : ℕ → Dict ℤ ℤ → Option PlanError
check_options n [] = none
check_options n ((selection, _) ∷ d) =
    if in_range n selection then check_options n d else some (option_outside selection)

unfoldable pub check_protest : ℕ → Dict ℤ ℤ → Option PlanError
check_protest n [] = none
check_protest n ((selection, _) ∷ d) =
    if in_range n selection then some (valid_option selection) else check_protest n d

abbrev pub any_negative : List ℤ → Bool
any_negative [] = false
any_negative (c ∷ cs) = int_ltb c (pos 0) || any_negative cs

-- `none` where nothing is raised.
unfoldable pub check : ℕ → Distribution → Option PlanError
check num_choices d =
    check_options num_choices d.per_option
    unless (check_protest num_choices d.protest
        unless (raise_if (any_negative (values d.per_option ++ values d.protest)) negative_count
            unless (raise_if (int_ltb d.abstentions (pos 0) || int_ltb d.revotes (pos 0))
                  negative_count
                unless (raise_if (int_ltb (casting d) (pos 1)) no_ballots
                    unless raise_if (int_ltb (casting d) d.revotes) too_many_revotes))))
