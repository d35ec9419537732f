-- ===== src/Verifier/Checks.antt =====
-- `Report` of tools/verify_election.py: the checks made, in order, without the figures beside them.
use Prim.Native.String.{String}
use online_voting_poc.Prelude.{
  ℕ, ◌≡◌, Bool, true, false, ◌&&◌, Option, none, some, List, [], ◌∷◌, ◌++◌, get_last?, refl, arith,
}
use online_voting_poc.Prelude.Int.{ℤ}
use online_voting_poc.Prelude.Dict.{Dict}
use online_voting_poc.Bytes.{Text}

pub record Check : Type 0 where
  pub section : String
  pub ok : Bool
  pub description : String

pub record Tally : Type 0 where
  pub election_id : Text
  pub configuration_digest : Text
  pub options : List (ℕ × ℕ)
  pub outside_the_list : Dict ℤ ℕ
  pub ballots : ℕ
  pub voters : ℕ
  pub rejected : ℕ

pub record Report : Type 0 where
  pub checks : List Check
  pub sections : List String
  pub tally : Option Tally
  pub generated : Bool

abbrev pub new_report : Report
new_report = record { checks = []; sections = []; tally = none; generated = false }

unfoldable pub section : String → Report → Report
section title r = record r { sections = r.sections ++ title ∷ [] }

-- `self.sections[-1] if self.sections else ""`.
abbrev pub current_section : Report → String
current_section r = elim (get_last? r.sections) [ none ↦ "" | some s ↦ s ]

unfoldable pub check : Bool → String → Report → Report
check passed description r = record r {
  checks =
      r.checks
      ++ record { section = current_section r; ok = passed; description = description } ∷ [];
}

abbrev pub failing : List Check → List String
failing [] = []
failing (c ∷ cs) = elim c.ok [ true ↦ failing cs | false ↦ c.description ∷ failing cs ]

unfoldable pub failures : Report → List String
failures r = failing r.checks

-- `report.ok`.
unfoldable pub passes : Report → Bool
unfolding failures
passes r = elim (failures r) [ [] ↦ true | _ ∷ _ ↦ false ]

-- `report.generated = ...`.
unfoldable pub mark_generated : Bool → Report → Report
mark_generated b r = record r { generated = b }

failing-snoc :
    (cs : List Check) (c : Check)
    → failing (cs ++ c ∷ []) ≡ failing cs ++ (elim c.ok [ true ↦ [] | false ↦ c.description ∷ [] ])
failing-snoc [] c = ground arith
failing-snoc (d ∷ cs) c = ground (arith, failing-snoc cs c)

-- A report passes exactly if it passed so far and this check does.
pub passes-check : (b : Bool) (d : String) (r : Report) → passes (check b d r) ≡ (passes r && b)
unfolding passes check
passes-check b d r =
    ground (
      arith,
      failing-snoc r.checks (record { section = current_section r; ok = b; description = d }),
    )

pub passes-section : (t : String) (r : Report) → passes (section t r) ≡ passes r
unfolding passes section
passes-section t r = refl

pub passes-mark_generated : (b : Bool) (r : Report) → passes (mark_generated b r) ≡ passes r
unfolding passes mark_generated
passes-mark_generated b r = refl

pub passes-with_tally : (t : Tally) (r : Report) → passes (record r { tally = some t }) ≡ passes r
unfolding passes
passes-with_tally t r = refl

pub passes-new_report : passes new_report ≡ true
unfolding passes
passes-new_report = refl

pub and_true : (b : Bool) → (b && true) ≡ b
and_true b = ground arith

pub and_assoc : (a b c : Bool) → ((a && b) && c) ≡ (a && (b && c))
and_assoc a b c = ground arith

-- The verdict of a report, check by check.
pub ruleset verdicts = (passes-check, passes-section, passes-mark_generated, and_true, and_assoc)
