-- ===== src/PopulationRegister.antt =====
-- driver/population_register.py: the identity service that the registration office asks. An instant
-- is a number of seconds.
use online_voting_poc.Prelude.{ℕ, ◌+◌, ◌-◌, Bool, true, Option, none, some, leb, List-eq}
use online_voting_poc.Prelude.Dict.{Dict, lookup, insert, erase}
use online_voting_poc.Bytes.{Bytes, Text}

pub record Certificate : Type 0 where
  pub subject : Text
  pub public_key : Bytes
  pub not_after : ℕ
  pub revoked : Bool

unfoldable pub is_expired : ℕ → Certificate → Bool
is_expired now cert = leb cert.not_after now

pub record PopulationRegister : Type 0 where
  pub entries : Dict Text Certificate

abbrev pub certificate_of : PopulationRegister → Text → Option Certificate
certificate_of r person = lookup person r.entries

-- `enrol`, with the expiry given or a validity after the present instant.
unfoldable pub enrol_person :
    ℕ → Text → Bytes → ℕ → Bool → Option ℕ → PopulationRegister → PopulationRegister
enrol_person now person key valid_for revoked not_after r =
    let cert : Certificate = record {
      subject = person;
      public_key = key;
      not_after = elim not_after [ none ↦ now + valid_for | some t ↦ t ];
      revoked = revoked;
    } in
    record { entries = insert person cert r.entries }

abbrev pub replace :
    Text → (Certificate → Certificate) → PopulationRegister → Option PopulationRegister
replace person f r = elim (lookup person r.entries) [
  | none ↦ none
  | some cert ↦ some (record { entries = insert person (f cert) r.entries })
]

-- `none` where the code raises KeyError.
unfoldable pub revoke : Text → PopulationRegister → Option PopulationRegister
revoke person r = replace person (λ cert. record cert { revoked = true }) r

unfoldable pub expire : ℕ → Text → PopulationRegister → Option PopulationRegister
expire now person r = replace person (λ cert. record cert { not_after = now - 86400 }) r

unfoldable pub withdraw : Text → PopulationRegister → PopulationRegister
withdraw person r = record { entries = erase person r.entries }
