-- ===== src/Vro/Steps.antt =====
-- What can happen to a running office of src/ovpoc/vro.py, in any order: the calls of both routes, a
-- supervisor's reading, and the settings. The people on the electoral register, and those that the
-- identity service knows, change freely. Reloading a stored office, which comes before all of it, is
-- no step.
use online_voting_poc.Prelude.{ℕ, Bool, Option}
use online_voting_poc.Bytes.{Bytes, Text}
use online_voting_poc.Json.Value.{Value}
use online_voting_poc.Crypto.{Crypto}
use online_voting_poc.Messages.{AuthRequest}
use online_voting_poc.PopulationRegister.{PopulationRegister}
use online_voting_poc.Vro.State.{Vro, TokenRequest}
use online_voting_poc.Vro.Office.{
  claim, cancel_reservation, reserve, release, issue_token, enrol_voter,
}
use online_voting_poc.Vro.Document.{
  Validation, reserve_signed_document, issue_token_for_signed_document,
}
use online_voting_poc.Vro.Storage.{supervision_dump}

module _ ⦃crypto : Crypto⦄ where
  pub data Step (v : Vro) : Vro → Type 0 where
    -- `_claim`, which a request of either route reaches.
    claims : (r : TokenRequest) (revoked expired : Bool) → Step v (claim r revoked expired v).0
    reserves : (now : ℕ) (r : AuthRequest) → Step v (reserve now r v).0
    releases : (opening : Bytes) (r : TokenRequest) → Step v (release opening r v).0
    issues : (now : ℕ) (opening : Bytes) (r : AuthRequest) → Step v (issue_token now opening r v).0
    -- The route of the signed document, with any validator.
    reserves_document :
        (validate : Bytes → Validation) (loads : Bytes → Option Value) (doc : Bytes)
        → Step v (reserve_signed_document validate loads doc v).0
    issues_document :
        (validate : Bytes → Validation) (loads : Bytes → Option Value) (opening doc : Bytes)
        → Step v (issue_token_for_signed_document validate loads opening doc v).0
    cancels : (voter_id : Text) → Step v (cancel_reservation voter_id v).0
    enrols : (voter_id : Text) → Step v (enrol_voter voter_id v)
    -- The reading of the register counts itself.
    supervises : Step v (supervision_dump v).0
    -- `enrol_on_qualified_signature`, which the service sets.
    opens_enrolment : (b : Bool) → Step v (record v { enrol_on_qualified_signature = b })
    peoples : (people : PopulationRegister) → Step v (record v { population_register = people })

  pub data Reach (v : Vro) : Vro → Type 0 where
    here : Reach v v
    next : {w x : Vro} → Reach v w → Step w x → Reach v x
