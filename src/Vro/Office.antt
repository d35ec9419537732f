-- ===== src/Vro/Office.antt =====
-- The requests for a token in src/ovpoc/vro.py: validation and reservation, release, cancellation.
-- The opening that `release` draws is an argument.
use Prim.Native.String.{String}
use online_voting_poc.Prelude.{
  Bool, true, false, not, none, some, [], ◌∷◌, ◌++◌, contains, add, List-eq, ◌==◌, is_some,
  if◌then◌else◌, ℕ,
}
use online_voting_poc.Prelude.Dict.{lookup, insert, erase}
use online_voting_poc.Bytes.{Bytes, Text}
use online_voting_poc.Base64.{b64}
use online_voting_poc.Crypto.{Crypto}
use online_voting_poc.Keys.{verify_signature}
use online_voting_poc.Messages.{AuthRequest, request_payload}
use online_voting_poc.Ledger.{append}
use online_voting_poc.Rsabssa.{blind_sign, check_blind_signature}
use online_voting_poc.Rsabssa.Pss.{BlindError, ok, raise}
use online_voting_poc.PopulationRegister.{is_expired, certificate_of}
use online_voting_poc.Vro.State.{
  Outcome, issued, not_identified, certificate_revoked, certificate_expired, not_eligible,
  token_already_issued, reserved, request_pending, TokenResponse, TokenRequest, token_request,
  Release-wire, Vro, commit,
}

-- What a call comes to: an answer, `FaultDetected`, or the ValueError of the signing routine.
pub data Reply : Type 0 where
  answer : TokenResponse → Reply
  fault_detected : Reply
  signing_error : BlindError → Reply

abbrev pub log_audit : Text → Outcome → String → Vro → Vro
log_audit voter_id outcome reason v = record v {
  audit = v.audit ++ record { voter_id = voter_id; outcome = outcome; reason = reason } ∷ [];
}

abbrev pub respond : Outcome → TokenResponse
respond outcome = record { outcome = outcome; blind_signature = none }

-- `_record`.
unfoldable pub refuse : Text → Outcome → String → Vro → Vro × TokenResponse
refuse voter_id outcome reason v = (log_audit voter_id outcome reason v, respond outcome)

unfoldable pub enrol_voter : Text → Vro → Vro
enrol_voter voter_id v = record v { register = add voter_id v.register }

-- `_claim`.
unfoldable pub claim : TokenRequest → Bool → Bool → Vro → Vro × TokenResponse
unfolding refuse
claim r revoked expired v =
    if revoked
    then refuse r.voter_id certificate_revoked "certificate revoked" v
    else if expired
    then refuse r.voter_id certificate_expired "certificate expired" v
    else if not (contains r.voter_id v.register)
    then refuse r.voter_id not_eligible "not on the electoral register" v
    else if contains r.voter_id v.released
    then refuse r.voter_id token_already_issued "a token has already been released for this id" v
    else if is_some (lookup r.voter_id v.reserved)
    then refuse r.voter_id request_pending "a validated request for this id is awaiting release" v
    else (
      log_audit r.voter_id reserved "validated and reserved"
          (record v { reserved = insert r.voter_id r.blinded_key v.reserved }),
      respond reserved,
    )

-- `cancel_reservation`.
unfoldable pub cancel_reservation : Text → Vro → Vro × Bool
cancel_reservation voter_id v =
    if is_some (lookup voter_id v.reserved)
    then (
      log_audit voter_id reserved "reservation cancelled"
          (record v { reserved = erase voter_id v.reserved }),
      true,
    )
    else (v, false)

abbrev pub reserved_for : TokenRequest → Vro → Bool
reserved_for r v = elim (lookup r.voter_id v.reserved) [
  | none ↦ false
  | some c ↦ c == r.blinded_key
]

module _ ⦃crypto : Crypto⦄ where
  unfoldable pub reserve : ℕ → AuthRequest → Vro → Vro × TokenResponse
  unfolding claim refuse
  reserve now r v = elim (certificate_of v.population_register r.voter_id) [
    | none ↦ refuse r.voter_id not_identified "no entry for this id in the population register" v
    | some cert ↦
        if not (verify_signature cert.public_key r.wallet_signature (request_payload r))
        then refuse r.voter_id not_identified
            "request signature does not verify under the certified key" v
        else claim (token_request r) cert.revoked (is_expired now cert) v
  ]

  -- Step 7: the release is on record before anything is signed.
  unfoldable pub record_release : Bytes → TokenRequest → Vro → Vro
  record_release opening r v = record v {
    reserved = erase r.voter_id v.reserved;
    openings = insert r.voter_id opening v.openings;
    released = add r.voter_id v.released;
    requests = insert r.voter_id r.evidence v.requests;
    release_log =
        (append v.release_log (record { commitment = b64 (commit r.voter_id opening) })).0;
  }

  -- Step 6/A, on an office that has recorded the release.
  unfoldable pub sign_release : TokenRequest → Vro → Vro × Reply
  sign_release r v = elim (blind_sign v.private_key r.blinded_key) [
    | raise e ↦ (v, signing_error e)
    | ok blind_sig ↦
        if not (check_blind_signature v.public_key r.blinded_key blind_sig)
        then (v, fault_detected)
        else (
          log_audit r.voter_id issued "token released" v,
          answer (record { outcome = issued; blind_signature = some blind_sig }),
        )
  ]

  unfoldable pub release : Bytes → TokenRequest → Vro → Vro × Reply
  unfolding record_release sign_release refuse
  release opening r v =
      if not (reserved_for r v)
      then (
        (refuse r.voter_id not_eligible "no matching reservation for this id and blinded value"
            v).0,
        answer (respond not_eligible),
      )
      else sign_release r (record_release opening r v)

  unfoldable pub issue_token : ℕ → Bytes → AuthRequest → Vro → Vro × Reply
  unfolding reserve release
  issue_token now opening r v =
      let (v', response) = reserve now r v in
      elim response.outcome [
        | reserved ↦ release opening (token_request r) v'
        | _ ↦ (v', answer response)
      ]
