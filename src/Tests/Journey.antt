-- ===== src/Tests/Journey.antt =====
-- An honest voter's way at a concrete office and a concrete box.
use online_voting_poc.Prelude.{◌^◌, ◌≡◌, refl, true, none, some, [], ◌∷◌, list_eq, List-eq}
use online_voting_poc.Prelude.Int.{pos}
use online_voting_poc.Bytes.{Bytes}
use online_voting_poc.Keys.{public_bytes, verify_signature-sign}
use online_voting_poc.Messages.{AuthRequest, Ballot, request_payload}
use online_voting_poc.Rsabssa.{public_key_fingerprint}
use online_voting_poc.PopulationRegister.{is_expired}
use online_voting_poc.Vro.State.{Vro, create}
use online_voting_poc.Vro.Office.{enrol_voter, issue_token}
use online_voting_poc.Vro.Boundary.{IsEntitled}
use online_voting_poc.Vro.Remembering.{signature_of}
use online_voting_poc.BallotBox.State.{BallotBox, new_box}
use online_voting_poc.BallotBox.Phase.{open_poll}
use online_voting_poc.BallotBox.Submit.{submit}
use online_voting_poc.Voter.{
  Voter, built, taken, build_auth_request, signed_request, accept_token, cast_ballot,
  verify_recorded_ballot,
}
use online_voting_poc.Voter.Journey.{honest_vote}
use online_voting_poc.Tests.Toy.{
  toy, people, cert, voter, wallet_key, pair, election, ad_hoc, opening,
}
use online_voting_poc.Tests.Blind.{
  wide_key, salt, blinded, blind_returns, wide_key-IsRsaKey, accepts,
}

abbrev wide_office : Vro
wide_office = enrol_voter voter (create people wide_key pair election)

abbrev wide_box : BallotBox
wide_box = elim (open_poll 1 (new_box wide_key.public 2 election pair none 0)) [
  | none ↦ new_box wide_key.public 2 election pair none 0
  | some b ↦ b
]

abbrev citizen : Voter
citizen = record {
  voter_id = voter;
  wallet = wallet_key;
  vro_public_key = wide_key.public;
  pinned_vro_fingerprint = public_key_fingerprint wide_key.public;
  adhoc = none;
  token = none;
  blind_state = none;
  recorded_heads = [];
}

citizen-IsEntitled : IsEntitled 3 wide_office (signed_request citizen blinded.0) cert
unfolding enrol_voter create list_eq is_expired public_bytes request_payload signed_request
citizen-IsEntitled = record {
  identified = record { found = refl; signed = verify_signature-sign wallet_key _ };
  not_revoked = refl;
  not_expired = refl;
  on_register = refl;
  not_released = refl;
  not_pending = refl;
}

honest_vote_example :
    (u₁ u₂ : Voter) × (request : AuthRequest) × (s : Bytes) × (ballot : Ballot)
    × (build_auth_request ad_hoc salt (2 ^ 800) citizen ≡ (u₁, built request))
    × (signature_of (issue_token 3 opening request wide_office).1 ≡ some s)
    × (accept_token s u₁ ≡ (u₂, taken))
    × (cast_ballot (pos 2) (1 ∷ []) u₂ ≡ some ballot)
    × ((submit 5 ballot wide_box).1.accepted ≡ true)
    × (verify_recorded_ballot (submit 5 ballot wide_box).0 (pos 2) u₂ ≡ some true)
unfolding enrol_voter create open_poll new_box public_bytes
honest_vote_example =
    honest_vote 3 5 citizen wide_office wide_box cert ad_hoc salt opening (1 ∷ []) blinded.0
      (2 ^ 800) blinded.1 (pos 2) wide_key-IsRsaKey accepts refl refl refl refl refl blind_returns
      citizen-IsEntitled refl refl refl
