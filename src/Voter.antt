-- ===== src/Voter.antt =====
-- src/ovpoc/voter.py, and the handle of src/ovpoc/handles.py: the voter's side of the protocol. The
-- ad-hoc key, the salt, the blinding factor and the nonce that are drawn are arguments.
pub mod Journey
use online_voting_poc.Prelude.{
  ℕ, Bool, false, not, Option, none, some, List, [], ◌∷◌, ◌++◌, ◌==◌, List-eq, if◌then◌else◌,
}
use online_voting_poc.Prelude.Int.{ℤ, ℤ-eq}
use online_voting_poc.Bytes.{Bytes, Text}
use online_voting_poc.Crypto.{Crypto, PublicKey}
use online_voting_poc.Keys.{SigningKeyPair, public_bytes, sign}
use online_voting_poc.Messages.{AuthRequest, Ballot, BallotRecord, request_payload, ballot_payload}
use online_voting_poc.Rsabssa.{BlindState, blind, finalize, public_key_fingerprint}
use online_voting_poc.Rsabssa.Pss.{BlindError, ok, raise}
use online_voting_poc.BallotBox.State.{BallotBox}
use online_voting_poc.BallotBox.Count.{find_ballot}

pub record Voter : Type 0 where
  pub voter_id : Text
  pub wallet : SigningKeyPair
  pub vro_public_key : PublicKey
  pub pinned_vro_fingerprint : Text
  pub adhoc : Option SigningKeyPair
  pub token : Option Bytes
  pub blind_state : Option BlindState
  pub recorded_heads : List Bytes

-- What `build_auth_request` comes to: the request, the refusal of a key that is not the pinned one,
-- or the error of the blinding.
pub data Built : Type 0 where
  built : AuthRequest → Built
  key_not_pinned : Built
  blinding_error : BlindError → Built

-- What `accept_token` comes to; `not_ready` is the failed assertion.
pub data Acceptance : Type 0 where
  taken : Acceptance
  not_ready : Acceptance
  refused : BlindError → Acceptance

abbrev pub with_adhoc : Voter → (SigningKeyPair → Bytes → Ballot) → Option Ballot
with_adhoc u f = elim u.adhoc [
  | none ↦ none
  | some pair ↦ elim u.token [
    | none ↦ none
    | some [] ↦ none
    | some (t ∷ token) ↦ some (f pair (t ∷ token))
  ]
]

unfoldable pub record_receipt : Bytes → Voter → Voter
record_receipt entry_hash u = record u { recorded_heads = u.recorded_heads ++ entry_hash ∷ [] }

-- `AdHocKeyHandle.locate`, `confirms` and `prove_authorship`.
module _ ⦃crypto : Crypto⦄ where
  unfoldable pub locate : SigningKeyPair → BallotBox → Option BallotRecord
  locate adhoc b = find_ballot b (public_bytes adhoc)

  unfoldable pub confirms : SigningKeyPair → BallotBox → ℤ → Bool
  unfolding locate
  confirms adhoc b expected = elim (locate adhoc b) [
    | none ↦ false
    | some recorded ↦ recorded.selection == expected
  ]

  unfoldable pub prove_authorship : SigningKeyPair → Bytes → Bytes
  prove_authorship adhoc challenge = sign adhoc challenge

  unfoldable pub signed_request : Voter → Bytes → AuthRequest
  signed_request u c =
      let request : AuthRequest = record {
        voter_id = u.voter_id;
        blinded_key = c;
        wallet_signature = [];
      } in
      record request { wallet_signature = sign u.wallet (request_payload request) }

  -- Steps 1 to 4; the ad-hoc key is kept also where the blinding raises.
  unfoldable pub build_auth_request : SigningKeyPair → Bytes → ℕ → Voter → Voter × Built
  unfolding signed_request
  build_auth_request adhoc salt r u =
      if not (public_key_fingerprint u.vro_public_key == u.pinned_vro_fingerprint)
      then (u, key_not_pinned)
      else elim (blind u.vro_public_key (public_bytes adhoc) salt r) [
        | raise e ↦ (record u { adhoc = some adhoc }, blinding_error e)
        | ok (c, state) ↦
            (record u { adhoc = some adhoc; blind_state = some state }, built (signed_request u c))
      ]

  -- Step 8.
  unfoldable pub accept_token : Bytes → Voter → Voter × Acceptance
  accept_token blind_sig u = elim u.adhoc [
    | none ↦ (u, not_ready)
    | some adhoc ↦ elim u.blind_state [
      | none ↦ (u, not_ready)
      | some state ↦ elim (finalize u.vro_public_key (public_bytes adhoc) blind_sig state) [
        | raise e ↦ (u, refused e)
        | ok token ↦ (record u { token = some token; blind_state = none }, taken)
      ]
    ]
  ]

  unfoldable pub signed_ballot : ℤ → Bytes → SigningKeyPair → Bytes → Ballot
  signed_ballot selection nonce adhoc token =
      let ballot : Ballot = record {
        selection = selection;
        adhoc_public_key = public_bytes adhoc;
        token = token;
        vote_signature = [];
        nonce = nonce;
      } in
      record ballot { vote_signature = sign adhoc (ballot_payload ballot) }

  -- Step 9; `none` where the assertion fails, which an empty token also does.
  unfoldable pub cast_ballot : ℤ → Bytes → Voter → Option Ballot
  unfolding signed_ballot
  cast_ballot selection nonce u = with_adhoc u (signed_ballot selection nonce)

  -- `none` where there is no ad-hoc key.
  unfoldable pub verify_recorded_ballot : BallotBox → ℤ → Voter → Option Bool
  unfolding confirms
  verify_recorded_ballot b expected u = elim u.adhoc [
    | none ↦ none
    | some adhoc ↦ some (confirms adhoc b expected)
  ]
