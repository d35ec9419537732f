-- ===== src/Voter/Journey.antt =====
-- An honest voter's way through src/ovpoc/voter.py, src/ovpoc/vro.py and src/ovpoc/ballotbox.py.
use mathlib.Core.Path.{subst}
use online_voting_poc.Prelude.{
  ℕ, zero, suc, ◌^◌, ◌<◌, ◌≡◌, ◌⊎◌, inl, inr, refl, ap, sym, ◌∙◌, true, false, none, some, List, [],
  ◌∷◌, ◌++◌, length, contains, List-eq, arith, eq_refl, eq_iff, ◌==◌,
}
use online_voting_poc.Prelude.Int.{ℤ, ℤ-eq}
use online_voting_poc.Bytes.{Bytes, Text, from_bytes, to_bytes}
use online_voting_poc.Bytes.BigEndian.{length-to_bytes, lt-pow-bytes}
use online_voting_poc.Base64.{b64}
use online_voting_poc.Crypto.{Crypto}
use online_voting_poc.Keys.{SigningKeyPair, public_bytes, verify_signature, verify_signature-sign}
use online_voting_poc.Messages.{
  AuthRequest, Ballot, BallotRecord, BallotRecord-wire, to_dict, ballot_payload,
}
use online_voting_poc.Ledger.{payloads}
use online_voting_poc.Rsabssa.{
  PrivateKey, BlindState, pow_mod, modulus_bytes, blind, finalize, verify, public_key_fingerprint,
}
use online_voting_poc.Rsabssa.Pss.{ok}
use online_voting_poc.Rsabssa.Unblinding.{
  blind_sign-ok, IsRsaKey, AcceptsPss, finalize-blind_sign-blind,
}
use online_voting_poc.PopulationRegister.{Certificate}
use online_voting_poc.Vro.State.{Vro}
use online_voting_poc.Vro.Office.{issue_token}
use online_voting_poc.Vro.Boundary.{IsEntitled}
use online_voting_poc.Vro.Remembering.{signature_of}
use online_voting_poc.Vro.Issuing.{issue_token-issued}
use online_voting_poc.BallotBox.State.{BallotBox, opened}
use online_voting_poc.BallotBox.Count.{find_ballot}
use online_voting_poc.BallotBox.Submit.{submit, record_digest}
use online_voting_poc.BallotBox.Verdict.{IsAcceptable, submit-accepted_iff, submit-head}
use online_voting_poc.BallotBox.Supersession.{last_under, find_ballot-last_under}
use online_voting_poc.Voter.{
  Voter, built, taken, build_auth_request, signed_request, accept_token, cast_ballot, signed_ballot,
  verify_recorded_ballot, confirms, locate,
}

last_under-snoc :
    (k : Text) (ps : List BallotRecord) (p : BallotRecord)
    → (k == p.adhoc_public_key) ≡ true
    → last_under k (ps ++ p ∷ []) ≡ some p
last_under-snoc k [] p h = rw h refl
last_under-snoc k (q ∷ ps) p h = rw (last_under-snoc k ps p h) refl

module _ ⦃crypto : Crypto⦄ where
  build-built :
      (adhoc : SigningKeyPair) (salt : Bytes) (r : ℕ) (u : Voter) (c : Bytes) (state : BlindState)
      → public_key_fingerprint u.vro_public_key ≡ u.pinned_vro_fingerprint
      → blind u.vro_public_key (public_bytes adhoc) salt r ≡ ok (c, state)
      → build_auth_request adhoc salt r u
        ≡ (record u { adhoc = some adhoc; blind_state = some state }, built (signed_request u c))
  unfolding build_auth_request
  build-built adhoc salt r u c state pinned h = rw (
    (eq_iff (public_key_fingerprint u.vro_public_key) u.pinned_vro_fingerprint).1 pinned,
    build_auth_request,
    h,
  )

  accept_token-taken :
      (s sig : Bytes) (u : Voter) (adhoc : SigningKeyPair) (state : BlindState)
      → finalize u.vro_public_key (public_bytes adhoc) s state ≡ ok sig
      → accept_token s (record u { adhoc = some adhoc; blind_state = some state })
        ≡ (record u { adhoc = some adhoc; token = some sig; blind_state = none }, taken)
  unfolding accept_token
  accept_token-taken s sig u adhoc state h = rw (accept_token, h)

  -- A box that has accepted a ballot finds it under its key.
  submit-confirms :
      (now : ℕ) (b : BallotBox) (selection : ℤ) (nonce token : Bytes) (adhoc : SigningKeyPair)
      → let ballot = signed_ballot selection nonce adhoc token in
        IsAcceptable b ballot → confirms adhoc (submit now ballot b).0 selection ≡ true
  unfolding confirms locate signed_ballot to_dict
  submit-confirms now b selection nonce token adhoc a =
      let ballot = signed_ballot selection nonce adhoc token in
      let b' = (submit now ballot b).0 in
      let (_, _, grown) = submit-head now b ballot a in
      let found : find_ballot b' (public_bytes adhoc) ≡ some (to_dict ballot) =
        (find_ballot-last_under b' (public_bytes adhoc)).0
        ∙ ap (last_under (b64 (public_bytes adhoc))) grown
        ∙ last_under-snoc (b64 (public_bytes adhoc)) (payloads b.accepted) (to_dict ballot)
            (eq_refl (b64 (public_bytes adhoc))) in
      rw (found, confirms) (eq_refl selection)

  cast_ballot-casts :
      (selection : ℤ) (nonce sig : Bytes) (u : Voter) (adhoc : SigningKeyPair)
      → 0 < length sig
      → cast_ballot selection nonce
          (record u { adhoc = some adhoc; token = some sig; blind_state = none })
        ≡ some (signed_ballot selection nonce adhoc sig)
  unfolding cast_ballot
  cast_ballot-casts selection nonce [] u adhoc h = absurd (omega arith)
  cast_ballot-casts selection nonce (t ∷ sig) u adhoc h = refl

  signed_ballot_verifies :
      (selection : ℤ) (nonce sig : Bytes) (adhoc : SigningKeyPair)
      → let ballot = signed_ballot selection nonce adhoc sig in
        verify_signature ballot.adhoc_public_key ballot.vote_signature (ballot_payload ballot)
        ≡ true
  unfolding signed_ballot ballot_payload
  signed_ballot_verifies selection nonce sig adhoc = verify_signature-sign adhoc _

  modulus_bytes_pos : (n : ℕ) → 0 < n → 0 < modulus_bytes n
  modulus_bytes_pos n h = elim (zero-or-pos (modulus_bytes n)) [
    | inl none_left ↦
        let small : n < 256 ^ modulus_bytes n = lt-pow-bytes n in
        let one : n < 256 ^ 0 = subst (λ k. n < 256 ^ k) none_left small in absurd (omega arith)
    | inr some_left ↦ some_left
  ]
    where
      zero-or-pos : (k : ℕ) → (k ≡ 0) ⊎ (0 < k)
      zero-or-pos zero = inl refl
      zero-or-pos (suc k) = inr (omega arith)

  -- The private power of the encoded message: the token that the voter ends up with.
  abbrev pub token_of : PrivateKey → BlindState → Bytes
  token_of key state =
      let n = key.public.modulus in
      to_bytes (modulus_bytes n) (pow_mod (from_bytes state.encoded_msg) key.secret n)

  -- Let the exponents of the election key undo one another, verification accept what the standard
  -- one does, and office, voter and box hold the key. An honest voter who has it pinned, whose
  -- blinding with a salt of 48 bytes returns and who is entitled at the office gets a request built
  -- and a blind signature from the office, takes the token, and casts a ballot; a box that is open
  -- and has not that very record accepts the ballot, and the voter finds the selection in it.
  pub honest_vote :
      (now later : ℕ) (u : Voter) (v : Vro) (b : BallotBox) (cert : Certificate)
      (adhoc : SigningKeyPair) (salt opening nonce c : Bytes) (r : ℕ) (state : BlindState)
      (selection : ℤ)
      → IsRsaKey v.private_key
      → AcceptsPss v.private_key.public
      → length salt ≡ 48
      → v.public_key ≡ v.private_key.public
      → u.vro_public_key ≡ v.private_key.public
      → b.vro_public_key ≡ v.private_key.public
      → public_key_fingerprint u.vro_public_key ≡ u.pinned_vro_fingerprint
      → blind v.private_key.public (public_bytes adhoc) salt r ≡ ok (c, state)
      → IsEntitled now v (signed_request u c) cert
      → opened b ≡ true
      → b.closed ≡ false
      → contains
          (record_digest (signed_ballot selection nonce adhoc (token_of v.private_key state)))
          b.accepted_records
        ≡ false
      → (u₁ u₂ : Voter) × (request : AuthRequest) × (s : Bytes) × (ballot : Ballot)
        × (build_auth_request adhoc salt r u ≡ (u₁, built request))
        × (signature_of (issue_token now opening request v).1 ≡ some s)
        × (accept_token s u₁ ≡ (u₂, taken))
        × (cast_ballot selection nonce u₂ ≡ some ballot)
        × ((submit later ballot b).1.accepted ≡ true)
        × (verify_recorded_ballot (submit later ballot b).0 selection u₂ ≡ some true)
  unfolding verify_recorded_ballot signed_request
  honest_vote now later u v b cert adhoc salt opening nonce c r state selection rsa pss len office
        mine theirs pinned blinds entitled is_open unclosed new =
      let key = v.private_key in
      let n = key.public.modulus in
      let msg = public_bytes adhoc in
      let (s, sig, signs, finalizes, verifies, value) =
        finalize-blind_sign-blind key msg salt r c state rsa pss len blinds in
      let u₁ : Voter = record u { adhoc = some adhoc; blind_state = some state } in
      let u₂ : Voter = record u { adhoc = some adhoc; token = some sig; blind_state = none } in
      let ballot = signed_ballot selection nonce adhoc sig in
      let (short, small, _) = blind_sign-ok key c s signs in
      let (s', reply, signs', _, _) =
        issue_token-issued now opening v (signed_request u c) cert entitled rsa office short
          small in
      let same : s' ≡ s = ok_injective s' s (sym signs' ∙ signs) in
      let long : 0 < length sig =
        subst (λ k. 0 < k) (sym (ap length value ∙ length-to_bytes (modulus_bytes n) _))
          (modulus_bytes_pos n rsa.0) in
      let acceptable : IsAcceptable b ballot = record {
        is_opened = is_open;
        is_not_closed = unclosed;
        is_certified = unfold signed_ballot in ap (λ k. verify k msg sig) theirs ∙ verifies;
        is_signed = signed_ballot_verifies selection nonce sig adhoc;
        is_new =
            ap
              (λ t.
                contains (record_digest (signed_ballot selection nonce adhoc t)) b.accepted_records)
              value
            ∙ new;
      } in
      (
        u₁,
        u₂,
        signed_request u c,
        s,
        ballot,
        build-built adhoc salt r u c state pinned (ap (λ k. blind k msg salt r) mine ∙ blinds),
        ap signature_of reply ∙ ap some same,
        accept_token-taken s sig u adhoc state (ap (λ k. finalize k msg s state) mine ∙ finalizes),
        cast_ballot-casts selection nonce sig u adhoc long,
        (submit-accepted_iff later b ballot).1 acceptable,
        ap some (submit-confirms later b selection nonce sig adhoc acceptable),
      )
    where
      ok_injective : (x y : Bytes) → ok x ≡ ok y → x ≡ y
      ok_injective x y e = ground arith
