-- ===== src/BallotBox/Verdict.antt =====
-- What `submit` of src/ovpoc/ballotbox.py decides, and the receipt for it.
use Prim.Native.String.{String}
use mathlib.Core.Path.{subst₂}
use online_voting_poc.Prelude.{
  ℕ, ◌≡◌, refl, ap, sym, ◌∙◌, ◌⊎◌, ◌↔◌, Bool, true, false, Option, some, [], ◌∷◌, ◌++◌, contains,
  List-eq, arith, All, map-append, get_last?-append,
}
use online_voting_poc.Bytes.{Bytes, Text, IsByte}
use online_voting_poc.Base64.{b64}
use online_voting_poc.Base64.RoundTrip.{unb64-b64}
use online_voting_poc.Crypto.{Crypto}
use online_voting_poc.Keys.{sign, public_bytes, verify_signature, verify_signature-sign}
use online_voting_poc.Messages.{Wire, Ballot, BallotRecord-wire, to_dict, ballot_payload}
use online_voting_poc.Rsabssa.{verify}
use online_voting_poc.Ledger.{
  Ledger, append, last_hash, size, head, payloads, compute_entry_hash, new_entry,
}
use online_voting_poc.Ledger.{verify_chain}
use online_voting_poc.Ledger.Chain.{append-verify_chain}
use online_voting_poc.BallotBox.State.{
  BallotBox, RejectedRecord-wire, opened, receipt, receipt_payload, verify_receipt,
  already_accepted,
}
use online_voting_poc.BallotBox.Cadence.{catch_up}
use online_voting_poc.BallotBox.Timer.{catch_up-keeps}
use online_voting_poc.BallotBox.Submit.{record_digest, turn_away, reject, accept, judge, submit}

module _ ⦃crypto : Crypto⦄ where
  -- The five conditions under which a ballot is accepted.
  pub record IsAcceptable (b : BallotBox) (ballot : Ballot) : Type 0 where
    pub is_opened : opened b ≡ true
    pub is_not_closed : b.closed ≡ false
    pub is_certified : verify b.vro_public_key ballot.adhoc_public_key ballot.token ≡ true
    pub is_signed :
        verify_signature ballot.adhoc_public_key ballot.vote_signature (ballot_payload ballot)
        ≡ true
    pub is_new : contains (record_digest ballot) b.accepted_records ≡ false

  pub judge-accept :
      (b : BallotBox) (ballot : Ballot) → IsAcceptable b ballot → judge ballot b ≡ accept ballot b
  unfolding judge
  judge-accept b ballot h = ground arith

  pub accepted-IsAcceptable :
      (b : BallotBox) (ballot : Ballot) → (judge ballot b).1.accepted ≡ true → IsAcceptable b ballot
  unfolding judge turn_away reject receipt
  accepted-IsAcceptable b ballot h = ground arith

  pub not_accepted-keeps :
      (b : BallotBox) (ballot : Ballot)
      → (judge ballot b).1.accepted ≡ false
      → ((judge ballot b).0.accepted ≡ b.accepted)
        × ((judge ballot b).0.accepted_records ≡ b.accepted_records)
  unfolding judge turn_away reject accept receipt
  not_accepted-keeps b ballot h = ground arith

  judge-signature :
      (b : BallotBox) (ballot : Ballot)
      → let r = (judge ballot b).1 in
        r.signature
        ≡ sign b.statement_key
            (receipt_payload b.election_id r.accepted r.reason r.index r.entry_hash)
  unfolding judge turn_away reject accept receipt
  judge-signature b ballot = ground arith

  entry_hash-IsByte :
      {P : Type 0} ⦃w : Wire P⦄ (l : Ledger P) (p : P) → All IsByte (append l p).1.entry_hash
  unfolding append compute_entry_hash
  entry_hash-IsByte l p = crypto.sha256-IsByte _

  judge-IsByte : (b : BallotBox) (ballot : Ballot) → All IsByte (judge ballot b).1.entry_hash
  unfolding judge turn_away reject accept receipt
  judge-IsByte b ballot = ground (
    arith,
    entry_hash-IsByte b.accepted (to_dict ballot),
    entry_hash-IsByte b.rejected
        (record { ballot = to_dict ballot; reason = "token not signed by VRO" }),
    entry_hash-IsByte b.rejected
        (record { ballot = to_dict ballot; reason = "vote signature invalid" }),
    entry_hash-IsByte b.rejected (record { ballot = to_dict ballot; reason = already_accepted }),
  )

  -- A submission to a running poll leaves one record: the ballot among the accepted, or the ballot
  -- with the reason among the rejected.
  judge_records :
      (b : BallotBox) (ballot : Ballot)
      → opened b ≡ true
      → b.closed ≡ false
      → let (b', r) = judge ballot b in
        ((r.accepted ≡ true)
          × (b'.accepted ≡ (append b.accepted (to_dict ballot)).0)
          × (b'.rejected ≡ b.rejected))
        ⊎ ((r.accepted ≡ false)
            × (b'.accepted ≡ b.accepted)
            × (b'.rejected
                ≡ (append b.rejected (record { ballot = to_dict ballot; reason = r.reason })).0))
  unfolding judge turn_away reject accept receipt
  judge_records b ballot h k = ground arith

  judge_idle :
      (b : BallotBox) (ballot : Ballot)
      → (opened b ≡ false) ⊎ (b.closed ≡ true)
      → (judge ballot b).0 ≡ b
  unfolding judge turn_away
  judge_idle b ballot h = ground arith

  pub judge-keeps_chains :
      (b : BallotBox) (ballot : Ballot)
      → verify_chain b.rejected ≡ true
      → (verify_chain (judge ballot b).0.rejected ≡ true)
        × ((judge ballot b).0.vro_public_key ≡ b.vro_public_key)
  unfolding judge turn_away reject accept receipt
  judge-keeps_chains b ballot v =
      let extend = λ (reason : String).
        (append-verify_chain b.rejected (record { ballot = to_dict ballot; reason = reason })
          v).0 in
      ground (
        arith,
        extend "token not signed by VRO",
        extend "vote signature invalid",
        extend already_accepted,
      )

  pub keeps_IsAcceptable :
      (now : ℕ) (b : BallotBox) (ballot : Ballot)
      → IsAcceptable (catch_up now b) ballot ↔ IsAcceptable b ballot
  keeps_IsAcceptable now b ballot =
      let opening = catch_up-keeps opened (λ b s n. refl) now b in
      let closing = catch_up-keeps (λ x. x.closed) (λ b s n. refl) now b in
      let key =
        catch_up-keeps (λ x. verify x.vro_public_key ballot.adhoc_public_key ballot.token)
          (λ b s n. refl) now b in
      let records =
        catch_up-keeps (λ x. contains (record_digest ballot) x.accepted_records) (λ b s n. refl) now
          b in
      (
        λ h. record {
          is_opened = sym opening ∙ h.is_opened;
          is_not_closed = sym closing ∙ h.is_not_closed;
          is_certified = sym key ∙ h.is_certified;
          is_signed = h.is_signed;
          is_new = sym records ∙ h.is_new;
        },
        λ h. record {
          is_opened = opening ∙ h.is_opened;
          is_not_closed = closing ∙ h.is_not_closed;
          is_certified = key ∙ h.is_certified;
          is_signed = h.is_signed;
          is_new = records ∙ h.is_new;
        },
      )

  -- A ballot is accepted exactly when the poll has been opened and not closed, the office's token
  -- and the ballot's own signature verify, and no accepted record has its content hash.
  pub submit-accepted_iff :
      (now : ℕ) (b : BallotBox) (ballot : Ballot)
      → ((submit now ballot b).1.accepted ≡ true) ↔ IsAcceptable b ballot
  unfolding submit
  submit-accepted_iff now b ballot =
      let same = keeps_IsAcceptable now b ballot in
      (
        λ h. same.0 (accepted-IsAcceptable (catch_up now b) ballot h),
        λ h. rw (judge-accept (catch_up now b) ballot (same.1 h)) (unfold accept receipt in refl),
      )

  -- While the poll runs a submission leaves exactly one record: the ballot at the end of the
  -- accepted ledger, or the ballot with the reason of the receipt at the end of the rejected one. Before
  -- the opening and after the close it leaves both ledgers as they are.
  pub submit_records :
      (now : ℕ) (b : BallotBox) (ballot : Ballot)
      → let (b', r) = submit now ballot b in
        ((opened b ≡ true)
          × (b.closed ≡ false)
          × (r.accepted ≡ true)
          × (b'.accepted ≡ (append b.accepted (to_dict ballot)).0)
          × (b'.rejected ≡ b.rejected))
        ⊎ ((opened b ≡ true)
            × (b.closed ≡ false)
            × (r.accepted ≡ false)
            × (b'.accepted ≡ b.accepted)
            × (b'.rejected
                ≡ (append b.rejected (record { ballot = to_dict ballot; reason = r.reason })).0))
        ⊎ (((opened b ≡ false) ⊎ (b.closed ≡ true))
            × (r.accepted ≡ false)
            × (b'.accepted ≡ b.accepted)
            × (b'.rejected ≡ b.rejected))
  unfolding submit
  submit_records now b ballot = ground (
    arith,
    catch_up-keeps opened (λ b s n. refl) now b,
    catch_up-keeps (λ x. x.closed) (λ b s n. refl) now b,
    catch_up-keeps (λ x. x.accepted) (λ b s n. refl) now b,
    catch_up-keeps (λ x. x.rejected) (λ b s n. refl) now b,
    judge_records (catch_up now b) ballot,
    judge_idle (catch_up now b) ballot,
    accepted-IsAcceptable (catch_up now b) ballot,
  )

  verify_receipt_wire :
      (key : Bytes) (election : Text) (accepted : Bool) (reason : String) (index : Option ℕ)
      (hash signature : Bytes)
      → All IsByte hash
      → verify_receipt key election accepted reason index (b64 hash) signature
        ≡ some
            (verify_signature key signature (receipt_payload election accepted reason index hash))
  unfolding verify_receipt
  verify_receipt_wire key election accepted reason index hash signature h =
      rw (unb64-b64 hash h, verify_receipt)

  -- Every receipt, of an accepted ballot, a rejected one or one that was turned away, verifies under
  -- the box's published statement key in its wire form.
  pub submit-verify_receipt :
      (now : ℕ) (b : BallotBox) (ballot : Ballot)
      → let r = (submit now ballot b).1 in
        verify_receipt
          (public_bytes b.statement_key)
          b.election_id
          r.accepted
          r.reason
          r.index
          (b64 r.entry_hash)
          r.signature
        ≡ some true
  unfolding submit
  submit-verify_receipt now b ballot =
      let t = catch_up now b in
      let r = (judge ballot t).1 in
      let key = catch_up-keeps (λ x. x.statement_key) (λ b s n. refl) now b in
      let election = catch_up-keeps (λ x. x.election_id) (λ b s n. refl) now b in
      let payload = receipt_payload t.election_id r.accepted r.reason r.index r.entry_hash in
      subst₂
        (λ pair election.
          verify_receipt (public_bytes pair) election r.accepted r.reason r.index (b64 r.entry_hash)
            r.signature
          ≡ some true)
        key election
        (verify_receipt_wire (public_bytes t.statement_key) t.election_id r.accepted r.reason
            r.index r.entry_hash r.signature (judge-IsByte t ballot)
          ∙ ap some (
              ap (λ s. verify_signature (public_bytes t.statement_key) s payload)
                (judge-signature t ballot)
              ∙ verify_signature-sign t.statement_key payload))

  -- The receipt of an accepted ballot names the position and the hash of its entry: the size of the
  -- accepted ledger before it, and the head of the accepted chain after it.
  pub submit-head :
      (now : ℕ) (b : BallotBox) (ballot : Ballot)
      → IsAcceptable b ballot
      → let (b', r) = submit now ballot b in
        (r.index ≡ some (size b.accepted))
        × (r.entry_hash ≡ head b'.accepted)
        × (payloads b'.accepted ≡ payloads b.accepted ++ to_dict ballot ∷ [])
  unfolding submit
  submit-head now b ballot h =
      let same = catch_up-keeps (λ x. x.accepted) (λ b s n. refl) now b in
      let l = b.accepted in
      rw (judge-accept (catch_up now b) ballot ((keeps_IsAcceptable now b ballot).1 h)) (
        unfold accept receipt in
        rw same (
          unfold append in refl,
          unfold append head in
              sym (ap last_hash (get_last?-append l.entries (new_entry l (to_dict ballot)))),
          unfold append in
              map-append (λ e. e.payload) l.entries (new_entry l (to_dict ballot) ∷ []),
        ))
