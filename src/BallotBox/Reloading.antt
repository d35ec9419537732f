-- ===== src/BallotBox/Reloading.antt =====
-- A finished poll of src/ovpoc/ballotbox.py comes back from storage as it was, and an altered one
-- does not come back at all.
use online_voting_poc.Prelude.{
  ℕ, ◌+◌, ◌^◌, ◌<◌, ◌≡◌, refl, sym, ◌∙◌, ◌⊎◌, inl, inr, Bool, true, false, ◌&&◌, Option, none, some,
  List, [], ◌∷◌, ◌++◌, map, append_assoc, append-nil, add, contains, contains-append, List-eq, ◌==◌,
  arith, eq_iff, eq_refl, if◌then◌else◌, Distinct, length,
}
use mathlib.Core.Path.{subst}
use online_voting_poc.Bytes.{Bytes, Text}
use online_voting_poc.Crypto.{Crypto, PublicKey}
use online_voting_poc.Keys.{SigningKeyPair}
use online_voting_poc.Messages.{BallotRecord, BallotRecord-wire}
use online_voting_poc.Ledger.{head, payloads, append, append_all, verify_chain, size}
use online_voting_poc.Ledger.Chain.{
  chain, append_all-empty, verify_chain-eq-chain, verify_chain-chain, size-chain,
}
use online_voting_poc.Ledger.Tamper.{Broken, hashed, serialised, same_head-same_records}
use online_voting_poc.BallotBox.State.{
  period, BallotBox, RejectedRecord, RejectedRecord-wire, Act, Snapshot, new_box,
}
use online_voting_poc.BallotBox.Submit.{content_digest}
use online_voting_poc.BallotBox.Restore.{replay_accepted, restore}
use online_voting_poc.BallotBox.Invariant.{IsSound}

add_all : List Bytes → List Bytes → List Bytes
add_all acc [] = acc
add_all acc (x ∷ xs) = add_all (add x acc) xs

-- In a list without repetitions an element is not among those before it.
Distinct-middle : (x : Bytes) (xs ys : List Bytes) → Distinct (xs ++ x ∷ ys) → contains x xs ≡ false
Distinct-middle x [] ys d = refl
Distinct-middle x (z ∷ xs) ys d =
    ground
      (arith, contains-append z xs (x ∷ ys), Distinct-middle x xs ys d.1, eq_iff x z, eq_iff z x)

add_all-Distinct : (acc xs : List Bytes) → Distinct (acc ++ xs) → add_all acc xs ≡ acc ++ xs
unfolding add_all
add_all-Distinct acc [] d = sym (append-nil acc)
add_all-Distinct acc (x ∷ xs) d =
    let e : (acc ++ x ∷ []) ++ xs ≡ acc ++ x ∷ xs = append_assoc acc (x ∷ []) xs in
    let added : add x acc ≡ acc ++ x ∷ [] = rw (Distinct-middle x acc xs d) in
    rw added (add_all-Distinct (acc ++ x ∷ []) xs (subst Distinct (sym e) d) ∙ e)

module _ ⦃crypto : Crypto⦄ where
  replay_accepted-fields :
      (b : BallotBox) (ps : List BallotRecord)
      → replay_accepted b ps ≡ record b {
        accepted = append_all b.accepted ps;
        accepted_records = add_all b.accepted_records (map content_digest ps);
      }
  unfolding replay_accepted append_all add_all
  replay_accepted-fields b [] = refl
  replay_accepted-fields b (p ∷ ps) =
      replay_accepted-fields
        (record b {
          accepted = (append b.accepted p).0;
          accepted_records = add (content_digest p) b.accepted_records;
        })
        ps

  module _ (key : PublicKey) (choices : ℕ) (election : Text) (pair : SigningKeyPair)
      (interval : Option ℕ) (now : ℕ) (accepted : List BallotRecord)
      (rejected : List RejectedRecord) (acts : List Act) (snapshots : List Snapshot)
      (head_a head_r : Bytes) where
    -- The box that `restore` returns, if the heads are reached.
    pub restored : BallotBox
    restored = record (new_box key choices election pair interval now) {
      accepted = chain accepted;
      rejected = chain rejected;
      accepted_records = add_all [] (map content_digest accepted);
      acts = acts;
      snapshots = snapshots;
      closed = true;
    }

    abbrev heads_match : Bool
    heads_match = (head (chain accepted) == head_a) && (head (chain rejected) == head_r)

    restore_cases :
        restore key choices election pair interval now accepted rejected acts snapshots head_a
          head_r
        ≡ (if heads_match then some restored else none)
    unfolding restore restored new_box
    restore_cases =
        rw (replay_accepted-fields (new_box key choices election pair interval now) accepted)
          (rw (append_all-empty accepted, append_all-empty rejected))

    restore_inversion :
        (c : BallotBox)
        → restore key choices election pair interval now accepted rejected acts snapshots head_a
            head_r
          ≡ some c
        → (c ≡ restored) × (head (chain accepted) ≡ head_a) × (head (chain rejected) ≡ head_r)
    restore_inversion c h =
        let e = sym restore_cases ∙ h in
        ground
          (arith, e, eq_iff (head (chain accepted)) head_a, eq_iff (head (chain rejected)) head_r)

  -- A sound box that is rebuilt from its records, acts, publications and heads comes back closed, with
  -- the cadence counted from the time of the reload, and otherwise as it was: with its
  -- records, heads, content hashes, acts and publications as they were.
  pub restore-stored :
      (b : BallotBox) (now : ℕ)
      → IsSound b
      → restore b.vro_public_key b.num_choices b.election_id b.statement_key
          b.tally_interval_seconds now
          (payloads b.accepted)
          (payloads b.rejected)
          b.acts
          b.snapshots
          (head b.accepted)
          (head b.rejected)
        ≡ some (record b {
          closed = true;
          anchor = now;
          next_boundary = now + period b.tally_interval_seconds;
        })
  unfolding restored new_box
  restore-stored b now s =
      let acc = sym ((verify_chain-eq-chain b.accepted).0 s.accepted_verifies) in
      let rej = sym ((verify_chain-eq-chain b.rejected).0 s.rejected_verifies) in
      let records : add_all [] (map content_digest (payloads b.accepted)) ≡ b.accepted_records =
        rw (← s.indexed) (add_all-Distinct [] b.accepted_records s.distinct) in
      let same : heads_match b.vro_public_key b.num_choices b.election_id b.statement_key
            b.tally_interval_seconds now (payloads b.accepted) (payloads b.rejected) b.acts
            b.snapshots (head b.accepted) (head b.rejected)
          ≡ true =
        rw (acc, rej, eq_refl (head b.accepted), eq_refl (head b.rejected)) in
      restore_cases b.vro_public_key b.num_choices b.election_id b.statement_key
        b.tally_interval_seconds now (payloads b.accepted) (payloads b.rejected) b.acts b.snapshots
        (head b.accepted) (head b.rejected)
      ∙ rw same (λ i. some (record b {
        closed = true;
        anchor = now;
        next_boundary = now + period b.tally_interval_seconds;
        accepted = acc i;
        rejected = rej i;
        accepted_records = records i;
      }))

  -- Whatever records, fewer than 2 ^ 64 in a log, are loaded against the heads that a sound box
  -- had, of logs as short: if the box comes back, it is
  -- closed, its chains verify, and its records are, as they are serialised, those of the box that had the
  -- heads, in their order; or the hash is broken at bytes that were hashed for the entries.
  pub restore_detects_alteration :
      (b c : BallotBox) (now : ℕ) (accepted : List BallotRecord) (rejected : List RejectedRecord)
      (acts : List Act) (snapshots : List Snapshot)
      → IsSound b
      → size b.accepted < 2 ^ 64
      → size b.rejected < 2 ^ 64
      → length accepted < 2 ^ 64
      → length rejected < 2 ^ 64
      → restore b.vro_public_key b.num_choices b.election_id b.statement_key
          b.tally_interval_seconds now accepted rejected acts snapshots
          (head b.accepted)
          (head b.rejected)
        ≡ some c
      → ((c.closed ≡ true)
          × (verify_chain c.accepted ≡ true)
          × (verify_chain c.rejected ≡ true)
          × (map serialised (payloads c.accepted) ≡ map serialised (payloads b.accepted))
          × (map serialised (payloads c.rejected) ≡ map serialised (payloads b.rejected)))
        ⊎ Broken (hashed (chain accepted)) (hashed b.accepted)
        ⊎ Broken (hashed (chain rejected)) (hashed b.rejected)
  unfolding restored new_box
  restore_detects_alteration b c now accepted rejected acts snapshots s la lr ma mr h =
      let (same, ha, hr) =
        restore_inversion b.vro_public_key b.num_choices b.election_id b.statement_key
          b.tally_interval_seconds now accepted rejected acts snapshots (head b.accepted)
          (head b.rejected) c h in
      let va = verify_chain-chain accepted in
      let vr = verify_chain-chain rejected in
      elim (same_head-same_records (chain accepted) b.accepted (rw (size-chain accepted) ma) la va
        s.accepted_verifies ha) [
          | inr broken ↦ inr (inl broken)
          | inl acc ↦
              elim (same_head-same_records (chain rejected) b.rejected (rw (size-chain rejected) mr)
                lr vr s.rejected_verifies hr) [
                  | inr broken ↦ inr (inr broken)
                  | inl rej ↦ inl (rw same (refl, va, vr, acc, rej))
                ]
        ]
