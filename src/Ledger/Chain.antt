-- ===== src/Ledger/Chain.antt =====
-- `Ledger.append` and `Ledger.verify_chain` of src/ovpoc/ledger.py against the chain that a
-- sequence of payloads determines.
use online_voting_poc.Prelude.{
  ℕ, suc, ◌+◌, ◌≡◌, refl, ap, ◌∙◌, sym, ◌↔◌, true, List, [], ◌∷◌, ◌++◌, length, get_last?,
  get_last?-append, Option, some, none, arith, map, eq_iff, ℕ-eq, List-eq, append_assoc, append-nil,
  map-append,
}
use online_voting_poc.Bytes.{Bytes}
use online_voting_poc.Crypto.{Crypto}
use online_voting_poc.Messages.{Wire}
use online_voting_poc.Ledger.{
  Entry, Ledger, empty, genesis, head, size, payloads, compute_entry_hash, new_entry, append,
  append_all, verify_from, verify_chain, last_hash,
}

abbrev last_hash_or : {P : Type 0} → Bytes → Option (Entry P) → Bytes
last_hash_or prev none = prev
last_hash_or prev (some e) = e.entry_hash

last_hash_eq : {P : Type 0} (o : Option (Entry P)) → last_hash o ≡ last_hash_or genesis o
last_hash_eq none = refl
last_hash_eq (some e) = refl

module _ ⦃crypto : Crypto⦄ {P : Type 0} ⦃w : Wire P⦄ where
  unfoldable pub entry_at : ℕ → P → Bytes → Entry P
  entry_at i p prev = record {
    index = i;
    payload = p;
    prev_hash = prev;
    entry_hash = compute_entry_hash i p prev;
  }

  -- The chain of a sequence of payloads, and the hash that it ends in.
  unfoldable pub chain_from : ℕ → Bytes → List P → List (Entry P)
  unfolding entry_at
  chain_from i prev [] = []
  chain_from i prev (p ∷ ps) =
      entry_at i p prev ∷ chain_from (suc i) (compute_entry_hash i p prev) ps

  unfoldable pub hash_from : ℕ → Bytes → List P → Bytes
  hash_from i prev [] = prev
  hash_from i prev (p ∷ ps) = hash_from (suc i) (compute_entry_hash i p prev) ps

  chain_from-snoc :
      (i : ℕ) (prev : Bytes) (ps : List P) (p : P)
      → chain_from i prev (ps ++ p ∷ [])
        ≡ chain_from i prev ps ++ entry_at (i + length ps) p (hash_from i prev ps) ∷ []
  unfolding chain_from hash_from
  chain_from-snoc i prev [] p = let e : i + 0 ≡ i = omega arith in rw e
  chain_from-snoc i prev (q ∷ ps) p =
      let e : suc i + length ps ≡ i + suc (length ps) = omega arith in
      rw (chain_from-snoc (suc i) (compute_entry_hash i q prev) ps p, e)

  hash_from-snoc :
      (i : ℕ) (prev : Bytes) (ps : List P) (p : P)
      → hash_from i prev (ps ++ p ∷ []) ≡ compute_entry_hash (i + length ps) p (hash_from i prev ps)
  unfolding hash_from
  hash_from-snoc i prev [] p = let e : i + 0 ≡ i = omega arith in rw e
  hash_from-snoc i prev (q ∷ ps) p =
      let e : suc i + length ps ≡ i + suc (length ps) = omega arith in
      rw (hash_from-snoc (suc i) (compute_entry_hash i q prev) ps p, e)

  pub length-chain_from :
      (i : ℕ) (prev : Bytes) (ps : List P) → length (chain_from i prev ps) ≡ length ps
  unfolding chain_from
  length-chain_from i prev [] = refl
  length-chain_from i prev (p ∷ ps) =
      ap suc (length-chain_from (suc i) (compute_entry_hash i p prev) ps)

  pub payloads-chain_from :
      (i : ℕ) (prev : Bytes) (ps : List P) → map (λ e. e.payload) (chain_from i prev ps) ≡ ps
  unfolding chain_from
  payloads-chain_from i prev [] = refl
  payloads-chain_from i prev (p ∷ ps) =
      ap (◌∷◌ p) (payloads-chain_from (suc i) (compute_entry_hash i p prev) ps)

  verify_from_iff :
      (i : ℕ) (prev : Bytes) (es : List (Entry P))
      → (verify_from i prev es ≡ true) ↔ (es ≡ chain_from i prev (map (λ e. e.payload) es))
  unfolding verify_from chain_from
  verify_from_iff i prev [] = (λ _. refl, λ _. refl)
  verify_from_iff i prev (e ∷ es) = ground (
    arith,
    eq_iff e.prev_hash prev,
    eq_iff e.entry_hash (compute_entry_hash i e.payload prev),
    verify_from_iff (suc i) e.entry_hash es,
  )

  -- The log whose entries are the chain of these payloads.
  unfoldable pub chain : List P → Ledger P
  chain ps = record { entries = chain_from 0 genesis ps }

  last_of_chain :
      (i : ℕ) (prev : Bytes) (ps : List P)
      → last_hash_or prev (get_last? (chain_from i prev ps)) ≡ hash_from i prev ps
  unfolding chain_from hash_from
  last_of_chain i prev [] = refl
  last_of_chain i prev (p ∷ ps) =
      ground (arith, last_of_chain (suc i) (compute_entry_hash i p prev) ps)

  pub head-chain : (ps : List P) → head (chain ps) ≡ hash_from 0 genesis ps
  unfolding head chain
  head-chain ps =
      last_hash_eq {P = P} (get_last? (chain_from 0 genesis ps)) ∙ last_of_chain 0 genesis ps

  pub size-chain : (ps : List P) → size (chain ps) ≡ length ps
  unfolding chain
  size-chain ps = length-chain_from 0 genesis ps

  pub payloads-chain : (ps : List P) → payloads (chain ps) ≡ ps
  unfolding chain
  payloads-chain ps = payloads-chain_from 0 genesis ps

  new_entry-chain :
      (ps : List P) (p : P)
      → new_entry (chain ps) p ≡ entry_at (length ps) p (hash_from 0 genesis ps)
  unfolding new_entry entry_at
  new_entry-chain ps p = rw (size-chain ps, head-chain ps)

  pub append-chain : (ps : List P) (p : P) → (append (chain ps) p).0 ≡ chain (ps ++ p ∷ [])
  unfolding append chain
  append-chain ps p =
      let e : 0 + length ps ≡ length ps = omega arith in
      ap (λ es. record { entries = es })
        (ap (λ e. chain_from 0 genesis ps ++ e ∷ []) (new_entry-chain ps p)
          ∙ sym (chain_from-snoc 0 genesis ps p ∙ rw e))

  pub append_all-chain : (ps qs : List P) → append_all (chain ps) qs ≡ chain (ps ++ qs)
  unfolding append_all
  append_all-chain ps [] = rw append-nil
  append_all-chain ps (q ∷ qs) =
      rw (append-chain ps q) (append_all-chain (ps ++ q ∷ []) qs ∙ rw append_assoc)

  pub append_all-empty : (ps : List P) → append_all empty ps ≡ chain ps
  unfolding chain chain_from
  append_all-empty ps = append_all-chain [] ps

  pub verify_chain-eq-chain : (l : Ledger P) → (verify_chain l ≡ true) ↔ (l ≡ chain (payloads l))
  unfolding verify_chain chain
  verify_chain-eq-chain l = (
    λ h. ap (λ es. record { entries = es }) ((verify_from_iff 0 genesis l.entries).0 h),
    λ h. (verify_from_iff 0 genesis l.entries).1 (ap (λ m. m.entries) h),
  )

  pub verify_chain-chain : (ps : List P) → verify_chain (chain ps) ≡ true
  verify_chain-chain ps = (verify_chain-eq-chain (chain ps)).1 (rw (payloads-chain ps))

  -- A log verifies exactly when appending its payloads in order to an empty log rebuilds it.
  pub verify_chain_iff :
      (l : Ledger P) → (verify_chain l ≡ true) ↔ (append_all empty (payloads l) ≡ l)
  verify_chain_iff l = (
    λ h. append_all-empty (payloads l) ∙ sym ((verify_chain-eq-chain l).0 h),
    λ h. (verify_chain-eq-chain l).1 (sym h ∙ append_all-empty (payloads l)),
  )

  -- Appending to a log that verifies gives one that verifies, with the payload at its end, whose
  -- head is the hash of the entry that `append` returns.
  pub append-verify_chain :
      (l : Ledger P) (p : P)
      → verify_chain l ≡ true
      → (verify_chain (append l p).0 ≡ true)
        × (payloads (append l p).0 ≡ payloads l ++ p ∷ [])
        × (head (append l p).0 ≡ (append l p).1.entry_hash)
  append-verify_chain l p h = (
    rw ((verify_chain-eq-chain l).0 h) (rw (append-chain (payloads l) p) (verify_chain-chain _)),
    unfold append new_entry in map-append (λ e. e.payload) l.entries (new_entry l p ∷ []),
    unfold append head in ap last_hash (get_last?-append l.entries (new_entry l p)),
  )
