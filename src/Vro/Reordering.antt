-- ===== src/Vro/Reordering.antt =====
-- Reloading the office of src/ovpoc/vro.py: the openings come back in the order of the chain, and an
-- altered register is refused.
use mathlib.Core.Path.{subst}
use online_voting_poc.Prelude.{
  ℕ, ◌^◌, ◌<◌, length, ◌≡◌, refl, ap, sym, ◌∙◌, ◌⊎◌, inl, inr, true, false, none, some, List, [],
  ◌∷◌, ◌++◌, map, All, Bool-cases, contains, is_some, Distinct, List-eq, ◌==◌, eq_iff, arith,
  append-nil, append_assoc, map-append, eq_refl, Distinct-new,
}
use online_voting_poc.Prelude.Dict.{
  Dict, keys, lookup, insert, lookup-insert, insert_new, contains-keys,
}
use online_voting_poc.Bytes.{Bytes, Text}
use online_voting_poc.Base64.{b64}
use online_voting_poc.Crypto.{Crypto}
use online_voting_poc.Ledger.{empty, head, size, payloads, append_all}
use online_voting_poc.Ledger.Chain.{
  chain, append_all-empty, verify_chain-eq-chain, payloads-chain, size-chain, verify_chain-chain,
}
use online_voting_poc.Ledger.Tamper.{Broken, hashed, serialised, same_head-same_records}
use online_voting_poc.Vro.State.{Vro, Release, Release-wire, AuditEntry, SignedRequest, commit}
use online_voting_poc.Vro.Register.{IsConsistent, entry_of}
use online_voting_poc.Vro.Storage.{
  by_commitment, thread, place, set_defaults, in_chain_order, restore_releases,
}

new_key :
    (before rest : Dict Text Bytes) (k : Text) (o : Bytes)
    → Distinct (keys (before ++ (k, o) ∷ rest))
    → lookup k before ≡ none
new_key before rest k o distinct =
    let split = map-append (λ e. e.0) before ((k, o) ∷ rest) in
    let new = Distinct-new (keys before) k (keys rest) (subst Distinct split distinct) in
    ground (arith, contains-keys k before, new)

lookup-append :
    (before rest : Dict Text Bytes) (k : Text) (o : Bytes)
    → lookup k before ≡ none
    → lookup k (before ++ (k, o) ∷ rest) ≡ some o
lookup-append [] rest k o h = rw (eq_refl k) refl
lookup-append ((j, p) ∷ before) rest k o h = ground (arith, lookup-append before rest k o)

All-lookup :
    (before d : Dict Text Bytes)
    → Distinct (keys (before ++ d))
    → All (λ e. lookup e.0 (before ++ d) ≡ some e.1) d
All-lookup before [] h = tt
All-lookup before ((k, o) ∷ rest) h =
    let shifted = append_assoc before ((k, o) ∷ []) rest in
    (
      lookup-append before rest k o (new_key before rest k o h),
      subst (λ d. All (λ e. lookup e.0 d ≡ some e.1) rest) shifted
          (All-lookup (before ++ (k, o) ∷ []) rest
            (subst (λ d. Distinct (keys d)) (sym shifted) h)),
    )

set_defaults_filled :
    (ordered d : Dict Text Bytes)
    → All (λ e. is_some (lookup e.0 ordered) ≡ true) d
    → set_defaults ordered d ≡ ordered
unfolding set_defaults
set_defaults_filled ordered [] h = refl
set_defaults_filled ordered ((k, o) ∷ rest) (here, there) =
    rw here (set_defaults_filled ordered rest there)

module _ ⦃crypto : Crypto⦄ where
  abbrev committed : Text × Bytes → Text
  committed e = b64 (commit e.0 e.1)

  lookup-by_commitment :
      (t k : Text) (by : Dict Text Text) (d : Dict Text Bytes)
      → All (λ e. committed e ≡ t → e.0 ≡ k) d
      → (lookup t by ≡ some k) ⊎ (contains t (map committed d) ≡ true)
      → lookup t (by_commitment by d) ≡ some k
  unfolding by_commitment
  lookup-by_commitment t k by [] h (inl there) = there
  lookup-by_commitment t k by [] h (inr e) = ground arith
  lookup-by_commitment t k by ((j, o) ∷ rest) (here, others) s =
      lookup-by_commitment t k (insert (committed (j, o)) j by) rest others (
        ground
          (arith, s, here, eq_iff t (committed (j, o)), lookup-insert (committed (j, o)) t j by))

  -- The entries of the chain, one after the other, put the openings in their order.
  thread-openings :
      (by : Dict Text Text) (openings ordered d : Dict Text Bytes)
      → All (λ e. (lookup (committed e) by ≡ some e.0) × (lookup e.0 openings ≡ some e.1)) d
      → Distinct (keys (ordered ++ d))
      → thread by openings ordered (map entry_of d) ≡ ordered ++ d
  unfolding thread
  thread-openings by openings ordered [] h distinct = sym (append-nil ordered)
  thread-openings by openings ordered ((k, o) ∷ rest) ((found, opened), others) distinct =
      let absent = new_key ordered rest k o distinct in
      let shifted = append_assoc ordered ((k, o) ∷ []) rest in
      let placed : place openings (lookup (committed (k, o)) by) ordered ≡ ordered ++ (k, o) ∷ [] =
        rw (found, absent, opened) (insert_new k o ordered absent) in
      ap (λ x. thread by openings x (map entry_of rest)) placed
      ∙ thread-openings by openings (ordered ++ (k, o) ∷ []) rest others
          (subst (λ d. Distinct (keys d)) (sym shifted) distinct)
      ∙ shifted

  -- No two openings of different identifiers have one commitment.
  abbrev pub Separate : Dict Text Bytes → Type 0
  Separate d =
      (k j : Text) (o p : Bytes)
      → lookup k d ≡ some o
      → lookup j d ≡ some p
      → b64 (commit k o) ≡ b64 (commit j p)
      → j ≡ k

  contains-committed :
      (k : Text) (o : Bytes) (d : Dict Text Bytes)
      → lookup k d ≡ some o
      → contains (committed (k, o)) (map committed d) ≡ true
  contains-committed k o [] h = ground arith
  contains-committed k o ((j, p) ∷ d) h = elim (Bool-cases (k == j)) [
    | inl same ↦
        let e : ◌≡◌ {A = Text × Bytes} (k, o) (j, p) = ground (arith, eq_iff k j) in
        rw (ap committed e, eq_refl (committed (j, p))) refl
    | inr other ↦ ground (arith, contains-committed k o d)
  ]

  All-map :
      {P Q : Text × Bytes → Type 0} (d : Dict Text Bytes)
      → ((e : Text × Bytes) → P e → Q e)
      → All P d
      → All Q d
  All-map [] f h = tt
  All-map (e ∷ d) f (here, there) = (f e here, All-map d f there)

  -- The openings of a consistent office come back in the order in which the tokens were released,
  -- whatever order they were stored in: with the same opening under each identifier, and where no two
  -- openings of different identifiers have one commitment, they are threaded onto the chain as the
  -- office had them.
  pub in_chain_order-openings :
      (v : Vro) (stored : Dict Text Bytes)
      → IsConsistent v
      → Distinct (keys stored)
      → ((k : Text) → lookup k stored ≡ lookup k v.openings)
      → Separate v.openings
      → in_chain_order v.release_log stored ≡ v.openings
  unfolding in_chain_order
  in_chain_order-openings v stored s distinct same separate =
      ap (λ rs. set_defaults (thread by stored [] rs) stored) s.logged
      ∙ ap (λ d. set_defaults d stored)
          (thread-openings by stored [] v.openings found (subst Distinct s.opened s.distinct))
      ∙ set_defaults_filled v.openings stored
          (All-map stored (λ e h. ap is_some (sym (same e.0) ∙ h)) at_home)
    where
      by : Dict Text Text
      by = by_commitment [] stored

      at_home : All (λ e. lookup e.0 stored ≡ some e.1) stored
      at_home = All-lookup [] stored distinct

      find :
          (e : Text × Bytes)
          → lookup e.0 v.openings ≡ some e.1
          → (lookup (committed e) by ≡ some e.0) × (lookup e.0 stored ≡ some e.1)
      find e h = (
        lookup-by_commitment (committed e) e.0 [] stored
            (All-map stored (λ f g c. separate e.0 f.0 e.1 f.1 h (sym (same f.0) ∙ g) (sym c))
              at_home)
            (inr (contains-committed e.0 e.1 stored (same e.0 ∙ h))),
        same e.0 ∙ h,
      )

      found :
          All
            (λ e. (lookup (committed e) by ≡ some e.0) × (lookup e.0 stored ≡ some e.1))
            v.openings
      found =
          All-map v.openings find (All-lookup [] v.openings (subst Distinct s.opened s.distinct))

  -- Storing a consistent office, no two of whose openings of different identifiers have one
  -- commitment, and reloading it gives it back, in whatever order the openings were stored: from an
  -- office without releases, the reload goes through, and the log, the openings in
  -- their order, the released identifiers, the requests and the audit are those that were stored.
  pub restore_releases-stored :
      (v w : Vro) (stored : Dict Text Bytes)
      → IsConsistent v
      → Distinct (keys stored)
      → ((k : Text) → lookup k stored ≡ lookup k v.openings)
      → Separate v.openings
      → w.release_log ≡ empty
      → restore_releases
          (payloads v.release_log)
          v.released
          stored
          v.audit
          v.requests
          v.supervisor_downloads
          (head v.release_log)
          v.self_enrolled
          w
        ≡ (
          record w {
            release_log = v.release_log;
            released = v.released;
            openings = v.openings;
            audit = v.audit;
            requests = v.requests;
            self_enrolled = v.self_enrolled;
            supervisor_downloads = v.supervisor_downloads;
          },
          true,
        )
  unfolding restore_releases
  restore_releases-stored v w stored s distinct same separate fresh =
      let log : append_all w.release_log (payloads v.release_log) ≡ v.release_log =
        ap (λ l. append_all l (payloads v.release_log)) fresh
        ∙ append_all-empty (payloads v.release_log)
        ∙ sym ((verify_chain-eq-chain v.release_log).0 s.verifies) in
      rw (
        log,
        eq_refl (head v.release_log),
        in_chain_order-openings v stored s distinct same separate,
      )

  -- An altered register is refused. From an office without releases: where the reload of commitments
  -- under the head of a consistent office goes through, they are that office's as they are
  -- serialised, in the same order, or the hash is broken at bytes that were hashed for the two
  -- (fewer than 2 ^ 64 of each); where it does not, nothing changes but the log.
  pub restore_releases_detects_alteration :
      (v w : Vro) (releases : List Release) (released : List Text) (openings : Dict Text Bytes)
      (audit : List AuditEntry) (requests : Dict Text SignedRequest) (downloads : ℕ)
      (self_enrolled : List Text)
      → IsConsistent v
      → w.release_log ≡ empty
      → length releases < 2 ^ 64
      → size v.release_log < 2 ^ 64
      → let t =
          restore_releases releases released openings audit requests downloads
            (head v.release_log)
            self_enrolled
            w in
        (t.1 ≡ true
          → (map serialised releases ≡ map serialised (payloads v.release_log))
            ⊎ Broken (hashed (chain releases)) (hashed v.release_log))
        × (t.1 ≡ false → t.0 ≡ record w { release_log = t.0.release_log })
  unfolding restore_releases
  restore_releases_detects_alteration v w releases released openings audit requests downloads
        self_enrolled s fresh few many =
      let log : append_all w.release_log releases ≡ chain releases =
        ap (λ l. append_all l releases) fresh ∙ append_all-empty releases in
      rw log (elim (Bool-cases (head (chain releases) == head v.release_log)) [
        | inr differ ↦ rw differ (λ h. ground arith, λ _. refl)
        | inl heads ↦ rw heads (
          λ _.
              subst
                (λ qs.
                  (map serialised qs ≡ map serialised (payloads v.release_log))
                  ⊎ Broken (hashed (chain releases)) (hashed v.release_log))
                (payloads-chain releases)
                (same_head-same_records (chain releases) v.release_log
                  (omega (arith, few, size-chain releases)) many (verify_chain-chain releases)
                  s.verifies ((eq_iff (head (chain releases)) (head v.release_log)).0 heads)),
          λ h. ground arith,
        )
      ])
