-- ===== src/Vro/Register.antt =====
-- The office's register of releases in src/ovpoc/vro.py: what each operation does to it, and what
-- holds of it.
use mathlib.Core.Path.{subst}
use online_voting_poc.Prelude.{
  ◌≡◌, ap, sym, ◌∙◌, inl, inr, ◌⊎◌, ◌≢◌, Bool, true, false, none, List, [], ◌∷◌, ◌++◌, map,
  contains, add, List-eq, arith, Bool-cases, Distinct, Distinct-snoc, map-append, eq_iff, ◌==◌,
  contains-append,
}
use online_voting_poc.Prelude.Dict.{
  Dict, keys, lookup, insert, erase, lookup-insert, contains-keys, insert_new, lookup-erase,
  lookup-erase_ne,
}
use online_voting_poc.Bytes.{Bytes, Text}
use online_voting_poc.Base64.{b64}
use online_voting_poc.Crypto.{Crypto}
use online_voting_poc.Ledger.{Ledger, payloads, verify_chain}
use online_voting_poc.Ledger.Chain.{append-verify_chain}
use online_voting_poc.Vro.State.{
  Vro, TokenRequest, SignedRequest, Release, Release-wire, commit, reserved, not_eligible,
}
use online_voting_poc.Vro.Office.{
  claim, refuse, record_release, sign_release, release, log_audit, respond, reserved_for, answer,
}

-- The part of the office that its register of releases is about.
pub record Core : Type 0 where
  pub log : Ledger Release
  pub released : List Text
  pub openings : Dict Text Bytes
  pub requests : Dict Text SignedRequest
  pub reserved : Dict Text Bytes

abbrev pub core : Vro → Core
core v = record {
  log = v.release_log;
  released = v.released;
  openings = v.openings;
  requests = v.requests;
  reserved = v.reserved;
}

-- The log, the released identifiers, the openings and the kept requests.
abbrev pub published : Vro → Ledger Release × List Text × Dict Text Bytes × Dict Text SignedRequest
published v = (v.release_log, v.released, v.openings, v.requests)

pub claim-cases :
    (r : TokenRequest) (revoked expired : Bool) (v : Vro)
    → ((core (claim r revoked expired v).0 ≡ core v)
        × ((claim r revoked expired v).1.outcome ≢ reserved))
      ⊎ ((contains r.voter_id v.released ≡ false)
          × (claim r revoked expired v ≡ (
            log_audit r.voter_id reserved "validated and reserved"
                (record v { reserved = insert r.voter_id r.blinded_key v.reserved }),
            respond reserved,
          )))
unfolding claim refuse
claim-cases r revoked expired v = ground arith

module _ ⦃crypto : Crypto⦄ where
  abbrev pub entry_of : Text × Bytes → Release
  entry_of o = record { commitment = b64 (commit o.0 o.1) }

  -- The release log verifies and its entries are the commitments of the openings, in their order;
  -- the openings are of the released identifiers, no two of which are equal, and a request is kept
  -- for each; and no released identifier is reserved.
  pub record IsConsistentCore (c : Core) : Type 0 where
    pub verifies : verify_chain c.log ≡ true
    pub logged : payloads c.log ≡ map entry_of c.openings
    pub opened : c.released ≡ keys c.openings
    pub requested : keys c.requests ≡ keys c.openings
    pub distinct : Distinct c.released
    pub settled : (q : Text) → contains q c.released ≡ true → lookup q c.reserved ≡ none

  abbrev pub IsConsistent : Vro → Type 0
  IsConsistent v = IsConsistentCore (core v)

  keys-insert_new :
      {V : Type 0} (k : Text) (x : V) (d : Dict Text V)
      → contains k (keys d) ≡ false
      → (insert k x d ≡ d ++ (k, x) ∷ []) × (keys (insert k x d) ≡ keys d ++ k ∷ [])
  keys-insert_new {V} k x d h =
      let e = insert_new k x d (ground (arith, contains-keys {K = Text} {V = V} k d)) in
      (e, ap keys e ∙ map-append (λ p. p.0) d ((k, x) ∷ []))

  settled_insert :
      (c : Core) (k : Text) (x : Bytes) (q : Text)
      → (lookup q c.reserved ≡ none)
      → contains k c.released ≡ false
      → contains q c.released ≡ true
      → lookup q (insert k x c.reserved) ≡ none
  settled_insert c k x q h new old = elim (Bool-cases (q == k)) [
    | inl same ↦ absurd (clash ((eq_iff q k).0 same))
    | inr other ↦ lookup-insert k q x c.reserved ∙ rw other h
  ]
    where
      clash : q ≡ k → ⊥
      clash e = cc

  pub claim-IsConsistent :
      (r : TokenRequest) (revoked expired : Bool) (v : Vro)
      → IsConsistent v
      → IsConsistent (claim r revoked expired v).0
  claim-IsConsistent r revoked expired v s = elim (claim-cases r revoked expired v) [
    | inl (same, _) ↦ subst IsConsistentCore (sym same) s
    | inr (new, taken) ↦
        subst (λ t. IsConsistent t.0) (sym taken)
          (record {
            verifies = s.verifies;
            logged = s.logged;
            opened = s.opened;
            requested = s.requested;
            distinct = s.distinct;
            settled =
                λ q h. settled_insert (core v) r.voter_id r.blinded_key q (s.settled q h) new h;
          })
  ]

  settled_release :
      (v : Vro) (k q : Text)
      → IsConsistent v
      → contains q (v.released ++ k ∷ []) ≡ true
      → lookup q (erase k v.reserved) ≡ none
  settled_release v k q s h = elim (Bool-cases (q == k)) [
    | inl same ↦
        ap (λ x. lookup x (erase k v.reserved)) ((eq_iff q k).0 same) ∙ lookup-erase k v.reserved
    | inr other ↦ lookup-erase_ne k q v.reserved (differs other) ∙ s.settled q (older other)
  ]
    where
      differs : (q == k) ≡ false → q ≢ k
      differs other e = ground (arith, eq_iff q k)

      older : (q == k) ≡ false → contains q v.released ≡ true
      older other = ground (arith, contains-append q v.released (k ∷ []))

  pub record_release-appends :
      (opening : Bytes) (r : TokenRequest) (v : Vro)
      → IsConsistent v
      → contains r.voter_id v.released ≡ false
      → let w = record_release opening r v in
        (payloads w.release_log ≡ payloads v.release_log ++ entry_of (r.voter_id, opening) ∷ [])
        × (w.released ≡ v.released ++ r.voter_id ∷ [])
        × (w.openings ≡ v.openings ++ (r.voter_id, opening) ∷ [])
        × IsConsistent w
  unfolding record_release
  record_release-appends opening r v s new =
      let k = r.voter_id in
      let fresh : contains k (keys v.openings) ≡ false = ap (contains k) (sym s.opened) ∙ new in
      let fresh' : contains k (keys v.requests) ≡ false = ap (contains k) s.requested ∙ fresh in
      let (chained, grown, _) =
        append-verify_chain v.release_log (entry_of (k, opening)) s.verifies in
      let (opened, opened_keys) = keys-insert_new k opening v.openings fresh in
      let (_, requested_keys) = keys-insert_new k r.evidence v.requests fresh' in
      let added : add k v.released ≡ v.released ++ k ∷ [] = rw new in
      (
        grown,
        added,
        opened,
        record {
          verifies = chained;
          logged =
              grown
              ∙ ap (λ l. l ++ entry_of (k, opening) ∷ []) s.logged
              ∙ sym (ap (map entry_of) opened ∙ map-append entry_of v.openings ((k, opening) ∷ []));
          opened = added ∙ ap (λ l. l ++ k ∷ []) s.opened ∙ sym opened_keys;
          requested = requested_keys ∙ ap (λ l. l ++ k ∷ []) s.requested ∙ sym opened_keys;
          distinct = rw added (Distinct-snoc k v.released s.distinct new);
          settled = λ q h. settled_release v k q s (ap (contains q) (sym added) ∙ h);
        },
      )

  pub reserved_for-new :
      (r : TokenRequest) (v : Vro)
      → IsConsistent v
      → reserved_for r v ≡ true
      → contains r.voter_id v.released ≡ false
  reserved_for-new r v s h = elim (Bool-cases (contains r.voter_id v.released)) [
    | inl old ↦ absurd (clash (s.settled r.voter_id old))
    | inr new ↦ new
  ]
    where
      clash : lookup r.voter_id v.reserved ≡ none → ⊥
      clash e = ground arith

  pub sign_release-core : (r : TokenRequest) (v : Vro) → core (sign_release r v).0 ≡ core v
  unfolding sign_release
  sign_release-core r v = ground arith

  pub release-IsConsistent :
      (opening : Bytes) (r : TokenRequest) (v : Vro)
      → IsConsistent v
      → IsConsistent (release opening r v).0
  unfolding release refuse
  release-IsConsistent opening r v s = elim (Bool-cases (reserved_for r v)) [
    | inr absent ↦ subst (λ t. IsConsistent t.0) (sym (refused absent)) s
    | inl held ↦
        subst (λ t. IsConsistent t.0) (sym (taken held))
          (subst IsConsistentCore (sym (sign_release-core r (record_release opening r v)))
            (record_release-appends opening r v s (reserved_for-new r v s held)).3)
  ]
    where
      refused :
          reserved_for r v ≡ false
          → release opening r v ≡ (
            log_audit r.voter_id not_eligible
                "no matching reservation for this id and blinded value" v,
            answer (respond not_eligible),
          )
      refused absent = rw absent

      taken :
          reserved_for r v ≡ true
          → release opening r v ≡ sign_release r (record_release opening r v)
      taken held = rw held
