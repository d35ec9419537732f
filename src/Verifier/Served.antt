-- ===== src/Verifier/Served.antt =====
-- The files of an election as src/service/api.py serves them, once the box is closed.
use mathlib.Core.Path.{subst}
use online_voting_poc.Prelude.{
  ℕ, ◌≡◌, refl, ap, ◌∙◌, inl, inr, true, Option, none, some, List, [], ◌∷◌, map, arith, Bool-cases,
  contains, Distinct, List-eq, eq_iff, ◌==◌,
}
use online_voting_poc.Bytes.{Bytes, hex}
use online_voting_poc.Crypto.{Crypto, PublicKey}
use online_voting_poc.Keys.{public_bytes}
use online_voting_poc.Messages.{Wire, BallotRecord, BallotRecord-wire, digest}
use online_voting_poc.Ledger.{Ledger, Entry, genesis, head, payloads, verify_chain}
use online_voting_poc.Ledger.Chain.{chain, chain_from, hash_from, head-chain, verify_chain-eq-chain}
use online_voting_poc.Ledger.Tamper.{serialised}
use online_voting_poc.BallotBox.State.{RejectedRecord, RejectedRecord-wire}
use online_voting_poc.BallotBox.Submit.{content_digest}
use online_voting_poc.BallotBox.Timer.{catch_up_closed}
use online_voting_poc.BallotBox.Published.{commitments, View, view_of, published_view}
use online_voting_poc.Vro.State.{Release, Release-wire}
use online_voting_poc.Dumps.{Deployment, LedgerDump, zip_rows, dump_of, ledger_dump}
use online_voting_poc.Verifier.Agreement.{records_of, published_of, release_of}

pub records_of-zip_rows :
    {P : Type 0} (es : List (Entry P))
    → (records_of (zip_rows (commitments es) (map (λ e. e.payload) es)) ≡ map (λ e. e.payload) es)
      × (published_of (zip_rows (commitments es) (map (λ e. e.payload) es)) ≡ commitments es)
records_of-zip_rows [] = (refl, refl)
records_of-zip_rows (e ∷ es) =
    let (r, p) = records_of-zip_rows es in
    (ap (◌∷◌ e.payload) r, ap (◌∷◌ (e.index, hex e.entry_hash)) p)

pub contains-map :
    (f : Bytes → Bytes) (x : Bytes) (xs : List Bytes)
    → contains x xs ≡ true
    → contains (f x) (map f xs) ≡ true
contains-map f x [] h = h
contains-map f x (y ∷ ys) h = elim (Bool-cases (x == y)) [
  | inl same ↦ rw ((eq_iff (f x) (f y)).1 (ap f ((eq_iff x y).0 same))) refl
  | inr other ↦ ground (arith, contains-map f x ys)
]

pub Distinct-unmap : (f : Bytes → Bytes) (xs : List Bytes) → Distinct (map f xs) → Distinct xs
Distinct-unmap f [] d = tt
Distinct-unmap f (x ∷ xs) (h, d) = (ground (arith, contains-map f x xs), Distinct-unmap f xs d)

module _ ⦃crypto : Crypto⦄ where
  -- The configuration names the keys and the election of the box and of the office, and the encoded
  -- token key is read back as it was.
  pub record IsFurnished (load : Bytes → Option PublicKey) (d : Deployment) : Type 0 where
    pub box_election : d.ebb.election_id ≡ d.config.election_id
    pub office_election : d.vro.election_id ≡ d.config.election_id
    pub spki : d.config.vro_token_key_spki ≡ crypto.subject_public_key_info d.ebb.vro_public_key
    pub loads :
        load (crypto.subject_public_key_info d.ebb.vro_public_key) ≡ some d.ebb.vro_public_key
    pub box_key : d.config.ebb_statement_key ≡ public_bytes d.ebb.statement_key
    pub office_key : d.config.vro_statement_key ≡ public_bytes d.vro.office_key
    pub starts : d.config.genesis_hash ≡ genesis
    pub choices : d.config.num_choices ≡ d.ebb.num_choices

  pub content_digests :
      (ps : List BallotRecord) → map content_digest ps ≡ map crypto.sha256 (map serialised ps)
  unfolding content_digest serialised digest
  content_digests [] = refl
  content_digests (q ∷ qs) = ap (◌∷◌ (content_digest q)) (content_digests qs)

  pub Distinct-serialised :
      (ps : List BallotRecord) → Distinct (map content_digest ps) → Distinct (map serialised ps)
  Distinct-serialised ps d =
      Distinct-unmap crypto.sha256 (map serialised ps) (subst Distinct (content_digests ps) d)

  pub verified_rows :
      {P : Type 0} ⦃w : Wire P⦄ (l : Ledger P)
      → verify_chain l ≡ true
      → (l.entries ≡ chain_from 0 genesis (payloads l))
        × (head l ≡ hash_from 0 genesis (payloads l))
  unfolding chain
  verified_rows l v =
      let e = (verify_chain-eq-chain l).0 v in
      (ap (λ x. x.entries) e, ap head e ∙ head-chain (payloads l))

  -- What a closed box's dump shows.
  abbrev pub served : Deployment → LedgerDump
  served d = dump_of d.config (view_of d.ebb) (payloads d.ebb.accepted, payloads d.ebb.rejected)

  pub closed-ledger_dump :
      (now : ℕ) (d : Deployment) → d.ebb.closed ≡ true → ledger_dump now d ≡ (d, some (served d))
  unfolding ledger_dump published_view view_of
  closed-ledger_dump now d shut =
      ap (λ x. (record d { ebb = x.0 }, shown x.1 x.1.records)) viewed
      ∙ ap (λ r. (d, shown (view_of d.ebb) r)) disclosed
    where
      shown : View → Option (List BallotRecord × List RejectedRecord) → Option LedgerDump
      shown view = elim [ none ↦ none | some records ↦ some (dump_of d.config view records) ]

      viewed : published_view now d.ebb ≡ (d.ebb, view_of d.ebb)
      viewed = ap (λ b. (b, view_of b)) (catch_up_closed now d.ebb shut)

      disclosed : (view_of d.ebb).records ≡ some (payloads d.ebb.accepted, payloads d.ebb.rejected)
      disclosed = rw shut refl

  pub release_rows :
      (es : List (Entry Release))
      → map release_of (map (λ e. record { index = e.index; commitment = e.payload.commitment }) es)
        ≡ map (λ e. e.payload) es
  release_rows [] = refl
  release_rows (e ∷ es) = ap (◌∷◌ e.payload) (release_rows es)
