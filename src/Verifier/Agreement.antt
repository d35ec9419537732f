-- ===== src/Verifier/Agreement.antt =====
-- The verifier of tools/verify_election.py computes for itself what src/ovpoc/messages.py,
-- src/ovpoc/ledger.py and src/ovpoc/ballotbox.py compute: the same statements, hashes and ballots.
use online_voting_poc.Prelude.{
  ℕ, suc, ◌+◌, ◌≤◌, ◌≡◌, refl, ap, sym, ◌∙◌, ◌↔◌, true, Option, some, List, [], ◌∷◌, ◌++◌, map,
  length, arith, append-nil, append_assoc, All, Distinct, Distinct-new, Distinct-snoc, contains,
  add, List-eq, Bool-cases, inl, inr, length-append, eq_iff, nat_eq_iff, if◌then◌else◌, length-map,
}
use online_voting_poc.Prelude.Dict.{Dict, insert}
use online_voting_poc.Prelude.Options.{bind-elim}
use online_voting_poc.Bytes.{Bytes, Text, hex, to_bytes}
use online_voting_poc.Base64.{unb64}
use online_voting_poc.Json.{canonical_bytes}
use online_voting_poc.Crypto.{Crypto, PublicKey}
use online_voting_poc.Messages.{
  Wire, fields_of, digest, Ballot, BallotRecord, BallotRecord-wire, to_dict, ballot_payload,
}
use online_voting_poc.Ledger.{compute_entry_hash}
use online_voting_poc.Ledger.Chain.{chain_from, hash_from}
use online_voting_poc.Ledger.Tamper.{serialised}
use online_voting_poc.BallotBox.State.{head_payload}
use online_voting_poc.BallotBox.Count.{latest_from}
use online_voting_poc.BallotBox.Published.{commitments}
use online_voting_poc.Vro.State.{Release, Release-wire, release_head_payload, release_count_payload}
use online_voting_poc.Dumps.{Row, ReleaseRow}
use online_voting_poc.Verifier.{
  final_from, entry_hash, distinct_records, vote_payload, signatures, walk, rebuild, head_statement,
  release_head_statement, count_statement,
}

abbrev pub records_of : {P : Type 0} → List (Row P) → List P
records_of = map (λ e. e.recorded)

abbrev pub published_of : {P : Type 0} → List (Row P) → List (ℕ × Text)
published_of = map (λ e. (e.index, e.commitment))

abbrev pub release_of : ReleaseRow → Release
release_of e = record { commitment = e.commitment }

pub final_from-latest_from :
    (d : Dict Text BallotRecord) (rows : List (Row BallotRecord))
    → final_from d rows ≡ latest_from d (records_of rows)
unfolding final_from latest_from
final_from-latest_from d [] = refl
final_from-latest_from d (e ∷ es) =
    final_from-latest_from (insert e.recorded.adhoc_public_key e.recorded d) es

-- Adding to a set what is new to it, one after the other.
abbrev add_all : List Bytes → List Bytes → List Bytes
add_all seen [] = seen
add_all seen (x ∷ xs) = add_all (add x seen) xs

length-add : (x : Bytes) (seen : List Bytes) → length (add x seen) ≤ suc (length seen)
length-add x seen = ground (arith, length-append seen (x ∷ []))

length-add_all : (seen xs : List Bytes) → length (add_all seen xs) ≤ length seen + length xs
length-add_all seen [] = omega arith
length-add_all seen (x ∷ xs) = omega (arith, length-add_all (add x seen) xs, length-add x seen)

add_all-Distinct :
    (seen xs : List Bytes)
    → Distinct seen
    → length (add_all seen xs) ≡ length seen + length xs
    → Distinct (seen ++ xs)
add_all-Distinct seen [] d h = rw (append-nil seen) d
add_all-Distinct seen (x ∷ xs) d h = elim (Bool-cases (contains x seen)) [
  | inl old ↦
      let e : add x seen ≡ seen = rw old in
      absurd (omega (arith, h, ap length (ap (λ s. add_all s xs) e), length-add_all seen xs))
  | inr new ↦
      let e : add x seen ≡ seen ++ x ∷ [] = rw new in
      let more : length (add_all (seen ++ x ∷ []) xs) ≡ length (seen ++ x ∷ []) + length xs =
        omega (arith, h, ap length (ap (λ s. add_all s xs) e), length-append seen (x ∷ [])) in
      rw (sym (append_assoc seen (x ∷ []) xs))
        (add_all-Distinct (seen ++ x ∷ []) xs (Distinct-snoc x seen d new) more)
]

Distinct-add_all : (seen xs : List Bytes) → Distinct (seen ++ xs) → add_all seen xs ≡ seen ++ xs
Distinct-add_all seen [] d = sym (append-nil seen)
Distinct-add_all seen (x ∷ xs) d =
    let e : add x seen ≡ seen ++ x ∷ [] = rw (Distinct-new seen x xs d) in
    ap (λ s. add_all s xs) e
    ∙ Distinct-add_all (seen ++ x ∷ []) xs (rw (append_assoc seen (x ∷ []) xs) d)
    ∙ append_assoc seen (x ∷ []) xs

-- The set of the records is as large as their sequence exactly if they are distinct.
Distinct-count : (xs : List Bytes) → (length (add_all [] xs) ≡ length xs) ↔ Distinct xs
Distinct-count xs =
    (λ h. add_all-Distinct [] xs tt (omega (arith, h)), λ d. ap length (Distinct-add_all [] xs d))

module _ ⦃crypto : Crypto⦄ where
  pub entry_hash-compute_entry_hash :
      {P : Type 0} ⦃w : Wire P⦄ (i : ℕ) (p : P) (prev : Bytes)
      → entry_hash i (fields_of p) prev ≡ compute_entry_hash i p prev
  unfolding entry_hash compute_entry_hash
  entry_hash-compute_entry_hash i p prev =
      ap (λ s. crypto.sha256 (to_bytes 8 i ++ (prev ++ s)))
        (append-nil (canonical_bytes (fields_of p)))

  pub vote_payload-ballot_payload :
      (ballot : Ballot) → vote_payload (to_dict ballot) ≡ ballot_payload ballot
  unfolding vote_payload ballot_payload to_dict canonical_bytes
  vote_payload-ballot_payload ballot = ap crypto.sha256 (append-nil _)

  pub head_statement-head_payload :
      (election : Text) (h : Bytes) → head_statement election h ≡ head_payload election "accepted" h
  unfolding head_statement head_payload canonical_bytes digest
  head_statement-head_payload election h = ap crypto.sha256 (append-nil _)

  pub release_head_statement-release_head_payload :
      (election : Text) (h : Bytes)
      → release_head_statement election h ≡ release_head_payload election h
  unfolding release_head_statement release_head_payload canonical_bytes digest
  release_head_statement-release_head_payload election h = ap crypto.sha256 (append-nil _)

  pub count_statement-release_count_payload :
      (election : Text) (n : ℕ) → count_statement election n ≡ release_count_payload election n
  unfolding count_statement release_count_payload canonical_bytes digest
  count_statement-release_count_payload election n = ap crypto.sha256 (append-nil _)

  pub rebuild-hash_from :
      (i : ℕ) (h : Bytes) (rows : List ReleaseRow)
      → rebuild i h rows ≡ hash_from i h (map release_of rows)
  unfolding rebuild hash_from
  rebuild-hash_from i h [] = refl
  rebuild-hash_from i h (e ∷ es) =
      ap (λ x. rebuild (suc i) x es) (entry_hash-compute_entry_hash i (release_of e) h)
      ∙ rebuild-hash_from (suc i) (compute_entry_hash i (release_of e) h) es

  -- The registry is intact exactly if the rows are those of the chain of their records, and then
  -- its head is the chain's.
  pub walk-chain_from :
      (i : ℕ) (h : Bytes) (rows : List (Row BallotRecord))
      → (((walk i h rows).1 ≡ true)
          ↔ (published_of rows ≡ commitments (chain_from i h (records_of rows))))
        × ((walk i h rows).1 ≡ true → (walk i h rows).0 ≡ hash_from i h (records_of rows))
  unfolding walk hash_from chain_from
  walk-chain_from i h [] = ((λ _. refl, λ _. refl), λ _. refl)
  walk-chain_from i h (e ∷ es) =
      let p = e.recorded in
      let rest = walk-chain_from (suc i) (compute_entry_hash i p h) es in
      rw (entry_hash-compute_entry_hash i p h) (
        ground
          (arith, rest, eq_iff (hex (compute_entry_hash i p h)) e.commitment, nat_eq_iff e.index i))

  -- A record whose token and vote verify as the verifier checks them.
  abbrev pub Audited : PublicKey → BallotRecord → Type 0
  Audited key p =
      (adhoc : Bytes) × (token : Bytes) × (vote_signature : Bytes) × (unb64 p.adhoc_public_key
        ≡ some adhoc)
      × (unb64 p.token ≡ some token)
      × (unb64 p.vote_signature ≡ some vote_signature)
      × (crypto.pss_verify key adhoc token ≡ true)
      × (crypto.ed_verify adhoc vote_signature (vote_payload p) ≡ true)

  pub Audited-signatures :
      (key : PublicKey) (rows : List (Row BallotRecord))
      → All (Audited key) (records_of rows)
      → signatures key rows ≡ some (length rows, length rows)
  unfolding signatures
  Audited-signatures key [] _ = refl
  Audited-signatures key (e ∷ es) ((a, t, s, ea, et, es', token, vote), rest) =
      rw (ea, et, es', Audited-signatures key es rest, token, vote)

  -- What the counts of the verifier say of each record.
  pub signatures-cases :
      (key : PublicKey) (rows : List (Row BallotRecord)) (t v : ℕ)
      → signatures key rows ≡ some (t, v)
      → (t ≤ length rows)
        × (v ≤ length rows)
        × (t ≡ length rows → v ≡ length rows → All (Audited key) (records_of rows))
  unfolding signatures
  signatures-cases key [] t v h = ground arith
  signatures-cases key (e ∷ es) t v h =
      bind-elim (unb64 e.recorded.adhoc_public_key) h (λ adhoc ea ha.
        bind-elim (unb64 e.recorded.token) ha (λ token et ht.
          bind-elim (unb64 e.recorded.vote_signature) ht (λ sig es' hs.
            bind-elim (signatures key es) hs (λ n en hn.
              split adhoc token sig n.0 n.1 ea et es' hn (signatures-cases key es n.0 n.1 en)))))
    where
      split :
          (adhoc token sig : Bytes) (t' v' : ℕ)
          → unb64 e.recorded.adhoc_public_key ≡ some adhoc
          → unb64 e.recorded.token ≡ some token
          → unb64 e.recorded.vote_signature ≡ some sig
          → ◌≡◌ {A = Option (ℕ × ℕ)}
              (some (
                if crypto.pss_verify key adhoc token then suc t' else t',
                if crypto.ed_verify adhoc sig (vote_payload e.recorded) then suc v' else v',
              ))
              (some (t, v))
          → (t' ≤ length es)
            × (v' ≤ length es)
            × (t' ≡ length es → v' ≡ length es → All (Audited key) (records_of es))
          → (t ≤ suc (length es))
            × (v ≤ suc (length es))
            × (t ≡ suc (length es)
                → v ≡ suc (length es)
                → Audited key e.recorded × All (Audited key) (records_of es))
      split adhoc token sig t' v' ea et es' hn (lt, lv, all) = ground arith

  distinct_records-add_all :
      (seen : List Bytes) (rows : List (Row BallotRecord))
      → distinct_records seen rows ≡ add_all seen (map serialised (records_of rows))
  unfolding distinct_records serialised
  distinct_records-add_all seen [] = refl
  distinct_records-add_all seen (e ∷ es) =
      distinct_records-add_all (add (canonical_bytes (fields_of e.recorded)) seen) es

  pub distinct_records-Distinct :
      (rows : List (Row BallotRecord))
      → (length (distinct_records [] rows) ≡ length rows)
        ↔ Distinct (map serialised (records_of rows))
  distinct_records-Distinct rows =
      let xs = map serialised (records_of rows) in
      let same = ap length (distinct_records-add_all [] rows) in
      let size : length xs ≡ length rows =
        length-map serialised (records_of rows) ∙ length-map (λ e. e.recorded) rows in
      (
        λ h. (Distinct-count xs).0 (sym same ∙ h ∙ sym size),
        λ d. same ∙ (Distinct-count xs).1 d ∙ size,
      )
