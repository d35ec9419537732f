-- ===== src/Ledger/Tamper.antt =====
-- The chain of src/ovpoc/ledger.py makes tampering evident: two logs that verify and end in one
-- head hold the same serialised records, or they exhibit a break of the hash.
use online_voting_poc.Prelude.{
  ℕ, ◌+◌, ◌^◌, ◌<◌, ◌≡◌, ◌≢◌, refl, ap, ◌∙◌, sym, true, List, [], ◌∷◌, ◌++◌, length, ◌⊎◌, inl, inr,
  arith, map, append-nil, length-map, eq_iff, eq_refl, contains, ◌||◌, List-eq, ◌==◌, Bool-cases,
}
use online_voting_poc.Bytes.{Bytes, to_bytes}
use online_voting_poc.Bytes.BigEndian.{length-to_bytes, from_bytes-to_bytes}
use online_voting_poc.Bytes.{from_bytes}
use online_voting_poc.Json.{canonical_bytes}
use online_voting_poc.Crypto.{Crypto}
use online_voting_poc.Messages.{Wire, fields_of}
use online_voting_poc.Ledger.{
  Ledger, genesis, head, size, payloads, compute_entry_hash, verify_chain,
}
use online_voting_poc.Ledger.Chain.{hash_from, head-chain, verify_chain-eq-chain}

-- Among the byte strings of two lists: one of each, different, with one hash; or one whose hash is
-- the thirty-two zero bytes.
pub data Broken ⦃crypto : Crypto⦄ (xs ys : List Bytes) : Type 0 where
  collision :
      (x y : Bytes)
      → contains x xs ≡ true
      → contains y ys ≡ true
      → x ≢ y
      → crypto.sha256 x ≡ crypto.sha256 y
      → Broken xs ys
  zero_preimage :
      (x : Bytes)
      → (contains x xs || contains x ys) ≡ true
      → crypto.sha256 x ≡ genesis
      → Broken xs ys

Broken-wider :
    ⦃crypto : Crypto⦄ (a b : Bytes) (xs ys : List Bytes) → Broken xs ys → Broken (a ∷ xs) (b ∷ ys)
Broken-wider a b xs ys (collision x y hx hy d e) = collision x y (ground arith) (ground arith) d e
Broken-wider a b xs ys (zero_preimage x h e) = zero_preimage x (ground arith) e

prefix-eq :
    (xs ys us vs : Bytes) → length xs ≡ length ys → xs ++ us ≡ ys ++ vs → (xs ≡ ys) × (us ≡ vs)
prefix-eq [] [] us vs h e = (refl, e)
prefix-eq [] (y ∷ ys) us vs h e = absurd (omega arith)
prefix-eq (x ∷ xs) [] us vs h e = absurd (omega arith)
prefix-eq (x ∷ xs) (y ∷ ys) us vs h e =
    let (t, r) = prefix-eq xs ys us vs (omega arith) (cc) in (ground arith, r)

to_bytes_injective : (k m n : ℕ) → m < 256 ^ k → n < 256 ^ k → to_bytes k m ≡ to_bytes k n → m ≡ n
to_bytes_injective k m n hm hn e =
    sym (from_bytes-to_bytes k m hm) ∙ ap from_bytes e ∙ from_bytes-to_bytes k n hn

reverse_onto {ℓ} : {A : Type ℓ} → List A → List A → List A
reverse_onto [] acc = acc
reverse_onto (x ∷ xs) acc = reverse_onto xs (x ∷ acc)

reverse_onto-reverse_onto {ℓ} :
    {A : Type ℓ} (xs ys zs : List A)
    → reverse_onto (reverse_onto xs ys) zs ≡ reverse_onto ys (xs ++ zs)
unfolding reverse_onto
reverse_onto-reverse_onto [] ys zs = refl
reverse_onto-reverse_onto (x ∷ xs) ys zs = reverse_onto-reverse_onto xs (x ∷ ys) zs

reverse_onto_twice {ℓ} : {A : Type ℓ} (xs : List A) → reverse_onto (reverse_onto xs []) [] ≡ xs
unfolding reverse_onto
reverse_onto_twice xs = reverse_onto-reverse_onto xs [] [] ∙ append-nil xs

reverse_onto-map {ℓ κ} :
    {A : Type ℓ} {B : Type κ} (f : A → B) (xs ys : List A)
    → map f (reverse_onto xs ys) ≡ reverse_onto (map f xs) (map f ys)
unfolding reverse_onto
reverse_onto-map f [] ys = refl
reverse_onto-map f (x ∷ xs) ys = reverse_onto-map f xs (x ∷ ys)

length-reverse_onto {ℓ} :
    {A : Type ℓ} (xs ys : List A) → length (reverse_onto xs ys) ≡ length xs + length ys
unfolding reverse_onto
length-reverse_onto [] ys = omega arith
length-reverse_onto (x ∷ xs) ys = omega (arith, length-reverse_onto xs (x ∷ ys))

module _ ⦃crypto : Crypto⦄ {P : Type 0} ⦃w : Wire P⦄ where
  unfoldable pub serialised : P → Bytes
  serialised p = canonical_bytes (fields_of p)

  -- The head after a sequence of payloads, the latest first.
  head_of : List P → Bytes
  head_of [] = genesis
  head_of (p ∷ ps) = compute_entry_hash (length ps) p (head_of ps)

  hash_from-head_of :
      (ps rs : List P) → hash_from (length rs) (head_of rs) ps ≡ head_of (reverse_onto ps rs)
  unfolding hash_from reverse_onto head_of
  hash_from-head_of [] rs = refl
  hash_from-head_of (p ∷ ps) rs = hash_from-head_of ps (p ∷ rs)

  length-head_of : (rs : List P) → length (head_of rs) ≡ 32
  unfolding head_of compute_entry_hash
  length-head_of [] = refl
  length-head_of (p ∷ rs) = crypto.length-sha256 _

  entry_input : ℕ → P → Bytes → Bytes
  entry_input i p prev = to_bytes 8 i ++ (prev ++ serialised p)

  -- What the entries' hashes are of, the latest first.
  inputs : List P → List Bytes
  inputs [] = []
  inputs (p ∷ ps) = entry_input (length ps) p (head_of ps) ∷ inputs ps

  pub hashed : Ledger P → List Bytes
  unfolding inputs
  hashed l = inputs (reverse_onto (payloads l) [])

  entry_input_injective :
      (i j : ℕ) (p q : P) (u v : Bytes)
      → i < 256 ^ 8
      → j < 256 ^ 8
      → length u ≡ 32
      → length v ≡ 32
      → entry_input i p u ≡ entry_input j q v
      → (i ≡ j) × (u ≡ v) × (serialised p ≡ serialised q)
  unfolding entry_input
  entry_input_injective i j p q u v hi hj hu hv e =
      let (ei, er) =
        prefix-eq (to_bytes 8 i) (to_bytes 8 j) (u ++ serialised p) (v ++ serialised q)
          (length-to_bytes 8 i ∙ sym (length-to_bytes 8 j)) e in
      let (eu, es) = prefix-eq u v (serialised p) (serialised q) (hu ∙ sym hv) er in
      (to_bytes_injective 8 i j hi hj ei, eu, es)

  head_of_step :
      (p : P) (ps : List P)
      → head_of (p ∷ ps) ≡ crypto.sha256 (entry_input (length ps) p (head_of ps))
  unfolding head_of compute_entry_hash entry_input serialised
  head_of_step p ps = refl

  same_head :
      (rs ss : List P)
      → length rs < 256 ^ 8
      → length ss < 256 ^ 8
      → head_of rs ≡ head_of ss
      → (map serialised rs ≡ map serialised ss) ⊎ Broken (inputs rs) (inputs ss)
  unfolding inputs
  same_head [] [] hr hs e = inl refl
  same_head [] (q ∷ ss) hr hs e = inr (
      zero_preimage (entry_input (length ss) q (head_of ss))
        (rw (eq_refl (entry_input (length ss) q (head_of ss))) refl)
        (unfold head_of in sym (head_of_step q ss) ∙ sym e))
  same_head (p ∷ rs) [] hr hs e = inr (
      zero_preimage (entry_input (length rs) p (head_of rs))
        (rw (eq_refl (entry_input (length rs) p (head_of rs))) refl)
        (unfold head_of in sym (head_of_step p rs) ∙ e))
  same_head (p ∷ rs) (q ∷ ss) hr hs e = elim (Bool-cases (x == y)) [
    | inl same ↦
        let (_, heads, last) =
          entry_input_injective (length rs) (length ss) p q _ _ (omega arith) (omega arith)
            (length-head_of rs) (length-head_of ss) ((eq_iff x y).0 same) in
        elim (same_head rs ss (omega arith) (omega arith) heads) [
          | inl rest ↦ inl (cc)
          | inr broken ↦ inr (Broken-wider x y (inputs rs) (inputs ss) broken)
        ]
    | inr differ ↦ inr (
        collision x y (rw (eq_refl x) refl) (rw (eq_refl y) refl) (λ h. ground (arith, eq_iff x y))
          (sym (head_of_step p rs) ∙ e ∙ head_of_step q ss))
  ]
    where
      x : Bytes
      x = entry_input (length rs) p (head_of rs)

      y : Bytes
      y = entry_input (length ss) q (head_of ss)

  verified-head_of :
      (l : Ledger P) → verify_chain l ≡ true → head l ≡ head_of (reverse_onto (payloads l) [])
  unfolding head_of
  verified-head_of l v =
      ap head ((verify_chain-eq-chain l).0 v)
      ∙ head-chain (payloads l)
      ∙ hash_from-head_of (payloads l) []

  same_reversed :
      (ps qs : List P)
      → map serialised (reverse_onto ps []) ≡ map serialised (reverse_onto qs [])
      → map serialised ps ≡ map serialised qs
  same_reversed ps qs e =
      sym (reverse_onto_twice (map serialised ps))
      ∙ ap (λ l. reverse_onto l [])
          (sym (reverse_onto-map serialised ps []) ∙ e ∙ reverse_onto-map serialised qs [])
      ∙ reverse_onto_twice (map serialised qs)

  -- Two logs of fewer than 2 ^ 64 entries that verify and have one head hold the same records as they are serialised, in the
  -- same order, or the hash is broken at bytes that were hashed for them: an entry of each collide,
  -- or the hash of one is the genesis value.
  pub same_head-same_records :
      (l m : Ledger P)
      → size l < 2 ^ 64
      → size m < 2 ^ 64
      → verify_chain l ≡ true
      → verify_chain m ≡ true
      → head l ≡ head m
      → (map serialised (payloads l) ≡ map serialised (payloads m)) ⊎ Broken (hashed l) (hashed m)
  unfolding hashed
  same_head-same_records l m hl hm vl vm e =
      let ps = payloads l in
      let qs = payloads m in
      let lp : length ps ≡ size l = length-map (λ e. e.payload) l.entries in
      let lq : length qs ≡ size m = length-map (λ e. e.payload) m.entries in
      elim (same_head (reverse_onto ps []) (reverse_onto qs [])
        (omega (arith, length-reverse_onto ps [], lp))
        (omega (arith, length-reverse_onto qs [], lq))
        (sym (verified-head_of l vl) ∙ e ∙ verified-head_of m vm)) [
          | inl same ↦ inl (same_reversed ps qs same)
          | inr broken ↦ inr broken
        ]
