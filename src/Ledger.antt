-- ===== src/Ledger.antt =====
-- The hash-chained log of src/ovpoc/ledger.py, over the records of one kind.
pub mod Chain
pub mod Tamper
use online_voting_poc.Prelude.{
  ℕ, suc, Bool, true, ◌&&◌, Option, none, some, List, [], ◌∷◌, ◌++◌, length, get_last?, replicate,
  ◌==◌, ℕ-eq, List-eq, map,
}
use online_voting_poc.Bytes.{Bytes, to_bytes}
use online_voting_poc.Json.{canonical_bytes}
use online_voting_poc.Crypto.{Crypto}
use online_voting_poc.Messages.{Wire, fields_of}

abbrev pub genesis : Bytes
genesis = replicate 32 0

pub record Entry (P : Type 0) : Type 0 where
  pub index : ℕ
  pub payload : P
  pub prev_hash : Bytes
  pub entry_hash : Bytes

pub record Ledger (P : Type 0) : Type 0 where
  pub entries : List (Entry P)

abbrev pub empty : {P : Type 0} → Ledger P
empty = record { entries = [] }

abbrev pub payloads : {P : Type 0} → Ledger P → List P
payloads l = map (λ e. e.payload) l.entries

-- `len(ledger)`.
abbrev pub size : {P : Type 0} → Ledger P → ℕ
size l = length l.entries

abbrev pub last_hash : {P : Type 0} → Option (Entry P) → Bytes
last_hash none = genesis
last_hash (some e) = e.entry_hash

unfoldable pub head : {P : Type 0} → Ledger P → Bytes
head l = last_hash (get_last? l.entries)

module _ ⦃crypto : Crypto⦄ {P : Type 0} ⦃w : Wire P⦄ where
  -- The eight bytes of the index hold it below 2 ^ 64.
  unfoldable pub compute_entry_hash : ℕ → P → Bytes → Bytes
  compute_entry_hash index payload prev =
      crypto.sha256 (to_bytes 8 index ++ (prev ++ canonical_bytes (fields_of payload)))

  unfoldable pub new_entry : Ledger P → P → Entry P
  unfolding head compute_entry_hash
  new_entry l payload = record {
    index = size l;
    payload = payload;
    prev_hash = head l;
    entry_hash = compute_entry_hash (size l) payload (head l);
  }

  -- The log with the entry at its end, and the entry.
  unfoldable pub append : Ledger P → P → Ledger P × Entry P
  unfolding new_entry
  append l payload =
      (record { entries = l.entries ++ new_entry l payload ∷ [] }, new_entry l payload)

  -- The loop of `verify_chain`, at position `i` after the hash `prev`.
  unfoldable pub verify_from : ℕ → Bytes → List (Entry P) → Bool
  verify_from i prev [] = true
  verify_from i prev (e ∷ es) =
      ((e.index == i) && (e.prev_hash == prev))
      && ((e.entry_hash == compute_entry_hash i e.payload prev)
          && verify_from (suc i) e.entry_hash es)

  unfoldable pub verify_chain : Ledger P → Bool
  unfolding verify_from
  verify_chain l = verify_from 0 genesis l.entries

  -- `for payload in ps: ledger.append(payload)`.
  unfoldable pub append_all : Ledger P → List P → Ledger P
  append_all l [] = l
  append_all l (p ∷ ps) = append_all (append l p).0 ps
