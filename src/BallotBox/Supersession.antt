-- ===== src/BallotBox/Supersession.antt =====
-- `effective_ballots` and `find_ballot` of src/ovpoc/ballotbox.py: the last accepted ballot of each
-- ad-hoc key.
use online_voting_poc.Prelude.{
  ◌+◌, ◌≤◌, ◌≡◌, refl, ◌∙◌, Bool, true, false, Option, some, none, List, [], ◌∷◌, ◌++◌, length,
  List-eq, arith, ◌==◌, if◌then◌else◌, Distinct, Distinct-snoc, contains, length-map, ◌⊎◌, inl, inr,
}
use online_voting_poc.Prelude.Dict.{Dict, lookup, insert, keys, lookup-insert}
use online_voting_poc.Bytes.{Bytes, Text}
use online_voting_poc.Base64.{b64}
use online_voting_poc.Messages.{BallotRecord}
use online_voting_poc.Ledger.{size, payloads}
use online_voting_poc.BallotBox.State.{BallotBox}
use online_voting_poc.BallotBox.Count.{latest_from, effective_ballots, find_ballot}

-- The last record under a key in a sequence of records.
abbrev pub last_under : Text → List BallotRecord → Option BallotRecord
last_under k [] = none
last_under k (p ∷ ps) = elim (last_under k ps) [
  | some q ↦ some q
  | none ↦ if k == p.adhoc_public_key then some p else none
]

abbrev or_else : Option BallotRecord → Option BallotRecord → Option BallotRecord
or_else (some p) o = some p
or_else none o = o

lookup-latest_from :
    (k : Text) (d : Dict Text BallotRecord) (ps : List BallotRecord)
    → lookup k (latest_from d ps) ≡ or_else (last_under k ps) (lookup k d)
unfolding latest_from
lookup-latest_from k d [] = refl
lookup-latest_from k d (p ∷ ps) = ground (
  arith,
  lookup-latest_from k (insert p.adhoc_public_key p d) ps,
  lookup-insert p.adhoc_public_key k p d,
)

-- Under each ad-hoc key the effective ballot is the last accepted one, valid or not; this is also
-- what a voter who presents the key is shown.
pub find_ballot-last_under :
    (b : BallotBox) (key : Bytes)
    → (find_ballot b key ≡ last_under (b64 key) (payloads b.accepted))
      × (lookup (b64 key) (effective_ballots b) ≡ last_under (b64 key) (payloads b.accepted))
unfolding find_ballot effective_ballots
find_ballot-last_under b key =
    let e = lookup-latest_from (b64 key) [] (payloads b.accepted) in
    let plain : (o : Option BallotRecord) → or_else o none ≡ o = elim [
      | none ↦ refl
      | some p ↦ refl
    ] in
    (e ∙ plain _, e ∙ plain _)

module _ {V : Type 0} where
  keys-insert :
      (k : Text) (v : V) (d : Dict Text V)
      → keys (insert k v d) ≡ (if contains k (keys d) then keys d else keys d ++ k ∷ [])
  keys-insert k v [] = refl
  keys-insert k v ((j, w) ∷ d) = ground (arith, keys-insert k v d)

  insert-Distinct :
      (k : Text) (v : V) (d : Dict Text V) → Distinct (keys d) → Distinct (keys (insert k v d))
  insert-Distinct k v d h = elim (cases (contains k (keys d))) [
    | inl old ↦ rw (keys-insert k v d, old) h
    | inr new ↦ rw (keys-insert k v d, new) (Distinct-snoc k (keys d) h new)
  ]
    where
      cases : (b : Bool) → (b ≡ true) ⊎ (b ≡ false)
      cases true = inl refl
      cases false = inr refl

  length-insert : (k : Text) (v : V) (d : Dict Text V) → length (insert k v d) ≤ length d + 1
  length-insert k v [] = omega arith
  length-insert k v ((j, w) ∷ d) = ground (arith, length-insert k v d)

latest_from-Distinct :
    (d : Dict Text BallotRecord) (ps : List BallotRecord)
    → Distinct (keys d)
    → Distinct (keys (latest_from d ps))
unfolding latest_from
latest_from-Distinct d [] h = h
latest_from-Distinct d (p ∷ ps) h =
    latest_from-Distinct (insert p.adhoc_public_key p d) ps
      (insert-Distinct p.adhoc_public_key p d h)

length-latest_from :
    (d : Dict Text BallotRecord) (ps : List BallotRecord)
    → length (latest_from d ps) ≤ length d + length ps
unfolding latest_from
length-latest_from d [] = omega arith
length-latest_from d (p ∷ ps) = omega (
  arith,
  length-latest_from (insert p.adhoc_public_key p d) ps,
  length-insert p.adhoc_public_key p d,
)

-- No key votes twice: the keys of the effective ballots are distinct, and there are no more of
-- them than accepted records.
pub effective_ballots-Distinct :
    (b : BallotBox)
    → Distinct (keys (effective_ballots b)) × (length (effective_ballots b) ≤ size b.accepted)
unfolding effective_ballots
effective_ballots-Distinct b = (
  latest_from-Distinct [] (payloads b.accepted) tt,
  omega (
    arith,
    length-latest_from [] (payloads b.accepted),
    length-map (λ e. e.payload) b.accepted.entries,
  ),
)
