-- ===== src/BallotBox/Count.antt =====
-- Counting in src/ovpoc/ballotbox.py: `effective_ballots`, `_count` and `find_ballot`.
use online_voting_poc.Prelude.{
  ℕ, zero, suc, ◌+◌, Option, none, some, List, [], ◌∷◌, map, length, List-eq, if◌then◌else◌,
}
use online_voting_poc.Prelude.Int.{ℤ, pos, ℤ-eq, in_range}
use online_voting_poc.Prelude.Dict.{Dict, lookup, insert, values}
use online_voting_poc.Bytes.{Bytes, Text, hex}
use online_voting_poc.Base64.{b64}
use online_voting_poc.Messages.{BallotRecord}
use online_voting_poc.Ledger.{head, size, payloads}
use online_voting_poc.BallotBox.State.{BallotBox, Figures}

unfoldable pub latest_from : Dict Text BallotRecord → List BallotRecord → Dict Text BallotRecord
latest_from latest [] = latest
latest_from latest (p ∷ ps) = latest_from (insert p.adhoc_public_key p latest) ps

-- The last accepted ballot of each ad-hoc key.
unfoldable pub effective_ballots : BallotBox → Dict Text BallotRecord
effective_ballots b = latest_from [] (payloads b.accepted)

-- `counter.get(k, 0)`.
abbrev pub get_count : ℤ → Dict ℤ ℕ → ℕ
get_count k d = elim (lookup k d) [ none ↦ 0 | some n ↦ n ]

-- `counter[k] += 1`.
abbrev pub bump : ℤ → Dict ℤ ℕ → Dict ℤ ℕ
bump k d = insert k (get_count k d + 1) d

abbrev pub sum : List ℕ → ℕ
sum [] = 0
sum (n ∷ ns) = n + sum ns

-- The loop of `_count`: the valid selections and the protest codes, each with its number.
unfoldable pub count_from : ℕ → Dict ℤ ℕ × Dict ℤ ℕ → List BallotRecord → Dict ℤ ℕ × Dict ℤ ℕ
count_from n acc [] = acc
count_from n (counts, codes) (p ∷ ps) =
    count_from n
      (if in_range n p.selection
        then (bump p.selection counts, codes)
        else (counts, bump p.selection codes))
      ps

-- `range(i, i + n)`.
abbrev pub range_from : ℕ → ℕ → List ℕ
range_from i zero = []
range_from i (suc n) = i ∷ range_from (suc i) n

unfoldable pub figures_of : BallotBox → Dict ℤ ℕ × Dict ℤ ℕ → Figures
figures_of b (counts, codes) = record {
  counts = map (λ i. (i, get_count (pos i) counts)) (range_from 1 b.num_choices);
  valid = sum (values counts);
  invalid = sum (values codes);
  protest_codes = codes;
  voters = length (effective_ballots b);
  rejected = size b.rejected;
  ledger_head = hex (head b.accepted);
}

-- `_count`.
unfoldable pub count : BallotBox → Figures
unfolding figures_of count_from
count b = figures_of b (count_from b.num_choices ([], []) (values (effective_ballots b)))

unfoldable pub find_ballot : BallotBox → Bytes → Option BallotRecord
find_ballot b key = lookup (b64 key) (effective_ballots b)
