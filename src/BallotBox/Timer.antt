-- ===== src/BallotBox/Timer.antt =====
-- What `_catch_up` of src/ovpoc/ballotbox.py publishes, and that reading late is reading in time.
use native.Mathlib.Nat.{suc-mul, zero-mul}
use mathlib.Core.Path.{ap₂}
use online_voting_poc.Prelude.{
  ℕ, zero, suc, ◌+◌, ◌-◌, ◌*◌, ◌≤◌, ◌<◌, ◌≡◌, refl, ap, sym, ◌∙◌, ◌⊎◌, inl, inr, true, false, List,
  [], ◌∷◌, ◌++◌, append_assoc, append-nil, leb, nat_eq, leb→le, not-leb→lt, lt→not-leb, le→leb,
  Bool-cases, arith, ◌||◌,
}
use online_voting_poc.BallotBox.State.{BallotBox, Snapshot, period}
use online_voting_poc.BallotBox.Count.{count, effective_ballots}
use online_voting_poc.BallotBox.Cadence.{snapshot_at, advance, roll, catch_up}

-- What the box keeps while it catches up.
roll-frame :
    (f now : ℕ) (b : BallotBox)
    → roll f now b ≡ record b {
      snapshots = (roll f now b).snapshots;
      next_boundary = (roll f now b).next_boundary;
    }
unfolding roll advance
roll-frame zero now b = refl
roll-frame (suc f) now b = elim (Bool-cases (leb b.next_boundary now)) [
  | inl due ↦ rw (due, roll) (roll-frame f now (advance b))
  | inr done ↦ rw (done, roll)
]

-- Catching up changes the publications and the next boundary, and nothing else.
pub catch_up-frame :
    (now : ℕ) (b : BallotBox)
    → catch_up now b ≡ record b {
      snapshots = (catch_up now b).snapshots;
      next_boundary = (catch_up now b).next_boundary;
    }
unfolding catch_up
catch_up-frame now b = elim (Bool-cases (b.closed || nat_eq (period b.tally_interval_seconds) 0)) [
  | inl idle ↦ rw idle
  | inr active ↦ rw active (roll-frame (suc now - b.next_boundary) now b)
]

abbrev pub republish : BallotBox → List Snapshot → ℕ → BallotBox
republish b snapshots next = record b { snapshots = snapshots; next_boundary = next }

pub catch_up-keeps {ℓ} :
    {A : Type ℓ} (g : BallotBox → A)
    → ((b : BallotBox) (snapshots : List Snapshot) (next : ℕ)
        → g (republish b snapshots next) ≡ g b)
    → (now : ℕ) (b : BallotBox) → g (catch_up now b) ≡ g b
catch_up-keeps g h now b = ap g (catch_up-frame now b) ∙ h b _ _

-- The publications at `n` boundaries from `at` on, all with the figures of `b`.
unfoldable pub publications : ℕ → ℕ → BallotBox → List Snapshot
publications zero at b = []
publications (suc n) at b =
    snapshot_at at b ∷ publications n (at + period b.tally_interval_seconds) b

-- The box after `n` rounds.
unfoldable pub after_rounds : ℕ → BallotBox → BallotBox
unfolding publications
after_rounds n b = record b {
  snapshots = b.snapshots ++ publications n b.next_boundary b;
  next_boundary = b.next_boundary + n * period b.tally_interval_seconds;
}

publications-advance :
    (n at : ℕ) (b : BallotBox) → publications n at (advance b) ≡ publications n at b
unfolding publications advance snapshot_at count effective_ballots
publications-advance zero at b = refl
publications-advance (suc n) at b =
    ap (◌∷◌ (snapshot_at at b)) (publications-advance n (at + period b.tally_interval_seconds) b)

after_rounds-advance : (n : ℕ) (b : BallotBox) → after_rounds n (advance b) ≡ after_rounds (suc n) b
unfolding after_rounds advance publications
after_rounds-advance n b =
    let s = snapshot_at b.next_boundary b in
    let p = period b.tally_interval_seconds in
    ap₂ (republish b)
      (ap (◌++◌ (b.snapshots ++ s ∷ [])) (publications-advance n (b.next_boundary + p) b)
        ∙ append_assoc b.snapshots (s ∷ []) (publications n (b.next_boundary + p) b))
      (omega (arith, suc-mul n p))

after_rounds-zero : (b : BallotBox) → after_rounds 0 b ≡ b
unfolding after_rounds publications
after_rounds-zero b =
    ap₂ (republish b) (append-nil b.snapshots)
      (omega (arith, zero-mul (period b.tally_interval_seconds)))

-- The loop stops by its test, given a round for each second, after the least number of rounds.
roll-after_rounds :
    (f now : ℕ) (b : BallotBox)
    → 0 < period b.tally_interval_seconds
    → suc now - b.next_boundary ≤ f
    → (n : ℕ) × (roll f now b ≡ after_rounds n b)
      × (now < b.next_boundary + n * period b.tally_interval_seconds)
      × ((k : ℕ) → k < n → b.next_boundary + k * period b.tally_interval_seconds ≤ now)
unfolding roll advance
roll-after_rounds zero now b h enough =
    (0, sym (after_rounds-zero b), omega arith, λ k lt. absurd (omega arith))
roll-after_rounds (suc f) now b h enough = elim (Bool-cases (leb b.next_boundary now)) [
  | inl due ↦
      let p = period b.tally_interval_seconds in
      let le : b.next_boundary ≤ now = leb→le _ _ due in
      let (n, same, past, before) = roll-after_rounds f now (advance b) h (omega arith) in
      (
        suc n,
        rw (due, roll) (same ∙ after_rounds-advance n b),
        omega (arith, suc-mul n p),
        elim [
          | zero ↦ λ lt. omega (arith, zero-mul p)
          | suc k ↦ λ lt. omega (arith, before k (omega arith), suc-mul k p)
        ],
      )
  | inr done ↦
      let lt : now < b.next_boundary = not-leb→lt _ _ done in
      (0, rw (done, roll) (sym (after_rounds-zero b)), omega arith, λ k lt'. absurd (omega arith))
]

catch_up-active :
    (now : ℕ) (b : BallotBox)
    → b.closed ≡ false
    → 0 < period b.tally_interval_seconds
    → catch_up now b ≡ roll (suc now - b.next_boundary) now b
unfolding catch_up
catch_up-active now b is_open h =
    let test : (b.closed || nat_eq (period b.tally_interval_seconds) 0) ≡ false = ground arith in
    rw test

pub zero-or-pos : (n : ℕ) → (n ≡ 0) ⊎ (0 < n)
zero-or-pos zero = inl refl
zero-or-pos (suc n) = inr (omega arith)

pub catch_up_closed : (now : ℕ) (b : BallotBox) → b.closed ≡ true → catch_up now b ≡ b
unfolding catch_up
catch_up_closed now b e =
    let test : (b.closed || nat_eq (period b.tally_interval_seconds) 0) ≡ true = ground arith in
    rw test

pub catch_up_no_interval :
    (now : ℕ) (b : BallotBox) → period b.tally_interval_seconds ≡ 0 → catch_up now b ≡ b
unfolding catch_up
catch_up_no_interval now b e =
    let test : (b.closed || nat_eq (period b.tally_interval_seconds) 0) ≡ true = ground arith in
    rw test

-- While the poll runs at an interval, catching up publishes the figures of the moment once at each
-- boundary that the clock has reached, the first boundary and the interval deciding which, and stops
-- at the first boundary that lies ahead.
pub catch_up-after_rounds :
    (now : ℕ) (b : BallotBox)
    → b.closed ≡ false
    → 0 < period b.tally_interval_seconds
    → (n : ℕ) × (catch_up now b ≡ after_rounds n b)
      × (now < b.next_boundary + n * period b.tally_interval_seconds)
      × ((k : ℕ) → k < n → b.next_boundary + k * period b.tally_interval_seconds ≤ now)
catch_up-after_rounds now b is_open h =
    rw (catch_up-active now b is_open h)
      (roll-after_rounds (suc now - b.next_boundary) now b h (omega arith))

-- Given a round for each second the fuel does not matter.
roll-fuel :
    (f g now : ℕ) (b : BallotBox)
    → 0 < period b.tally_interval_seconds
    → suc now - b.next_boundary ≤ f
    → suc now - b.next_boundary ≤ g
    → roll f now b ≡ roll g now b
unfolding roll advance
roll-fuel zero zero now b h hf hg = refl
roll-fuel zero (suc g) now b h hf hg = rw (lt→not-leb b.next_boundary now (omega arith), roll)
roll-fuel (suc f) zero now b h hf hg = rw (lt→not-leb b.next_boundary now (omega arith), roll)
roll-fuel (suc f) (suc g) now b h hf hg = elim (Bool-cases (leb b.next_boundary now)) [
  | inl due ↦
      let le : b.next_boundary ≤ now = leb→le _ _ due in
      rw (due, roll) (roll-fuel f g now (advance b) h (omega arith) (omega arith))
  | inr done ↦ rw (done, roll)
]

roll-roll :
    (f g now later : ℕ) (b : BallotBox)
    → now ≤ later
    → 0 < period b.tally_interval_seconds
    → suc later - b.next_boundary ≤ g
    → roll (suc later - (roll f now b).next_boundary) later (roll f now b) ≡ roll g later b
unfolding roll advance
roll-roll zero g now later b le h hg = roll-fuel _ g later b h (omega arith) hg
roll-roll (suc f) g now later b le h hg = elim (Bool-cases (leb b.next_boundary now)) [
  | inl due ↦
      let past : b.next_boundary ≤ now = leb→le _ _ due in
      rw (due, roll) (roll-roll f (g - 1) now later (advance b) le h (omega arith) ∙ step past)
  | inr done ↦ rw (done, roll) (roll-fuel _ g later b h (omega arith) hg)
]
  where
    step : b.next_boundary ≤ now → roll (g - 1) later (advance b) ≡ roll g later b
    step past =
        let e : g ≡ suc (g - 1) = omega arith in
        sym (ap (λ n. roll n later b) e ∙ rw (le→leb b.next_boundary later (omega arith), roll))

-- Reading the box at one time and again later leaves it as reading it only later does: publishing
-- when somebody looks cannot be told from publishing on time.
pub catch_up-catch_up :
    (now later : ℕ) (b : BallotBox)
    → now ≤ later
    → catch_up later (catch_up now b) ≡ catch_up later b
catch_up-catch_up now later b le = elim (Bool-cases b.closed) [
  | inl shut ↦ rw (catch_up_closed now b shut)
  | inr is_open ↦ elim (zero-or-pos (period b.tally_interval_seconds)) [
    | inl none ↦ rw (catch_up_no_interval now b none)
    | inr some ↦
        let t = roll (suc now - b.next_boundary) now b in
        let same = roll-frame (suc now - b.next_boundary) now b in
        rw (catch_up-active now b is_open some, catch_up-active later b is_open some)
          (catch_up-active later t (ap (λ x. x.closed) same ∙ is_open)
              (rw (ap (λ x. x.tally_interval_seconds) same) some)
            ∙ roll-roll (suc now - b.next_boundary) (suc later - b.next_boundary) now later b le
                some (omega arith))
  ]
]
