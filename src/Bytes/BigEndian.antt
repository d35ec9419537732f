-- ===== src/Bytes/BigEndian.antt =====
-- `to_bytes` and `from_bytes` undo one another, and how long and how large their results are.
use native.Mathlib.Nat.{pow-suc, mul-le-mul_right, pow-le-pow_right, le_trans}
use native.Mathlib.Numerals.{towards_suc}
use mathlib.Core.Path.{subst}
use online_voting_poc.Prelude.{
  sym, ℕ, zero, suc, ◌+◌, ◌*◌, ◌/◌, ◌%◌, ◌^◌, ◌<◌, ◌≤◌, ◌≡◌, refl, [], ◌∷◌, ◌++◌, arith, length,
  length-append, All, All-append, nat_eq, Bool-cases, inl, inr, nat_eq_iff,
}
use online_voting_poc.Bytes.{
  Bytes, IsByte, to_bytes, from_bytes, from_bytes_acc, bit_length, bit_length_fuel,
}

pub length-to_bytes : (k n : ℕ) → length (to_bytes k n) ≡ k
unfolding to_bytes
length-to_bytes zero n = refl
length-to_bytes (suc k) n =
    omega (arith, length-append (to_bytes k (n / 256)) (n % 256 ∷ []), length-to_bytes k (n / 256))

pub to_bytes-IsByte : (k n : ℕ) → All IsByte (to_bytes k n)
unfolding to_bytes
to_bytes-IsByte zero n = tt
to_bytes-IsByte (suc k) n =
    All-append IsByte (to_bytes k (n / 256)) (n % 256 ∷ []) (to_bytes-IsByte k (n / 256))
      (omega arith, tt)

from_bytes_acc-append :
    (acc : ℕ) (xs ys : Bytes)
    → from_bytes_acc acc (xs ++ ys) ≡ from_bytes_acc (from_bytes_acc acc xs) ys
unfolding from_bytes_acc
from_bytes_acc-append acc [] ys = refl
from_bytes_acc-append acc (x ∷ xs) ys = from_bytes_acc-append (acc * 256 + x) xs ys

pub from_bytes-snoc : (xs : Bytes) (b : ℕ) → from_bytes (xs ++ b ∷ []) ≡ from_bytes xs * 256 + b
unfolding from_bytes
from_bytes-snoc xs b = from_bytes_acc-append 0 xs (b ∷ [])

pub pow256 : (k : ℕ) → 256 ^ suc k ≡ 256 * 256 ^ k
pow256 k = rw pow-suc (omega arith)

-- A number below 256 ^ k survives the way to k bytes and back.
pub from_bytes-to_bytes : (k n : ℕ) → n < 256 ^ k → from_bytes (to_bytes k n) ≡ n
unfolding to_bytes from_bytes from_bytes_acc
from_bytes-to_bytes zero n h = omega arith
from_bytes-to_bytes (suc k) n h = omega (
  arith,
  from_bytes-snoc (to_bytes k (n / 256)) (n % 256),
  from_bytes-to_bytes k (n / 256) (omega (arith, pow256 k)),
)

from_bytes_acc-lt :
    (acc : ℕ) (xs : Bytes) → All IsByte xs → from_bytes_acc acc xs < (acc + 1) * 256 ^ length xs
unfolding from_bytes_acc
from_bytes_acc-lt acc [] h = omega arith
from_bytes_acc-lt acc (x ∷ xs) (hx, hxs) =
    let step : acc * 256 + x + 1 ≤ (acc + 1) * 256 = omega arith in
    let scaled : (acc * 256 + x + 1) * 256 ^ length xs ≤ (acc + 1) * 256 * 256 ^ length xs =
      mul-le-mul_right (256 ^ length xs) step in
    rw (pow256 (length xs)) (omega (arith, from_bytes_acc-lt (acc * 256 + x) xs hxs, scaled))

-- A byte string stands for a number below 256 to its length.
pub from_bytes-lt : (xs : Bytes) → All IsByte xs → from_bytes xs < 256 ^ length xs
unfolding from_bytes
from_bytes-lt xs h = omega (arith, from_bytes_acc-lt 0 xs h)

half_lt : (n m : ℕ) → n / 2 < m → n < 2 * m
half_lt n m h = omega arith

pow2 : (k : ℕ) → 2 ^ suc k ≡ 2 * 2 ^ k
pow2 k = rw pow-suc (omega arith)

lt-pow-bit_length_fuel : (f n : ℕ) → n ≤ f → n < 2 ^ bit_length_fuel f n
unfolding bit_length_fuel
lt-pow-bit_length_fuel zero n h = omega arith
lt-pow-bit_length_fuel (suc f) n h = elim (Bool-cases (nat_eq n 0)) [
  | inl e ↦
      let none_left : bit_length_fuel (suc f) n ≡ 0 = ground arith in
      subst (λ k. n < 2 ^ k) (sym none_left) (ground (arith, nat_eq_iff n 0))
  | inr e ↦
      let one_more : bit_length_fuel (suc f) n ≡ suc (bit_length_fuel f (n / 2)) = ground arith in
      subst (λ k. n < 2 ^ k) (sym one_more)
        (rw (pow2 (bit_length_fuel f (n / 2)))
          (half_lt n _ (lt-pow-bit_length_fuel f (n / 2) (ground arith))))
]

-- A number has at most `bit_length` binary digits.
pub lt-pow-bit_length : (n : ℕ) → n < 2 ^ bit_length n
unfolding bit_length
lt-pow-bit_length n = lt-pow-bit_length_fuel n n (omega arith)

pow256-pow2 : (k : ℕ) → 256 ^ k ≡ 2 ^ (8 * k)
pow256-pow2 zero = refl
pow256-pow2 (suc k) =
    rw (pow256 k, pow256-pow2 k)
      (let e : 8 * suc k ≡ 8 * k + 8 = omega arith in rw e (simp towards_suc (omega arith)))

-- The bytes that the program gives a modulus hold it: `k = (n.bit_length() + 7) // 8`.
pub lt-pow-bytes : (n : ℕ) → n < 256 ^ ((bit_length n + 7) / 8)
lt-pow-bytes n =
    rw (pow256-pow2 ((bit_length n + 7) / 8))
      (le_trans (lt-pow-bit_length n) (pow-le-pow_right (omega arith) (omega arith)))
