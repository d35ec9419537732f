-- ===== src/Prelude/Int.antt =====
-- Integers over the native numbers, as far as the program compares them.
use Prim.Native.Nat.{ℕ}
use mathlib.Core.Path.{◌≡◌}
use mathlib.Core.Logic.{◌↔◌}
use mathlib.Core.Bool.{Bool, true, false, ◌&&◌}
use native.Mathlib.Omega.{arith}
use online_voting_poc.Prelude.Tests.{nat_eq, leb}
use online_voting_poc.Prelude.Eq.{Eq}

-- `negsuc n` is -(n + 1).
pub data ℤ : Type 0 where
  pos : ℕ → ℤ
  negsuc : ℕ → ℤ

abbrev pub int_eq : ℤ → ℤ → Bool
int_eq (pos a) (pos b) = nat_eq a b
int_eq (pos a) (negsuc b) = false
int_eq (negsuc a) (pos b) = false
int_eq (negsuc a) (negsuc b) = nat_eq a b

pub int_eq_iff : (a b : ℤ) → (int_eq a b ≡ true) ↔ (a ≡ b)
int_eq_iff (pos a) (pos b) = ground arith
int_eq_iff (pos a) (negsuc b) = ground arith
int_eq_iff (negsuc a) (pos b) = ground arith
int_eq_iff (negsuc a) (negsuc b) = ground arith

instance abbrev pub ℤ-eq : Eq ℤ
ℤ-eq = record { equals = int_eq; equals_iff = int_eq_iff }

-- `1 <= i <= n`.
abbrev pub in_range : ℕ → ℤ → Bool
in_range n (pos i) = leb 1 i && leb i n
in_range n (negsuc i) = false
