-- ===== src/Prelude/Options.antt =====
-- Chains of steps that may fail, for do blocks.
use mathlib.Core.Path.{◌≡◌, refl}
use mathlib.Core.Option.{Option, none, some}

infixl 5 ◌>>=◌
abbrev pub ◌>>=◌ {ℓ κ} : {A : Type ℓ} {B : Type κ} → Option A → (A → Option B) → Option B
none >>= f = none
some a >>= f = f a

-- A chain that succeeds succeeds in its first step.
pub bind-some {ℓ κ} :
    {A : Type ℓ} {B : Type κ} (o : Option A) (f : A → Option B) (b : B)
    → (o >>= f) ≡ some b
    → (a : A) × (o ≡ some a) × (f a ≡ some b)
bind-some none f b h = absurd (clash h)
  where
    clash : none ≡ some b → ⊥
    clash e = cc
bind-some (some a) f b h = (a, refl, h)

-- The same, for the rest of a proof: the value is a variable there.
pub bind-elim {ℓ κ ι} :
    {A : Type ℓ} {B : Type κ} {P : Type ι} (o : Option A) {f : A → Option B} {b : B}
    → (o >>= f) ≡ some b
    → ((a : A) → o ≡ some a → f a ≡ some b → P)
    → P
bind-elim o {f} {b} h k = let (a, e, g) = bind-some o f b h in k a e g
