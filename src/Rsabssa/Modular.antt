-- ===== src/Rsabssa/Modular.antt =====
-- Powers and products modulo n, as the blind signatures of src/ovpoc/rsabssa.py use them.
use native.Mathlib.Nat.{
  mod-eq_of_lt, mul_comm, mul_assoc, mul_left_comm, pow-suc, add-mul-mod_self_left, mod-add-div,
  add-mul, mul-one, pow-zero, add-zero, add-suc, mul-zero, mul-suc,
}
use online_voting_poc.Prelude.{ℕ, zero, suc, ◌+◌, ◌*◌, ◌/◌, ◌%◌, ◌^◌, ◌<◌, ◌≡◌, ap, sym, ◌∙◌, arith}

mul-mod_left : (a b n : ℕ) → a % n * b % n ≡ a * b % n
mul-mod_left a b n =
    let e : a * b ≡ a % n * b + n * (a / n * b) =
      ap (λ t. t * b) (sym (mod-add-div a n))
      ∙ add-mul (a % n) (n * (a / n)) b
      ∙ ap (λ t. a % n * b + t) (mul_assoc n (a / n) b) in
    sym (ap (λ t. t % n) e ∙ add-mul-mod_self_left (a % n * b) n (a / n * b))

mul-mod_right : (a b n : ℕ) → a * (b % n) % n ≡ a * b % n
mul-mod_right a b n =
    ap (λ t. t % n) (mul_comm a (b % n)) ∙ mul-mod_left b a n ∙ ap (λ t. t % n) (mul_comm b a)

mul-pow : (a b k : ℕ) → (a * b) ^ k ≡ a ^ k * b ^ k
mul-pow a b zero = rw (pow-zero (a * b), pow-zero a, pow-zero b)
mul-pow a b (suc k) =
    rw (pow-suc (a * b) k, pow-suc a k, pow-suc b k, mul-pow a b k)
      (grind (arith, mul_assoc, mul_left_comm, mul_comm))

pow-mod : (a k n : ℕ) → (a % n) ^ k % n ≡ a ^ k % n
pow-mod a zero n = rw (pow-zero (a % n), pow-zero a)
pow-mod a (suc k) n =
    rw (pow-suc (a % n) k, pow-suc a k)
      (mul-mod_right ((a % n) ^ k) a n
        ∙ sym (mul-mod_left ((a % n) ^ k) a n)
        ∙ ap (λ t. t * a % n) (pow-mod a k n)
        ∙ mul-mod_left (a ^ k) a n)

pow-add : (a m k : ℕ) → a ^ (m + k) ≡ a ^ m * a ^ k
pow-add a m zero = rw (add-zero m, pow-zero a, mul-one (a ^ m))
pow-add a m (suc k) =
    rw (add-suc m k, pow-suc a (m + k), pow-add a m k, pow-suc a k) (mul_assoc (a ^ m) (a ^ k) a)

pow-pow : (a e d : ℕ) → (a ^ e) ^ d ≡ a ^ (e * d)
pow-pow a e zero = rw (pow-zero (a ^ e), mul-zero e, pow-zero a)
pow-pow a e (suc d) =
    pow-suc (a ^ e) d
    ∙ ap (λ t. t * a ^ e) (pow-pow a e d)
    ∙ sym (ap (λ t. a ^ t) (mul-suc e d) ∙ pow-add a (e * d) e)

-- The blinding factor passes through the private operation and is divided out: whatever is blinded,
-- what remains is the private operation on the message.
pub unblinding :
    (n e d m r r_inv : ℕ)
    → ((x : ℕ) → x ^ (e * d) % n ≡ x % n)
    → r * r_inv % n ≡ 1 % n
    → (m * (r ^ e % n) % n) ^ d % n * r_inv % n ≡ m ^ d % n
unblinding n e d m r r_inv law inv =
    let x = m * (r ^ e % n) in
    let stripped : (x % n) ^ d % n ≡ m ^ d * r % n =
      pow-mod x d n
      ∙ ap (λ t. t % n) (mul-pow m (r ^ e % n) d)
      ∙ sym (mul-mod_right (m ^ d) ((r ^ e % n) ^ d) n)
      ∙ ap (λ t. m ^ d * t % n) (pow-mod (r ^ e) d n ∙ ap (λ t. t % n) (pow-pow r e d) ∙ law r)
      ∙ mul-mod_right (m ^ d) r n in
    ap (λ t. t * r_inv % n) stripped
    ∙ mul-mod_left (m ^ d * r) r_inv n
    ∙ ap (λ t. t % n) (mul_assoc (m ^ d) r r_inv)
    ∙ sym (mul-mod_right (m ^ d) (r * r_inv) n)
    ∙ ap (λ t. m ^ d * t % n) inv
    ∙ mul-mod_right (m ^ d) 1 n
    ∙ ap (λ t. t % n) (mul-one (m ^ d))

pub exponents_undo :
    (n e d x : ℕ) → ((x : ℕ) → x ^ (e * d) % n ≡ x % n) → x < n → (x ^ d % n) ^ e % n ≡ x
exponents_undo n e d x law h =
    pow-mod (x ^ d) e n
    ∙ ap (λ t. t % n) (pow-pow x d e ∙ ap (λ t. x ^ t) (mul_comm d e))
    ∙ law x
    ∙ mod-eq_of_lt h
