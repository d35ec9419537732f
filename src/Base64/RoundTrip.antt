-- ===== src/Base64/RoundTrip.antt =====
-- Decoding an encoded byte string gives it back.
use online_voting_poc.Prelude.{
  ℕ, suc, ◌+◌, ◌-◌, ◌*◌, ◌/◌, ◌%◌, ◌<◌, ◌≡◌, refl, true, some, [], ◌∷◌, ◌++◌, length, All, arith,
}
use online_voting_poc.Bytes.{Bytes, IsByte, Text}
use online_voting_poc.Base64.{
  symbol, b64, Quad, start, left_six, left_four, left_two, decode, push, all_ascii, padding, unb64,
}

symbol_lt : (v : ℕ) → symbol v < 128
unfolding symbol
symbol_lt v = ground arith

-- What a symbol does to the decoder.
decode-symbol :
    (q : Quad) (pads v : ℕ) (cs : Text)
    → v < 64
    → decode q pads (symbol v ∷ cs) ≡ elim q [
      | start ↦ decode (left_six v) 0 cs
      | left_six l ↦ push (l * 4 + v / 16) (decode (left_four (v % 16)) 0 cs)
      | left_four l ↦ push (l * 16 + v / 4) (decode (left_two (v % 4)) 0 cs)
      | left_two l ↦ push (l * 64 + v) (decode start 0 cs)
    ]
unfolding decode symbol
decode-symbol start pads v cs h = ground arith
decode-symbol (left_six l) pads v cs h = ground arith
decode-symbol (left_four l) pads v cs h = ground arith
decode-symbol (left_two l) pads v cs h = ground arith

padding_four : (a b c d : ℕ) (text : Text) → padding (a ∷ b ∷ c ∷ d ∷ text) ≡ padding text
padding_four a b c d text =
    let n : ℕ = length text in
    let e : (4 - suc (suc (suc (suc n))) % 4) % 4 ≡ (4 - n % 4) % 4 = omega arith in rw e

decode-two_pads : (l : ℕ) → decode (left_four l) 0 (b'=' ∷ b'=' ∷ []) ≡ some []
unfolding decode
decode-two_pads l = refl

decode-one_pad : (l : ℕ) → decode (left_two l) 0 (b'=' ∷ []) ≡ some []
unfolding decode
decode-one_pad l = refl

first_byte : (x y : ℕ) → y < 256 → x / 4 * 4 + (x % 4 * 16 + y / 16) / 16 ≡ x
first_byte x y h = omega arith

second_byte :
    (x y z : ℕ)
    → y < 256
    → z < 256
    → (x % 4 * 16 + y / 16) % 16 * 16 + (y % 16 * 4 + z / 64) / 4 ≡ y
second_byte x y z hy hz = omega arith

third_byte : (y z : ℕ) → z < 256 → (y % 16 * 4 + z / 64) % 4 * 64 + z % 64 ≡ z
third_byte y z h = omega arith

decode-b64 :
    (data' : Bytes) (pads : ℕ)
    → All IsByte data'
    → decode start pads (b64 data' ++ padding (b64 data')) ≡ some data'
unfolding b64
decode-b64 [] pads h = unfold decode in refl
decode-b64 (x ∷ []) pads (hx, _) =
    let e : x / 4 * 4 + x % 4 * 16 / 16 ≡ x = omega arith in
    rw (decode-symbol start pads (x / 4) _ (omega arith)) (
      rw (decode-symbol (left_six (x / 4)) 0 (x % 4 * 16) _ (omega arith))
        (rw (decode-two_pads, e)))
decode-b64 (x ∷ y ∷ []) pads (hx, (hy, _)) =
    let v : ℕ = x % 4 * 16 + y / 16 in
    let e : v % 16 * 16 + y % 16 * 4 / 4 ≡ y = omega arith in
    rw (decode-symbol start pads (x / 4) _ (omega arith)) (
      rw (decode-symbol (left_six (x / 4)) 0 v _ (omega arith)) (
        rw (decode-symbol (left_four (v % 16)) 0 (y % 16 * 4) _ (omega arith))
          (rw (decode-one_pad, first_byte x y hy, e))))
decode-b64 (x ∷ y ∷ z ∷ rest) pads (hx, (hy, (hz, hs))) =
    let v : ℕ = x % 4 * 16 + y / 16 in
    let w : ℕ = y % 16 * 4 + z / 64 in
    rw (padding_four (symbol (x / 4)) (symbol v) (symbol w) (symbol (z % 64)) (b64 rest)) (
      rw (decode-symbol start pads (x / 4) _ (omega arith)) (
        rw (decode-symbol (left_six (x / 4)) 0 v _ (omega arith)) (
          rw (decode-symbol (left_four (v % 16)) 0 w _ (omega arith)) (
            rw (decode-symbol (left_two (w % 4)) 0 (z % 64) _ (omega arith)) (
              rw (
                decode-b64 rest 0 hs,
                first_byte x y hy,
                second_byte x y z hy hz,
                third_byte y z hz,
              ))))))

all_ascii-b64 : (data' : Bytes) → all_ascii (b64 data') ≡ true
unfolding b64
all_ascii-b64 [] = refl
all_ascii-b64 (x ∷ []) = ground (arith, symbol_lt (x / 4), symbol_lt (x % 4 * 16))
all_ascii-b64 (x ∷ y ∷ []) =
    ground (arith, symbol_lt (x / 4), symbol_lt (x % 4 * 16 + y / 16), symbol_lt (y % 16 * 4))
all_ascii-b64 (x ∷ y ∷ z ∷ rest) = ground (
  arith,
  symbol_lt (x / 4),
  symbol_lt (x % 4 * 16 + y / 16),
  symbol_lt (y % 16 * 4 + z / 64),
  symbol_lt (z % 64),
  all_ascii-b64 rest,
)

-- Every byte string survives `b64` and `unb64`.
pub unb64-b64 : (data' : Bytes) → All IsByte data' → unb64 (b64 data') ≡ some data'
unfolding unb64
unb64-b64 data' h = rw (all_ascii-b64 data') (decode-b64 data' 0 h)

-- So two byte strings with one encoding are equal.
pub b64_injective : (xs ys : Bytes) → All IsByte xs → All IsByte ys → b64 xs ≡ b64 ys → xs ≡ ys
b64_injective xs ys hx hy e = cc (unb64-b64 xs hx, unb64-b64 ys hy)
