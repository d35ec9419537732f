-- ===== src/Bytes/Hex.antt =====
-- Reading a byte string that was written in hexadecimal gives it back.
use online_voting_poc.Prelude.{
  ℕ, ◌+◌, ◌*◌, ◌/◌, ◌%◌, ◌<◌, ◌≡◌, refl, ap, sym, ◌∙◌, false, some, [], ◌∷◌, All, arith,
}
use online_voting_poc.Bytes.{Bytes, IsByte, hex, hex_digit, hex_value, is_space, from_hex}

hex_value-hex_digit : (d : ℕ) → d < 16 → hex_value (hex_digit d) ≡ some d
hex_value-hex_digit d h = ground arith

hex_digit_no_space : (d : ℕ) → d < 16 → is_space (hex_digit d) ≡ false
hex_digit_no_space d h = ground arith

pub from_hex-hex : (data' : Bytes) → All IsByte data' → from_hex (hex data') ≡ some data'
unfolding from_hex hex
from_hex-hex [] h = refl
from_hex-hex (b ∷ bs) (hb, hs) =
    let q : b / 16 < 16 = omega arith in
    let r : b % 16 < 16 = omega arith in
    let whole : b / 16 * 16 + b % 16 ≡ b = omega arith in
    rw (
      hex_digit_no_space (b / 16) q,
      hex_value-hex_digit (b / 16) q,
      hex_value-hex_digit (b % 16) r,
      from_hex-hex bs hs,
      whole,
    )

pub hex_injective : (xs ys : Bytes) → All IsByte xs → All IsByte ys → hex xs ≡ hex ys → xs ≡ ys
hex_injective xs ys hx hy e =
    ground (arith, sym (from_hex-hex xs hx) ∙ ap from_hex e ∙ from_hex-hex ys hy)
