-- ===== src/Base64.antt =====
-- `b64` and `unb64` of src/ovpoc/messages.py: base64url without padding.
pub mod RoundTrip
use online_voting_poc.Prelude.{
  ℕ, ◌+◌, ◌-◌, ◌*◌, ◌/◌, ◌%◌, Bool, ◌&&◌, ◌||◌, Option, none, some, [], ◌∷◌, ◌++◌, length,
  replicate, ltb, leb, nat_eq, if◌then◌else◌,
}
use online_voting_poc.Bytes.{Bytes, Text}

-- The alphabet of `base64.urlsafe_b64encode`.
unfoldable pub symbol : ℕ → ℕ
symbol v =
    if ltb v 26
    then b'A' + v
    else if ltb v 52
    then v + 71
    else if ltb v 62
    then v - 4
    else if nat_eq v 62
    then b'-'
    else b'_'

-- `urlsafe_b64encode(data).decode("ascii").rstrip("=")`: the alphabet has no `=`, so stripping
-- removes the padding and nothing else.
unfoldable pub b64 : Bytes → Text
b64 [] = []
b64 (x ∷ []) = symbol (x / 4) ∷ symbol (x % 4 * 16) ∷ []
b64 (x ∷ y ∷ []) = symbol (x / 4) ∷ symbol (x % 4 * 16 + y / 16) ∷ symbol (y % 16 * 4) ∷ []
b64 (x ∷ y ∷ z ∷ rest) =
    symbol (x / 4)
    ∷ symbol (x % 4 * 16 + y / 16)
    ∷ symbol (y % 16 * 4 + z / 64)
    ∷ symbol (z % 64)
    ∷ b64 rest

-- The value of a symbol; `+` and `/` stay what they are in the plain alphabet.
unfoldable pub symbol_value : ℕ → Option ℕ
symbol_value c =
    if leb b'A' c && leb c b'Z'
    then some (c - b'A')
    else if leb b'a' c && leb c b'z'
    then some (c - 71)
    else if leb b'0' c && leb c b'9'
    then some (c + 4)
    else if nat_eq c b'-' || nat_eq c b'+'
    then some 62
    else if nat_eq c b'_' || nat_eq c b'/'
    then some 63
    else none

-- How far into a group of four the decoder is, with the bits that it has left over.
pub data Quad : Type 0 where
  start : Quad
  left_six : ℕ → Quad
  left_four : ℕ → Quad
  left_two : ℕ → Quad

pub data Move : Type 0 where
  finish : Move
  skip : ℕ → Move
  take_in : Quad → Move
  emit : ℕ → Quad → Move

-- One character of the lenient decoder behind `urlsafe_b64decode`: it passes over what is not in
-- the alphabet, and ends at the padding that completes a group. `pads` counts the `=` since the
-- last symbol.
unfoldable pub decode_pad : Quad → ℕ → Move
decode_pad start pads = skip pads
decode_pad (left_six v) pads = skip pads
decode_pad (left_four v) pads = if leb 4 (2 + pads + 1) then finish else skip (pads + 1)
decode_pad (left_two v) pads = finish

unfoldable pub decode_symbol : Quad → ℕ → Move
decode_symbol start v = take_in (left_six v)
decode_symbol (left_six l) v = emit (l * 4 + v / 16) (left_four (v % 16))
decode_symbol (left_four l) v = emit (l * 16 + v / 4) (left_two (v % 4))
decode_symbol (left_two l) v = emit (l * 64 + v) start

unfoldable pub decode_char : Quad → ℕ → ℕ → Move
unfolding decode_pad decode_symbol symbol_value
decode_char q pads c =
    if nat_eq c b'='
    then decode_pad q pads
    else elim (symbol_value c) [ none ↦ skip pads | some v ↦ decode_symbol q v ]

-- A text that ends inside a group raises `binascii.Error`.
unfoldable pub decode_end : Quad → Option Bytes
decode_end start = some []
decode_end (left_six l) = none
decode_end (left_four l) = none
decode_end (left_two l) = none

abbrev pub push : ℕ → Option Bytes → Option Bytes
push b none = none
push b (some bs) = some (b ∷ bs)

unfoldable pub decode : Quad → ℕ → Text → Option Bytes
unfolding decode_char decode_end
decode q pads [] = decode_end q
decode q pads (c ∷ cs) = elim (decode_char q pads c) [
  | finish ↦ some []
  | skip pads' ↦ decode q pads' cs
  | take_in q' ↦ decode q' 0 cs
  | emit b q' ↦ push b (decode q' 0 cs)
]

abbrev pub all_ascii : Text → Bool
all_ascii [] = Bool.true
all_ascii (c ∷ cs) = ltb c 128 && all_ascii cs

-- `"=" * (-len(text) % 4)`.
abbrev pub padding : Text → Text
padding text = replicate ((4 - length text % 4) % 4) b'='

-- `none` where Python raises: a text that is not ASCII, or ends inside a group.
unfoldable pub unb64 : Text → Option Bytes
unfolding decode
unb64 text = if all_ascii text then decode start 0 (text ++ padding text) else none
