-- ===== src/Bytes.antt =====
-- Byte strings as lists of numbers, and the conversions of Python that the protocol uses:
-- `int.to_bytes`, `int.from_bytes`, `int.bit_length` and `bytes.hex`.
pub mod BigEndian
pub mod Hex
use online_voting_poc.Prelude.{
  ℕ, zero, suc, ◌+◌, ◌-◌, ◌*◌, ◌/◌, ◌%◌, ◌<◌, List, [], ◌∷◌, ◌++◌, ltb, nat_eq, true, false,
  if◌then◌else◌, Bool, ◌&&◌, ◌||◌, leb, Option, none, some,
}

abbrev pub Bytes : Type 0
Bytes = List ℕ

-- A `str`, by its code points.
abbrev pub Text : Type 0
Text = List ℕ

abbrev pub IsByte : ℕ → Type 0
IsByte b = b < 256

-- `n.to_bytes(k, "big")`, for `n < 256 ** k`; where Python raises OverflowError, the low bytes.
unfoldable pub to_bytes : ℕ → ℕ → Bytes
to_bytes zero n = []
to_bytes (suc k) n = to_bytes k (n / 256) ++ n % 256 ∷ []

unfoldable pub from_bytes_acc : ℕ → Bytes → ℕ
from_bytes_acc acc [] = acc
from_bytes_acc acc (b ∷ bs) = from_bytes_acc (acc * 256 + b) bs

-- `int.from_bytes(data, "big")`.
unfoldable pub from_bytes : Bytes → ℕ
unfolding from_bytes_acc
from_bytes = from_bytes_acc 0

unfoldable pub bit_length_fuel : ℕ → ℕ → ℕ
bit_length_fuel zero n = 0
bit_length_fuel (suc f) n = elim (nat_eq n 0) [ true ↦ 0 | false ↦ suc (bit_length_fuel f (n / 2)) ]

-- `n.bit_length()`; a number has no more binary digits than its value.
unfoldable pub bit_length : ℕ → ℕ
unfolding bit_length_fuel
bit_length n = bit_length_fuel n n

abbrev pub hex_digit : ℕ → ℕ
hex_digit d = if ltb d 10 then b'0' + d else b'a' + d - 10

-- `data.hex()`.
unfoldable pub hex : Bytes → Text
hex [] = []
hex (b ∷ bs) = hex_digit (b / 16) ∷ hex_digit (b % 16) ∷ hex bs

abbrev pub hex_value : ℕ → Option ℕ
hex_value c =
    if leb b'0' c && leb c b'9'
    then some (c - b'0')
    else if leb b'a' c && leb c b'f'
    then some (c - b'a' + 10)
    else if leb b'A' c && leb c b'F'
    then some (c - b'A' + 10)
    else none

-- White space between two bytes is passed over.
abbrev pub is_space : ℕ → Bool
is_space c = nat_eq c 32 || leb 9 c && leb c 13

abbrev pub from_digits : Option ℕ → Option ℕ → Option Bytes → Option Bytes
from_digits (some a) (some b) (some bytes) = some ((a * 16 + b) ∷ bytes)
from_digits _ _ _ = none

-- `bytes.fromhex(text)`; `none` where it raises ValueError.
unfoldable pub from_hex : Text → Option Bytes
from_hex [] = some []
from_hex (c ∷ []) = if is_space c then some [] else none
from_hex (c ∷ d ∷ cs) =
    let rest = from_hex cs in
    let after_space = from_hex (d ∷ cs) in
    if is_space c then after_space else from_digits (hex_value c) (hex_value d) rest
