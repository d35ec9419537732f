-- ===== src/Json.antt =====
-- `canonical_bytes` of src/ovpoc/messages.py, over the flat dictionaries that the protocol signs
-- and hashes: `json.dumps` with sorted keys, no spaces, and other than ASCII left as UTF-8.
pub mod Value
use Prim.Native.Char.{code}
use Prim.Native.String.{String}
use online_voting_poc.Prelude.{
  ℕ, zero, suc, ◌+◌, ◌/◌, ◌%◌, Bool, true, false, List, [], ◌∷◌, ◌++◌, ltb, nat_eq, if◌then◌else◌,
}
use online_voting_poc.Prelude.Int.{ℤ, pos, negsuc}
use online_voting_poc.Bytes.{Bytes, Text, hex_digit}

-- The code points of a literal.
abbrev pub codes : String → Text
codes String.[] = []
codes (String.◌∷◌ c s) = code c ∷ codes s

-- The values that stand in a signed or hashed dictionary. `seconds` is a `float` that is a whole
-- number, as `float(int(now))` is.
pub data Scalar : Type 0 where
  null : Scalar
  boolean : Bool → Scalar
  number : ℤ → Scalar
  seconds : ℕ → Scalar
  text : Text → Scalar

abbrev pub Fields : Type 0
Fields = List (String × Scalar)

unfoldable pub decimal_fuel : ℕ → ℕ → Text
decimal_fuel zero n = []
decimal_fuel (suc f) n =
    let rest = decimal_fuel f (n / 10) ++ (b'0' + n % 10) ∷ [] in
    if ltb n 10 then (b'0' + n) ∷ [] else rest

-- A number in decimal; it has fewer digits than its value plus two.
unfoldable pub decimal : ℕ → Text
unfolding decimal_fuel
decimal n = decimal_fuel (suc n) n

-- A character inside a JSON string.
unfoldable pub escape : ℕ → Text
escape c =
    if nat_eq c b'"'
    then b'\\' ∷ b'"' ∷ []
    else if nat_eq c b'\\'
    then b'\\' ∷ b'\\' ∷ []
    else if nat_eq c 10
    then b'\\' ∷ b'n' ∷ []
    else if nat_eq c 13
    then b'\\' ∷ b'r' ∷ []
    else if nat_eq c 9
    then b'\\' ∷ b't' ∷ []
    else if nat_eq c 12
    then b'\\' ∷ b'f' ∷ []
    else if nat_eq c 8
    then b'\\' ∷ b'b' ∷ []
    else if ltb c 32
    then b'\\' ∷ b'u' ∷ b'0' ∷ b'0' ∷ hex_digit (c / 16) ∷ hex_digit (c % 16) ∷ []
    else c ∷ []

unfoldable pub escape_all : Text → Text
unfolding escape
escape_all [] = []
escape_all (c ∷ cs) = escape c ++ escape_all cs

abbrev pub quoted : Text → Text
quoted t = b'"' ∷ (escape_all t ++ b'"' ∷ [])

unfoldable pub dump_scalar : Scalar → Text
unfolding decimal escape_all
dump_scalar null = codes "null"
dump_scalar (boolean true) = codes "true"
dump_scalar (boolean false) = codes "false"
dump_scalar (number (pos n)) = decimal n
dump_scalar (number (negsuc n)) = b'-' ∷ decimal (suc n)
dump_scalar (seconds n) = decimal n ++ codes ".0"
dump_scalar (text t) = quoted t

-- Code point order, in which `sort_keys` sorts.
unfoldable pub text_lt : Text → Text → Bool
text_lt xs [] = false
text_lt [] (y ∷ ys) = true
text_lt (x ∷ xs) (y ∷ ys) = if ltb x y then true else if nat_eq x y then text_lt xs ys else false

unfoldable pub insert_field : String × Scalar → Fields → Fields
unfolding text_lt
insert_field f [] = f ∷ []
insert_field f (g ∷ fs) =
    if text_lt (codes f.0) (codes g.0) then f ∷ g ∷ fs else g ∷ insert_field f fs

unfoldable pub sort_fields : Fields → Fields
unfolding insert_field
sort_fields [] = []
sort_fields (f ∷ fs) = insert_field f (sort_fields fs)

unfoldable pub dump_field : String × Scalar → Text
unfolding dump_scalar
dump_field (k, v) = quoted (codes k) ++ b':' ∷ dump_scalar v

unfoldable pub dump_fields : Fields → Text
unfolding dump_field
dump_fields [] = []
dump_fields (f ∷ []) = dump_field f
dump_fields (f ∷ g ∷ fs) = dump_field f ++ b',' ∷ dump_fields (g ∷ fs)

-- `str.encode("utf-8")` of one code point.
unfoldable pub utf8 : ℕ → Bytes
utf8 c =
    if ltb c 0x80
    then c ∷ []
    else if ltb c 0x800
    then (0xc0 + c / 64) ∷ (0x80 + c % 64) ∷ []
    else if ltb c 0x10000
    then (0xe0 + c / 4096) ∷ (0x80 + c / 64 % 64) ∷ (0x80 + c % 64) ∷ []
    else (0xf0 + c / 262144) ∷ (0x80 + c / 4096 % 64) ∷ (0x80 + c / 64 % 64) ∷ (0x80 + c % 64) ∷ []

unfoldable pub encode_utf8 : Text → Bytes
unfolding utf8
encode_utf8 [] = []
encode_utf8 (c ∷ cs) = utf8 c ++ encode_utf8 cs

unfoldable pub canonical_bytes : Fields → Bytes
unfolding sort_fields dump_fields encode_utf8
canonical_bytes fields = encode_utf8 (b'{' ∷ (dump_fields (sort_fields fields) ++ b'}' ∷ []))
