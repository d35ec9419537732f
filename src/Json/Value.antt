-- ===== src/Json/Value.antt =====
-- Nested dictionaries and lists as `json.dumps` writes them: `canonical_bytes` of
-- src/ovpoc/messages.py, and the indented form of `ElectionConfig.to_bytes` in
-- src/service/election.py.
use Prim.Native.String.{String}
use online_voting_poc.Prelude.{
  ℕ, zero, suc, Option, none, some, Bool, List, [], ◌∷◌, ◌++◌, if◌then◌else◌,
}
use online_voting_poc.Prelude.Int.{pos}
use online_voting_poc.Bytes.{Bytes, Text}
use online_voting_poc.Json.{
  codes, Scalar, null, boolean, number, text, Fields, text_lt, quoted, dump_scalar, encode_utf8,
}

mutual
  pub data Value : Type 0 where
    scalar : Scalar → Value
    array : Items → Value
    object : Members → Value

  pub data Items : Type 0 where
    no_items : Items
    item : Value → Items → Items

  pub data Members : Type 0 where
    no_members : Members
    member : Text → Value → Members → Members

abbrev pub string : Text → Value
string t = scalar (text t)

abbrev pub literal : String → Value
literal s = string (codes s)

abbrev pub count_of : ℕ → Value
count_of n = scalar (number (pos n))

abbrev pub flag : Bool → Value
flag b = scalar (boolean b)

abbrev pub optional : Option Value → Value
optional none = scalar null
optional (some v) = v

abbrev pub members_of : List (String × Value) → Members
members_of [] = no_members
members_of ((k, v) ∷ rest) = member (codes k) v (members_of rest)

-- A dictionary with literal keys.
abbrev pub dictionary : List (String × Value) → Value
dictionary rest = object (members_of rest)

abbrev pub scalars_of : Fields → Members
scalars_of [] = no_members
scalars_of ((k, v) ∷ rest) = member (codes k) (scalar v) (scalars_of rest)

abbrev pub items_of {ℓ} : {A : Type ℓ} → (A → Value) → List A → Items
items_of f [] = no_items
items_of f (x ∷ xs) = item (f x) (items_of f xs)

unfoldable pub insert_member : Text → Value → Members → Members
insert_member k v no_members = member k v no_members
insert_member k v (member j w rest) =
    let later = insert_member k v rest in
    if text_lt k j then member k v (member j w rest) else member j w later

-- `sort_keys=True`, at every depth.
unfoldable mutual
  unfolding insert_member

  pub sorted : Value → Value
  sorted (scalar s) = scalar s
  sorted (array xs) = array (sorted_items xs)
  sorted (object ms) = object (sorted_members ms)

  pub sorted_items : Items → Items
  sorted_items no_items = no_items
  sorted_items (item v xs) = item (sorted v) (sorted_items xs)

  pub sorted_members : Members → Members
  sorted_members no_members = no_members
  sorted_members (member k v ms) = insert_member k (sorted v) (sorted_members ms)

-- `separators=(",", ":")`.
unfoldable mutual
  unfolding dump_scalar

  pub dump : Value → Text
  dump (scalar s) = dump_scalar s
  dump (array xs) = b'[' ∷ (dump_items xs ++ b']' ∷ [])
  dump (object ms) = b'{' ∷ (dump_members ms ++ b'}' ∷ [])

  pub dump_items : Items → Text
  dump_items no_items = []
  dump_items (item v no_items) = dump v
  dump_items (item v (item w xs)) = dump v ++ b',' ∷ dump_items (item w xs)

  pub dump_members : Members → Text
  dump_members no_members = []
  dump_members (member k v no_members) = quoted k ++ b':' ∷ dump v
  dump_members (member k v (member j w ms)) =
      quoted k ++ b':' ∷ (dump v ++ b',' ∷ dump_members (member j w ms))

unfoldable pub canonical_value : Value → Bytes
unfolding dump sorted
canonical_value v = encode_utf8 (dump (sorted v))

-- A new line, and two spaces for each level.
abbrev pub break : ℕ → Text
break zero = 10 ∷ []
break (suc n) = break n ++ 32 ∷ 32 ∷ []

-- `indent=2, sort_keys=False`; an empty list or dictionary stays on its line.
unfoldable mutual
  unfolding dump_scalar

  pub indented : ℕ → Value → Text
  indented n (scalar s) = dump_scalar s
  indented n (array no_items) = codes "[]"
  indented n (array (item v xs)) =
      b'['
      ∷ (break (suc n)
          ++ (indented (suc n) v ++ (indented_items (suc n) xs ++ (break n ++ b']' ∷ []))))
  indented n (object no_members) = codes "{}"
  indented n (object (member k v ms)) =
      b'{'
      ∷ (break (suc n)
          ++ (quoted k
              ++ (codes ": "
                  ++ (indented (suc n) v
                      ++ (indented_members (suc n) ms ++ (break n ++ b'}' ∷ []))))))

  -- What follows the first.
  pub indented_items : ℕ → Items → Text
  indented_items n no_items = []
  indented_items n (item v xs) = b',' ∷ (break n ++ (indented n v ++ indented_items n xs))

  pub indented_members : ℕ → Members → Text
  indented_members n no_members = []
  indented_members n (member k v ms) =
      b',' ∷ (break n ++ (quoted k ++ (codes ": " ++ (indented n v ++ indented_members n ms))))
