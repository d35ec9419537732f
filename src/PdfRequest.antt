-- ===== src/PdfRequest.antt =====
-- The token request as a document, src/ovpoc/pdfrequest.py: the payload and what the office checks.
-- `json.loads` is an argument, and nothing is assumed of it.
pub mod Render
pub mod Checked
use Prim.Native.String.{String}
use online_voting_poc.Prelude.{
  ℕ, suc, Bool, ◌&&◌, ◌||◌, not, Option, none, some, [], ◌∷◌, length, take, drop, ltb, nat_eq,
  List-eq, ◌==◌, if◌then◌else◌,
}
use online_voting_poc.Bytes.{Bytes, Text}
use online_voting_poc.Base64.{b64}
use online_voting_poc.Json.{codes, text}
use online_voting_poc.Json.Value.{Value, scalar, object, Members, no_members, member}
use online_voting_poc.Crypto.{Crypto}
use Render.{Payload, marker, well_formed_payload, render}

unfoldable pub payload_of : Text → Text → Bytes → Payload
payload_of election digest blinded_key = record {
  blinded_key = b64 blinded_key;
  config_digest = digest;
  election_id = election;
}

pub data Refusal : Type 0 where
  not_a_request_document carriers_disagree not_as_rendered signature_does_not_cover_it : Refusal

-- What the office concludes; a refusal carries the length of the rendered document, where there is
-- one.
pub data DocumentCheck : Type 0 where
  accepted : (payload : Payload) (recovered_from : String) (rendered_bytes : ℕ) → DocumentCheck
  refused : (refusal : Refusal) (rendered_bytes : Option ℕ) → DocumentCheck

abbrev pub field : Text → Members → Option Text
field k no_members = none
field k (member j (scalar (text t)) rest) = if k == j then some t else field k rest
field k (member j _ rest) = if k == j then none else field k rest

abbrev pub member_count : Members → ℕ
member_count no_members = 0
member_count (member k v rest) = suc (member_count rest)

abbrev pub payload_from : Option Text → Option Text → Option Text → Option Payload
payload_from (some c) (some digest) (some election) =
    some (record { blinded_key = c; config_digest = digest; election_id = election })
payload_from _ _ _ = none

abbrev pub only_well_formed : Option Payload → Option Payload
only_well_formed none = none
only_well_formed (some p) = if well_formed_payload p then some p else none

-- `_well_formed`: a dictionary with exactly the three fields, all of them strings, and the first of
-- them base64; `none` where it is false.
unfoldable pub well_formed : Value → Option Payload
well_formed (object ms) =
    if nat_eq (member_count ms) 3
    then only_well_formed (
        payload_from (field (codes "blinded_key") ms) (field (codes "config_digest") ms)
          (field (codes "election_id") ms))
    else none
well_formed _ = none

abbrev pub starts_with : Bytes → Bytes → Bool
starts_with prefix document = take (length prefix) document == prefix

-- `document.find(needle)`, and what follows from there.
unfoldable pub find_from : Bytes → Bytes → Option Bytes
find_from needle [] = if nat_eq (length needle) 0 then some [] else none
find_from needle (b ∷ bs) =
    let later = find_from needle bs in if starts_with needle (b ∷ bs) then some (b ∷ bs) else later

-- What stands before the needle, where it is found.
unfoldable pub before : Bytes → Bytes → Option Bytes
before needle [] = if nat_eq (length needle) 0 then some [] else none
before needle (b ∷ bs) =
    let later = before needle bs in
    if starts_with needle (b ∷ bs)
    then some []
    else elim later [ none ↦ none | some p ↦ some (b ∷ p) ]

-- The white space that `bytes.strip` removes.
abbrev pub is_blank : ℕ → Bool
is_blank c = nat_eq c 32 || (ltb 8 c && ltb c 14)

abbrev pub strip_left : Bytes → Bytes
strip_left [] = []
strip_left (b ∷ bs) = if is_blank b then strip_left bs else b ∷ bs

abbrev pub strip_right : Bytes → Bytes
strip_right [] = []
strip_right (b ∷ bs) = elim (strip_right bs) [
  | [] ↦ if is_blank b then [] else b ∷ []
  | c ∷ cs ↦ b ∷ c ∷ cs
]

unfoldable pub from_marker : Bytes → Option Bytes
unfolding find_from before
from_marker document = elim (find_from marker document) [
  | none ↦ none
  | some rest ↦
      let carried = drop (length marker) rest in
      elim (before (10 ∷ []) rest) [
        | none ↦ some carried
        | some line ↦ some (drop (length marker) line)
      ]
]

-- The search for the end goes on from the start of the stream.
unfoldable pub from_embedded : Bytes → Option Bytes
unfolding find_from before
from_embedded document = elim (find_from (codes "/Type /EmbeddedFile") document) [
  | none ↦ none
  | some at ↦ elim (find_from (codes "stream\n") at) [
    | none ↦ none
    | some start ↦ elim (before (codes "endstream") start) [
      | none ↦ none
      | some body ↦ some (strip_right (strip_left (drop 7 body)))
    ]
  ]
]

-- What `extract` returns: the payload and where it was found, or the refusal.
pub data Extracted : Type 0 where
  candidate : Payload → String → Extracted
  nothing : Refusal → Extracted

abbrev pub read_candidate : (Bytes → Option Value) → String → Bytes → Extracted
read_candidate loads place raw = elim (loads raw) [
  | none ↦ nothing not_a_request_document
  | some v ↦ elim (well_formed v) [
    | none ↦ nothing not_a_request_document
    | some p ↦ candidate p place
  ]
]

unfoldable pub extract : (Bytes → Option Value) → Bytes → Extracted
unfolding from_marker from_embedded well_formed
extract loads document = elim (from_embedded document) [
  | none ↦ elim (from_marker document) [
    | none ↦ nothing not_a_request_document
    | some raw ↦ read_candidate loads "marker comment" raw
  ]
  | some raw ↦ elim (from_marker document) [
    | none ↦ read_candidate loads "embedded file" raw
    | some other ↦
        if raw == other then read_candidate loads "embedded file" raw else nothing carriers_disagree
  ]
]

module _ ⦃crypto : Crypto⦄ where
  unfoldable pub check : (Bytes → Option Value) → Bytes → ℕ → DocumentCheck
  unfolding extract
  check loads document covered = elim (extract loads document) [
    | nothing r ↦ refused r none
    | candidate p place ↦ elim (render p) [
      | none ↦ refused not_as_rendered none
      | some expected ↦
          if not (take (length expected) document == expected)
          then refused not_as_rendered (some (length expected))
          else if ltb covered (length expected)
          then refused signature_does_not_cover_it (some (length expected))
          else accepted p place (length expected)
    ]
  ]
