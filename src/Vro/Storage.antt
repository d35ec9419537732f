-- ===== src/Vro/Storage.antt =====
-- The storage of the office in src/ovpoc/vro.py: `stored_state`, `restore_releases` with
-- `_in_chain_order`, the stored form of a request, and the dump for a supervisor.
use online_voting_poc.Prelude.{
  ℕ, suc, ◌+◌, Bool, true, false, Option, none, some, List, [], ◌∷◌, map, length, contains, add,
  is_some, List-eq, ◌==◌, if◌then◌else◌,
}
use online_voting_poc.Prelude.Dict.{Dict, lookup, insert}
use online_voting_poc.Prelude.Options.{◌>>=◌}
use online_voting_poc.Bytes.{Bytes, Text, hex}
use online_voting_poc.Base64.{b64, unb64}
use online_voting_poc.Json.{text_lt}
use online_voting_poc.Crypto.{Crypto}
use online_voting_poc.Ledger.{Ledger, head, payloads, append_all}
use online_voting_poc.Vro.State.{
  Vro, Release, Release-wire, AuditEntry, SignedRequest, wallet, document, commit,
}
use online_voting_poc.Vro.Query.{signed_release_head, signed_release_count}

unfoldable pub insert_text : Text → List Text → List Text
insert_text t [] = t ∷ []
insert_text t (u ∷ us) =
    let later = insert_text t us in if text_lt t u then t ∷ u ∷ us else u ∷ later

-- `sorted`, of a set of identifiers.
unfoldable pub sort_texts : List Text → List Text
unfolding insert_text
sort_texts [] = []
sort_texts (t ∷ ts) = insert_text t (sort_texts ts)

-- `set(...)`.
abbrev pub set_of : List Text → List Text
set_of [] = []
set_of (t ∷ ts) = add t (set_of ts)

-- A request as `poll.state.json` holds it; the pair is how older polls were written.
pub data StoredRequest : Type 0 where
  stored_wallet : (blinded_key wallet_signature : Text) → StoredRequest
  stored_document :
      (blinded_key document : Text) (qualified signing_time_vouched : Option Bool) → StoredRequest
  stored_pair : (blinded_key wallet_signature : Text) → StoredRequest

unfoldable pub request_to_stored : SignedRequest → StoredRequest
request_to_stored (wallet c signature) = stored_wallet (b64 c) (b64 signature)
request_to_stored (document c doc qualified vouched) =
    stored_document (b64 c) (b64 doc) qualified vouched

-- `none` where a value is no base64.
unfoldable pub request_from_stored : StoredRequest → Option SignedRequest
request_from_stored (stored_wallet c signature) = do
  c' ← unb64 c
  signature' ← unb64 signature
  some (wallet c' signature')
request_from_stored (stored_document c doc qualified vouched) = do
  c' ← unb64 c
  doc' ← unb64 doc
  some (document c' doc' qualified vouched)
request_from_stored (stored_pair c signature) = do
  c' ← unb64 c
  signature' ← unb64 signature
  some (wallet c' signature')

-- `ordered.setdefault(voter_id, opening)`, for each opening.
unfoldable pub set_defaults : Dict Text Bytes → Dict Text Bytes → Dict Text Bytes
set_defaults ordered [] = ordered
set_defaults ordered ((k, o) ∷ rest) =
    set_defaults (if is_some (lookup k ordered) then ordered else insert k o ordered) rest

-- One round of the loop over the entries. Every identifier that a commitment leads to is one of the
-- openings.
abbrev pub place : Dict Text Bytes → Option Text → Dict Text Bytes → Dict Text Bytes
place openings none ordered = ordered
place openings (some k) ordered =
    if is_some (lookup k ordered)
    then ordered
    else elim (lookup k openings) [ none ↦ ordered | some o ↦ insert k o ordered ]

unfoldable pub thread :
    Dict Text Text → Dict Text Bytes → Dict Text Bytes → List Release → Dict Text Bytes
thread by openings ordered [] = ordered
thread by openings ordered (r ∷ rs) =
    thread by openings (place openings (lookup r.commitment by) ordered) rs

-- What `stored_state` returns.
pub record StoredOffice : Type 0 where
  pub releases : List Release
  pub head : Text
  pub released : List Text
  pub openings : Dict Text Text
  pub audit : List AuditEntry
  pub requests : Dict Text StoredRequest
  pub self_enrolled : List Text
  pub supervisor_downloads : ℕ

-- What a supervisor is shown of a citizen's request: `_request_for_supervision`.
pub data SupervisedRequest : Type 0 where
  by_wallet : (blinded_key request_signature : Text) → SupervisedRequest
  by_document :
      (blinded_key request_document_sha256 : Text) (request_document_bytes : ℕ)
      (request_qualified request_time_vouched : Option Bool)
      → SupervisedRequest

pub record SupervisedRelease : Type 0 where
  pub index : ℕ
  pub voter_id : Text
  pub opening : Text
  pub commitment : Text
  pub self_enrolled : Bool
  pub request : Option SupervisedRequest

pub record SupervisionDump : Type 0 where
  pub enrol_on_qualified_signature : Bool
  pub self_enrolled : List Text
  pub releases : List SupervisedRelease
  pub audit : List AuditEntry
  pub head : Text
  pub head_signature : Text
  pub count : ℕ
  pub count_signature : Text

module _ ⦃crypto : Crypto⦄ where
  -- `by_commitment`: the identifier that each commitment is of.
  unfoldable pub by_commitment : Dict Text Text → Dict Text Bytes → Dict Text Text
  by_commitment by [] = by
  by_commitment by ((k, o) ∷ rest) = by_commitment (insert (b64 (commit k o)) k by) rest

  unfoldable pub in_chain_order : Ledger Release → Dict Text Bytes → Dict Text Bytes
  unfolding by_commitment thread set_defaults
  in_chain_order log openings =
      set_defaults (thread (by_commitment [] openings) openings [] (payloads log)) openings

  unfoldable pub stored_state : Vro → StoredOffice
  unfolding request_to_stored sort_texts
  stored_state v = record {
    releases = payloads v.release_log;
    head = b64 (head v.release_log);
    released = sort_texts v.released;
    openings = map (λ e. (e.0, b64 e.1)) v.openings;
    audit = v.audit;
    requests = map (λ e. (e.0, request_to_stored e.1)) v.requests;
    self_enrolled = v.self_enrolled;
    supervisor_downloads = v.supervisor_downloads;
  }

  -- The office after the call, and whether it went through; where it did not, the code raises
  -- ValueError, and has appended the commitments to the log.
  unfoldable pub restore_releases :
      List Release
      → List Text
      → Dict Text Bytes
      → List AuditEntry
      → Dict Text SignedRequest
      → ℕ
      → Bytes
      → List Text
      → Vro
      → Vro × Bool
  unfolding in_chain_order
  restore_releases releases released openings audit requests downloads expected self_enrolled v =
      let log = append_all v.release_log releases in
      if head log == expected
      then (
        record v {
          release_log = log;
          released = released;
          openings = in_chain_order log openings;
          audit = audit;
          requests = requests;
          self_enrolled = self_enrolled;
          supervisor_downloads = downloads;
        },
        true,
      )
      else (record v { release_log = log }, false)

  unfoldable pub request_for_supervision : SignedRequest → SupervisedRequest
  request_for_supervision (wallet c signature) = by_wallet (b64 c) (b64 signature)
  request_for_supervision (document c doc qualified vouched) =
      by_document (b64 c) (hex (crypto.sha256 doc)) (length doc) qualified vouched

  -- The rows of the register, from an index on.
  unfoldable pub supervised : Vro → ℕ → Dict Text Bytes → List SupervisedRelease
  unfolding request_for_supervision
  supervised v i [] = []
  supervised v i ((k, o) ∷ rest) =
      record {
        index = i;
        voter_id = k;
        opening = b64 o;
        commitment = b64 (commit k o);
        self_enrolled = contains k v.self_enrolled;
        request = elim (lookup k v.requests) [
          | none ↦ none
          | some r ↦ some (request_for_supervision r)
        ];
      }
      ∷ supervised v (suc i) rest

  -- Reading the register counts itself.
  unfoldable pub supervision_dump : Vro → Vro × SupervisionDump
  unfolding supervised sort_texts
  supervision_dump v =
      let (h, head_signature) = signed_release_head v in
      let (count, count_signature) = signed_release_count v in
      (
        record v { supervisor_downloads = v.supervisor_downloads + 1 },
        record {
          enrol_on_qualified_signature = v.enrol_on_qualified_signature;
          self_enrolled = sort_texts (set_of v.self_enrolled);
          releases = supervised v 0 v.openings;
          audit = v.audit;
          head = hex h;
          head_signature = b64 head_signature;
          count = count;
          count_signature = b64 count_signature;
        },
      )
