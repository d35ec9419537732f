-- ===== src/Vro/Supervision.antt =====
-- What a supervisor can check of the register that src/ovpoc/vro.py shows, and the stored form of a
-- request.
use mathlib.Core.Path.{subst}
use online_voting_poc.Prelude.{
  Option, none, ℕ, suc, ◌+◌, ◌≡◌, refl, ap, sym, ◌∙◌, some, List, [], ◌∷◌, map, All, length,
  length-map, contains, List-eq,
}
use online_voting_poc.Prelude.Dict.{Dict, keys, lookup}
use online_voting_poc.Bytes.{Bytes, Text, IsByte, hex}
use online_voting_poc.Base64.{b64}
use online_voting_poc.Base64.RoundTrip.{unb64-b64}
use online_voting_poc.Crypto.{Crypto}
use online_voting_poc.Ledger.{genesis, head, payloads}
use online_voting_poc.Ledger.Chain.{hash_from, head-chain, verify_chain-eq-chain}
use online_voting_poc.Vro.State.{
  Vro, Release, Release-wire, SignedRequest, wallet, document, TokenRequest, create, commit,
}
use online_voting_poc.Vro.Query.{signed_release_head, signed_release_count, release_count}
use online_voting_poc.Vro.Register.{entry_of}
use online_voting_poc.Rsabssa.{PrivateKey}
use online_voting_poc.Keys.{SigningKeyPair}
use online_voting_poc.PopulationRegister.{PopulationRegister}
use online_voting_poc.Vro.Steps.{Reach}
use online_voting_poc.Vro.Requests.{Asked, IsAskedFor, create-IsAskedFor}
use online_voting_poc.Vro.Storage.{
  SupervisedRelease, SupervisedRequest, by_wallet, by_document, supervised, supervision_dump,
  request_for_supervision, request_to_stored, request_from_stored,
}

-- What the types of the source say: these fields are `bytes`.
abbrev pub IsRequestOfBytes : SignedRequest → Type 0
IsRequestOfBytes (wallet c signature) = All IsByte c × All IsByte signature
IsRequestOfBytes (document c doc qualified vouched) = All IsByte c × All IsByte doc

-- A request of either route that was stored is read back as it was.
pub request_from_stored-request_to_stored :
    (r : SignedRequest) → IsRequestOfBytes r → request_from_stored (request_to_stored r) ≡ some r
unfolding request_from_stored request_to_stored
request_from_stored-request_to_stored (wallet c signature) (hc, hs) =
    rw (unb64-b64 c hc, unb64-b64 signature hs)
request_from_stored-request_to_stored (document c doc qualified vouched) (hc, hd) =
    rw (unb64-b64 c hc, unb64-b64 doc hd)

abbrev pub release_row : SupervisedRelease → Release
release_row r = record { commitment = r.commitment }

abbrev pub Positions : ℕ → List SupervisedRelease → Type 0
Positions i [] = Unit
Positions i (r ∷ rs) = (r.index ≡ i) × Positions (suc i) rs

module _ ⦃crypto : Crypto⦄ where
  supervised-rows :
      (v : Vro) (i : ℕ) (d : Dict Text Bytes)
      → (map release_row (supervised v i d) ≡ map entry_of d)
        × (map (λ r. r.voter_id) (supervised v i d) ≡ keys d)
        × Positions i (supervised v i d)
  unfolding supervised
  supervised-rows v i [] = (refl, refl, tt)
  supervised-rows v i ((k, o) ∷ rest) =
      let (rows, names, ps) = supervised-rows v (suc i) rest in
      (ap (◌∷◌ (entry_of (k, o))) rows, ap (◌∷◌ k) names, (refl, ps))

  -- A request as a supervisor sees it: a wallet's with its signature, which can be checked; of a
  -- document the hash, the length and what the validator found.
  abbrev pub ShownAs : SignedRequest → Option SupervisedRequest → Type 0
  ShownAs (wallet c signature) shown = shown ≡ some (by_wallet (b64 c) (b64 signature))
  ShownAs (document c doc qualified vouched) shown =
      shown ≡ some (by_document (b64 c) (hex (crypto.sha256 doc)) (length doc) qualified vouched)

  -- The row opens its commitment, and shows the request and whether its voter enrolled by a signature
  -- of their own.
  abbrev pub Shows : Vro → SupervisedRelease → TokenRequest → Type 0
  Shows v row q =
      (q.voter_id ≡ row.voter_id)
      × ((o : Bytes) × (row.opening ≡ b64 o) × (row.commitment ≡ b64 (commit row.voter_id o)))
      × ShownAs q.evidence row.request
      × (row.self_enrolled ≡ contains row.voter_id v.self_enrolled)

  request_for_supervision_lem : (r : SignedRequest) → ShownAs r (some (request_for_supervision r))
  unfolding request_for_supervision
  request_for_supervision_lem (wallet c signature) = refl
  request_for_supervision_lem (document c doc qualified vouched) = refl

  shown-kept :
      (e : SignedRequest) (o : Option SignedRequest)
      → o ≡ some e
      → ShownAs e (elim o [ none ↦ none | some r ↦ some (request_for_supervision r) ])
  shown-kept e o h = rw h (request_for_supervision_lem e)

  supervised-Shows :
      {u v : Vro} (r : Reach u v) (i : ℕ) (d : Dict Text Bytes)
      → All (IsAskedFor r) (keys d)
      → All (λ row. (q : TokenRequest) × Asked r q × Shows v row q) (supervised v i d)
  unfolding supervised
  supervised-Shows r i [] _ = tt
  supervised-Shows {u} {v} r i ((k, o) ∷ rest) ((q, asked, named, kept), others) = (
    (q, asked, (named, (o, refl, refl), shown-kept q.evidence (lookup k v.requests) kept, refl)),
    supervised-Shows r (suc i) rest others,
  )

  -- What a supervisor reads of an office, whatever the calls of both routes, the supervisors and the
  -- settings did to it since it was new, proves itself: the rows name the released identifiers, in
  -- order and numbered from zero; each opens its commitment, and shows the request, of the run and
  -- under its identifier, that a token was released for, and whether that voter enrolled by their own
  -- signature; the commitments are the published ones, and chain to the head that is shown beside
  -- them; the count is the number of rows; and the reading counts itself.
  pub supervision_dump_lem :
      (people : PopulationRegister) (key : PrivateKey) (pair : SigningKeyPair) (election : Text)
      (v : Vro) (r : Reach (create people key pair election) v)
      → let (w, dump) = supervision_dump v in
        (map (λ r. r.voter_id) dump.releases ≡ v.released)
        × Positions 0 dump.releases
        × All (λ row. (q : TokenRequest) × Asked r q × Shows v row q) dump.releases
        × (map release_row dump.releases ≡ payloads v.release_log)
        × (hex (hash_from 0 genesis (map release_row dump.releases)) ≡ dump.head)
        × (dump.count ≡ length dump.releases)
        × (w.supervisor_downloads ≡ v.supervisor_downloads + 1)
  unfolding supervision_dump signed_release_head signed_release_count release_count
  supervision_dump_lem people key pair election v r =
      let (s, asked) = create-IsAskedFor people key pair election v r in
      let (rows, names, ps) = supervised-rows v 0 v.openings in
      let all : map release_row (supervised v 0 v.openings) ≡ payloads v.release_log =
        rows ∙ sym s.logged in
      let heads : hash_from 0 genesis (payloads v.release_log) ≡ head v.release_log = sym (
        ap head ((verify_chain-eq-chain v.release_log).0 s.verifies)
        ∙ head-chain (payloads v.release_log)) in
      let number : length (payloads v.release_log) ≡ length (supervised v 0 v.openings) =
        sym (ap length all) ∙ length-map release_row (supervised v 0 v.openings) in
      (
        names ∙ sym s.opened,
        ps,
        supervised-Shows r 0 v.openings (subst (All (IsAskedFor r)) s.opened asked),
        all,
        ap (λ x. hex (hash_from 0 genesis x)) all ∙ ap hex heads,
        sym (length-map (λ e. e.payload) v.release_log.entries) ∙ number,
        refl,
      )
