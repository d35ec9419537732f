-- ===== src/Tests/Office.antt =====
-- The theorems on the registration office at a concrete office.
use Prim.Native.String.{String}
use online_voting_poc.Prelude.{
  ◌<◌, ◌≡◌, ◌≢◌, ◌↔◌, refl, true, false, none, some, [], ◌∷◌, ◌++◌, arith, length, contains, All,
  List-eq, list_eq,
}
use online_voting_poc.Prelude.Dict.{lookup}
use online_voting_poc.Bytes.{Bytes, bit_length, from_bytes}
use online_voting_poc.Keys.{public_bytes, sign, verify_signature, verify_signature-sign}
use online_voting_poc.Messages.{request_payload}
use online_voting_poc.Ledger.{payloads, head}
use online_voting_poc.Rsabssa.{modulus_bytes, blind_sign, check_blind_signature}
use online_voting_poc.Rsabssa.Pss.{ok}
use online_voting_poc.PopulationRegister.{Certificate, is_expired}
use online_voting_poc.Vro.State.{
  Release-wire, create, not_identified, reserved, issued, token_request, release_query_payload,
  verify_denial, office_public_key, verify_release_head, verify_release_count,
}
use online_voting_poc.Vro.Office.{
  answer, enrol_voter, reserve, release, issue_token, respond, reserved_for,
}
use online_voting_poc.Vro.Query.{
  ReleaseAnswer, released, not_released, query_token_release, verify_release_answer,
  signed_release_head, signed_release_count,
}
use online_voting_poc.Vro.Steps.{Reach, here, next, issues, enrols}
use online_voting_poc.Vro.Register.{published, entry_of, IsConsistent}
use online_voting_poc.Vro.OneToken.{create-IsConsistent}
use online_voting_poc.Vro.Requests.{IsAskedFor, create-IsAskedFor}
use online_voting_poc.Vro.Boundary.{
  IsIdentified, IsEntitled, reserve-boundary, reserve-reserved_iff,
}
use online_voting_poc.Vro.Answers.{query_token_release_lem, signed_release_count_lem}
use online_voting_poc.Vro.Remembering.{signature_of}
use online_voting_poc.Vro.Issuing.{release-recorded, one_token, issue_token-issued}
use online_voting_poc.Tests.Toy.{
  toy, office_key, election, pair, people, cert, voter, wallet_key, unsigned_request, request,
  opening, office, office_issued,
}
use online_voting_poc.Tests.Codec.{office_key-IsRsaKey}

pub office-Reach : Reach (create people office_key pair election) office_issued
office-Reach = next (next here (enrols voter)) (issues 3 opening request)

create-IsAskedFor_example :
    IsConsistent office_issued × All (IsAskedFor office-Reach) office_issued.released
create-IsAskedFor_example =
    create-IsAskedFor people office_key pair election office_issued office-Reach

pub office_issued-IsConsistent : IsConsistent office_issued
office_issued-IsConsistent =
    create-IsConsistent people office_key pair election office_issued office-Reach

office-IsConsistent : IsConsistent office
office-IsConsistent =
    create-IsConsistent people office_key pair election office (next here (enrols voter))

reserve-boundary_example :
    ((¬ ((c : Certificate) × IsIdentified office request c))
      → ((reserve 3 request office).1 ≡ respond not_identified)
        × ((why : String) × ((reserve 3 request office).0 ≡ record office {
          audit =
              office.audit
              ++ record { voter_id = request.voter_id; outcome = not_identified; reason = why }
                ∷ [];
        })))
    × ((c : Certificate)
        → IsIdentified office request c
        → (reserve 3 request office).1.outcome ≢ not_identified)
reserve-boundary_example = reserve-boundary 3 office request

reserve-reserved_iff_example :
    ((reserve 3 request office).1.outcome ≡ reserved)
    ↔ ((c : Certificate) × IsEntitled 3 office request c)
reserve-reserved_iff_example = reserve-reserved_iff 3 office request

entitled : IsEntitled 3 office request cert
unfolding enrol_voter create list_eq is_expired public_bytes request_payload
entitled = record {
  identified = record {
    found = refl;
    signed = verify_signature-sign wallet_key (request_payload unsigned_request);
  };
  not_revoked = refl;
  not_expired = refl;
  on_register = refl;
  not_released = refl;
  not_pending = refl;
}

short : length request.blinded_key ≡ modulus_bytes office_key.public.modulus
unfolding bit_length
short = refl

small : from_bytes request.blinded_key < office_key.public.modulus
unfolding from_bytes
small = omega arith

issue_token-issued_example :
    let (w, reply) = issue_token 3 opening request office in
    (s : Bytes) × (reply ≡ answer (record { outcome = issued; blind_signature = some s }))
    × (blind_sign office.private_key request.blinded_key ≡ ok s)
    × (check_blind_signature office.public_key request.blinded_key s ≡ true)
    × (contains request.voter_id w.released ≡ true)
unfolding enrol_voter create
issue_token-issued_example =
    issue_token-issued 3 opening office request cert entitled office_key-IsRsaKey refl short small

issued_voter : contains voter office_issued.released ≡ true
issued_voter = issue_token-issued_example.4

one_token_example :
    (published (issue_token 4 opening request office_issued).0 ≡ published office_issued)
    × (signature_of (issue_token 4 opening request office_issued).1 ≡ none)
    × (published (release opening (token_request request) office_issued).0
        ≡ published office_issued)
    × (signature_of (release opening (token_request request) office_issued).1 ≡ none)
one_token_example =
    one_token office_issued office_issued request 4 opening office_issued-IsConsistent issued_voter
      here

release-recorded_example :
    let (w, reply) = release opening (token_request request) office_issued in
    (reserved_for (token_request request) office_issued ≡ true
      → (payloads w.release_log
          ≡ payloads office_issued.release_log ++ entry_of (voter, opening) ∷ [])
        × (w.released ≡ office_issued.released ++ voter ∷ [])
        × (lookup voter w.reserved ≡ none)
        × IsConsistent w)
    × (reserved_for (token_request request) office_issued ≡ false
        → (published w ≡ published office_issued) × (signature_of reply ≡ none))
release-recorded_example =
    release-recorded opening (token_request request) office_issued office_issued-IsConsistent

signed_release_count_lem_example :
    let (n, count_signature) = signed_release_count office_issued in
    let (h, head_signature) = signed_release_head office_issued in
    (n ≡ length office_issued.released)
    × (verify_release_count
          (office_public_key office_issued)
          office_issued.election_id
          n
          count_signature
        ≡ true)
    × (h ≡ head office_issued.release_log)
    × (verify_release_head
          (office_public_key office_issued)
          office_issued.election_id
          h
          head_signature
        ≡ true)
signed_release_count_lem_example = signed_release_count_lem office_issued office_issued-IsConsistent

query_signed :
    verify_signature cert.public_key
      (sign wallet_key (release_query_payload voter))
      (release_query_payload voter)
    ≡ true
unfolding public_bytes
query_signed = verify_signature-sign wallet_key (release_query_payload voter)

query_token_release_lem_example :
    let signature = sign wallet_key (release_query_payload voter) in
    (contains voter office.released ≡ true
      → (a : ReleaseAnswer) × (query_token_release voter signature office ≡ some a)
        × (a.outcome ≡ released)
        × (verify_release_answer (payloads office.release_log) voter a ≡ true))
    × (contains voter office.released ≡ false
        → (a : ReleaseAnswer) × (denial : Bytes) × (query_token_release voter signature office
            ≡ some a)
          × (a.outcome ≡ not_released)
          × (a.signed_denial ≡ some denial)
          × (verify_denial (office_public_key office) voter denial ≡ true))
unfolding enrol_voter create list_eq
query_token_release_lem_example =
    query_token_release_lem voter (sign wallet_key (release_query_payload voter)) office cert
      office-IsConsistent refl query_signed
