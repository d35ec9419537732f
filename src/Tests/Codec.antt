-- ===== src/Tests/Codec.antt =====
-- The codecs, the logs and the blind signatures at concrete inputs.
use online_voting_poc.Prelude.{
  ℕ, ◌*◌, ◌^◌, ◌%◌, ◌<◌, ◌≡◌, ◌↔◌, ◌⊎◌, ap, ◌∙◌, refl, true, some, List, [], ◌∷◌, map, arith,
}
use native.Mathlib.Nat.{pow-suc, pow-zero}
use online_voting_poc.Bytes.{Bytes, from_bytes, to_bytes, bit_length}
use online_voting_poc.Bytes.BigEndian.{from_bytes-to_bytes}
use online_voting_poc.Base64.{b64, unb64}
use online_voting_poc.Base64.RoundTrip.{unb64-b64}
use online_voting_poc.Ledger.{Ledger, empty, append, append_all, payloads, verify_chain, size}
use online_voting_poc.Ledger.Chain.{append_all-empty, verify_chain-chain, verify_chain_iff}
use online_voting_poc.Ledger.Tamper.{Broken, hashed, serialised, same_head-same_records}
use online_voting_poc.Rsabssa.{blind_sign}
use online_voting_poc.Rsabssa.Pss.{ok}
use online_voting_poc.Rsabssa.Unblinding.{IsRsaKey}
use online_voting_poc.Vro.State.{Release, Release-wire}
use online_voting_poc.Tests.Toy.{toy, office_key}

abbrev octets : Bytes
octets = 0 ∷ 255 ∷ 16 ∷ 3 ∷ []

unb64-b64_example : unb64 (b64 octets) ≡ some octets
unb64-b64_example = unb64-b64 octets (omega arith, (omega arith, (omega arith, (omega arith, tt))))

from_bytes-to_bytes_example : from_bytes (to_bytes 3 70000) ≡ 70000
from_bytes-to_bytes_example = from_bytes-to_bytes 3 70000 (omega arith)

abbrev releases : List Release
releases = record { commitment = b'a' ∷ [] } ∷ record { commitment = b'b' ∷ [] } ∷ []

abbrev log : Ledger Release
log = append_all empty releases

log_verifies : verify_chain log ≡ true
log_verifies = ap verify_chain (append_all-empty releases) ∙ verify_chain-chain releases

verify_chain_iff_example : (verify_chain log ≡ true) ↔ (append_all empty (payloads log) ≡ log)
verify_chain_iff_example = verify_chain_iff log

log_size : size log < 2 ^ 64
unfolding append_all append
log_size = omega arith

same_head-same_records_example :
    (map serialised (payloads log) ≡ map serialised (payloads log))
    ⊎ Broken (hashed log) (hashed log)
same_head-same_records_example =
    same_head-same_records log log log_size log_size log_verifies log_verifies refl

pub office_key-IsRsaKey : IsRsaKey office_key
office_key-IsRsaKey = (omega arith, λ x. ap (λ y. y % 251) (one x))
  where
    one : (x : ℕ) → x ^ 1 ≡ x
    one x = pow-suc x 0 ∙ ap (λ t. t * x) (pow-zero x) ∙ omega arith

signed : blind_sign office_key (7 ∷ []) ≡ ok (7 ∷ [])
unfolding blind_sign bit_length from_bytes to_bytes
signed = refl
