-- ===== src/Tests/Toy.antt =====
-- A concrete instance of the primitives that the program takes from outside, with keys, a ballot, a
-- request, a box and an office to apply the theorems to.
use online_voting_poc.Prelude.{
  ℕ, ◌+◌, ◌-◌, ◌^◌, ◌%◌, ◌≡◌, refl, sym, map, All, All-append, arith, false, ◌&&◌, none, some, [],
  ◌∷◌, ◌++◌, length, ltb, nat_eq, list_eq, list_eq_iff,
}
use online_voting_poc.Prelude.Int.{pos}
use online_voting_poc.Bytes.{Bytes, IsByte, Text, from_bytes, to_bytes}
use online_voting_poc.Bytes.BigEndian.{length-to_bytes, to_bytes-IsByte}
use online_voting_poc.Crypto.{Crypto}
use online_voting_poc.Keys.{SigningKeyPair, sign}
use online_voting_poc.Messages.{AuthRequest, Ballot, ballot_payload, request_payload}
use online_voting_poc.Rsabssa.{PrivateKey, modulus_bytes}
use online_voting_poc.PopulationRegister.{PopulationRegister, Certificate}
use online_voting_poc.BallotBox.State.{BallotBox, new_box}
use online_voting_poc.BallotBox.Phase.{open_poll, close_poll}
use online_voting_poc.BallotBox.Submit.{submit}
use online_voting_poc.Vro.State.{Vro, create}
use online_voting_poc.Vro.Office.{enrol_voter, issue_token}

abbrev hash : ℕ → Bytes → Bytes
hash k x = to_bytes k (from_bytes x % (2 ^ 127 - 1) + 1)

-- The bytes of any list of numbers.
abbrev pub low : Bytes → Bytes
low = map (λ b. b % 256)

pub low-IsByte : (xs : Bytes) → All IsByte (low xs)
low-IsByte [] = tt
low-IsByte (x ∷ xs) = (omega arith, low-IsByte xs)

pub low-low : (xs ys : Bytes) → low (low xs ++ ys) ≡ low (xs ++ ys)
low-low [] ys = refl
low-low (x ∷ xs) ys = let e : x % 256 % 256 ≡ x % 256 = omega arith in rw (e, low-low xs ys)

instance abbrev pub toy : Crypto
toy = record {
  sha256 = hash 32;
  length-sha256 = λ x. length-to_bytes 32 _;
  sha256-IsByte = λ x. to_bytes-IsByte 32 _;
  sha384 = hash 48;
  length-sha384 = λ x. length-to_bytes 48 _;
  sha384-IsByte = λ x. to_bytes-IsByte 48 _;
  ed_public = low;
  ed_sign = λ k x. low (k ++ x);
  ed_verify = λ k s x. list_eq s (low (k ++ x));
  ed_verify-ed_sign = λ k x. (list_eq_iff (low (k ++ x)) (low (low k ++ x))).1 (sym (low-low k x));
  ed_public-IsByte = low-IsByte;
  ed_sign-IsByte = λ k x. low-IsByte (k ++ x);
  pss_verify =
      λ key msg s. nat_eq (length s) (modulus_bytes key.modulus) && ltb (from_bytes s) key.modulus;
  subject_public_key_info = λ key. to_bytes 200 key.modulus ++ to_bytes 4 key.exponent;
  subject_public_key_info-IsByte = λ key.
      All-append IsByte (to_bytes 200 key.modulus) (to_bytes 4 key.exponent)
        (to_bytes-IsByte 200 key.modulus) (to_bytes-IsByte 4 key.exponent);
}

abbrev pub election : Text
election = b'e' ∷ []

abbrev pub pair : SigningKeyPair
pair = record { private = 5 ∷ [] }

abbrev pub office_key : PrivateKey
office_key = record { public = record { modulus = 251; exponent = 1 }; secret = 1 }

abbrev pub ad_hoc : SigningKeyPair
ad_hoc = record { private = 9 ∷ [] }

abbrev pub unsigned_ballot : Ballot
unsigned_ballot = record {
  selection = pos 2;
  adhoc_public_key = 9 ∷ [];
  token = 3 ∷ [];
  vote_signature = [];
  nonce = 1 ∷ 2 ∷ [];
}

abbrev pub ballot : Ballot
ballot = record unsigned_ballot { vote_signature = sign ad_hoc (ballot_payload unsigned_ballot) }

abbrev pub box_new : BallotBox
box_new = new_box office_key.public 2 election pair (some 10) 0

abbrev pub box_open : BallotBox
box_open = elim (open_poll 1 box_new) [ none ↦ box_new | some b ↦ b ]

abbrev pub box_voted : BallotBox
box_voted = (submit 2 ballot box_open).0

abbrev pub box_closed : BallotBox
box_closed = close_poll 50 50 box_voted

abbrev pub voter : Text
voter = b'v' ∷ []

abbrev pub wallet_key : SigningKeyPair
wallet_key = record { private = 4 ∷ [] }

abbrev pub cert : Certificate
cert = record { subject = voter; public_key = 4 ∷ []; not_after = 100; revoked = false }

abbrev pub people : PopulationRegister
people = record { entries = (voter, cert) ∷ [] }

abbrev pub unsigned_request : AuthRequest
unsigned_request = record { voter_id = voter; blinded_key = 7 ∷ []; wallet_signature = [] }

abbrev pub request : AuthRequest
request = record unsigned_request {
  wallet_signature = sign wallet_key (request_payload unsigned_request);
}

abbrev pub office : Vro
office = enrol_voter voter (create people office_key pair election)

abbrev pub opening : Bytes
opening = 8 ∷ 8 ∷ []

abbrev pub office_issued : Vro
office_issued = (issue_token 3 opening request office).0
