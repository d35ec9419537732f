-- ===== src/Lib.antt =====
-- A proof of concept for online voting: voters obtain a blindly signed token from a registration
-- office and cast ballots under an ad-hoc key into a ballot box whose logs are hash chains.
--
-- The parts and how they interact. A voter sends the office (src/ovpoc/vro.py) a request that a
-- wallet key signs; the office looks the person up in the population register
-- (driver/population_register.py), reserves the identifier, records a commitment in its release log
-- (src/ovpoc/ledger.py) and signs the blinded key (src/ovpoc/rsabssa.py). The voter unblinds the
-- signature and submits a ballot (src/ovpoc/messages.py) to the box (src/ovpoc/ballotbox.py), which
-- checks the token and the ballot's signature (src/ovpoc/keys.py) and appends it to one of two logs.
--
-- Which file models what:
--   Prelude     helpers: Boolean tests, lists by native numbers, equality tests, integers, Python's
--               dict as an association list in insertion order
--   Bytes       byte strings, to_bytes, from_bytes, bit_length and hex
--   Base64      b64 and unb64 of src/ovpoc/messages.py, down to the rules of binascii for padding
--   Json        canonical_bytes of src/ovpoc/messages.py over flat dictionaries; Value is json.dumps
--               over nested ones, canonical and indented
--   Crypto      what is taken from hashlib and the cryptography package, as parameters with laws
--   Keys        src/ovpoc/keys.py: SigningKeyPair, verify_signature
--   Messages    src/ovpoc/messages.py: AuthRequest, Ballot, digest and the signed payloads
--   Ledger      src/ovpoc/ledger.py: append, head, verify_chain; Chain and Tamper are about them
--   Rsabssa     src/ovpoc/rsabssa.py: blind, blind_sign, check_blind_signature, finalize; Pss is the
--               encoding, Modular and Unblinding the arithmetic
--   BallotBox   src/ovpoc/ballotbox.py. State: BallotBox and its statements (new_box is the
--               constructor with __post_init__). Cadence: _publish, _catch_up (catch_up, with advance
--               for one round) and set_publication_interval. Phase: open (open_poll), close
--               (close_poll), _declare. Submit: submit, in the parts judge, accept and reject. Count:
--               effective_ballots, _count, find_ballot. Published: published_view and tally. Restore:
--               stored_state and restore. Steps: the calls in any order. The others hold theorems.
--   PopulationRegister  driver/population_register.py
--   Vro         src/ovpoc/vro.py. State: VRO and its statements. Office: reserve, _claim (claim),
--               release (record_release, then sign_release), issue_token, cancel_reservation. Query:
--               query_token_release and the signed figures. Document: the document route. Storage:
--               stored_state, restore_releases, the stored form of a request, supervision_dump. Steps:
--               the calls of both routes, a supervisor's reading and the settings, in any order; a
--               reload, which comes before them, is no step. The others hold theorems: Requests is
--               about who asked for a token, and Reordering about a reload.
--   PdfRequest  src/ovpoc/pdfrequest.py: extract and check; Render is render, to the byte
--   Election    service/election.py: the published configuration
--   Generate    service/generate.py: identifiers, Distribution and, in Casting, what populate draws;
--               Drawn and Planned are about an accepted plan, Outcome, Choices and Poll about the
--               submissions made from it
--   Dumps       ledger_dump and releases_dump of service/api.py
--   Verifier    tools/verify_election.py: run_checks, one function to a section; Checks is its Report.
--               Agreement relates what it computes to what the library computes, Verdict takes the
--               checks apart, Files, Sections and Evidence say what they establish; Typed, Served,
--               Honest, Figures and Forgery are about the served files of a box and an office
--   Voter       src/ovpoc/voter.py (cast is cast_ballot) and AdHocKeyHandle of src/ovpoc/handles.py
--   Tests       a concrete instance of the primitives, and the theorems at concrete inputs
--
-- Conventions. State is passed explicitly. A method that raises returns none, or a value of an error
-- type; where the code changes the state before it raises, the changed state is returned as well, as
-- for a release whose signing fails. The clock and every random draw (salt, blinding factor, opening)
-- are arguments. Instants are whole numbers of seconds. A set is a list without repetitions.
--
-- Bounds and fuel. bit_length has its number as fuel, and a number has no more binary digits than its
-- value; gcd has its second number and one, since that number falls in every round; decimal has its
-- number and one; catch_up has the seconds since the next boundary and one, since an interval is at
-- least a second. The index that an entry hash covers is eight bytes long.
--
-- What is taken from outside. Crypto holds hashlib and the cryptography package. The signature
-- validator (driver/qualified_signature.py, driver/trusted_list.py), json.loads and
-- load_der_public_key are arguments of the definitions that use them; of the first two nothing is
-- assumed, of the last that it reads back the key that was published.
--
-- What is not modelled: key generation; the timing fields and labels of the published view; reading
-- JSON; the coordinates of a rendered page from a million on, which Python writes with an exponent;
-- the service but for the configuration, the dumps and the plan of a generated election, the other
-- tools and the demonstrations, which are HTTP, files and printing; the drivers of trusted lists,
-- which call third-party validators; the web pages and the applications in other languages.
pub mod BallotBox
pub mod Base64
pub mod Bytes
pub mod Crypto
pub mod Dumps
pub mod Election
pub mod Generate
pub mod Json
pub mod Keys
pub mod Ledger
pub mod Messages
pub mod PdfRequest
pub mod PopulationRegister
pub mod Prelude
pub mod Rsabssa
pub mod Tests
pub mod Verifier
pub mod Voter
pub mod Vro
