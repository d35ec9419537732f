-- ===== src/BallotBox/Steps.antt =====
-- What can happen to a box of src/ovpoc/ballotbox.py while its methods are called, in any order and
-- at any time.
use online_voting_poc.Prelude.{ℕ, ◌≡◌, Option, some}
use online_voting_poc.Crypto.{Crypto}
use online_voting_poc.Messages.{Ballot}
use online_voting_poc.BallotBox.State.{BallotBox}
use online_voting_poc.BallotBox.Cadence.{catch_up, set_publication_interval}
use online_voting_poc.BallotBox.Phase.{open_poll, close_poll}
use online_voting_poc.BallotBox.Submit.{submit}

module _ ⦃crypto : Crypto⦄ where
  pub data Step (b : BallotBox) : BallotBox → Type 0 where
    submits : (now : ℕ) (ballot : Ballot) → Step b (submit now ballot b).0
    opens : (now : ℕ) {b' : BallotBox} → open_poll now b ≡ some b' → Step b b'
    closes : (now now' : ℕ) → Step b (close_poll now now' b)
    reads : (now : ℕ) → Step b (catch_up now b)
    retimes :
        (now : ℕ) (interval : Option ℕ) {b' : BallotBox}
        → set_publication_interval now interval b ≡ some b'
        → Step b b'

  pub data Reach (b : BallotBox) : BallotBox → Type 0 where
    here : Reach b b
    next : {c d : BallotBox} → Reach b c → Step c d → Reach b d
