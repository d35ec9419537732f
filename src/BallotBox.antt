-- ===== src/BallotBox.antt =====
-- The electronic ballot box of src/ovpoc/ballotbox.py, one module to a part of the class.
pub mod State
pub mod Count
pub mod Cadence
pub mod Timer
pub mod Phase
pub mod Submit
pub mod Verdict
pub mod Steps
pub mod Invariant
pub mod History
pub mod Supersession
pub mod Totals
pub mod Published
pub mod Restore
pub mod Reloading
pub mod Withholding
