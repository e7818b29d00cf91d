-- ===== src/TaskControl/Proofs.antt =====
-- What is proved of task_control.py.
pub mod Invariant
pub mod Newest
pub mod Changes
pub mod History
pub mod Spec
pub mod Store
pub mod Quiet
pub mod Combine
pub mod Start
pub mod Cancel
pub mod Submit
pub mod Finish
pub mod Deliver
pub mod Operations
pub mod Writes
pub mod Safety
pub mod Atomic
pub mod Authorized
pub mod Conditions
pub mod Answers
pub mod Runs
pub mod Retries
