-- ===== src/TaskControl.antt =====
-- task_control.py: addressed contract delivery between two independent harnesses.
pub mod Model
pub mod Result
pub mod Validate
pub mod Rules
pub mod Wire
pub mod Port
pub mod Authority
pub mod Changes
pub mod Views
pub mod Lookup
pub mod Requester
pub mod Inbox
pub mod Recipient
pub mod Calls
pub mod Proofs
mod Fixtures
mod Tests
