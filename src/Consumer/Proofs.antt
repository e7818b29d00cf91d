-- ===== src/Consumer/Proofs.antt =====
-- What the consumer of consumer.py does to the control object, to the commands that it runs and to its journal.
pub mod Steps
pub mod Quiet
pub mod Calls
pub mod Reports
pub mod Admitted
pub mod Asked
pub mod Handling
pub mod Unproven
pub mod Stopping
pub mod Ledgers
pub mod Pools
pub mod Lives
pub mod Reading
