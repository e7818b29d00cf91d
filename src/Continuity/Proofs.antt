-- ===== src/Continuity/Proofs.antt =====
-- What the rules of task_continuity.py say together.
pub mod Permits
pub mod Settled
pub mod Identity
pub mod Requests
pub mod Blind
