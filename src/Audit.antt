-- ===== src/Audit.antt =====
-- The hash-chained audit log of src/universal_agent_middleware/audit.py.
pub mod Chain
pub mod Log
pub mod Proofs
mod Tests
