-- ===== src/Confinement.antt =====
-- The sensitive names and the confinement of paths: src/universal_agent_middleware/policy.py.
pub mod Names
pub mod Paths
pub mod Proofs
mod Tests
