-- ===== src/Supervisor.antt =====
-- The recovery cycle of src/universal_agent_middleware/supervisor.py.
pub mod Cycle
pub mod Proofs
mod Tests
