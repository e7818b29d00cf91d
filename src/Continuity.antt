-- ===== src/Continuity.antt =====
-- The successor contract of src/universal_agent_middleware/task_continuity.py: pure rules over version-2 deliveries.
pub mod Model
pub mod Evidence
pub mod Views
pub mod Package
pub mod Proofs
mod Tests
pub mod Validate
pub mod Binding
