-- ===== src/Consumer.antt =====
-- The resident consumer of src/universal_agent_middleware/consumer.py.
pub mod Journal
pub mod Reader
pub mod Rules
pub mod Port
pub mod Admit
pub mod Stop
pub mod Compare
pub mod Settle
pub mod Handle
pub mod Guard
pub mod Proofs
mod Fixtures
mod Tests
