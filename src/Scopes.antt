-- ===== src/Scopes.antt =====
-- The standing authority over directories: src/universal_agent_middleware/root_scope.py and path_authority.py.
pub mod Root
pub mod Policy
pub mod Subtrees
pub mod Excluded
pub mod Order
pub mod Proofs
pub mod Specific
mod Tests
