-- ===== src/Plan.antt =====
-- harness/dag_assert.py: the checks of a plan before its packets are dispatched.
pub mod Members
pub mod Kahn
pub mod Rounds
pub mod Acyclic
pub mod Gate
pub mod Isolation
pub mod Passes
mod Tests
