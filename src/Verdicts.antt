-- ===== src/Verdicts.antt =====
-- harness/verdict_aggregate.py: the verdicts of the level-2 verifiers.
pub mod Aggregate
pub mod Strictest
mod Tests
