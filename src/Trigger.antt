-- ===== src/Trigger.antt =====
-- harness/trigger_eval_v2.py: the level-1 trigger evaluator.
pub mod Signals
pub mod Predicates
pub mod Verdict
pub mod Mode
pub mod Guards
pub mod Cap
mod Tests
