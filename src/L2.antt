-- ===== src/L2.antt =====
-- harness/l2_consumer.py: the queue of requests to the level-2 verifiers.
pub mod Queue
pub mod Passes
pub mod Bounded
pub mod Final
pub mod Once
pub mod Covers
mod Race
mod Tests
