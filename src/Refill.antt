-- ===== src/Refill.antt =====
-- harness/refill_controller_v2.py: how many workers each model pool and each parent dialogue may
-- be given next, and the selection of their tasks by harness/refill_consumer_v2.py.
pub mod Split
pub mod Shares
pub mod Recompute
pub mod Bounds
pub mod Queue
pub mod Synced
pub mod State
pub mod Select
pub mod Chosen
pub mod Selected
pub mod Admitted
pub mod Tests
