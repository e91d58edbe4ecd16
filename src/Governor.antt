-- ===== src/Governor.antt =====
-- harness/root_turn_governor.py: the gate on the tool calls of the root session.
pub mod Screen
pub mod Lease
pub mod Hysteresis
pub mod LoopState
pub mod Meter
pub mod Evaluate
pub mod Admits
pub mod LeaseBound
pub mod Attested
pub mod Enters
mod Tests
