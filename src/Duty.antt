-- ===== src/Duty.antt =====
-- harness/duty_gate.py: the gate on the rulings of the duty officer.
pub mod Gate
pub mod Admissible
mod Tests
