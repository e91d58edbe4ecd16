-- ===== src/StateMachine.antt =====
-- harness/statemachine_v2.py: the packet lifecycle.
pub mod States
pub mod Events
pub mod Table
pub mod Rows
pub mod Packet
pub mod PacketId
pub mod Reports
pub mod Advance
pub mod Outcomes
pub mod Edges
pub mod Moves
pub mod Apply
pub mod Frame
pub mod Provenance
pub mod Watchdog
pub mod WatchdogLaws
pub mod Supervisors
pub mod Timeouts
pub mod Absorbed
pub mod Caps
pub mod WaveCheck
pub mod Validate
pub mod ValidTable
pub mod Stream
pub mod Cursor
pub mod Poison
mod Tests
