-- ===== src/StateMachine/Tests.antt =====
-- Runs of the packet lifecycle on concrete streams, and the theorems at them.
mod Setup
mod Lifecycle
mod Reading
