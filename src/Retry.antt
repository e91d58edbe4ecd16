-- ===== src/Retry.antt =====
-- harness/retry.py: what follows a failed packet.
pub mod Classes
pub mod Breaker
pub mod Route
pub mod RouteLaws
mod Tests
