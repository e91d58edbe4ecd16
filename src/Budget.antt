-- ===== src/Budget.antt =====
-- harness/budget_controller.py: the token budget of a task.
pub mod Doc
pub mod Ladder
pub mod Grants
pub mod Opening
pub mod Quota
mod Tests
