-- ===== src/Plan/Rounds.antt =====
-- The invariant of the `while` loop of harness/dag_assert.py, and its preservation by a round.
pub mod Open
pub mod Ready
pub mod Loop
