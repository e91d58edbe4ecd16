-- ===== src/StateMachine/Edges.antt =====
-- The edges of a packet's lifecycle in harness/statemachine_v2.py, with what each asks for.
use codex_loop_orchestra.Prelude.{
  ℕ, ◌+◌, ◌≡◌, Bool, true, false, not, ◌&&◌, ◌||◌, some, none, ltb, ◌==◌,
}
use codex_loop_orchestra.StateMachine.States.{State, ◌is◌}
use codex_loop_orchestra.StateMachine.Events.{Event, ◌matches◌}
use codex_loop_orchestra.StateMachine.Table.{table, lookup_row}
use codex_loop_orchestra.StateMachine.Packet.{Packet, Env, World}
use codex_loop_orchestra.StateMachine.Reports.{
  attempt_lt, attempt_eq, text_eq, report_is_current, report_exists,
}
use codex_loop_orchestra.StateMachine.Advance.{
  Input, other_run, same_run, is_run_terminal, is_born, replan_cap, timeout_retry_max,
  l2_attempts_max, pre_spawn_failure_max, bump_counter,
}

module _ (env : Env) (w : World) (i : Input) (p : Packet) where
  -- An event of an older attempt, the end of another run, or the dispatch of another run after the
  -- packet's has begun.
  abbrev pub is_ignored : Bool
  is_ignored =
      attempt_lt i.attempt p.attempts
      || (is_run_terminal i.name && other_run p.current_run_id i.run_id)
      || ((i.name matches Event.dispatched)
          && other_run p.current_run_id i.run_id
          && is_born p.state)

  -- A failure before the worker started.
  abbrev pub is_unborn : Bool
  is_unborn =
      (i.name matches Event.exec_failed)
      && text_eq i.phase (some "pre_spawn")
      && ((p.state is State.dispatchable) || (p.state is State.running))

  -- A failure of the review of a release.
  abbrev pub is_failed_review : Bool
  is_failed_review =
      p.release_review && (p.state is State.running) && (i.name matches Event.exec_failed)

  -- None of these: the table has the word.
  abbrev pub IsOrdinary : Type 0
  IsOrdinary = (is_ignored ≡ false) × (is_unborn ≡ false) × (is_failed_review ≡ false)

  abbrev pub HasRow : State → ℕ → Type 0
  HasRow to num = lookup_row p.state i.name table ≡ some (to, num)

  abbrev pub replan_spent : Bool
  replan_spent = (bump_counter env.counter_io i.pid replan_cap w.replan_counters).2

  abbrev pub retry_spent : Bool
  retry_spent = (bump_counter env.counter_io i.pid timeout_retry_max w.timeout_retry_counters).2

  abbrev pub l2_spent : Bool
  l2_spent = ltb l2_attempts_max (p.l2_attempts + 1)

  abbrev pub unborn_spent : Bool
  unborn_spent = ltb pre_spawn_failure_max (p.pre_spawn_failures + 1)

  -- The gate of a numbered row is open.
  abbrev pub IsOpen : ℕ → Type 0
  IsOpen num =
      ((num == 4 && not (report_is_current env i.pid)) ≡ false)
      × (((num == 11 || num == 12) && not env.enforce_duty) ≡ false)
      × ((num == 22 && replan_spent) ≡ false)
      × ((num == 37 && retry_spent) ≡ false)
      × ((num == 35 && l2_spent) ≡ false)

  -- Why a packet stays where it is: the event is out of date, it says again what is known, or a
  -- replanning is over its cap.
  pub data Stays : Type 0 where
    ignored : is_ignored ≡ true → Stays
    stopped_late :
        p.state ≡ State.reported
        → i.name ≡ Event.subagent_stop
        → report_exists env i.pid ≡ true
        → Stays
    dispatched_again :
        p.state ≡ State.running
        → i.name ≡ Event.dispatched
        → attempt_eq i.attempt p.attempts ≡ true
        → same_run p.current_run_id i.run_id ≡ true
        → Stays
    timed_out_again : p.state ≡ State.timed_out → i.name ≡ Event.timeout → Stays
    replan_over : (to : State) → IsOrdinary → HasRow to 22 → replan_spent ≡ true → Stays

  -- Why a packet goes to the dead letters: no row, a stop without a current report, a ruling that is
  -- not enforced, or a timeout over its cap.
  pub data Buried : Type 0 where
    off_table : lookup_row p.state i.name table ≡ none → Buried
    unreported : (to : State) → HasRow to 4 → report_is_current env i.pid ≡ false → Buried
    unenforced :
        (to : State) (num : ℕ)
        → HasRow to num
        → (num == 11 || num == 12) ≡ true
        → env.enforce_duty ≡ false
        → Buried
    retry_over : (to : State) → HasRow to 37 → retry_spent ≡ true → Buried

  -- The edges: a row of the table whose gate is open, the dead letters, and the rules that the code
  -- applies outside the table.
  pub data Move (q : Packet) : Type 0 where
    stays : Stays → q.state ≡ p.state → Move q
    buried : IsOrdinary → Buried → q.state ≡ State.dead_letter → Move q
    along : (num : ℕ) → IsOrdinary → HasRow q.state num → IsOpen num → Move q
    requeued :
        is_ignored ≡ false
        → is_unborn ≡ true
        → unborn_spent ≡ false
        → q.state ≡ State.dispatchable
        → Move q
    exhausted :
        is_ignored ≡ false
        → is_unborn ≡ true
        → unborn_spent ≡ true
        → q.state ≡ State.duty_review
        → Move q
    reviewed :
        is_ignored ≡ false
        → is_unborn ≡ false
        → is_failed_review ≡ true
        → q.state ≡ State.sol_adjudicate
        → Move q
    l2_exhausted :
        (to : State)
        → IsOrdinary
        → HasRow to 35
        → l2_spent ≡ true
        → q.state ≡ State.sol_adjudicate
        → Move q
