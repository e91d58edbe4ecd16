-- ===== src/StateMachine/Advance.antt =====
-- `apply_event` of harness/statemachine_v2.py on a packet that the ledger holds. Each early
-- return of the method is a function here, `none` where its condition fails.
use codex_loop_orchestra.Prelude.{
  ℕ, ◌+◌, ◌-◌, Bool, true, false, not, ◌&&◌, ◌||◌, String, List, [], ◌∷◌, ◌++◌, Option, none, some,
  Dict, lookup, insert, ltb, ◌==◌, if◌then◌else◌, or_else, get_or_default, is_some, length, drop,
  CounterIo, works, read_fails, raises,
}
use codex_loop_orchestra.StateMachine.States.{State, ◌is◌}
use codex_loop_orchestra.StateMachine.Events.{Event, event_name, ◌matches◌}
use codex_loop_orchestra.StateMachine.Table.{table, lookup_row}
use codex_loop_orchestra.StateMachine.Packet.{
  Packet, Entry, log, Env, World, Level, Outcome, applied, aborted,
}
use codex_loop_orchestra.StateMachine.PacketId.{valid_pid}
use codex_loop_orchestra.StateMachine.Reports.{
  Attempt, attempt_lt, attempt_eq, truthy, text_eq, report_is_current, report_exists,
}

-- `REPLAN_CAP`, `TIMEOUT_RETRY_MAX`, `L2_ATTEMPTS_MAX`, `PRE_SPAWN_FAILURE_MAX`
abbrev pub replan_cap : ℕ
replan_cap = 2

abbrev pub timeout_retry_max : ℕ
timeout_retry_max = 1

abbrev pub l2_attempts_max : ℕ
l2_attempts_max = 1

abbrev pub pre_spawn_failure_max : ℕ
pre_spawn_failure_max = 3

-- The local variables that `apply_event` derives from the event.
pub record Input : Type 0 where
  pub pid : String
  pub name : Event
  pub run_id : Option String
  pub attempt : Attempt
  pub phase : Option String

-- `append_ndjson(… / "escalation_log.jsonl", …)`
abbrev pub escalate : Env → String → Level → String → World → World
escalate env pid level reason w = record w {
  escalation_log =
      w.escalation_log
      ++ record { ts = env.now; packet_id = pid; level = level; reason = reason } ∷ [];
}

-- `pkt["history"][-10:]`
abbrev last_ten : List Entry → List Entry
last_ten h = drop (length h - 10) h

-- `to_dead_letter`, with the `return "DEAD_LETTER"` that follows each call.
unfoldable pub to_dead_letter : Env → String → String → World → Packet → Outcome
to_dead_letter env pid reason w p =
    if valid_pid pid
    then applied (escalate env pid Level.sol_wake reason (buried w)) dead State.dead_letter
    else aborted w
  where
    dead : Packet
    dead = log env.now State.dead_letter reason none (record p { state = State.dead_letter })

    buried : World → World
    buried v = record v {
      dead_letters =
          insert pid
            (record { reason = reason; prior_history = last_ten dead.history; ts = env.now })
            v.dead_letters;
      dead_this_step = v.dead_this_step + 1;
    }

-- `_bump_counter`: the new counters, the count and whether it exceeds the cap. A file that cannot
-- be read is written anew with this count alone; an exception counts as exceeded.
unfoldable pub bump_counter : CounterIo → String → ℕ → Dict ℕ → Dict ℕ × ℕ × Bool
bump_counter (works) pid cap counters =
    let count = get_or_default (lookup pid counters) 0 + 1 in
    (insert pid count counters, count, ltb cap count)
bump_counter (read_fails) pid cap counters = (insert pid 1 [], 1, ltb cap 1)
bump_counter (raises) pid cap counters = (counters, cap + 1, true)

-- `event_attempt < current_attempt`: an event of an older generation.
unfoldable pub stale_generation : Env → Input → World → Packet → Option Outcome
stale_generation env i w p =
    if attempt_lt i.attempt p.attempts
    then some (applied w (log env.now p.state "stale_generation_ignored" none p) p.state)
    else none

-- Both run ids are known and differ.
abbrev pub other_run : Option String → Option String → Bool
other_run current event =
    is_some (truthy current) && is_some (truthy event) && not (text_eq event current)

-- `not current_run_id or not event_run_id or event_run_id == current_run_id`
abbrev pub same_run : Option String → Option String → Bool
same_run current event =
    not (is_some (truthy current)) || not (is_some (truthy event)) || text_eq event current

abbrev pub is_run_terminal : Event → Bool
is_run_terminal Event.subagent_stop = true
is_run_terminal Event.exec_failed = true
is_run_terminal Event.timeout = true
is_run_terminal _ = false

unfoldable pub stale_run : Env → Input → World → Packet → Option Outcome
stale_run env i w p =
    if is_run_terminal i.name && other_run p.current_run_id i.run_id
    then some (applied w (log env.now p.state "stale_run_id_ignored" none p) p.state)
    else none

abbrev pub is_born : State → Bool
is_born State.running = true
is_born State.reported = true
is_born State.accepted = true
is_born State.merged = true
is_born State.wave_done = true
is_born State.done = true
is_born _ = false

unfoldable pub duplicate_generation : Env → Input → World → Packet → Option Outcome
duplicate_generation env i w p =
    if (i.name matches Event.dispatched) && other_run p.current_run_id i.run_id && is_born p.state
    then some (applied w (log env.now p.state "duplicate_generation_ignored" none p) p.state)
    else none

-- A worker that never started: back to the queue, or to the duty officer past the cap.
abbrev requeued : Env → Input → ℕ → Packet → Packet
requeued env i failures p =
    let kept = if same_run p.current_run_id i.run_id then none else p.current_run_id in
    log env.now State.dispatchable "pre_spawn_failure_retryable" none (record p {
      state = State.dispatchable;
      pre_spawn_failures = failures;
      current_run_id = kept;
    })

abbrev exhausted : Env → ℕ → Packet → Packet
exhausted env failures p =
    log env.now State.duty_review "pre_spawn_failure_exhausted" none
      (record p { state = State.duty_review; pre_spawn_failures = failures; current_run_id = none })

unfoldable pub pre_spawn_failure : Env → Input → World → Packet → Option Outcome
pre_spawn_failure env i w p =
    let failures = p.pre_spawn_failures + 1 in
    if (i.name matches Event.exec_failed)
      && text_eq i.phase (some "pre_spawn")
      && ((p.state is State.dispatchable) || (p.state is State.running))
    then some (
        if ltb pre_spawn_failure_max failures
        then applied w (exhausted env failures p) State.duty_review
        else applied w (requeued env i failures p) State.dispatchable)
    else none

-- The idempotent confirmations.
unfoldable pub late_stop_confirmed : Env → Input → World → Packet → Option Outcome
late_stop_confirmed env i w p =
    if (p.state is State.reported)
      && (i.name matches Event.subagent_stop)
      && report_exists env i.pid
    then some (
        applied w (log env.now State.reported "late_subagent_stop_confirmed" none p) State.reported)
    else none

unfoldable pub dispatch_confirmed : Env → Input → World → Packet → Option Outcome
dispatch_confirmed env i w p =
    if (p.state is State.running)
      && (i.name matches Event.dispatched)
      && attempt_eq i.attempt p.attempts
      && same_run p.current_run_id i.run_id
    then some
        (applied w (log env.now State.running "generation_dispatch_confirmed" none p) State.running)
    else none

unfoldable pub timeout_confirmed : Env → Input → World → Packet → Option Outcome
timeout_confirmed env i w p =
    if (p.state is State.timed_out) && (i.name matches Event.timeout)
    then some (
        applied w (log env.now State.timed_out "timeout_confirmed_idempotent" none p)
          State.timed_out)
    else none

-- t26
unfoldable pub release_review_failure : Env → Input → World → Packet → Option Outcome
release_review_failure env i w p =
    if p.release_review && (p.state is State.running) && (i.name matches Event.exec_failed)
    then some (
        applied w
          (log env.now State.sol_adjudicate (event_name i.name) (some 26)
            (record p { state = State.sol_adjudicate }))
          State.sol_adjudicate)
    else none

-- The end of `apply_event`: the row's target is entered.
unfoldable pub settle : Env → Input → State → ℕ → World → Packet → Outcome
settle env i to num w p =
    let is_dispatch = i.name matches Event.dispatched in
    applied w
      (log env.now to (event_name i.name) (some num) (record p {
        state = to;
        current_run_id =
            if i.name matches Event.retry_dispatch
            then none
            else if is_dispatch && is_some (truthy i.run_id)
            then i.run_id
            else p.current_run_id;
        pre_spawn_failures = if is_dispatch then 0 else p.pre_spawn_failures;
        attempts = if num == 9 || num == 37 then p.attempts + 1 else p.attempts;
      }))
      to

-- t22: over the cap the packet stays where it is, and the human gate is told.
unfoldable pub replan : Env → Input → State → World → Packet → Outcome
unfolding bump_counter
replan env i to w p =
    let (counters, count, exceeded) =
      bump_counter env.counter_io i.pid replan_cap w.replan_counters in
    let w' = record w { replan_counters = counters } in
    if exceeded
    then if valid_pid i.pid
      then applied (escalate env i.pid Level.direct_l4 "replan_cap_exceeded" w')
          (log env.now State.sol_adjudicate "replan_cap_forced_l4" (some 22) p) State.sol_adjudicate
      else aborted w'
    else settle env i to 22 w' p

-- t37: only the first timeout is dispatched again.
unfoldable pub retry_timeout : Env → Input → State → World → Packet → Outcome
unfolding bump_counter
retry_timeout env i to w p =
    let (counters, count, exceeded) =
      bump_counter env.counter_io i.pid timeout_retry_max w.timeout_retry_counters in
    let w' = record w { timeout_retry_counters = counters } in
    if exceeded
    then to_dead_letter env i.pid "timeout_retry_exhausted" w' p
    else settle env i to 37 w' p

-- t35: a second failure of the verifier goes to the root agent.
unfoldable pub fail_l2 : Env → Input → State → World → Packet → Outcome
fail_l2 env i to w p =
    let p' = record p { l2_attempts = p.l2_attempts + 1 } in
    if ltb l2_attempts_max p'.l2_attempts
    then applied w
        (log env.now State.sol_adjudicate "l2_attempts_exhausted" (some 35)
          (record p' { state = State.sol_adjudicate }))
        State.sol_adjudicate
    else settle env i to 35 w p'

-- The gates on a row's number. At most one of them holds, so their order is the code's.
unfoldable pub gated : Env → Input → State → ℕ → World → Packet → Outcome
gated env i to num w p =
    if num == 4 && not (report_is_current env i.pid)
    then to_dead_letter env i.pid "report_missing_on_stop" w p
    else if (num == 11 || num == 12) && not env.enforce_duty
    then to_dead_letter env i.pid "duty_ruling_recorded_not_routed"
        (escalate env i.pid Level.duty_record_only (event_name i.name) w) p
    else if num == 22
    then replan env i to w p
    else if num == 37
    then retry_timeout env i to w p
    else if num == 35
    then fail_l2 env i to w p
    else settle env i to num w p

unfoldable pub by_row : Env → Input → Option (State × ℕ) → World → Packet → Outcome
by_row env i none w p = to_dead_letter env i.pid "off_table_event" w p
by_row env i (some (to, num)) w p = gated env i to num w p

unfoldable pub by_table : Env → Input → World → Packet → Outcome
by_table env i w p = by_row env i (lookup_row p.state i.name table) w p

-- The early returns in the code's order, then the table.
unfoldable pub advance : Env → Input → World → Packet → Outcome
advance env i w p =
    get_or_default
      (or_else (stale_generation env i w p) (
        or_else (stale_run env i w p) (
          or_else (duplicate_generation env i w p) (
            or_else (pre_spawn_failure env i w p) (
              or_else (late_stop_confirmed env i w p) (
                or_else (dispatch_confirmed env i w p)
                  (or_else (timeout_confirmed env i w p) (release_review_failure env i w p))))))))
      (by_table env i w p)
