-- ===== src/StateMachine/Watchdog.antt =====
-- `reconcile`, `_synthetic_spawn_ts` and `watchdog` of harness/statemachine_v2.py.
use codex_loop_orchestra.Prelude.{
  ◌-◌, Bool, false, not, ◌&&◌, ◌||◌, String, List, [], ◌∷◌, Option, none, some, Dict, lookup, ltb,
  leb, if◌then◌else◌,
}
use codex_loop_orchestra.StateMachine.States.{State, ◌is◌}
use codex_loop_orchestra.StateMachine.Packet.{
  Packet, Entry, log, Env, EventRecord, AttemptField, Timestamp, Stamp, Job,
}
use codex_loop_orchestra.StateMachine.Reports.{report_is_current, text_eq}

-- A packet whose stop event was lost: its report file says that it has reported.
unfoldable pub reconcile_packet : Env → String → Packet → Packet
reconcile_packet env pid p =
    if (p.state is State.running) && report_is_current env pid
    then log env.now State.reported "report_file_fallback" (some 4)
        (record p { state = State.reported })
    else p

unfoldable pub reconcile : Env → Dict Packet → Dict Packet
reconcile env [] = []
reconcile env ((pid, p) ∷ rest) = (pid, reconcile_packet env pid p) ∷ reconcile env rest

-- `for entry in reversed(history)`: the time of the last move into RUNNING.
unfoldable pub synthetic_spawn_ts : List Entry → Timestamp
synthetic_spawn_ts [] = Timestamp.missing
synthetic_spawn_ts (e ∷ es) = elim (synthetic_spawn_ts es) [
  | Timestamp.missing ↦ if e.to is State.running then Timestamp.at e.ts else Timestamp.missing
  | t ↦ t
]

abbrev pub stamp_ts : Option Stamp → Timestamp
stamp_ts none = Timestamp.missing
stamp_ts (some (Stamp.bare t)) = t
stamp_ts (some (Stamp.dispatched _ t _ _)) = t

abbrev pub stamp_mode : Option Stamp → Option String
stamp_mode (some (Stamp.dispatched m _ _ _)) = m
stamp_mode _ = some "legacy"

abbrev pub stamp_run_id : Option Stamp → Option String
stamp_run_id (some (Stamp.dispatched _ _ r _)) = r
stamp_run_id _ = none

-- `stamp.get("attempt")`, written into the event as null where it is missing.
abbrev stamp_attempt : Option Stamp → AttemptField
stamp_attempt (some (Stamp.dispatched _ _ _ AttemptField.absent)) = AttemptField.null
stamp_attempt (some (Stamp.dispatched _ _ _ a)) = a
stamp_attempt _ = AttemptField.null

-- The time that counts: the stamp's, or the ledger's where the stamp has none.
abbrev pub start_ts : Option Stamp → Packet → Timestamp
start_ts s p = elim (stamp_ts s) [ Timestamp.missing ↦ synthetic_spawn_ts p.history | t ↦ t ]

abbrev pub mode : Option Stamp → Option String
mode s = elim (stamp_ts s) [ Timestamp.missing ↦ some "ledger_synthetic" | _ ↦ stamp_mode s ]

-- `elapsed is not None and elapsed > limit`
abbrev pub overdue : Env → Timestamp → Bool
overdue env (Timestamp.at t) = ltb env.job_max_runtime (env.now - t)
overdue env _ = false

abbrev pub is_fresh : Env → Timestamp → Bool
is_fresh env (Timestamp.at t) = leb (env.now - t) env.heartbeat_stale
is_fresh env _ = false

abbrev pub job_runs : Env → Option Job → Option String → Bool
job_runs env none run_id = false
job_runs env (some j) run_id =
    text_eq j.run_id run_id
    && (text_eq j.state (some "starting") || text_eq j.state (some "running"))
    && is_fresh env j.heartbeat_at

-- A live supervisor owns the generation.
unfoldable pub supervised : Env → String → Option Stamp → Bool
supervised env pid s =
    text_eq (mode s) (some "single") && job_runs env (lookup pid env.exec_roster) (stamp_run_id s)

unfoldable pub fires : Env → String → Packet → Bool
fires env pid p =
    let s = lookup pid env.spawn_times in
    (p.state is State.running) && overdue env (start_ts s p) && not (supervised env pid s)

-- The event that is appended for a packet that timed out.
abbrev pub timeout_event : Env → String → EventRecord
timeout_event env pid = record {
  packet_id = some pid;
  event = some "timeout";
  run_id = stamp_run_id (lookup pid env.spawn_times);
  attempt = stamp_attempt (lookup pid env.spawn_times);
  detail = some (record { run_id = none; attempt = AttemptField.absent; phase = none });
}

unfoldable pub watch : Env → String → Packet → Packet
watch env pid p =
    if fires env pid p
    then log env.now State.timed_out "timeout" (some 5) (record p { state = State.timed_out })
    else p

-- The packets, and the events appended for those that fired.
unfoldable pub watchdog : Env → Dict Packet → Dict Packet × List EventRecord
watchdog env [] = ([], [])
watchdog env ((pid, p) ∷ rest) =
    let (packets, events) = watchdog env rest in
    (
      (pid, watch env pid p) ∷ packets,
      if fires env pid p then timeout_event env pid ∷ events else events,
    )
