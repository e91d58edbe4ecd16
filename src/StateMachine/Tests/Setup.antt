-- ===== src/StateMachine/Tests/Setup.antt =====
-- The events, files and settings of the tests.
use codex_loop_orchestra.Prelude.{
  works, true, String, List, [], ◌∷◌, Option, none, some, lookup, insert,
}
use codex_loop_orchestra.StateMachine.States.{State}
use codex_loop_orchestra.StateMachine.Events.{parse_event, event_name}
use codex_loop_orchestra.StateMachine.Table.{lookup_row}
use codex_loop_orchestra.StateMachine.Packet.{
  EventRecord, AttemptField, Env, World, ReportValue, IdField,
}
use codex_loop_orchestra.StateMachine.PacketId.{valid_pid}
use codex_loop_orchestra.StateMachine.Reports.{report_is_current, report_exists}
use codex_loop_orchestra.StateMachine.Advance.{
  advance, by_row, by_table, gated, replan, retry_timeout, fail_l2, settle, to_dead_letter,
  bump_counter, stale_generation, stale_run, duplicate_generation, pre_spawn_failure,
  late_stop_confirmed, dispatch_confirmed, timeout_confirmed, release_review_failure,
}
use codex_loop_orchestra.StateMachine.Apply.{
  Machine, Result, running, exited, apply_all, apply_event, read_input, store, admit,
}

abbrev pub event : String → String → EventRecord
event pid name = record {
  packet_id = some pid;
  event = some name;
  run_id = none;
  attempt = AttemptField.absent;
  detail = none;
}

abbrev pub env : Env
env = record {
  now = 100;
  enforce_duty = true;
  job_max_runtime = 1800;
  heartbeat_stale = 5;
  counter_io = works;
  reports =
      ("pkt-1", record { value = ReportValue.object true IdField.missing; mtime = 9; size = 40 })
      ∷ [];
  spawn_times = [];
  exec_roster = [];
}

abbrev pub files : World
files = record {
  replan_counters = [];
  timeout_retry_counters = [];
  dead_letters = [];
  escalation_log = [];
  dead_this_step = 0;
}

abbrev pub empty_machine : Machine
empty_machine = record { world = files; packets = [] }

-- Opens all that a run computes with.
unfoldable pub run : List EventRecord → Machine → Result
unfolding apply_all apply_event read_input parse_event event_name store admit lookup insert advance
    stale_generation stale_run duplicate_generation pre_spawn_failure late_stop_confirmed
    dispatch_confirmed timeout_confirmed release_review_failure by_table by_row lookup_row gated
    replan retry_timeout fail_l2 settle to_dead_letter bump_counter report_is_current report_exists
    valid_pid
run evs m = apply_all env evs m

abbrev pub machine_of : Result → Machine
machine_of (running m _) = m
machine_of (exited w) = record { world = w; packets = [] }

abbrev pub last_of : Result → Option State
last_of (running _ s) = s
last_of (exited _) = none
