-- ===== src/Retry/Tests.antt =====
-- The theorems on harness/retry.py at a ledger with one failed packet.
use codex_loop_orchestra.Prelude.{
  ◌≡◌, refl, [], ◌∷◌, Option, none, some, lookup, insert, arith, str_eq,
}
use codex_loop_orchestra.StateMachine.States.{State}
use codex_loop_orchestra.StateMachine.Packet.{Packet, new_packet, log}
use codex_loop_orchestra.StateMachine.PacketId.{valid_pid}
use codex_loop_orchestra.Retry.Classes.{RetryClass, Action, retry, first_match}
use codex_loop_orchestra.Retry.Breaker.{BreakerState, breaker}
use codex_loop_orchestra.Retry.Route.{
  Files, Call, the_packet, schedule, by_class, on_class, on_match, route, main, total_retries,
}
use codex_loop_orchestra.Retry.RouteLaws.OnTable.{Emits, main-Emits}
use codex_loop_orchestra.Retry.RouteLaws.Once.{DispatchedOnce, main-DispatchedOnce}
use codex_loop_orchestra.Retry.RouteLaws.WithinBudget.{Affordable, main-Affordable}

abbrev failed : Packet
failed = log 5 State.failed "exec_failed" (some 6) (record new_packet { state = State.failed })

abbrev calm : BreakerState
calm = record { fails = 90 ∷ 20 ∷ []; open_until = 0 }

abbrev network : RetryClass
network = record {
  name = "network";
  pattern = "timed out";
  retryable = none;
  action = some "retry";
  max_attempts = none;
  max_retries = some 2;
}

abbrev files : Files
files = record {
  packets = ("pkt-1", failed) ∷ [];
  events = [];
  breaker_state = calm;
  last_fail_class = [];
  legacy_fail_class = [];
  tickets = [];
  dead_letters = [];
}

abbrev call : Call
call = record {
  packet = "pkt-1";
  err = "timed out";
  now = 100;
  classes = network ∷ [];
  run_budget = 8;
  breaker_fails = 3;
}

abbrev files_of : Option (Files × Action) → Files
files_of none = files
files_of (some (f, _)) = f

abbrev after : Files
unfolding main valid_pid route breaker first_match on_match on_class by_class schedule lookup insert
    total_retries
after = files_of (main str_eq call files)

retried : main str_eq call files ≡ some (after, retry)
unfolding main valid_pid route breaker first_match on_match on_class by_class schedule lookup insert
    total_retries
retried = refl

none_yet : DispatchedOnce files
none_yet pid n = omega arith

main-Emits_example : Emits call (the_packet "pkt-1" files) files (after, retry)
main-Emits_example = main-Emits str_eq call files after retry retried

main-DispatchedOnce_example : DispatchedOnce after
main-DispatchedOnce_example = main-DispatchedOnce str_eq call files after retry none_yet retried

main-Affordable_example :
    Affordable str_eq call
      (the_packet "pkt-1" files)
      (total_retries (insert "pkt-1" (the_packet "pkt-1" files) files.packets))
main-Affordable_example = main-Affordable str_eq call files after retried
