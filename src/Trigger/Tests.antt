-- ===== src/Trigger/Tests.antt =====
-- The theorems on harness/trigger_eval_v2.py at a small table.
use mathlib.Core.List.{Memᴰ}
use codex_loop_orchestra.Prelude.{
  any, All, insert, works, read_fails, ℕ, ◌≤◌, ◌≡◌, refl, ◌⊎◌, inl, Bool, true, false, String, [],
  ◌∷◌, none, some, lookup, str_eq, eq_refl, pos,
}
use codex_loop_orchestra.Trigger.Signals.{Signals, derive}
use codex_loop_orchestra.Trigger.Predicates.{holds, predicates}
use codex_loop_orchestra.Trigger.Verdict.{
  Rule, TriggerTable, severity, evaluate_table, scan, hit, finish, final_action, by_priority, place,
}
use codex_loop_orchestra.Trigger.Verdict.Severities.{rank, action_of, verdict_is_severest}
use codex_loop_orchestra.Trigger.Mode.{
  layered, cold_start, L2Record, Queues, Request, apply_routing_mode, after_sampling,
  sampled_for_verification, request_l2,
}
use codex_loop_orchestra.Trigger.Guards.{Observed, check_guards, effective_mode}
use codex_loop_orchestra.Trigger.Guards.Ready.{IsReady, layered-IsReady}
use codex_loop_orchestra.Trigger.Mode.Once.{
  Switch, switch_all, IsOrderly, sends, asked, requests_once,
}
use codex_loop_orchestra.Trigger.Cap.{apply_l3_cap, bump_l3_counter, Call, Files, main}
use codex_loop_orchestra.Trigger.Cap.Capped.{l3_answers, l3_calls_capped, high_risk_never_passes}

-- A clean run with one retry.
abbrev signals : Signals
signals = record {
  command_history = "make" ∷ "make" ∷ [];
  observation_lengths = none;
  observation_length = some 120;
  exit_codes = pos 1 ∷ pos 0 ∷ [];
  retry_count = 1;
  run_level_budget = 3;
  diff_lines = 10;
  deleted_lines = 0;
  file_deletions = 0;
  diff_budget = some 100;
  path_boundary_attempts = 0;
  boundary_probe_in_log = false;
  test_count_before = none;
  test_count_after = none;
  min_test_count = none;
  requires_new_tests = false;
  test_assertions_modified = false;
  paths_touched = "src/a.py" ∷ [];
  consecutive_same_type_failures = false;
  retry_class_no_match = false;
  prior_ruling_confidence = none;
  evidence_missing = false;
}

abbrev rule : String → String → ℕ → Rule
rule name action priority = record {
  name = name;
  action = some action;
  high_risk = false;
  priority = some priority;
}

abbrev within : Rule
within = rule "diff_within_budget" "pass" 20

abbrev retried : Rule
retried = rule "retry_single" "annotated_pass" 10

abbrev small_table : TriggerTable
small_table = record { default_action = none; rules = within ∷ retried ∷ [] }

-- An expression that finds nothing, and one that finds everything.
abbrev never : String → String → Bool
never _ _ = false

abbrev always : String → String → Bool
always _ _ = true

verdict_is_severest_example :
    rank (action_of "send_l2" retried)
    ≤ rank (evaluate_table never (derive never signals) small_table).0
unfolding evaluate_table by_priority place scan hit finish final_action holds predicates severity
    derive lookup
verdict_is_severest_example =
    verdict_is_severest never (derive never signals) small_table retried (refl, (refl, tt)) refl
      (Memᴰ.tail (Memᴰ.head refl)) refl

abbrev request : Request
request = record {
  packet_id = "pkt-1";
  run_id = "run-1";
  attempt = 0;
  verify_sample_rate = 1000;
  queue_readable = true;
}

abbrev empty : Queues
empty = record { l2_pending = []; shadow_log = [] }

-- A hash that takes every packet, a key without its hash, and a line that only shows its key.
abbrev prefix : String → ℕ
prefix _ = 0

abbrev key : String → String → ℕ → String
key packet run attempt = run

abbrev shows : String → L2Record → Bool
shows k r = str_eq k r.idem_key

shows_own : (r : L2Record) → shows r.idem_key r ≡ true
shows_own r = eq_refl r.idem_key

abbrev asks : Switch
asks = record { mode = layered; request = request; action = "pass" }

asked_once :
    (switch_all prefix key shows (asks ∷ asks ∷ []) empty).l2_pending
    ≡ record { packet_id = "pkt-1"; run_id = "run-1"; attempt = 0; idem_key = "run-1" } ∷ []
unfolding switch_all apply_routing_mode after_sampling sampled_for_verification request_l2
asked_once = refl

requests_once_example :
    IsOrderly prefix key shows (switch_all prefix key shows (asks ∷ asks ∷ []) empty)
    × ((any (shows "run-1") [] ≡ false)
        ⊎ (any (shows "run-1") (switch_all prefix key shows (asks ∷ asks ∷ []) empty).l2_pending
            ≡ true))
    × All
        (λ c.
          (sends prefix key shows c ≡ false)
          ⊎ (asked prefix key shows c.request (switch_all prefix key shows (asks ∷ asks ∷ []) empty)
              ≡ true))
        (asks ∷ asks ∷ [])
requests_once_example =
    requests_once prefix key shows shows_own (asks ∷ asks ∷ []) empty "run-1" (refl, (refl, tt))
      (tt, tt)

abbrev call : Call
call = record {
  signals = signals;
  table = small_table;
  mode = layered;
  request = request;
  counter_io = works;
}

abbrev unread : Call
unread = record call { counter_io = read_fails; mode = cold_start }

abbrev no_counts : Files
no_counts = record { queues = empty; counters = [] }

l3_calls_capped_example :
    l3_answers always prefix key shows 2 "pkt-1" (call ∷ call ∷ call ∷ []) no_counts ≤ 2
unfolding lookup
l3_calls_capped_example =
    l3_calls_capped always prefix key shows 2 "pkt-1" (call ∷ call ∷ call ∷ []) no_counts
      (refl, (refl, (refl, tt))) refl

-- A file that cannot be read restarts the count, past the cap.
unreadable_count_restarts :
    l3_answers always prefix key shows 2 "pkt-1" (unread ∷ unread ∷ unread ∷ []) no_counts ≡ 3
unfolding l3_answers main apply_l3_cap bump_l3_counter apply_routing_mode after_sampling
    evaluate_table derive lookup insert finish final_action
unreadable_count_restarts = refl

high_risk_never_passes_example :
    ((main always prefix key shows 2 call no_counts).1 ≡ "direct_l3")
    ⊎ ((main always prefix key shows 2 call no_counts).1 ≡ "direct_l4")
unfolding derive
high_risk_never_passes_example =
    high_risk_never_passes always prefix key shows 2 call no_counts (inl refl)

-- A fresh heartbeat, and everything in place.
abbrev observed : Observed
observed = record {
  now = 1000;
  heartbeat_ts = some 900;
  heartbeat_max_age = 300;
  canary_status = some "PASS";
  k3_pin = some "k3-model";
  verifier_model = none;
  validator_enabled = true;
  schema_required = "codex-loop-statemachine/v2";
  ledger_schema = none;
  module_schema = some "codex-loop-statemachine/v2";
  rollback_mode = some "cold_start";
  authorized = true;
}

layered-IsReady_example : (layered ≡ layered) × IsReady observed
unfolding effective_mode check_guards
layered-IsReady_example = layered-IsReady layered observed [] refl
