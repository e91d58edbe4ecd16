-- ===== src/StateMachine/Events.antt =====
-- The event names of harness/statemachine_v2.py: those of the table, and `INFO_EVENTS`.
use mathlib.Core.Path.{ap₂}
use codex_loop_orchestra.Prelude.{
  get_or, ◌++◌, sym, ◌∙◌, and_true, ==_iff, ==-self, eq_refl, ℕ, ◌≡◌, Bool, ◌&&◌, String, List, [],
  ◌∷◌, ◌==◌, str_eq, eq_iff, Bool-cases, inl, inr, any, if◌then◌else◌, refl, true, false,
}

-- `info` is a name of `INFO_EVENTS`, `other` a name that neither the table nor that set has.
pub data Event : Type 0 where
  planned dag_assert_pass dispatched subagent_stop timeout exec_failed acceptance_pass
        acceptance_fail retry_dispatch duty_review duty_retryable duty_fixable duty_terminal
        budget_exhausted merged merge_conflict wave_complete dead_letter_summary conflict_pointer
        wave_summary sol_replan release_merge review_verdict_pass review_verdict_fail skeleton_ready
        expansion_valid expansion_invalid l2_requested verdict_pass verdict_redo
        verdict_escalate_l2_5 verdict_escalate_l3 best_candidate duty_triage :
      Event
  info : String → Event
  other : String → Event

abbrev pub event_rank : Event → ℕ
event_rank planned = 0
event_rank dag_assert_pass = 1
event_rank dispatched = 2
event_rank subagent_stop = 3
event_rank timeout = 4
event_rank exec_failed = 5
event_rank acceptance_pass = 6
event_rank acceptance_fail = 7
event_rank retry_dispatch = 8
event_rank duty_review = 9
event_rank duty_retryable = 10
event_rank duty_fixable = 11
event_rank duty_terminal = 12
event_rank budget_exhausted = 13
event_rank merged = 14
event_rank merge_conflict = 15
event_rank wave_complete = 16
event_rank dead_letter_summary = 17
event_rank conflict_pointer = 18
event_rank wave_summary = 19
event_rank sol_replan = 20
event_rank release_merge = 21
event_rank review_verdict_pass = 22
event_rank review_verdict_fail = 23
event_rank skeleton_ready = 24
event_rank expansion_valid = 25
event_rank expansion_invalid = 26
event_rank l2_requested = 27
event_rank verdict_pass = 28
event_rank verdict_redo = 29
event_rank verdict_escalate_l2_5 = 30
event_rank verdict_escalate_l3 = 31
event_rank best_candidate = 32
event_rank duty_triage = 33
event_rank (info _) = 34
event_rank (other _) = 35

unfoldable pub event_name : Event → String
event_name planned = "planned"
event_name dag_assert_pass = "dag_assert_pass"
event_name dispatched = "dispatched"
event_name subagent_stop = "subagent_stop"
event_name timeout = "timeout"
event_name exec_failed = "exec_failed"
event_name acceptance_pass = "acceptance_pass"
event_name acceptance_fail = "acceptance_fail"
event_name retry_dispatch = "retry_dispatch"
event_name duty_review = "duty_review"
event_name duty_retryable = "duty_retryable"
event_name duty_fixable = "duty_fixable"
event_name duty_terminal = "duty_terminal"
event_name budget_exhausted = "budget_exhausted"
event_name merged = "merged"
event_name merge_conflict = "merge_conflict"
event_name wave_complete = "wave_complete"
event_name dead_letter_summary = "dead_letter_summary"
event_name conflict_pointer = "conflict_pointer"
event_name wave_summary = "wave_summary"
event_name sol_replan = "sol_replan"
event_name release_merge = "release_merge"
event_name review_verdict_pass = "review_verdict_pass"
event_name review_verdict_fail = "review_verdict_fail"
event_name skeleton_ready = "skeleton_ready"
event_name expansion_valid = "expansion_valid"
event_name expansion_invalid = "expansion_invalid"
event_name l2_requested = "l2_requested"
event_name verdict_pass = "verdict_pass"
event_name verdict_redo = "verdict_redo"
event_name verdict_escalate_l2_5 = "verdict_escalate_l2_5"
event_name verdict_escalate_l3 = "verdict_escalate_l3"
event_name best_candidate = "best_candidate"
event_name duty_triage = "duty_triage"
event_name (info s) = s
event_name (other s) = s

-- The text of an event that the table does not name.
abbrev loose_text : Event → String
loose_text (info s) = s
loose_text (other s) = s
loose_text _ = ""

infix 50 ◌matches◌
abbrev pub ◌matches◌ : Event → Event → Bool
a matches b = event_rank a == event_rank b && str_eq (loose_text a) (loose_text b)

abbrev table_events : List Event
table_events =
    planned ∷ dag_assert_pass ∷ dispatched ∷ subagent_stop ∷ timeout ∷ exec_failed ∷ acceptance_pass
    ∷ acceptance_fail ∷ retry_dispatch ∷ duty_review ∷ duty_retryable ∷ duty_fixable ∷ duty_terminal
    ∷ budget_exhausted ∷ merged ∷ merge_conflict ∷ wave_complete ∷ dead_letter_summary
    ∷ conflict_pointer ∷ wave_summary ∷ sol_replan ∷ release_merge ∷ review_verdict_pass
    ∷ review_verdict_fail ∷ skeleton_ready ∷ expansion_valid ∷ expansion_invalid ∷ l2_requested
    ∷ verdict_pass ∷ verdict_redo ∷ verdict_escalate_l2_5 ∷ verdict_escalate_l3 ∷ best_candidate
    ∷ duty_triage ∷ []

abbrev info_events : List String
info_events =
    "worktree_allocated" ∷ "worktree_released" ∷ "SubagentStart" ∷ "SubagentStartRecovered"
    ∷ "SubagentStop" ∷ "exec_spawned" ∷ "exec_supervisor_started" ∷ "exec_exited" ∷ "exec_killed"
    ∷ "dispatch_refused" ∷ "spawn_health_gate_passed" ∷ "spawn_lost" ∷ "parent_stop"
    ∷ "close_requested" ∷ "lifecycle_reconciled" ∷ "dispatch_dry_run" ∷ "sol_budget_blocked"
    ∷ "l2_consumer_stale" ∷ "l2_claim_reaped" ∷ "governor.fail_closed" ∷ "governor.break_glass"
    ∷ "governor.state_key_unattested" ∷ "budget_state_change" ∷ "route_decision" ∷ []

-- The event that a name in the stream stands for.
event_among : List Event → String → Event
event_among [] name = if any (str_eq name) info_events then info name else other name
event_among (e ∷ es) name = if str_eq (event_name e) name then e else event_among es name

unfoldable pub parse_event : String → Event
unfolding event_among
parse_event name = event_among table_events name

-- Parsing loses no name: the event of a text has that text as its name.
event_name-classified :
    (b : Bool) (name : String) → event_name (if b then info name else other name) ≡ name
unfolding event_name
event_name-classified true name = refl
event_name-classified false name = refl

event_name-event_among : (es : List Event) (name : String) → event_name (event_among es name) ≡ name
unfolding event_among
event_name-event_among [] name = event_name-classified (any (str_eq name) info_events) name
event_name-event_among (e ∷ es) name = elim (Bool-cases (str_eq (event_name e) name)) [
  | inl h ↦ rw h ((eq_iff (event_name e) name).0 h)
  | inr h ↦ rw h (event_name-event_among es name)
]

pub event_name-parse_event : (name : String) → event_name (parse_event name) ≡ name
unfolding parse_event
event_name-parse_event name = event_name-event_among table_events name

-- The event with a rank and a text, so that the comparison is exact.
abbrev event_of_rank : ℕ → String → Event
event_of_rank n s = get_or (table_events ++ info s ∷ []) n (other s)

event_of_rank-event_rank : (e : Event) → event_of_rank (event_rank e) (loose_text e) ≡ e
event_of_rank-event_rank (info s) = refl
event_of_rank-event_rank (other s) = refl
event_of_rank-event_rank planned = refl
event_of_rank-event_rank dag_assert_pass = refl
event_of_rank-event_rank dispatched = refl
event_of_rank-event_rank subagent_stop = refl
event_of_rank-event_rank timeout = refl
event_of_rank-event_rank exec_failed = refl
event_of_rank-event_rank acceptance_pass = refl
event_of_rank-event_rank acceptance_fail = refl
event_of_rank-event_rank retry_dispatch = refl
event_of_rank-event_rank duty_review = refl
event_of_rank-event_rank duty_retryable = refl
event_of_rank-event_rank duty_fixable = refl
event_of_rank-event_rank duty_terminal = refl
event_of_rank-event_rank budget_exhausted = refl
event_of_rank-event_rank merged = refl
event_of_rank-event_rank merge_conflict = refl
event_of_rank-event_rank wave_complete = refl
event_of_rank-event_rank dead_letter_summary = refl
event_of_rank-event_rank conflict_pointer = refl
event_of_rank-event_rank wave_summary = refl
event_of_rank-event_rank sol_replan = refl
event_of_rank-event_rank release_merge = refl
event_of_rank-event_rank review_verdict_pass = refl
event_of_rank-event_rank review_verdict_fail = refl
event_of_rank-event_rank skeleton_ready = refl
event_of_rank-event_rank expansion_valid = refl
event_of_rank-event_rank expansion_invalid = refl
event_of_rank-event_rank l2_requested = refl
event_of_rank-event_rank verdict_pass = refl
event_of_rank-event_rank verdict_redo = refl
event_of_rank-event_rank verdict_escalate_l2_5 = refl
event_of_rank-event_rank verdict_escalate_l3 = refl
event_of_rank-event_rank best_candidate = refl
event_of_rank-event_rank duty_triage = refl

pub matches_sound : (a b : Event) → (a matches b) ≡ true → a ≡ b
matches_sound a b h =
    let (same_rank, same_text) = and_true _ _ h in
    sym (event_of_rank-event_rank a)
    ∙ ap₂ event_of_rank {x = event_rank a} {y = event_rank b} {u = loose_text a} {v = loose_text b}
        ((==_iff _ _).0 same_rank) ((eq_iff _ _).0 same_text)
    ∙ event_of_rank-event_rank b

pub matches_self : (e : Event) → (e matches e) ≡ true
matches_self e = rw (==-self (event_rank e), eq_refl (loose_text e))
