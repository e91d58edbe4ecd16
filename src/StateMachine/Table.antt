-- ===== src/StateMachine/Table.antt =====
-- The transition table `T` of harness/statemachine_v2.py as a list of rows.
use codex_loop_orchestra.Prelude.{ℕ, ◌&&◌, List, [], ◌∷◌, Option, none, some, if◌then◌else◌}
use codex_loop_orchestra.StateMachine.States.{State, ◌is◌}
use codex_loop_orchestra.StateMachine.Events.{Event, ◌matches◌}

pub record Row : Type 0 where
  pub from_state : State
  pub event : Event
  pub to_state : State
  pub number : ℕ

abbrev pub row : State → Event → State → ℕ → Row
row s e t n = record { from_state = s; event = e; to_state = t; number = n }

-- `T`, in the order of the dict literal.
abbrev pub table : List Row
table =
    row State.none_state Event.planned State.planned 1
    ∷ row State.planned Event.dag_assert_pass State.dispatchable 2
    ∷ row State.dispatchable Event.dispatched State.running 3
    ∷ row State.running Event.subagent_stop State.reported 4
    ∷ row State.running Event.timeout State.timed_out 5
    ∷ row State.running Event.exec_failed State.failed 6
    ∷ row State.reported Event.acceptance_pass State.accepted 7
    ∷ row State.reported Event.acceptance_fail State.failed 8
    ∷ row State.failed Event.retry_dispatch State.dispatchable 9
    ∷ row State.failed Event.duty_review State.duty_review 10
    ∷ row State.timed_out Event.duty_review State.duty_review 39
    ∷ row State.duty_review Event.duty_retryable State.running 11
    ∷ row State.duty_review Event.duty_fixable State.running 12
    ∷ row State.duty_review Event.duty_terminal State.dead_letter 13
    ∷ row State.timed_out Event.budget_exhausted State.dead_letter 14
    ∷ row State.failed Event.budget_exhausted State.dead_letter 15
    ∷ row State.accepted Event.merged State.merged 16
    ∷ row State.accepted Event.merge_conflict State.merge_conflict 17
    ∷ row State.merged Event.wave_complete State.wave_done 18
    ∷ row State.dead_letter Event.dead_letter_summary State.sol_adjudicate 19
    ∷ row State.merge_conflict Event.conflict_pointer State.sol_adjudicate 20
    ∷ row State.wave_done Event.wave_summary State.sol_adjudicate 21
    ∷ row State.sol_adjudicate Event.sol_replan State.planned 22
    ∷ row State.sol_adjudicate Event.release_merge State.done 23
    ∷ row State.reported Event.review_verdict_pass State.sol_adjudicate 24
    ∷ row State.reported Event.review_verdict_fail State.sol_adjudicate 25
    ∷ row State.none_state Event.skeleton_ready State.expand_k3 27
    ∷ row State.expand_k3 Event.expansion_valid State.planned 28
    ∷ row State.expand_k3 Event.expansion_invalid State.sol_adjudicate 29
    ∷ row State.reported Event.l2_requested State.l2_verify 30
    ∷ row State.l2_verify Event.verdict_pass State.accepted 31
    ∷ row State.l2_verify Event.verdict_redo State.failed 32
    ∷ row State.l2_verify Event.verdict_escalate_l2_5 State.l2_rank 33
    ∷ row State.l2_verify Event.verdict_escalate_l3 State.sol_adjudicate 34
    ∷ row State.l2_verify Event.exec_failed State.failed 35
    ∷ row State.l2_rank Event.best_candidate State.l2_verify 36
    ∷ row State.timed_out Event.retry_dispatch State.dispatchable 37
    ∷ row State.dead_letter Event.duty_triage State.duty_review 38
    ∷ []

-- `T[key]` with `key = (state, event)`, if there is such a key.
unfoldable pub lookup_row : State → Event → List Row → Option (State × ℕ)
lookup_row s e [] = none
lookup_row s e (r ∷ rs) =
    if (r.from_state is s) && (r.event matches e)
    then some (r.to_state, r.number)
    else lookup_row s e rs
