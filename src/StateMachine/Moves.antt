-- ===== src/StateMachine/Moves.antt =====
-- Which moves between states an event can make.
use mathlib.Core.Path.{subst}
use codex_loop_orchestra.StateMachine.Rows.{replan_row}
use codex_loop_orchestra.StateMachine.Reports.{report_is_current, attempt_lt}
use codex_loop_orchestra.Prelude.{
  inl, inr, not, arith, true, false, Bool, ◌==◌, ==_iff, ◌||◌, ◌∙◌, sym, String, ℕ, ◌≡◌, refl, ◌⊎◌,
  ◌&&◌, Option, some, none, and_true, and_true₃, ◌+◌,
}
use codex_loop_orchestra.StateMachine.States.{State, is_sound}
use codex_loop_orchestra.StateMachine.Events.{Event, event_name, matches_sound}
use codex_loop_orchestra.StateMachine.Table.{table, lookup_row}
use codex_loop_orchestra.StateMachine.Packet.{Packet, Env, Level, World, Outcome, applied}
use codex_loop_orchestra.StateMachine.Advance.{
  Input, escalate, advance, by_row, by_table, gated, replan, retry_timeout, fail_l2, settle,
  to_dead_letter, stale_generation, stale_run, duplicate_generation, pre_spawn_failure,
  late_stop_confirmed, dispatch_confirmed, timeout_confirmed, other_run, same_run, is_run_terminal,
  release_review_failure,
}
use codex_loop_orchestra.StateMachine.Edges.{
  is_ignored, IsOrdinary, HasRow, replan_spent, retry_spent, l2_spent, unborn_spent, IsOpen, Stays,
  ignored, stopped_late, dispatched_again, timed_out_again, replan_over, Buried, off_table,
  unreported, unenforced, retry_over, Move, stays, buried, along, requeued, exhausted, reviewed,
  l2_exhausted,
}
use codex_loop_orchestra.StateMachine.Outcomes.{
  Ensures, IfHandled, Fresh, passed_on, advance_in_order, handled_if, outcome_if,
}
use codex_loop_orchestra.StateMachine.PacketId.{valid_pid}

-- The returned state is the packet's, and the packet has made a move.
abbrev pub IsMove : Env → World → Input → Packet → World → Packet → State → Type 0
IsMove env w i p w' q s = (s ≡ q.state) × Move env w i p q

module _ (env : Env) (i : Input) (w : World) (p : Packet) where
  abbrev Good : Outcome → Type 0
  Good = Ensures (IsMove env w i p)

  same_state :
      (v : World) (s : State) (q : Packet)
      → p.state ≡ s
      → Stays env w i p
      → q.state ≡ p.state
      → Good (applied v q s)
  same_state v s q e why e' = (sym e ∙ sym e', stays why e')

  dead_letter-IsMove :
      (reason : String) (v : World) (q : Packet)
      → IsOrdinary env w i p
      → Buried env w i p
      → Good (to_dead_letter env i.pid reason v q)
  unfolding to_dead_letter
  dead_letter-IsMove reason v q plain why =
      outcome_if Good (valid_pid i.pid) _ _ (λ _. (refl, buried plain why refl)) (λ _. tt)

  settle-IsMove :
      (to : State) (num : ℕ) (v : World) (q : Packet)
      → IsOrdinary env w i p
      → HasRow env w i p to num
      → IsOpen env w i p num
      → Good (settle env i to num v q)
  unfolding settle
  settle-IsMove to num v q plain h gate = (refl, along num plain h gate)

  any_of : (a b c : Bool) → (a ≡ true) ⊎ ((b ≡ true) ⊎ (c ≡ true)) → (a || b || c) ≡ true
  any_of a b c h = ground arith

  none_of : (a b c : Bool) → a ≡ false → b ≡ false → c ≡ false → (a || b || c) ≡ false
  none_of a b c ha hb hc = ground arith

  Fresh-is_ignored : Fresh env i w p → is_ignored env w i p ≡ false
  unfolding stale_generation stale_run duplicate_generation
  Fresh-is_ignored (e1, e2, e3) =
      none_of _ _ _ (passed_on _ _ e1) (passed_on _ _ e2) (passed_on _ _ e3)

  stale_generation-IsMove : IfHandled Good (stale_generation env i w p)
  unfolding stale_generation
  stale_generation-IsMove =
      handled_if Good _ _ (λ h. same_state w p.state _ refl (ignored (any_of _ _ _ (inl h))) refl)

  stale_run-IsMove : IfHandled Good (stale_run env i w p)
  unfolding stale_run
  stale_run-IsMove =
      handled_if Good _ _
        (λ h. same_state w p.state _ refl (ignored (any_of _ _ _ (inr (inl h)))) refl)

  duplicate_generation-IsMove : IfHandled Good (duplicate_generation env i w p)
  unfolding duplicate_generation
  duplicate_generation-IsMove = handled_if Good _ _ (λ h.
      same_state w p.state _ refl
        (ignored (
          any_of (attempt_lt i.attempt p.attempts)
            (is_run_terminal i.name && other_run p.current_run_id i.run_id) _ (inr (inr h))))
        refl)

  pre_spawn_failure-IsMove : Fresh env i w p → IfHandled Good (pre_spawn_failure env i w p)
  unfolding pre_spawn_failure
  pre_spawn_failure-IsMove fresh = handled_if Good _ _ λ h.
      outcome_if Good (unborn_spent env w i p) _ _
        (λ spent. (refl, exhausted (Fresh-is_ignored fresh) h spent refl))
        (λ left. (refl, requeued (Fresh-is_ignored fresh) h left refl))

  late_stop-IsMove : IfHandled Good (late_stop_confirmed env i w p)
  unfolding late_stop_confirmed
  late_stop-IsMove = handled_if Good _ _ λ h.
      let (here, name, file) = and_true₃ _ _ _ h in
      let state = is_sound p.state _ here in
      same_state w State.reported _ state
        (stopped_late state (matches_sound i.name Event.subagent_stop name) file) refl

  dispatch-IsMove : IfHandled Good (dispatch_confirmed env i w p)
  unfolding dispatch_confirmed
  dispatch-IsMove = handled_if Good _ _ λ h.
      let (rest, run) = and_true _ (same_run p.current_run_id i.run_id) h in
      let (here, name, attempt) = and_true₃ _ _ _ rest in
      let state = is_sound p.state _ here in
      same_state w State.running _ state
        (dispatched_again state (matches_sound i.name Event.dispatched name) attempt run) refl

  timeout-IsMove : IfHandled Good (timeout_confirmed env i w p)
  unfolding timeout_confirmed
  timeout-IsMove = handled_if Good _ _ λ h.
      let (here, name) = and_true _ _ h in
      let state = is_sound p.state _ here in
      same_state w State.timed_out _ state
        (timed_out_again state (matches_sound i.name Event.timeout name)) refl

  release_review_failure-IsMove :
      Fresh env i w p
      → pre_spawn_failure env i w p ≡ none
      → IfHandled Good (release_review_failure env i w p)
  unfolding pre_spawn_failure release_review_failure
  release_review_failure-IsMove fresh born =
      handled_if Good _ _ λ h. (refl, reviewed (Fresh-is_ignored fresh) (passed_on _ _ born) h refl)

  module _ (plain : IsOrdinary env w i p) (to : State) where
    abbrev Row : ℕ → Type 0
    Row = HasRow env w i p to

    replan-IsMove : Row 22 → p.state ≡ State.sol_adjudicate → Good (replan env i to w p)
    unfolding replan
    replan-IsMove h s =
        outcome_if Good (replan_spent env w i p) _ _
          (λ over.
            outcome_if Good (valid_pid i.pid) _ _
              (λ _. (sym s, stays (replan_over to plain h over) refl)) (λ _. tt))
          (λ fits. settle-IsMove to 22 _ p plain h (refl, refl, fits, refl, refl))

    retry_timeout-IsMove : Row 37 → Good (retry_timeout env i to w p)
    unfolding retry_timeout
    retry_timeout-IsMove h =
        outcome_if Good (retry_spent env w i p) _ _
          (λ over. dead_letter-IsMove "timeout_retry_exhausted" _ p plain (retry_over to h over))
          (λ fits. settle-IsMove to 37 _ p plain h (refl, refl, refl, fits, refl))

    fail_l2-IsMove : Row 35 → Good (fail_l2 env i to w p)
    unfolding fail_l2
    fail_l2-IsMove h =
        outcome_if Good (l2_spent env w i p) _ _ (λ over. (refl, l2_exhausted to plain h over refl))
          (λ fits.
            settle-IsMove to 35 w (record p { l2_attempts = p.l2_attempts + 1 }) plain h
              (refl, refl, refl, refl, fits))

    not_gated : (a b : Bool) → a ≡ false → (a && b) ≡ false
    not_gated a b h = ground arith

    gated-IsMove : (num : ℕ) → Row num → Good (gated env i to num w p)
    unfolding gated
    gated-IsMove num h =
        outcome_if Good (num == 4 && not (report_is_current env i.pid)) _ _
          (λ e.
            let (four, old) = and_true (num == 4) _ e in
            dead_letter-IsMove "report_missing_on_stop" w p plain
              (unreported to (rw ((==_iff num 4).0 four) at h) (ground (arith, old))))
          (λ n4.
            outcome_if Good ((num == 11 || num == 12) && not env.enforce_duty) _ _
              (λ e.
                let (ruling, off) = and_true (num == 11 || num == 12) _ e in
                dead_letter-IsMove "duty_ruling_recorded_not_routed"
                  (escalate env i.pid Level.duty_record_only (event_name i.name) w) p plain
                  (unenforced to num h ruling (ground (arith, off))))
              (λ n11.
                outcome_if Good (num == 22) _ _
                  (λ e.
                    let is_22 = (==_iff num 22).0 e in
                    replan-IsMove (rw is_22 at h) (replan_row _ _ _ _ h is_22))
                  (λ n22.
                    outcome_if Good (num == 37) _ _
                      (λ e. let it = (==_iff num 37).0 e in retry_timeout-IsMove (rw it at h))
                      (λ n37.
                        outcome_if Good (num == 35) _ _
                          (λ e. let it = (==_iff num 35).0 e in fail_l2-IsMove (rw it at h))
                          (λ n35.
                            settle-IsMove to num w p plain h (
                              n4,
                              n11,
                              not_gated _ _ n22,
                              not_gated _ _ n37,
                              not_gated _ _ n35,
                            ))))))

  module _ (plain : IsOrdinary env w i p) where
    by_row-IsMove :
        (r : Option (State × ℕ)) → lookup_row p.state i.name table ≡ r → Good (by_row env i r w p)
    unfolding by_row
    by_row-IsMove none h = dead_letter-IsMove "off_table_event" w p plain (off_table h)
    by_row-IsMove (some (to, num)) h = gated-IsMove plain to num h

    by_table-IsMove : Good (by_table env i w p)
    unfolding by_table
    by_table-IsMove = by_row-IsMove (lookup_row p.state i.name table) refl

  ordinary :
      Fresh env i w p
      → pre_spawn_failure env i w p ≡ none
      → release_review_failure env i w p ≡ none
      → IsOrdinary env w i p
  unfolding pre_spawn_failure release_review_failure
  ordinary fresh born passed = (Fresh-is_ignored fresh, passed_on _ _ born, passed_on _ _ passed)

  advance_moves : Good (advance env i w p)
  advance_moves =
      advance_in_order Good env i w p stale_generation-IsMove stale_run-IsMove
        duplicate_generation-IsMove pre_spawn_failure-IsMove late_stop-IsMove dispatch-IsMove
        timeout-IsMove release_review_failure-IsMove
        (λ fresh born passed. by_table-IsMove (ordinary fresh born passed))

-- Every event that is applied makes the packet take an edge of the lifecycle, and the state that
-- is returned is the packet's. It stays only where the event is out of date, says again what is
-- known or asks for a replanning over its cap. Otherwise it takes a row of the table whose gate is
-- open, goes to the dead letters for one of four reasons, or follows a rule outside the table under
-- that rule's condition.
pub advance-Move :
    (env : Env) (i : Input) (w w' : World) (p q : Packet) (s : State)
    → advance env i w p ≡ applied w' q s
    → (s ≡ q.state) × Move env w i p q
advance-Move env i w w' p q s h = subst (Ensures (IsMove env w i p)) h (advance_moves env i w p)
