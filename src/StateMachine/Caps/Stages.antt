-- ===== src/StateMachine/Caps/Stages.antt =====
-- Each stage of `apply_event` keeps the caps.
use codex_loop_orchestra.Prelude.{
  ℕ, ◌+◌, ◌≡◌, refl, ap, ◌∙◌, false, not, ◌&&◌, ◌||◌, String, List, [], ◌∷◌, ◌++◌, Option, none,
  some, Dict, arith, ltb, ◌==◌, can_read, true,
}
use codex_loop_orchestra.StateMachine.States.{State}
use codex_loop_orchestra.StateMachine.Events.{event_name}
use codex_loop_orchestra.StateMachine.Packet.{Packet, Entry, Env, World, Level, Outcome}
use codex_loop_orchestra.StateMachine.PacketId.{valid_pid}
use codex_loop_orchestra.StateMachine.Reports.{report_is_current}
use codex_loop_orchestra.StateMachine.Advance.{
  Input, advance, by_row, by_table, gated, replan, retry_timeout, fail_l2, settle, to_dead_letter,
  bump_counter, stale_generation, stale_run, duplicate_generation, pre_spawn_failure,
  late_stop_confirmed, dispatch_confirmed, timeout_confirmed, release_review_failure, replan_cap,
  timeout_retry_max, l2_attempts_max, pre_spawn_failure_max, escalate,
}
use codex_loop_orchestra.StateMachine.Table.{table, lookup_row}
use codex_loop_orchestra.StateMachine.Outcomes.{
  Ensures, IfHandled, advance_stages, handled_if, outcome_if,
}
use codex_loop_orchestra.StateMachine.Caps.{
  is_replan, is_timeout_retry, occurrences, occurrences-append, IsCapped, Counts, no_increment,
  Bumped, bump_counter-Bumped,
}

-- What a handler of `pid`'s event leaves of the caps.
abbrev pub Kept : String → World → World → Packet → State → Type 0
Kept pid w w' q s = IsCapped pid w' q × Counts pid w w'

module _ (pid : String) (w : World) (p : Packet) (c : IsCapped pid w p) where
  -- An entry that is neither a replanning nor a retry, with counters that have not fallen.
  quiet :
      (w' : World) (q : Packet) (e : Entry)
      → q.history ≡ p.history ++ e ∷ []
      → is_replan e ≡ false
      → is_timeout_retry e ≡ false
      → Counts pid w w'
      → IsCapped pid w' q
  quiet w' q e h no_replan no_retry g =
      let r = ap (occurrences is_replan) h ∙ occurrences-append is_replan p.history e in
      let t =
        ap (occurrences is_timeout_retry) h ∙ occurrences-append is_timeout_retry p.history e in
      ground (
        arith, r, t, c.replans_counted, c.replans_capped, c.retries_counted, c.retries_capped,
        g.replans_grow, g.retries_grow,
      )

  unchanged : Counts pid w w
  unchanged = no_increment pid w w refl refl

  module _ (env : Env) (i : Input) (own : i.pid ≡ pid)
      (reads : can_read env.counter_io ≡ true) where
    abbrev Good : Outcome → Type 0
    Good = Ensures (Kept pid w)

    to_dead_letter-Kept :
        (reason : String) (v : World) (q : Packet)
        → q.history ≡ p.history
        → Counts pid w v
        → Good (to_dead_letter env i.pid reason v q)
    unfolding to_dead_letter
    to_dead_letter-Kept reason v q h g =
        outcome_if Good (valid_pid i.pid) _ _
          (λ _. (
            quiet _ _ _
                (ap
                  (λ (l : List Entry).
                    l
                    ++ record { ts = env.now; to = State.dead_letter; via = reason; t = none } ∷ [])
                  h)
                refl refl (same_files g),
            same_files g,
          ))
          (λ _. tt)
      where
        same_files :
            {a : Dict _} {b : List _} {n : ℕ}
            → Counts pid w v
            → Counts pid w (record v { dead_letters = a; escalation_log = b; dead_this_step = n })
        same_files k = record {
          replans_grow = k.replans_grow;
          retries_grow = k.retries_grow;
          elsewhere = k.elsewhere;
        }

    settle-Kept :
        (to : State) (num : ℕ)
        → (num == 22) ≡ false
        → (num == 37) ≡ false
        → (q : Packet) → q.history ≡ p.history
        → Good (settle env i to num w q)
    unfolding settle
    settle-Kept to num n22 n37 q h = (
      quiet w _ (record { ts = env.now; to = to; via = event_name i.name; t = some num })
          (ap
            (λ (l : List Entry).
              l ++ record { ts = env.now; to = to; via = event_name i.name; t = some num } ∷ [])
            h)
          (rw n22) n37 unchanged,
      unchanged,
    )

    -- A counter file of `pid` after a bump.
    replan_bump :
        Bumped pid replan_cap w.replan_counters
          (bump_counter env.counter_io i.pid replan_cap w.replan_counters)
    replan_bump = rw own (bump_counter-Bumped env.counter_io pid replan_cap w.replan_counters reads)

    retry_bump :
        Bumped pid timeout_retry_max w.timeout_retry_counters
          (bump_counter env.counter_io i.pid timeout_retry_max w.timeout_retry_counters)
    retry_bump =
        rw own
          (bump_counter-Bumped env.counter_io pid timeout_retry_max w.timeout_retry_counters reads)

    abbrev after_replan_bump : World
    after_replan_bump = record w {
      replan_counters = (bump_counter env.counter_io i.pid replan_cap w.replan_counters).0;
    }

    abbrev after_retry_bump : World
    after_retry_bump = record w {
      timeout_retry_counters =
          (bump_counter env.counter_io i.pid timeout_retry_max w.timeout_retry_counters).0;
    }

    replan_bumps : Counts pid w after_replan_bump
    replan_bumps = record {
      replans_grow = replan_bump.grows;
      retries_grow = omega arith;
      elsewhere = λ j h. (replan_bump.elsewhere j h, refl);
    }

    retry_bumps : Counts pid w after_retry_bump
    retry_bumps = record {
      replans_grow = omega arith;
      retries_grow = retry_bump.grows;
      elsewhere = λ j h. (refl, retry_bump.elsewhere j h);
    }

    -- An entry with the number 22 under a counter that has been bumped within its cap.
    replanned :
        (q : Packet) (e : Entry)
        → q.history ≡ p.history ++ e ∷ []
        → is_timeout_retry e ≡ false
        → (bump_counter env.counter_io i.pid replan_cap w.replan_counters).2 ≡ false
        → IsCapped pid after_replan_bump q
    replanned q e h no_retry fits =
        let r = ap (occurrences is_replan) h ∙ occurrences-append is_replan p.history e in
        let t =
          ap (occurrences is_timeout_retry) h ∙ occurrences-append is_timeout_retry p.history e in
        let (up, within) = replan_bump.accepted fits in
        ground (
          arith, r, t, up, within, c.replans_counted, c.replans_capped, c.retries_counted,
          c.retries_capped,
        )

    retried :
        (q : Packet) (e : Entry)
        → q.history ≡ p.history ++ e ∷ []
        → is_replan e ≡ false
        → (bump_counter env.counter_io i.pid timeout_retry_max w.timeout_retry_counters).2 ≡ false
        → IsCapped pid after_retry_bump q
    retried q e h no_replan fits =
        let r = ap (occurrences is_replan) h ∙ occurrences-append is_replan p.history e in
        let t =
          ap (occurrences is_timeout_retry) h ∙ occurrences-append is_timeout_retry p.history e in
        let (up, within) = retry_bump.accepted fits in
        ground (
          arith, r, t, up, within, c.replans_counted, c.replans_capped, c.retries_counted,
          c.retries_capped,
        )

    replan-Kept : (to : State) → Good (replan env i to w p)
    unfolding replan settle
    replan-Kept to =
        outcome_if Good (bump_counter env.counter_io i.pid replan_cap w.replan_counters).2 _ _
          (λ _.
            outcome_if Good (valid_pid i.pid) _ _
              (λ _. (quiet _ _ _ refl refl refl (forced replan_bumps), forced replan_bumps))
              (λ _. tt))
          (λ fits. (replanned _ _ refl refl fits, replan_bumps))
      where
        forced :
            {b : List _}
            → Counts pid w after_replan_bump
            → Counts pid w (record after_replan_bump { escalation_log = b })
        forced k = record {
          replans_grow = k.replans_grow;
          retries_grow = k.retries_grow;
          elsewhere = k.elsewhere;
        }

    retry_timeout-Kept : (to : State) → Good (retry_timeout env i to w p)
    unfolding retry_timeout settle
    retry_timeout-Kept to =
        outcome_if Good
          (bump_counter env.counter_io i.pid timeout_retry_max w.timeout_retry_counters).2 _ _
          (λ _. to_dead_letter-Kept "timeout_retry_exhausted" after_retry_bump p refl retry_bumps)
          (λ fits. (retried _ _ refl refl fits, retry_bumps))

    fail_l2-Kept : (to : State) → Good (fail_l2 env i to w p)
    unfolding fail_l2
    fail_l2-Kept to =
        outcome_if Good (ltb l2_attempts_max (p.l2_attempts + 1)) _ _
          (λ _. (quiet w _ _ refl refl refl unchanged, unchanged))
          (λ _. settle-Kept to 35 refl refl (record p { l2_attempts = p.l2_attempts + 1 }) refl)

    gated-Kept : (to : State) (num : ℕ) → Good (gated env i to num w p)
    unfolding gated
    gated-Kept to num =
        outcome_if Good (num == 4 && not (report_is_current env i.pid)) _ _
          (λ _. to_dead_letter-Kept "report_missing_on_stop" w p refl unchanged)
          (λ _.
            outcome_if Good ((num == 11 || num == 12) && not env.enforce_duty) _ _
              (λ _.
                to_dead_letter-Kept "duty_ruling_recorded_not_routed"
                  (escalate env i.pid Level.duty_record_only (event_name i.name) w) p refl
                  (no_increment pid w _ refl refl))
              (λ _.
                outcome_if Good (num == 22) _ _ (λ _. replan-Kept to)
                  (λ n22.
                    outcome_if Good (num == 37) _ _ (λ _. retry_timeout-Kept to)
                      (λ n37.
                        outcome_if Good (num == 35) _ _ (λ _. fail_l2-Kept to)
                          (λ _. settle-Kept to num n22 n37 p refl)))))

    by_row-Kept : (r : Option (State × ℕ)) → Good (by_row env i r w p)
    unfolding by_row
    by_row-Kept none = to_dead_letter-Kept "off_table_event" w p refl unchanged
    by_row-Kept (some (to, num)) = gated-Kept to num

    by_table-Kept : Good (by_table env i w p)
    unfolding by_table
    by_table-Kept = by_row-Kept (lookup_row p.state i.name table)

    pre_spawn-Kept : IfHandled Good (pre_spawn_failure env i w p)
    unfolding pre_spawn_failure
    pre_spawn-Kept = handled_if Good _ _ λ _.
        outcome_if Good (ltb pre_spawn_failure_max (p.pre_spawn_failures + 1)) _ _
          (λ _. (quiet w _ _ refl refl refl unchanged, unchanged))
          (λ _. (quiet w _ _ refl refl refl unchanged, unchanged))

    pub advance_keeps_caps : Good (advance env i w p)
    unfolding stale_generation stale_run duplicate_generation late_stop_confirmed dispatch_confirmed
        timeout_confirmed release_review_failure
    advance_keeps_caps =
        advance_stages Good env i w p
          (handled_if Good _ _ λ _. (quiet w _ _ refl refl refl unchanged, unchanged))
          (handled_if Good _ _ λ _. (quiet w _ _ refl refl refl unchanged, unchanged))
          (handled_if Good _ _ λ _. (quiet w _ _ refl refl refl unchanged, unchanged))
          pre_spawn-Kept
          (handled_if Good _ _ λ _. (quiet w _ _ refl refl refl unchanged, unchanged))
          (handled_if Good _ _ λ _. (quiet w _ _ refl refl refl unchanged, unchanged))
          (handled_if Good _ _ λ _. (quiet w _ _ refl refl refl unchanged, unchanged))
          (handled_if Good _ _ λ _. (quiet w _ _ refl refl refl unchanged, unchanged)) by_table-Kept
