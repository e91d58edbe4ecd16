-- ===== src/StateMachine/Caps.antt =====
-- The bounds on replanning (t22) and on timeout retries (t37), over a packet's whole history.
mod Stages
pub mod Ledger
use mathlib.Core.Path.{subst}
use codex_loop_orchestra.Prelude.{
  ℕ, ◌+◌, ◌≤◌, ◌≡◌, refl, sym, ap, ◌∙◌, Bool, true, false, not, ◌&&◌, ◌||◌, String, List, [], ◌∷◌,
  ◌++◌, Option, none, some, Dict, lookup, insert, lookup-insert, arith, ltb, ◌==◌, ==_iff, str_eq,
  eq_refl, get_or_default, if◌then◌else◌, and_true, Bool-cases, inl, inr, CounterIo, works,
  read_fails, raises, can_read,
}
use codex_loop_orchestra.StateMachine.States.{State, ◌is◌}
use codex_loop_orchestra.StateMachine.Events.{event_name}
use codex_loop_orchestra.StateMachine.Packet.{
  Packet, Entry, Env, World, Level, Outcome, applied, aborted,
}
use codex_loop_orchestra.StateMachine.PacketId.{valid_pid}
use codex_loop_orchestra.StateMachine.Reports.{report_is_current}
use codex_loop_orchestra.StateMachine.Advance.{
  Input, advance, by_row, by_table, gated, replan, retry_timeout, fail_l2, settle, to_dead_letter,
  bump_counter, stale_generation, stale_run, duplicate_generation, pre_spawn_failure,
  late_stop_confirmed, dispatch_confirmed, timeout_confirmed, release_review_failure, replan_cap,
  timeout_retry_max, l2_attempts_max, pre_spawn_failure_max, escalate,
}
use codex_loop_orchestra.StateMachine.Table.{table, lookup_row}
use codex_loop_orchestra.StateMachine.Outcomes.{
  Ensures, IfHandled, advance_stages, handled_if, outcome_if,
}

abbrev pub numbered : ℕ → Option ℕ → Bool
numbered n none = false
numbered n (some m) = m == n

-- An accepted replanning, and an accepted retry of a timeout, in the history.
abbrev pub is_replan : Entry → Bool
is_replan e = numbered 22 e.t && (e.to is State.planned)

abbrev pub is_timeout_retry : Entry → Bool
is_timeout_retry e = numbered 37 e.t

abbrev pub occurrences : (Entry → Bool) → List Entry → ℕ
occurrences f [] = 0
occurrences f (e ∷ es) = (if f e then 1 else 0) + occurrences f es

abbrev pub replans : Packet → ℕ
replans p = occurrences is_replan p.history

abbrev pub timeout_retries : Packet → ℕ
timeout_retries p = occurrences is_timeout_retry p.history

occurrences-append :
    (f : Entry → Bool) (h : List Entry) (e : Entry)
    → occurrences f (h ++ e ∷ []) ≡ occurrences f h + (if f e then 1 else 0)
occurrences-append f [] e = omega arith
occurrences-append f (x ∷ h) e = omega (arith, occurrences-append f h e)

abbrev pub counter : String → Dict ℕ → ℕ
counter pid counters = get_or_default (lookup pid counters) 0

-- The history is within the caps, and the counter files have counted all of it.
pub record IsCapped (pid : String) (w : World) (p : Packet) : Type 0 where
  pub replans_counted : replans p ≤ counter pid w.replan_counters
  pub replans_capped : replans p ≤ replan_cap
  pub retries_counted : timeout_retries p ≤ counter pid w.timeout_retry_counters
  pub retries_capped : timeout_retries p ≤ timeout_retry_max

-- A step adds to the counters, and only to those of its packet.
pub record Counts (pid : String) (w w' : World) : Type 0 where
  pub replans_grow : counter pid w.replan_counters ≤ counter pid w'.replan_counters
  pub retries_grow : counter pid w.timeout_retry_counters ≤ counter pid w'.timeout_retry_counters
  pub elsewhere :
      (j : String)
      → str_eq pid j ≡ false
      → (counter j w'.replan_counters ≡ counter j w.replan_counters)
        × (counter j w'.timeout_retry_counters ≡ counter j w.timeout_retry_counters)

no_increment :
    (pid : String) (w w' : World)
    → w'.replan_counters ≡ w.replan_counters
    → w'.timeout_retry_counters ≡ w.timeout_retry_counters
    → Counts pid w w'
no_increment pid w w' e f = record {
  replans_grow = rw e (omega arith);
  retries_grow = rw f (omega arith);
  elsewhere = λ j h. (ap (counter j) e, ap (counter j) f);
}

-- The counter file of one packet after a bump.
record Bumped (pid : String) (most : ℕ) (cs : Dict ℕ) (r : Dict ℕ × ℕ × Bool) : Type 0 where
  grows : counter pid cs ≤ counter pid r.0
  accepted : r.2 ≡ false → (counter pid r.0 ≡ counter pid cs + 1) × (counter pid r.0 ≤ most)
  pub elsewhere : (j : String) → str_eq pid j ≡ false → counter j r.0 ≡ counter j cs

counter-insert_self : (pid : String) (n : ℕ) (cs : Dict ℕ) → counter pid (insert pid n cs) ≡ n
counter-insert_self pid n cs = rw (lookup-insert, eq_refl pid)

counter-insert_ne :
    (pid j : String) (n : ℕ) (cs : Dict ℕ)
    → str_eq pid j ≡ false
    → counter j (insert pid n cs) ≡ counter j cs
counter-insert_ne pid j n cs h = rw lookup-insert (rw h)

not_over : (most n : ℕ) → ltb most n ≡ false → n ≤ most
not_over most n h = ground arith

bump_counter-Bumped :
    (io : CounterIo) (pid : String) (most : ℕ) (cs : Dict ℕ)
    → can_read io ≡ true
    → Bumped pid most cs (bump_counter io pid most cs)
unfolding bump_counter
bump_counter-Bumped (works) pid most cs reads =
    let count = counter pid cs + 1 in
    let here = counter-insert_self pid count cs in
    record {
      grows = omega (arith, here);
      accepted = λ h. (here, omega (arith, here, not_over most count h));
      elsewhere = λ j h. counter-insert_ne pid j count cs h;
    }
bump_counter-Bumped (read_fails) pid most cs reads = cc
bump_counter-Bumped (raises) pid most cs reads = record {
  grows = omega arith;
  accepted = λ h. cc;
  elsewhere = λ j h. refl;
}
