-- ===== src/Retry/RouteLaws.antt =====
-- Every call of harness/retry.py writes events that the state machine accepts, once, and within
-- the budgets.
pub mod OnTable
pub mod Once
pub mod WithinBudget
use mathlib.Core.Path.{subst}
use codex_loop_orchestra.Prelude.{
  some_inj, ℕ, ◌+◌, ◌≤◌, ◌<◌, ◌≡◌, refl, sym, ap, ◌∙◌, ◌⊎◌, inl, inr, Bool, true, false, not, ◌&&◌,
  ◌||◌, String, List, [], ◌∷◌, ◌++◌, Option, none, some, lookup, insert, any, arith, leb, ◌==◌,
  str_eq, eq_iff, ==_iff, if◌then◌else◌, Bool-cases, and_true, and_true₃, or_true,
}
use codex_loop_orchestra.StateMachine.States.{State, ◌is◌, is_either}
use codex_loop_orchestra.StateMachine.Events.{Event, ◌matches◌}
use codex_loop_orchestra.StateMachine.Table.{table, lookup_row}
use codex_loop_orchestra.StateMachine.Packet.{Packet}
use codex_loop_orchestra.StateMachine.PacketId.{valid_pid}
use codex_loop_orchestra.StateMachine.Reports.{text_eq}
use codex_loop_orchestra.StateMachine.Caps.{occurrences}
use codex_loop_orchestra.Retry.Classes.{
  RetryClass, Action, retry, retry_already_scheduled, circuit_open, duty_review_offtable,
  duty_review_repeat, duty_review_class, dead_letter_permanent, dead_letter_budget, is_retryable,
  attempt_limit, first_match, has_action,
}
use codex_loop_orchestra.Retry.Breaker.{breaker}
use codex_loop_orchestra.Retry.Route.{
  RetryEvent, Files, Call, append_event, duty_review, dead_letter, the_packet, has_retry_dispatch,
  is_dispatch_of, admit_failed_packet, no_history, schedule, by_class, on_class, on_match, route,
  main, total_retries, load_last_fail_class,
}

abbrev pub is_retry : Action → Bool
is_retry retry = true
is_retry _ = false

below : (a b n k : ℕ) → (leb a n || leb b k) ≡ false → (n < a) × (k < b)
below a b n k h = ground arith

not-not : (b : Bool) → not b ≡ false → b ≡ true
not-not b h = ground arith

module _ (re_search : String → String → Bool) (P : Files × Action → Type 0) (c : Call) (p : Packet)
    (total : ℕ) where
  -- The three ways in which a call ends, each over files whose event stream is `f`'s.
  pub record Leaves (f : Files) : Type 0 where
    pub review :
        (why : String) (g : Files) (a : Action)
        → g.events ≡ f.events
        → is_retry a ≡ false
        → P (duty_review c.packet why g, a)
    pub dead :
        (reason : String) (g : Files) (a : Action)
        → g.events ≡ f.events
        → is_retry a ≡ false
        → P (dead_letter c.packet reason g, a)
    pub scheduled :
        (m : RetryClass) (g : Files)
        → g.events ≡ f.events
        → first_match re_search c.classes c.err ≡ some m
        → is_retryable m ≡ true
        → p.attempts < attempt_limit m
        → total < c.run_budget
        → P (schedule c p g)

  either_way :
      (b : Bool) (x y : Files × Action)
      → (b ≡ true → P x)
      → (b ≡ false → P y)
      → P (if b then x else y)
  either_way true x y h h' = h refl
  either_way false x y h h' = h' refl

  module _ (f : Files) (l : Leaves f) where
    by_class_leaves :
        (m : RetryClass) (g : Files)
        → first_match re_search c.classes c.err ≡ some m
        → g.events ≡ f.events
        → P (by_class c m p total g)
    unfolding by_class
    by_class_leaves m g found e =
        either_way (not (is_retryable m)) _ _
          (λ _.
            either_way (has_action m "duty_review") _ _
              (λ _. l.review "class_action_duty_review" g duty_review_class e refl)
              (λ _. l.dead "permanent_class" g dead_letter_permanent e refl))
          (λ r.
            either_way (leb (attempt_limit m) p.attempts || leb c.run_budget total) _ _
              (λ _. l.dead "budget_exhausted" g dead_letter_budget e refl)
              (λ b.
                let (few, left) = below _ _ _ _ b in
                l.scheduled m g e found (not-not _ r) few left))

    abbrev with_class : RetryClass → Files → Files
    with_class m g = record g { last_fail_class = insert c.packet m.name g.last_fail_class }

    on_class_leaves :
        (m : RetryClass) (g : Files)
        → first_match re_search c.classes c.err ≡ some m
        → g.events ≡ f.events
        → P (on_class c m p total g)
    unfolding on_class
    on_class_leaves m g found e =
        either_way (text_eq (load_last_fail_class c.packet g) (some m.name)) _ _
          (λ _. l.review "2_consecutive_same_class" (with_class m g) duty_review_repeat e refl)
          (λ _. by_class_leaves m (with_class m g) found e)

    on_match_leaves :
        (o : Option RetryClass) (g : Files)
        → first_match re_search c.classes c.err ≡ o
        → g.events ≡ f.events
        → P (on_match c o p total g)
    unfolding on_match
    on_match_leaves none g found e = l.review "regex_no_match" g duty_review_offtable e refl
    on_match_leaves (some m) g found e = on_class_leaves m g found e

    abbrev counted : Files
    counted = record f { breaker_state = (breaker c.now true c.breaker_fails f.breaker_state).0 }

    pub route_leaves : P (route re_search c p total f)
    unfolding route
    route_leaves =
        either_way (breaker c.now true c.breaker_fails f.breaker_state).1 _ _
          (λ _. l.review "circuit_breaker_open" counted circuit_open refl refl)
          (λ _. on_match_leaves (first_match re_search c.classes c.err) counted refl refl)

-- Admission writes the ledger only.
admit-events :
    (now : ℕ) (pid : String) (f : Files) → (admit_failed_packet now pid f).events ≡ f.events
admit-events now pid f = ground arith

-- The files from which the retry is claimed.
abbrev pub ready : Call → Packet → Files → Files
ready c p g =
    if (p.state is State.failed) && no_history p then admit_failed_packet c.now c.packet g else g

pub ready-events : (c : Call) (p : Packet) (g : Files) → (ready c p g).events ≡ g.events
ready-events c p g = ground (arith, admit-events c.now c.packet g)

-- The packet waits for a decision.
abbrev pub waits : State → Bool
waits s = (s is State.failed) || (s is State.timed_out)

-- A property of a call of `main` holds if it holds of a call that does nothing, and of the three
-- ways in which a call for a waiting packet ends.
pub main_leaves :
    (re_search : String → String → Bool) (P : Files × Action → Type 0) (c : Call) (f g : Files)
    (a : Action)
    → P (f, retry_already_scheduled)
    → (waits (the_packet c.packet f).state ≡ true
        → Leaves re_search P c
            (the_packet c.packet f)
            (total_retries (insert c.packet (the_packet c.packet f) f.packets))
            f)
    → main re_search c f ≡ some (g, a)
    → P (g, a)
unfolding main
main_leaves re_search P c f g a idle leaves h =
    go (valid_pid c.packet) (waits p.state) refl h
      (λ w. route_leaves re_search P c p total f (leaves w))
  where
    p : Packet
    p = the_packet c.packet f

    total : ℕ
    total = total_retries (insert c.packet p f.packets)

    go :
        (valid waiting : Bool)
        → waits p.state ≡ waiting
        → ◌≡◌ {A = Option (Files × Action)}
            (if not valid
              then none
              else if not waiting
              then some (f, retry_already_scheduled)
              else some (route re_search c p total f))
            (some (g, a))
        → (waits p.state ≡ true → P (route re_search c p total f))
        → P (g, a)
    go false waiting w e run = cc
    go true false w e run = subst P (some_inj e) idle
    go true true w e run = subst P (some_inj e) (run w)
