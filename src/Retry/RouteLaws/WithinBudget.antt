-- ===== src/Retry/RouteLaws/WithinBudget.antt =====
-- harness/retry.py retries only within the budgets.
use codex_loop_orchestra.Prelude.{ℕ, ◌<◌, ◌≡◌, refl, Bool, true, String, some, insert}
use codex_loop_orchestra.StateMachine.Packet.{Packet}
use codex_loop_orchestra.Retry.Classes.{
  RetryClass, Action, retry, is_retryable, attempt_limit, first_match,
}
use codex_loop_orchestra.Retry.Route.{Files, Call, the_packet, main, total_retries}
use codex_loop_orchestra.Retry.RouteLaws.{is_retry, Leaves, main_leaves}

-- What a retry needs: a class that matches the error and is retryable, attempts left for the
-- packet and retries left for the run.
abbrev pub Affordable : (String → String → Bool) → Call → Packet → ℕ → Type 0
Affordable re_search c p total =
    (m : RetryClass) × (first_match re_search c.classes c.err ≡ some m)
    × (is_retryable m ≡ true)
    × (p.attempts < attempt_limit m)
    × (total < c.run_budget)

abbrev IfRetried : (String → String → Bool) → Call → Packet → ℕ → Files × Action → Type 0
IfRetried re_search c p total r = is_retry r.1 ≡ true → Affordable re_search c p total

each_exit_in_budget :
    (re_search : String → String → Bool) (c : Call) (p : Packet) (total : ℕ) (f : Files)
    → Leaves re_search (IfRetried re_search c p total) c p total f
each_exit_in_budget re_search c p total f = record {
  review = λ why g a _ no h. cc;
  dead = λ reason g a _ no h. cc;
  scheduled = λ m g _ found able few left _. (m, found, able, few, left);
}

-- A call that answers `retry` had a retryable class for the error, fewer attempts of the packet
-- than the class allows, and fewer retries in the whole ledger than the run budget.
pub main-Affordable :
    (re_search : String → String → Bool) (c : Call) (f g : Files)
    → main re_search c f ≡ some (g, retry)
    → Affordable re_search c
        (the_packet c.packet f)
        (total_retries (insert c.packet (the_packet c.packet f) f.packets))
main-Affordable re_search c f g h =
    main_leaves re_search (IfRetried re_search c (the_packet c.packet f) _) c f g retry (λ e. cc)
      (λ _. each_exit_in_budget re_search c (the_packet c.packet f) _ f) h refl
