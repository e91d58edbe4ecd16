-- ===== src/Budget/Tests.antt =====
-- The theorems on harness/budget_controller.py at a task with a sol, a K3 and a worker role.
use codex_loop_orchestra.Prelude.{
  ◌+◌, ◌≤◌, max, ◌≡◌, refl, List, [], ◌∷◌, Option, none, some, Dict, lookup, insert, remove, arith,
  ℤ, pos,
}
use codex_loop_orchestra.Budget.Doc.{Policy, Store, no_task, throttle, total, state_order}
use codex_loop_orchestra.Budget.Ladder.{target, recompute_state, consume, record_usage}
use codex_loop_orchestra.Budget.Ladder.Laws.{
  MayDescend, Reaches, record_usage-climbs, record_usage-descends,
}
use codex_loop_orchestra.Budget.Grants.{register_agent, register_new, reclaim}
use codex_loop_orchestra.Budget.Grants.Holdings.{holdings, IsFunded}
use codex_loop_orchestra.Budget.Grants.Conserved.{
  Operation, register, record_use, give_back, ask_more, perform, perform_all, withheld,
  tokens_conserved,
}
use codex_loop_orchestra.Budget.Opening.{
  is_k3, is_fixed, sum_of, adjust, estimates, sol_cap_tokens, k3_floor_tokens, cap_sol, raise_k3,
  fit_others, shaped, keyed, open_task,
}
use codex_loop_orchestra.Budget.Opening.Sums.{count_of}
use codex_loop_orchestra.Budget.Opening.Shares.{SolCapped, shares, opening_fits, opening_shares}

abbrev policy : Policy
policy = record {
  throttle_at = 6000;
  degrade_at = 8500;
  break_at = 10000;
  cooldown_s = 60;
  headroom = 3000;
  sol_hard_cap = 1500;
  k3_floor = 2000;
  minimum_denominator = 2000000;
}

abbrev roles : Dict ℤ
roles = ("sol", pos 1) ∷ ("verifier", pos 1) ∷ ("worker", pos 16) ∷ []

abbrev empty : Store
empty = record { doc = no_task 0; events = [] }

abbrev or_empty : Option Store → Store
or_empty none = empty
or_empty (some s) = s

abbrev task : Store
unfolding open_task keyed shaped fit_others raise_k3 cap_sol estimates adjust sum_of lookup
task = or_empty (open_task policy [] 10 "task-1" (pos 400000) roles empty)

opened : open_task policy [] 10 "task-1" (pos 400000) roles empty ≡ some task
unfolding open_task keyed shaped fit_others raise_k3 cap_sol estimates adjust sum_of lookup
opened = refl

opening_fits_example :
    total task.doc.allocated ≤ max 400000 (sum_of is_fixed (shares policy [] 400000 roles))
opening_fits_example = opening_fits policy [] 10 "task-1" 400000 roles empty task opened

opening_shares_example :
    (task.doc.allocated ≡ keyed (shares policy [] 400000 roles))
    × SolCapped (sol_cap_tokens policy 400000) (shares policy [] 400000 roles)
    × (k3_floor_tokens policy 400000
        ≤ sum_of is_k3 (shares policy [] 400000 roles) + count_of is_k3 (estimates policy [] roles))
unfolding estimates sum_of lookup
opening_shares_example =
    opening_shares policy [] 10 "task-1" 400000 roles empty task opened (omega arith)

-- An agent registers, uses some of its grant, and gives the rest back.
abbrev operations : List Operation
operations =
    register "agent-1" "worker"
    ∷ record_use 20 "agent-1" (pos 500)
    ∷ ask_more "agent-1" "CONTINUE"
    ∷ give_back 30 "agent-1"
    ∷ []

task-IsFunded : IsFunded task.doc
unfolding task
task-IsFunded = record { pool = 0; pool_is = refl; has_task = refl }

-- The second allocation of an agent loses what the first had used, though nothing of it is used.
abbrev again : List Operation
again =
    register "agent-1" "worker"
    ∷ record_use 20 "agent-1" (pos 500)
    ∷ give_back 30 "agent-1"
    ∷ register "agent-1" "worker"
    ∷ give_back 40 "agent-1"
    ∷ []

used_is_withheld_twice : withheld policy [] again task ≡ 1000
unfolding perform register_agent register_new record_usage reclaim recompute_state target task
    open_task keyed shaped fit_others raise_k3 cap_sol estimates adjust sum_of lookup insert remove
    total
used_is_withheld_twice = refl

tokens_conserved_example :
    (holdings (perform_all policy [] operations task).doc + withheld policy [] operations task
      ≡ holdings task.doc)
    × IsFunded (perform_all policy [] operations task).doc
tokens_conserved_example = tokens_conserved policy [] operations task task-IsFunded

record_usage-climbs_example :
    Reaches policy
      (total task.doc.consumed + 300000)
      (max 1 task.doc.ceiling)
      (state_order (record_usage policy 20 "agent-1" (pos 300000) task).0.doc.state)
record_usage-climbs_example = record_usage-climbs policy 20 "agent-1" (pos 300000) task

-- A task that is still throttled, after the use has gone down.
abbrev throttled : Store
throttled = record task { doc = record task.doc { state = throttle } }

record_usage-descends_example : MayDescend policy 90 (consume "agent-1" (pos 10) throttled).doc
unfolding record_usage recompute_state target total insert lookup task
record_usage-descends_example =
    record_usage-descends policy 90 "agent-1" (pos 10) throttled (omega arith)
