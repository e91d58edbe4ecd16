-- ===== src/Budget/Grants.antt =====
-- `register_agent`, `reclaim` and `extend_or_wrap_up` of harness/budget_controller.py.
pub mod Holdings
pub mod Conserved
use codex_loop_orchestra.Prelude.{
  ℕ, ◌+◌, ◌-◌, ◌*◌, ◌/◌, min, max, Bool, true, false, not, ◌&&◌, ◌||◌, String, Option, none, some,
  Dict, lookup, insert, remove, ltb, leb, ◌==◌, str_eq, is_some, if◌then◌else◌, ℤ, pos, to_nat,
  add_nat, sub_nat,
}
use codex_loop_orchestra.Budget.Doc.{
  is_break, Policy, RoleCostModel, role_cost_model, allocation, Doc, reclaimed, extended, Store,
  emit, amount,
}
use codex_loop_orchestra.Budget.Ladder.{recompute_state}

abbrev text_append : String → String → String
text_append String.[] t = t
text_append (String.◌∷◌ c s) t = String.◌∷◌ c (text_append s t)

-- `f"role:{role}"`
abbrev pub role_key : String → String
role_key role = text_append "role:" role

-- `register_agent` returns the grant, or raises `BudgetExceeded` with nothing remaining.
pub data Grant : Type 0 where
  granted : ℕ → Grant
  refused : Grant

-- The document after a grant: the role's allocation is used before the pool.
abbrev pub carve : String → String → ℕ → Doc → Doc
carve agent_id key grant d =
    let role_pool = amount key d.allocated in
    let take_role = min grant role_pool in
    record d {
      allocated = insert agent_id grant (insert key (role_pool - take_role) d.allocated);
      consumed = insert agent_id (amount agent_id d.consumed) d.consumed;
      pool_returned = sub_nat d.pool_returned (grant - take_role);
    }

-- `available` if it is above 0, else 0.
abbrev pub available : String → Doc → ℕ
available key d = to_nat (add_nat d.pool_returned (amount key d.allocated))

abbrev pub to_grant : ℕ → ℕ → ℕ
to_grant want free = if ltb 0 free then min want free else want

unfoldable pub register_new : Policy → Dict RoleCostModel → String → String → Store → Store × Grant
register_new pol history agent_id role s =
    let free = available (role_key role) s.doc in
    let grant = to_grant (allocation pol (role_cost_model history role)) free in
    if (free == 0) && is_some s.doc.task_id
    then (s, refused)
    else (record s { doc = carve agent_id (role_key role) grant s.doc }, granted grant)

unfoldable pub register_agent :
    Policy → Dict RoleCostModel → String → String → Store → Store × Grant
register_agent pol history agent_id role s = elim (lookup agent_id s.doc.allocated) [
  | some n ↦ (s, granted n)
  | none ↦ register_new pol history agent_id role s
]

-- `max(0, allocated - consumed)`
abbrev pub unused : String → Doc → ℕ
unused agent_id d = amount agent_id d.allocated - amount agent_id d.consumed

abbrev pub return_unused : String → Store → Store
return_unused agent_id s = record s {
  doc = record s.doc {
    allocated = remove agent_id s.doc.allocated;
    pool_returned = add_nat s.doc.pool_returned (unused agent_id s.doc);
  };
}

unfoldable pub reclaim : Policy → ℕ → String → Store → Store × ℕ
reclaim pol now agent_id s =
    let n = unused agent_id s.doc in
    let s' = recompute_state pol now (return_unused agent_id s) in
    (if n == 0 then s' else emit (reclaimed agent_id n) s', n)

-- `BudgetDecision`, with its two actions.
pub data Decision : Type 0 where
  extend : ℕ → Decision
  wrap_up : Decision

-- `consumed >= 0.85 * max(1, allocated)`
abbrev pub near_limit : String → Doc → Bool
near_limit agent_id d =
    leb (85 * max 1 (amount agent_id d.allocated)) (100 * amount agent_id d.consumed)

-- `min(pool, max(0, allocated) // 2)`, 0 where the pool is below 0.
abbrev pub extension : String → Doc → ℕ
extension agent_id d = min (to_nat d.pool_returned) (amount agent_id d.allocated / 2)

abbrev pub extend_by : String → ℕ → Store → Store
extend_by agent_id n s = emit (extended agent_id n) (record s {
  doc = record s.doc {
    allocated = insert agent_id (amount agent_id s.doc.allocated + n) s.doc.allocated;
    pool_returned = sub_nat s.doc.pool_returned n;
  };
})

unfoldable pub extend_or_wrap_up : String → String → Store → Store × Decision
extend_or_wrap_up agent_id verification_state s =
    let n = extension agent_id s.doc in
    if not (near_limit agent_id s.doc)
    then (s, extend 0)
    else if ltb 0 n && str_eq verification_state "CONTINUE" && not (is_break s.doc.state)
    then (extend_by agent_id n s, extend n)
    else (s, wrap_up)
