-- ===== src/Budget/Opening.antt =====
-- `open_task` of harness/budget_controller.py.
pub mod Sums
pub mod Shares
use codex_loop_orchestra.Prelude.{
  ℕ, zero, suc, ◌+◌, ◌-◌, ◌*◌, ◌/◌, min, max, Bool, true, false, not, ◌&&◌, ◌||◌, String, List, [],
  ◌∷◌, Option, none, some, Dict, any, ltb, str_eq, if◌then◌else◌, ℤ, pos, to_nat,
}
use codex_loop_orchestra.Budget.Doc.{
  normal, whole, Policy, RoleCostModel, role_cost_model, allocation, Doc, opened, Store, emit,
}
use codex_loop_orchestra.Budget.Grants.{role_key}

abbrev pub is_sol : String → Bool
is_sol role = str_eq role "sol"

-- `r in ("verifier", "reviewer", "plan_expander", "k3")`
abbrev pub is_k3 : String → Bool
is_k3 role = any (str_eq role) ("verifier" ∷ "reviewer" ∷ "plan_expander" ∷ "k3" ∷ [])

-- `sol_roles | k3_roles`
abbrev pub is_fixed : String → Bool
is_fixed role = is_sol role || is_k3 role

abbrev pub is_other : String → Bool
is_other role = not (is_fixed role)

-- `sum(raw[r] for r in …)`
unfoldable pub sum_of : (String → Bool) → Dict ℕ → ℕ
sum_of kind [] = 0
sum_of kind ((role, n) ∷ rest) = (if kind role then n else 0) + sum_of kind rest

-- `for role in …: raw[role] = f(raw[role])`
unfoldable pub adjust : (String → Bool) → (ℕ → ℕ) → Dict ℕ → Dict ℕ
adjust kind f [] = []
adjust kind f ((role, n) ∷ rest) = (role, if kind role then f n else n) ∷ adjust kind f rest

abbrev pub has_role : (String → Bool) → Dict ℕ → Bool
has_role kind = any (λ x. kind x.0)

-- `int(raw[role] * (to / max(1, of)))`
abbrev pub scaled : ℕ → ℕ → ℕ → ℕ
scaled to of n = n * to / max 1 of

-- The first estimates: the role's allocation for each of its agents.
unfoldable pub estimates : Policy → Dict RoleCostModel → Dict ℤ → Dict ℕ
estimates pol history [] = []
estimates pol history ((role, count) ∷ rest) =
    (role, allocation pol (role_cost_model history role) * max 1 (to_nat count))
    ∷ estimates pol history rest

-- `int(ceiling * self.policy.sol_hard_cap())` and `int(ceiling * self.policy.k3_floor())`
abbrev pub sol_cap_tokens : Policy → ℕ → ℕ
sol_cap_tokens pol ceiling = ceiling * pol.sol_hard_cap / whole

abbrev pub k3_floor_tokens : Policy → ℕ → ℕ
k3_floor_tokens pol ceiling = ceiling * pol.k3_floor / whole

unfoldable pub cap_sol : Policy → ℕ → Dict ℕ → Dict ℕ
cap_sol pol ceiling = adjust is_sol (λ n. min n (sol_cap_tokens pol ceiling))

unfoldable pub raise_k3 : Policy → ℕ → Dict ℕ → Dict ℕ
raise_k3 pol ceiling raw =
    let least = k3_floor_tokens pol ceiling in
    let k3_sum = sum_of is_k3 raw in
    if has_role is_k3 raw && ltb k3_sum least then adjust is_k3 (scaled least k3_sum) raw else raw

unfoldable pub fit_others : ℕ → Dict ℕ → Dict ℕ
fit_others ceiling raw =
    let available = ceiling - sum_of is_fixed raw in
    let other_sum = sum_of is_other raw in
    if has_role is_other raw && ltb available other_sum
    then adjust is_other (scaled available other_sum) raw
    else raw

unfoldable pub shaped : Policy → ℕ → Dict ℕ → Dict ℕ
shaped pol ceiling raw = fit_others ceiling (raise_k3 pol ceiling (cap_sol pol ceiling raw))

-- `{f"role:{r}": int(v) for r, v in raw.items()}`
unfoldable pub keyed : Dict ℕ → Dict ℕ
keyed [] = []
keyed ((role, n) ∷ rest) = (role_key role, n) ∷ keyed rest

-- `none` is the `ValueError` for a ceiling that is not positive.
unfoldable pub open_task :
    Policy → Dict RoleCostModel → ℕ → String → ℤ → Dict ℤ → Store → Option Store
open_task pol history now task_id (pos (suc n)) roles s =
    let allocated = keyed (shaped pol (suc n) (estimates pol history roles)) in
    some (
      emit (opened (some task_id) (suc n) allocated) (record s {
        doc = record {
          task_id = some task_id;
          ceiling = suc n;
          allocated = allocated;
          consumed = [];
          state = normal;
          state_changed_at = now;
          pool_returned = pos 0;
        };
      }))
open_task pol history now task_id _ roles s = none
