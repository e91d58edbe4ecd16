-- ===== src/Budget/Doc.antt =====
-- What harness/budget_controller.py keeps: `data/budget/active.json` with its event log, the
-- policy and the history of costs. Rates are in 1/10000.
use codex_loop_orchestra.Prelude.{
  Bool, true, false, ℕ, ◌+◌, ◌*◌, ◌/◌, String, List, [], ◌∷◌, ◌++◌, Option, none, Dict, lookup,
  get_or_default, ℤ, pos,
}

-- `BudgetState`
pub data BudgetState : Type 0 where
  normal throttle degrade break : BudgetState

-- `_STATE_ORDER`
abbrev pub state_order : BudgetState → ℕ
state_order normal = 0
state_order throttle = 1
state_order degrade = 2
state_order break = 3

abbrev pub is_break : BudgetState → Bool
is_break break = true
is_break _ = false

-- The scale of the rates.
abbrev pub whole : ℕ
whole = 10000

-- The policy's values; a negative headroom counts as 0.
pub record Policy : Type 0 where
  pub throttle_at : ℕ
  pub degrade_at : ℕ
  pub break_at : ℕ
  pub cooldown_s : ℕ
  pub headroom : ℕ
  pub sol_hard_cap : ℕ
  pub k3_floor : ℕ
  pub minimum_denominator : ℕ

pub record RoleCostModel : Type 0 where
  pub p50 : ℕ
  pub p90 : ℕ
  pub samples : ℕ

-- `_BOOTSTRAP_P50` and `_BOOTSTRAP_P90`
abbrev bootstrap : RoleCostModel
bootstrap = record { p50 = 20000; p90 = 60000; samples = 0 }

-- `role_cost_model`, over the entries of the history that can be read.
abbrev pub role_cost_model : Dict RoleCostModel → String → RoleCostModel
role_cost_model history role = get_or_default (lookup role history) bootstrap

-- `RoleCostModel.allocation`
abbrev pub allocation : Policy → RoleCostModel → ℕ
allocation pol m = m.p90 * (whole + pol.headroom) / whole

-- `active.json`; the caps that are only shown are left out.
pub record Doc : Type 0 where
  pub task_id : Option String
  pub ceiling : ℕ
  pub allocated : Dict ℕ
  pub consumed : Dict ℕ
  pub state : BudgetState
  pub state_changed_at : ℕ
  pub pool_returned : ℤ

-- The document of `_load` where there is no file.
abbrev pub no_task : ℕ → Doc
no_task now = record {
  task_id = none;
  ceiling = 0;
  allocated = [];
  consumed = [];
  state = normal;
  state_changed_at = now;
  pool_returned = pos 0;
}

-- `_event`, without the times and the ratio.
pub data BudgetEvent : Type 0 where
  opened : Option String → ℕ → Dict ℕ → BudgetEvent
  state_change : BudgetState → BudgetState → BudgetEvent
  reclaimed extended : String → ℕ → BudgetEvent

-- The document and the log.
pub record Store : Type 0 where
  pub doc : Doc
  pub events : List BudgetEvent

abbrev pub emit : BudgetEvent → Store → Store
emit e s = record s { events = s.events ++ e ∷ [] }

-- `int(d.get(key, 0))`
abbrev pub amount : String → Dict ℕ → ℕ
amount key d = get_or_default (lookup key d) 0

-- `sum(d.values())`
unfoldable pub total : Dict ℕ → ℕ
total [] = 0
total ((key, value) ∷ rest) = value + total rest
