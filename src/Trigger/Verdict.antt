-- ===== src/Trigger/Verdict.antt =====
-- `evaluate_table` of harness/trigger_eval_v2.py.
pub mod Severities
pub mod HighRisk
use codex_loop_orchestra.Prelude.{
  ℕ, ◌+◌, Bool, true, false, not, ◌&&◌, ◌||◌, String, List, [], ◌∷◌, ◌++◌, Option, none, some, Dict,
  lookup, get_or_default, ltb, str_eq, if◌then◌else◌,
}
use codex_loop_orchestra.Trigger.Signals.{Derived}
use codex_loop_orchestra.Trigger.Predicates.{holds}

-- `SEVERITY`
unfoldable pub severity : String → Option ℕ
severity action = lookup action (
    ("pass", 0)
    ∷ ("annotated_pass", 1)
    ∷ ("spawn_duty_officer", 2)
    ∷ ("send_l2", 3)
    ∷ ("direct_l3", 4)
    ∷ ("direct_l4", 5)
    ∷ [])

-- A rule of the table; a missing priority is 10 ** 9.
pub record Rule : Type 0 where
  pub name : String
  pub action : Option String
  pub high_risk : Bool
  pub priority : Option ℕ

-- The rules of all partitions, in the order of the file.
pub record TriggerTable : Type 0 where
  pub default_action : Option String
  pub rules : List Rule

abbrev pub default_of : TriggerTable → String
default_of t = get_or_default t.default_action "send_l2"

abbrev pub priority_of : Rule → ℕ
priority_of r = get_or_default r.priority 1000000000

-- `sorted(…, key=priority)`: a stable sort.
unfoldable pub place : Rule → List Rule → List Rule
place r [] = r ∷ []
place r (s ∷ ss) =
    let rest = place r ss in if ltb (priority_of s) (priority_of r) then s ∷ rest else r ∷ s ∷ ss

unfoldable pub by_priority : List Rule → List Rule
by_priority [] = []
by_priority (r ∷ rs) = place r (by_priority rs)

-- `(action, rules_hit, high_risk_hit, duty_hit)`; no action yet is `none`.
pub record Verdict : Type 0 where
  pub action : Option String
  pub rules_hit : List String
  pub high_risk_hit : Bool
  pub duty_hit : Bool

-- `action is None or SEVERITY.get(act, 3) > SEVERITY.get(action, 0)`
abbrev pub outranks : String → Option String → Bool
outranks act none = true
outranks act (some action) =
    ltb (get_or_default (severity action) 0) (get_or_default (severity act) 3)

-- A rule whose predicate holds.
unfoldable pub hit : String → Rule → Verdict → Verdict
hit default r v =
    let act = get_or_default r.action default in
    record {
      action = if outranks act v.action then some act else v.action;
      rules_hit = v.rules_hit ++ r.name ∷ [];
      high_risk_hit = r.high_risk || v.high_risk_hit;
      duty_hit = str_eq act "spawn_duty_officer" || v.duty_hit;
    }

abbrev pub nothing_hit : Verdict
nothing_hit = record { action = none; rules_hit = []; high_risk_hit = false; duty_hit = false }

abbrev pub nonempty : List String → Bool
nonempty [] = false
nonempty (_ ∷ _) = true

abbrev pub note_if : Bool → String → List String → List String
note_if b note notes = if b then notes ++ note ∷ [] else notes

-- The rail for high-risk hits, then the default where nothing was hit.
unfoldable pub final_action : String → Bool → Verdict → Option String → String × Verdict
final_action default true v o = ("direct_l3", v)
final_action default false v (some action) = (action, v)
final_action default false v none =
    (default, record v { rules_hit = v.rules_hit ++ "OFF_TABLE-default" ∷ [] })

unfoldable pub finish : String → List String → Verdict → String × Verdict
finish default path_hits v =
    let risky = nonempty path_hits || v.high_risk_hit in
    let hits = note_if (nonempty path_hits) "HARDCODED-high-risk-path" v.rules_hit in
    final_action default risky (record v { rules_hit = hits; high_risk_hit = risky }) v.action

module _ (re_search : String → String → Bool) where
  -- The loop over the sorted rules.
  unfoldable pub scan : Derived → String → List Rule → Verdict → Verdict
  scan d default [] v = v
  scan d default (r ∷ rs) v =
      scan d default rs (if holds re_search d r.name then hit default r v else v)

  unfoldable pub evaluate_table : Derived → TriggerTable → String × Verdict
  evaluate_table d t =
      finish (default_of t) d.high_risk_path_hits
        (scan d (default_of t) (by_priority t.rules) nothing_hit)
