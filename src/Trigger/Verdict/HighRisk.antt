-- ===== src/Trigger/Verdict/HighRisk.antt =====
-- High risk goes to level 3.
use mathlib.Core.List.{Memᴰ}
use codex_loop_orchestra.Prelude.{
  ◌≡◌, refl, ◌⊎◌, inl, inr, Bool, true, false, ◌||◌, String, List, [], ◌∷◌, Option, arith,
  if_either,
}
use codex_loop_orchestra.Trigger.Signals.{Derived}
use codex_loop_orchestra.Trigger.Predicates.{holds}
use codex_loop_orchestra.Trigger.Verdict.{
  Rule, TriggerTable, default_of, by_priority, Verdict, hit, nothing_hit, nonempty, final_action,
  finish, scan, evaluate_table,
}
use codex_loop_orchestra.Trigger.Verdict.Severities.{Memᴰ-by_priority}

or_right : (a b : Bool) → b ≡ true → (a || b) ≡ true
or_right a b h = ground arith

or_left : (a b : Bool) → a ≡ true → (a || b) ≡ true
or_left a b h = ground arith

final_action-risky :
    (default : String) (b : Bool) (v : Verdict) (o : Option String)
    → b ≡ true
    → (final_action default b v o).0 ≡ "direct_l3"
unfolding final_action
final_action-risky default true v o h = refl
final_action-risky default false v o h = cc

-- A rule that is hit and marked as high risk is seen.
module _ (re_search : String → String → Bool) (d : Derived) (default : String) where
  scan-high_risk_before :
      (rs : List Rule) (v : Verdict)
      → v.high_risk_hit ≡ true
      → (scan re_search d default rs v).high_risk_hit ≡ true
  unfolding scan hit
  scan-high_risk_before [] v h = h
  scan-high_risk_before (r ∷ rs) v h = scan-high_risk_before rs _ (
      if_either (λ (x : Verdict). x.high_risk_hit ≡ true) (holds re_search d r.name)
        (hit default r v) v (λ _. or_right r.high_risk v.high_risk_hit h) (λ _. h))

  scan-high_risk :
      (rs : List Rule) (v : Verdict) (r : Rule)
      → Memᴰ r rs
      → holds re_search d r.name ≡ true
      → r.high_risk ≡ true
      → (scan re_search d default rs v).high_risk_hit ≡ true
  unfolding scan hit
  scan-high_risk [] v r m h risky = elim m [ ]
  scan-high_risk (q ∷ rs) v r (Memᴰ.head e) h risky =
      scan-high_risk_before rs _
        (rw (rw e at h) (or_left q.high_risk v.high_risk_hit (rw e at risky)))
  scan-high_risk (q ∷ rs) v r (Memᴰ.tail m) h risky = scan-high_risk rs _ r m h risky

-- A touched path that the hardcoded expression finds, or a rule that is hit and marked as high
-- risk, makes the action `direct_l3`, whatever the other rules say.
pub high_risk_is_direct :
    (re_search : String → String → Bool) (d : Derived) (t : TriggerTable)
    → (nonempty d.high_risk_path_hits ≡ true)
      ⊎ ((r : Rule) × Memᴰ r t.rules × (holds re_search d r.name ≡ true) × (r.high_risk ≡ true))
    → (evaluate_table re_search d t).0 ≡ "direct_l3"
unfolding evaluate_table finish
high_risk_is_direct re_search d t (inl path) =
    final_action-risky (default_of t) _ _ _ (or_left (nonempty d.high_risk_path_hits) _ path)
high_risk_is_direct re_search d t (inr (r, m, h, risky)) = final_action-risky (default_of t) _ _ _ (
    or_right (nonempty d.high_risk_path_hits) _ (
      scan-high_risk re_search d (default_of t) (by_priority t.rules) nothing_hit r
        (Memᴰ-by_priority r t.rules m) h risky))
