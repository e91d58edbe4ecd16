-- ===== src/Trigger/Verdict/Severities.antt =====
-- The verdict of the table is the most severe action that was hit.
use mathlib.Core.List.{Memᴰ}
use mathlib.Core.Path.{subst}
use codex_loop_orchestra.Prelude.{
  ℕ, ◌≤◌, ◌≡◌, refl, sym, Bool, true, false, ◌||◌, String, List, [], ◌∷◌, Option, none, some,
  get_or_default, arith, ltb, if◌then◌else◌, if_either, All,
}
use codex_loop_orchestra.Trigger.Signals.{Derived}
use codex_loop_orchestra.Trigger.Predicates.{holds}
use codex_loop_orchestra.Trigger.Verdict.{
  severity, Rule, TriggerTable, default_of, priority_of, place, by_priority, Verdict, outranks, hit,
  nothing_hit, nonempty, final_action, finish, scan, evaluate_table,
}

-- The severity of an action that the table of severities has.
abbrev pub rank : String → ℕ
rank action = get_or_default (severity action) 0

abbrev pub IsKnown : String → Type 0
IsKnown action = get_or_default (severity action) 3 ≡ rank action

-- The action of a rule.
abbrev pub action_of : String → Rule → String
action_of default r = get_or_default r.action default

-- An action has been chosen, and it is at least as severe.
abbrev AtLeast : ℕ → Option String → Type 0
AtLeast n none = ⊥
AtLeast n (some action) = n ≤ rank action

abbrev pick : String → Option String → Option String
pick act o = if outranks act o then some act else o

pick-AtLeast : (act : String) (o : Option String) → IsKnown act → AtLeast (rank act) (pick act o)
pick-AtLeast act none known = omega arith
pick-AtLeast act (some a) known =
    if_either (AtLeast (rank act)) (outranks act (some a)) (some act) (some a) (λ _. omega arith)
      (λ h. ground (arith, h, known))

pick-AtLeast_before :
    (act : String) (o : Option String) (n : ℕ) → IsKnown act → AtLeast n o → AtLeast n (pick act o)
pick-AtLeast_before act none n known h = absurd h
pick-AtLeast_before act (some a) n known h =
    if_either (AtLeast n) (outranks act (some a)) (some act) (some a)
      (λ e. ground (arith, e, h, known)) (λ _. h)

module _ (re_search : String → String → Bool) (d : Derived) (default : String) where
  abbrev IsKnownRule : Rule → Type 0
  IsKnownRule r = IsKnown (action_of default r)

  step_keeps :
      (r : Rule) (v : Verdict) (n : ℕ)
      → IsKnownRule r
      → AtLeast n v.action
      → AtLeast n (if holds re_search d r.name then hit default r v else v).action
  unfolding hit
  step_keeps r v n known h =
      if_either (λ (x : Verdict). AtLeast n x.action) (holds re_search d r.name) (hit default r v) v
        (λ _. pick-AtLeast_before (action_of default r) v.action n known h) (λ _. h)

  scan_keeps :
      (rs : List Rule) (v : Verdict) (n : ℕ)
      → All IsKnownRule rs
      → AtLeast n v.action
      → AtLeast n (scan re_search d default rs v).action
  unfolding scan
  scan_keeps [] v n known h = h
  scan_keeps (r ∷ rs) v n (here, later) h = scan_keeps rs _ n later (step_keeps r v n here h)

  step_reaches :
      (q : Rule) (v : Verdict)
      → IsKnownRule q
      → holds re_search d q.name ≡ true
      → AtLeast
          (rank (action_of default q))
          (if holds re_search d q.name then hit default q v else v).action
  unfolding hit
  step_reaches q v known h = rw h (pick-AtLeast (action_of default q) v.action known)

  scan_reaches :
      (rs : List Rule) (v : Verdict) (r : Rule)
      → All IsKnownRule rs
      → Memᴰ r rs
      → holds re_search d r.name ≡ true
      → AtLeast (rank (action_of default r)) (scan re_search d default rs v).action
  unfolding scan
  scan_reaches [] v r known m h = elim m [ ]
  scan_reaches (q ∷ rs) v r (here, later) (Memᴰ.head e) h =
      let first = step_reaches q v here (rw e at h) in
      scan_keeps rs _ (rank (action_of default r)) later (
        subst
          (λ (x : Rule).
            AtLeast (rank (action_of default x))
              (if holds re_search d q.name then hit default q v else v).action)
          (sym e) first)
  scan_reaches (q ∷ rs) v r (here, later) (Memᴰ.tail m) h = scan_reaches rs _ r later m h

-- Sorting keeps the rules.
module _ (P : Rule → Type 0) where
  All-place : (r : Rule) (rs : List Rule) → P r → All P rs → All P (place r rs)
  unfolding place
  All-place r [] p ps = (p, tt)
  All-place r (s ∷ ss) p (q, qs) =
      if_either (All P) (ltb (priority_of s) (priority_of r)) (s ∷ place r ss) (r ∷ s ∷ ss)
        (λ _. (q, All-place r ss p qs)) (λ _. (p, (q, qs)))

  All-by_priority : (rs : List Rule) → All P rs → All P (by_priority rs)
  unfolding by_priority
  All-by_priority [] ps = tt
  All-by_priority (r ∷ rs) (p, ps) = All-place r (by_priority rs) p (All-by_priority rs ps)

Memᴰ-place_here : (r : Rule) (rs : List Rule) → Memᴰ r (place r rs)
unfolding place
Memᴰ-place_here r [] = Memᴰ.head refl
Memᴰ-place_here r (s ∷ ss) =
    if_either (Memᴰ r) (ltb (priority_of s) (priority_of r)) (s ∷ place r ss) (r ∷ s ∷ ss)
      (λ _. Memᴰ.tail (Memᴰ-place_here r ss)) (λ _. Memᴰ.head refl)

Memᴰ-place : (x r : Rule) (rs : List Rule) → Memᴰ x rs → Memᴰ x (place r rs)
unfolding place
Memᴰ-place x r [] m = elim m [ ]
Memᴰ-place x r (s ∷ ss) (Memᴰ.head e) =
    if_either (Memᴰ x) (ltb (priority_of s) (priority_of r)) (s ∷ place r ss) (r ∷ s ∷ ss)
      (λ _. Memᴰ.head e) (λ _. Memᴰ.tail (Memᴰ.head e))
Memᴰ-place x r (s ∷ ss) (Memᴰ.tail m) =
    if_either (Memᴰ x) (ltb (priority_of s) (priority_of r)) (s ∷ place r ss) (r ∷ s ∷ ss)
      (λ _. Memᴰ.tail (Memᴰ-place x r ss m)) (λ _. Memᴰ.tail (Memᴰ.tail m))

pub Memᴰ-by_priority : (x : Rule) (rs : List Rule) → Memᴰ x rs → Memᴰ x (by_priority rs)
unfolding by_priority
Memᴰ-by_priority x [] m = elim m [ ]
Memᴰ-by_priority x (r ∷ rs) (Memᴰ.head e) =
    subst (λ (y : Rule). Memᴰ y (place r (by_priority rs))) (sym e)
      (Memᴰ-place_here r (by_priority rs))
Memᴰ-by_priority x (r ∷ rs) (Memᴰ.tail m) =
    Memᴰ-place x r (by_priority rs) (Memᴰ-by_priority x rs m)

final_action-severity :
    (default : String) (risky : Bool) (v : Verdict) (o : Option String) (n : ℕ)
    → v.high_risk_hit ≡ risky
    → (final_action default risky v o).1.high_risk_hit ≡ false
    → AtLeast n o
    → n ≤ rank (final_action default risky v o).0
unfolding final_action
final_action-severity default true v o n e calm h = cc
final_action-severity default false v (some action) n e calm h = h
final_action-severity default false v none n e calm h = absurd h

finish-severity :
    (default : String) (hits : List String) (v : Verdict) (n : ℕ)
    → (finish default hits v).1.high_risk_hit ≡ false
    → AtLeast n v.action
    → n ≤ rank (finish default hits v).0
unfolding finish
finish-severity default hits v n calm h =
    final_action-severity default (nonempty hits || v.high_risk_hit) _ v.action n refl calm h

-- If no high risk is hit, and every rule of the table has an action that `SEVERITY` knows, the
-- action of the table is at least as severe as that of every rule that is hit.
pub verdict_is_severest :
    (re_search : String → String → Bool) (d : Derived) (t : TriggerTable) (r : Rule)
    → All (λ q. IsKnown (action_of (default_of t) q)) t.rules
    → (evaluate_table re_search d t).1.high_risk_hit ≡ false
    → Memᴰ r t.rules
    → holds re_search d r.name ≡ true
    → rank (action_of (default_of t) r) ≤ rank (evaluate_table re_search d t).0
unfolding evaluate_table
verdict_is_severest re_search d t r known calm m h =
    finish-severity (default_of t) d.high_risk_path_hits
      (scan re_search d (default_of t) (by_priority t.rules) nothing_hit) _ calm
      (scan_reaches re_search d (default_of t) (by_priority t.rules) nothing_hit r
        (All-by_priority _ t.rules known) (Memᴰ-by_priority r t.rules m) h)
