-- ===== src/StateMachine/Outcomes.antt =====
-- How a property of `advance` is proved: stage by stage.
use codex_loop_orchestra.Prelude.{
  ◌≡◌, refl, Bool, true, false, if◌then◌else◌, Option, none, some, or_else, get_or_default, arith,
}
use codex_loop_orchestra.StateMachine.States.{State}
use codex_loop_orchestra.StateMachine.Packet.{Packet, Env, World, Outcome, applied, aborted}
use codex_loop_orchestra.StateMachine.Advance.{
  Input, advance, by_table, stale_generation, stale_run, duplicate_generation, pre_spawn_failure,
  late_stop_confirmed, dispatch_confirmed, timeout_confirmed, release_review_failure,
}

-- `P` holds of what an applied event leaves; an abort leaves no packet.
abbrev pub Ensures : (World → Packet → State → Type 0) → Outcome → Type 0
Ensures P (applied w p s) = P w p s
Ensures P (aborted w) = Unit {0}

-- The same of a stage that may pass the event on.
abbrev pub IfHandled : (Outcome → Type 0) → Option Outcome → Type 0
IfHandled P none = Unit {0}
IfHandled P (some o) = P o

handled_or_else :
    (P : Outcome → Type 0) (a b : Option Outcome)
    → IfHandled P a
    → IfHandled P b
    → IfHandled P (or_else a b)
handled_or_else P none b ha hb = hb
handled_or_else P (some o) b ha hb = ha

handled_default :
    (P : Outcome → Type 0) (a : Option Outcome) (d : Outcome)
    → IfHandled P a
    → P d
    → P (get_or_default a d)
handled_default P none d ha hd = hd
handled_default P (some o) d ha hd = ha

pub advance_stages :
    (P : Outcome → Type 0) (env : Env) (i : Input) (w : World) (p : Packet)
    → IfHandled P (stale_generation env i w p)
    → IfHandled P (stale_run env i w p)
    → IfHandled P (duplicate_generation env i w p)
    → IfHandled P (pre_spawn_failure env i w p)
    → IfHandled P (late_stop_confirmed env i w p)
    → IfHandled P (dispatch_confirmed env i w p)
    → IfHandled P (timeout_confirmed env i w p)
    → IfHandled P (release_review_failure env i w p)
    → P (by_table env i w p)
    → P (advance env i w p)
unfolding advance
advance_stages P env i w p h1 h2 h3 h4 h5 h6 h7 h8 h9 =
    handled_default P _ _
      (handled_or_else P _ _ h1 (
        handled_or_else P _ _ h2 (
          handled_or_else P _ _ h3 (
            handled_or_else P _ _ h4 (
              handled_or_else P _ _ h5 (handled_or_else P _ _ h6 (handled_or_else P _ _ h7 h8)))))))
      h9

-- The first three stages passed the event on.
abbrev pub Fresh : Env → Input → World → Packet → Type 0
Fresh env i w p =
    (stale_generation env i w p ≡ none)
    × (stale_run env i w p ≡ none)
    × (duplicate_generation env i w p ≡ none)

handled_after :
    (P : Outcome → Type 0) (a b : Option Outcome)
    → IfHandled P a
    → (a ≡ none → IfHandled P b)
    → IfHandled P (or_else a b)
handled_after P none b ha hb = hb refl
handled_after P (some o) b ha hb = ha

default_after :
    (P : Outcome → Type 0) (a : Option Outcome) (d : Outcome)
    → IfHandled P a
    → (a ≡ none → P d)
    → P (get_or_default a d)
default_after P none d ha hd = hd refl
default_after P (some o) d ha hd = ha

or_else-none : (a b : Option Outcome) → or_else a b ≡ none → (a ≡ none) × (b ≡ none)
or_else-none none b h = (refl, h)
or_else-none (some o) b h = absurd (ground (arith, h))

-- The same, where a stage may use that the stages before it passed the event on.
pub advance_in_order :
    (P : Outcome → Type 0) (env : Env) (i : Input) (w : World) (p : Packet)
    → IfHandled P (stale_generation env i w p)
    → IfHandled P (stale_run env i w p)
    → IfHandled P (duplicate_generation env i w p)
    → (Fresh env i w p → IfHandled P (pre_spawn_failure env i w p))
    → IfHandled P (late_stop_confirmed env i w p)
    → IfHandled P (dispatch_confirmed env i w p)
    → IfHandled P (timeout_confirmed env i w p)
    → (Fresh env i w p
        → pre_spawn_failure env i w p ≡ none
        → IfHandled P (release_review_failure env i w p))
    → (Fresh env i w p
        → pre_spawn_failure env i w p ≡ none
        → release_review_failure env i w p ≡ none
        → P (by_table env i w p))
    → P (advance env i w p)
unfolding advance
advance_in_order P env i w p h1 h2 h3 h4 h5 h6 h7 h8 h9 =
    default_after P _ _
      (handled_after P _ _ h1 λ e1. handled_after P _ _ h2 λ e2. handled_after P _ _ h3 λ e3.
        handled_after P _ _ (h4 (e1, e2, e3)) λ e4.
          handled_or_else P _ _ h5
            (handled_or_else P _ _ h6 (handled_or_else P _ _ h7 (h8 (e1, e2, e3) e4))))
      (λ e.
        let (e1, r1) = or_else-none _ _ e in
        let (e2, r2) = or_else-none _ _ r1 in
        let (e3, r3) = or_else-none _ _ r2 in
        let (e4, r4) = or_else-none (pre_spawn_failure env i w p) _ r3 in
        let (_, r5) = or_else-none (late_stop_confirmed env i w p) _ r4 in
        let (_, r6) = or_else-none (dispatch_confirmed env i w p) _ r5 in
        let (_, e8) = or_else-none (timeout_confirmed env i w p) _ r6 in h9 (e1, e2, e3) e4 e8)

pub passed_on : (b : Bool) (o : Outcome) → (if b then some o else none) ≡ none → b ≡ false
passed_on true o h = absurd (ground (arith, h))
passed_on false o h = refl

pub handled_if :
    (P : Outcome → Type 0) (b : Bool) (o : Outcome)
    → (b ≡ true → P o)
    → IfHandled P (if b then some o else none)
handled_if P true o h = h refl
handled_if P false o h = tt

pub outcome_if :
    (P : Outcome → Type 0) (b : Bool) (o o' : Outcome)
    → (b ≡ true → P o)
    → (b ≡ false → P o')
    → P (if b then o else o')
outcome_if P true o o' h h' = h refl
outcome_if P false o o' h h' = h' refl

-- The event is handled here, so that no later stage and no row sees it.
abbrev IsHandled : (Outcome → Type 0) → Option Outcome → Type 0
IsHandled P none = ⊥
IsHandled P (some o) = P o

next_stage :
    (P : Outcome → Type 0) (a b : Option Outcome)
    → IfHandled P a
    → IsHandled P b
    → IsHandled P (or_else a b)
next_stage P none b ha hb = hb
next_stage P (some o) b ha hb = ha

taken_stage :
    (P : Outcome → Type 0) (a b : Option Outcome) → IsHandled P a → IsHandled P (or_else a b)
taken_stage P none b ha = absurd ha
taken_stage P (some o) b ha = ha

is_handled_default :
    (P : Outcome → Type 0) (a : Option Outcome) (d : Outcome)
    → IsHandled P a
    → P (get_or_default a d)
is_handled_default P none d ha = absurd ha
is_handled_default P (some o) d ha = ha

-- If the timeout stage takes the event, the stages before it decide `P`.
pub advance_timeout :
    (P : Outcome → Type 0) (env : Env) (i : Input) (w : World) (p : Packet) (o : Outcome)
    → IfHandled P (stale_generation env i w p)
    → IfHandled P (stale_run env i w p)
    → IfHandled P (duplicate_generation env i w p)
    → IfHandled P (pre_spawn_failure env i w p)
    → IfHandled P (late_stop_confirmed env i w p)
    → IfHandled P (dispatch_confirmed env i w p)
    → timeout_confirmed env i w p ≡ some o
    → P o
    → P (advance env i w p)
unfolding advance
advance_timeout P env i w p o h1 h2 h3 h4 h5 h6 e h7 = is_handled_default P _ _ (
    next_stage P _ _ h1 (
      next_stage P _ _ h2 (
        next_stage P _ _ h3 (
          next_stage P _ _ h4 (
            next_stage P _ _ h5 (
              next_stage P _ _ h6 (
                taken_stage P (timeout_confirmed env i w p) (release_review_failure env i w p)
                  (rw e h7))))))))
