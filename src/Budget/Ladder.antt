-- ===== src/Budget/Ladder.antt =====
-- `_recompute_state` and `record_usage` of harness/budget_controller.py.
pub mod Laws
use codex_loop_orchestra.Prelude.{
  ℕ, ◌+◌, ◌-◌, ◌*◌, max, Bool, true, false, ◌&&◌, String, Option, none, some, insert, ltb, leb,
  if◌then◌else◌, ℤ, to_nat,
}
use codex_loop_orchestra.Budget.Doc.{
  BudgetState, is_break, normal, throttle, degrade, break, state_order, whole, Policy, Doc,
  state_change, Store, emit, amount, total,
}

-- `ratio`, as the tokens in use over the ceiling, at least 1.
abbrev pub used : Doc → ℕ
used d = total d.consumed

abbrev pub ceiling_of : Doc → ℕ
ceiling_of d = max 1 d.ceiling

-- `ratio >= rate`
abbrev pub reaches : Doc → ℕ → Bool
reaches d rate = leb (rate * ceiling_of d) (used d * whole)

-- `ratio > rate`
abbrev pub exceeds : Doc → ℕ → Bool
exceeds d rate = ltb (rate * ceiling_of d) (used d * whole)

unfoldable pub target : Policy → Doc → BudgetState
target pol d =
    if exceeds d pol.break_at
    then break
    else if reaches d pol.degrade_at
    then degrade
    else if reaches d pol.throttle_at
    then throttle
    else normal

-- `thresholds[current]`; no state lies below NORMAL.
abbrev pub threshold : Policy → BudgetState → ℕ
threshold pol normal = 0
threshold pol throttle = pol.throttle_at
threshold pol degrade = pol.degrade_at
threshold pol break = pol.break_at

-- `ratio < thresholds[current] - band`, with a band of 5 %.
abbrev pub below_band : Policy → Doc → Bool
below_band pol d = ltb (used d * whole + 500 * ceiling_of d) (threshold pol d.state * ceiling_of d)

abbrev pub cooled : Policy → ℕ → Doc → Bool
cooled pol now d = leb (d.state_changed_at + pol.cooldown_s) now

-- The new state, its time, and the event.
abbrev pub change_to : ℕ → BudgetState → Store → Store
change_to now new s =
    emit (state_change s.doc.state new)
      (record s { doc = record s.doc { state = new; state_changed_at = now } })

unfoldable pub recompute_state : Policy → ℕ → Store → Store
recompute_state pol now s =
    let new = target pol s.doc in
    if ltb (state_order s.doc.state) (state_order new)
    then change_to now new s
    else if ltb (state_order new) (state_order s.doc.state)
        && cooled pol now s.doc
        && below_band pol s.doc
    then change_to now new s
    else s

-- `record_usage` returns the state, or raises `BudgetExceeded` with `over` = -remaining.
pub data Usage : Type 0 where
  within : BudgetState → Usage
  exceeded : ℕ → Usage

abbrev pub consume : String → ℤ → Store → Store
consume agent_id tokens s = record s {
  doc = record s.doc {
    consumed = insert agent_id (amount agent_id s.doc.consumed + to_nat tokens) s.doc.consumed;
  };
}

unfoldable pub record_usage : Policy → ℕ → String → ℤ → Store → Store × Usage
record_usage pol now agent_id tokens s =
    let s' = recompute_state pol now (consume agent_id tokens s) in
    let allocated = amount agent_id s'.doc.allocated in
    let consumed = amount agent_id s'.doc.consumed in
    (
      s',
      if is_break s'.doc.state && ltb allocated consumed
          then exceeded (consumed - allocated)
          else within s'.doc.state,
    )
