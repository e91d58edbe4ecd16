-- ===== src/Budget/Ladder/Laws.antt =====
-- The ladder of harness/budget_controller.py: up at once, down only after the cooldown.
use codex_loop_orchestra.Prelude.{
  ℕ, ◌+◌, ◌*◌, ◌≤◌, ◌<◌, ◌≡◌, ◌⊎◌, inl, inr, max, String, arith, ℤ, to_nat,
}
use mathlib.Core.Path.{subst}
use codex_loop_orchestra.Budget.Doc.{state_order, whole, Policy, Doc, Store, amount, total}
use codex_loop_orchestra.Budget.Grants.Holdings.{total-insert}
use codex_loop_orchestra.Budget.Ladder.{
  target, threshold, used, ceiling_of, recompute_state, consume, record_usage,
}

-- A descent needs the cooldown since the last change, and a use below the band of the rung.
abbrev pub MayDescend : Policy → ℕ → Doc → Type 0
MayDescend pol now d =
    (d.state_changed_at + pol.cooldown_s ≤ now)
    × (used d * whole + 500 * ceiling_of d < threshold pol d.state * ceiling_of d)

-- A rung is reached, in 1/10000 of the ceiling: BREAK past its threshold, the others at theirs.
abbrev pub Reaches : Policy → ℕ → ℕ → ℕ → Type 0
Reaches pol tokens ceiling rung =
    ((tokens * whole ≤ pol.break_at * ceiling) ⊎ (3 ≤ rung))
    × ((tokens * whole < pol.degrade_at * ceiling) ⊎ (2 ≤ rung))
    × ((tokens * whole < pol.throttle_at * ceiling) ⊎ (1 ≤ rung))

target-Reaches :
    (pol : Policy) (d : Doc) → Reaches pol (used d) (max 1 d.ceiling) (state_order (target pol d))
unfolding target
target-Reaches pol d = (ground arith, ground arith, ground arith)

recompute_reaches :
    (pol : Policy) (now : ℕ) (s : Store)
    → state_order (target pol s.doc) ≤ state_order (recompute_state pol now s).doc.state
unfolding recompute_state
recompute_reaches pol now s = ground arith

Reaches-up :
    (pol : Policy) (tokens ceiling low high : ℕ)
    → low ≤ high
    → Reaches pol tokens ceiling low
    → Reaches pol tokens ceiling high
Reaches-up pol tokens ceiling low high le (a, b, c) = (up a, up b, up c)
  where
    up : {A : Type 0} {n : ℕ} → A ⊎ (n ≤ low) → A ⊎ (n ≤ high)
    up (inl a) = inl a
    up (inr b) = inr (omega arith)

total_used :
    (agent_id : String) (tokens : ℤ) (s : Store)
    → used (consume agent_id tokens s).doc ≡ used s.doc + to_nat tokens
total_used agent_id tokens s =
    omega
      (arith, total-insert agent_id (amount agent_id s.doc.consumed + to_nat tokens) s.doc.consumed)

recompute_descends :
    (pol : Policy) (now : ℕ) (s : Store)
    → state_order (recompute_state pol now s).doc.state < state_order s.doc.state
    → MayDescend pol now s.doc
unfolding recompute_state
recompute_descends pol now s h = ground arith

-- After a use of tokens is recorded, the state has reached each rung whose share of the ceiling all
-- recorded tokens together, those of the call included, reach; BREAK they have to exceed.
pub record_usage-climbs :
    (pol : Policy) (now : ℕ) (agent_id : String) (tokens : ℤ) (s : Store)
    → Reaches pol
        (total s.doc.consumed + to_nat tokens)
        (max 1 s.doc.ceiling)
        (state_order (record_usage pol now agent_id tokens s).0.doc.state)
unfolding record_usage
record_usage-climbs pol now agent_id tokens s =
    let after = consume agent_id tokens s in
    Reaches-up pol _ _ (state_order (target pol after.doc)) _ (recompute_reaches pol now after) (
      subst (λ n. Reaches pol n (max 1 s.doc.ceiling) (state_order (target pol after.doc)))
        (total_used agent_id tokens s) (target-Reaches pol after.doc))

-- If recording a use lowers the state, the cooldown has passed since the last change, and the
-- consumption lies more than 5 % of the ceiling below the threshold of the state that is left.
pub record_usage-descends :
    (pol : Policy) (now : ℕ) (agent_id : String) (tokens : ℤ) (s : Store)
    → state_order (record_usage pol now agent_id tokens s).0.doc.state < state_order s.doc.state
    → MayDescend pol now (consume agent_id tokens s).doc
unfolding record_usage
record_usage-descends pol now agent_id tokens s =
    recompute_descends pol now (consume agent_id tokens s)
