-- ===== src/Governor/LeaseBound.antt =====
-- How many calls the planning lease of harness/root_turn_governor.py lets through.
use codex_loop_orchestra.Prelude.{
  ℕ, suc, ◌+◌, ◌-◌, ◌*◌, ◌≤◌, ◌≡◌, refl, ap, String, List, [], ◌∷◌, Option, none, some, ℤ, arith,
}
use native.Mathlib.Nat.{mul-suc, mul-add}
use codex_loop_orchestra.Governor.Screen.{Family, sol, k3, v4, model_family}
use codex_loop_orchestra.Governor.Lease.{PlanningLease, load, exhausted, consume_turn, renew}
use codex_loop_orchestra.Governor.Hysteresis.{Hysteresis, observe, band_of, Band}
use codex_loop_orchestra.Governor.Hysteresis
use codex_loop_orchestra.Governor.LoopState.{LoopState, loop_state}
use codex_loop_orchestra.Governor.Meter.{
  MeterStatus, ok, stale, missing, malformed, insufficient_data, meter_status,
}
use codex_loop_orchestra.Governor.Evaluate.{
  Decision, Reason, planning_lease, Policy, Observed, Call, Files, log_unattested, after_observe,
  meter_gate, lease_gate, state_gate, root_gate, family_gate, evaluate,
}
use codex_loop_orchestra.Governor.Admits.{log_unattested-lease}

-- What happens to the lease: a tool call, or its renewal when packets are created.
pub data Step : Type 0 where
  call : Observed → Call → Step
  renewal : ℕ → Step

abbrev pub turns : Option PlanningLease → ℕ
turns none = 0
turns (some lease) = lease.turns_used

-- One for a call that is let through on the lease.
abbrev pub granted_by : Reason → ℕ
granted_by planning_lease = 1
granted_by _ = 0

load-turns : (now : ℕ) (lease : Option PlanningLease) → (load now lease).turns_used ≡ turns lease
unfolding load
load-turns now none = refl
load-turns now (some lease) = refl

module _ (share_id : ℕ → String) (p : Policy) where
  unfoldable pub granted : List Step → Files → ℕ
  granted [] f = 0
  granted (call o c ∷ steps) f =
      let r = evaluate share_id p o c f in granted_by r.1.reason + granted steps r.0
  granted (renewal now ∷ steps) f = granted steps (record f { lease = some (renew now) })

  unfoldable pub renewals : List Step → ℕ
  renewals [] = 0
  renewals (call o c ∷ steps) = renewals steps
  renewals (renewal now ∷ steps) = suc (renewals steps)

  -- A call that the lease lets through takes one of the turns that are left, and no other does.
  abbrev Pays : Option PlanningLease → Files × Decision → Type 0
  Pays before r =
      granted_by r.1.reason + (p.planning_max_turns - turns r.0.lease)
      ≤ p.planning_max_turns - turns before

  meter_gate-Pays :
      (m : MeterStatus) (state : String) (f : Files)
      → Pays f.lease (meter_gate share_id p m state f)
  unfolding meter_gate
  meter_gate-Pays (ok share) state f =
      go (band_of (observe p.hysteresis f.hysteresis share (share_id share)))
        (record f { hysteresis = observe p.hysteresis f.hysteresis share (share_id share) })
    where
      go : (b : Band) (g : Files) → Pays g.lease (after_observe share_id p b share state g)
      go Hysteresis.normal g = omega arith
      go Hysteresis.high g = omega arith
  meter_gate-Pays insufficient_data state f = omega arith
  meter_gate-Pays stale state f = omega arith
  meter_gate-Pays missing state f = omega arith
  meter_gate-Pays malformed state f = omega arith

  lease_gate-Pays :
      (now : ℕ) (tokens : ℤ) (state : String) (f : Files)
      → Pays f.lease (lease_gate share_id p (load now f.lease) tokens state f)
  unfolding lease_gate exhausted consume_turn
  lease_gate-Pays now tokens state f = ground (arith, load-turns now f.lease)

  state_gate-Pays :
      (o : Observed) (c : Call) (state : String) (f : Files)
      → Pays f.lease (state_gate share_id p o c state f)
  unfolding state_gate
  state_gate-Pays o c state f =
      let leased = lease_gate-Pays o.now c.estimated_new_tokens state f in
      let metered = meter_gate-Pays (meter_status p.meter_stale_after_s o.now o.meter) state f in
      ground (arith, leased, metered)

  root_gate-Pays :
      (o : Observed) (c : Call) (l : LoopState) (f : Files)
      → Pays f.lease (root_gate share_id p o c l f)
  unfolding root_gate
  root_gate-Pays o c l f = ground (arith, state_gate-Pays o c l.state f)

  family_gate-Pays :
      (family : Option Family) (o : Observed) (c : Call) (f : Files)
      → Pays f.lease (family_gate share_id p family o c f)
  family_gate-Pays none o c f = omega arith
  family_gate-Pays (some v4) o c f = omega arith
  family_gate-Pays (some k3) o c f = omega arith
  family_gate-Pays (some sol) o c f =
      let l = loop_state o.ledger o.attestations in
      let pays = root_gate-Pays o c l (log_unattested l.unattested f) in
      let same = log_unattested-lease l.unattested f in omega (arith, pays, ap turns same)

  evaluate-Pays : (o : Observed) (c : Call) (f : Files) → Pays f.lease (evaluate share_id p o c f)
  unfolding evaluate
  evaluate-Pays o c f = ground (arith, family_gate-Pays (model_family p.pins c.model) o c f)

  granted-le :
      (steps : List Step) (f : Files)
      → granted steps f
        ≤ p.planning_max_turns * renewals steps + (p.planning_max_turns - turns f.lease)
  unfolding granted renewals renew
  granted-le [] f = omega arith
  granted-le (call o c ∷ steps) f =
      omega (arith, granted-le steps (evaluate share_id p o c f).0, evaluate-Pays o c f)
  granted-le (renewal now ∷ steps) f = omega (
    arith,
    granted-le steps (record f { lease = some (renew now) }),
    mul-suc p.planning_max_turns (renewals steps),
  )

  -- Over any sequence of tool calls, whatever the ledger, the budget, the meter and the clock show
  -- at each, at most `planning_max_turns` calls go through on the lease, and as many again for each
  -- renewal between them, if there was no lease at first.
  pub lease_bound :
      (steps : List Step) (f : Files)
      → f.lease ≡ none
      → granted steps f ≤ p.planning_max_turns * (renewals steps + 1)
  lease_bound steps f e =
      omega (arith, granted-le steps f, ap turns e, mul-add p.planning_max_turns (renewals steps) 1)
