-- ===== src/Governor/Admits.antt =====
-- Which tool calls of the root model harness/root_turn_governor.py lets through.
use codex_loop_orchestra.Prelude.{
  ℕ, ◌<◌, ◌≡◌, ◌≢◌, ◌↔◌, ◌⊎◌, inl, inr, refl, true, false, String, Option, none, some, ℤ, eq_iff,
  arith,
}
use mathlib.Core.Path.{subst}
use codex_loop_orchestra.Governor.Screen.{Text, sol, is_gated, is_child_role, model_family}
use codex_loop_orchestra.Governor.Lease.{PlanningLease, load, exhausted}
use codex_loop_orchestra.Governor.Hysteresis
use codex_loop_orchestra.Governor.Hysteresis.{Band, Params, Hysteresis, observe, band_of}
use codex_loop_orchestra.Governor.LoopState.{LoopState, loop_state}
use codex_loop_orchestra.Governor.Meter.{
  MeterStatus, ok, stale, missing, malformed, insufficient_data, meter_status,
}
use codex_loop_orchestra.Governor.Evaluate.{
  allow, deny, Policy, Observed, Call, Files, log_unattested, overrides, over_budget, after_observe,
  meter_gate, lease_gate, state_gate, root_gate, evaluate,
}

-- Turns and tokens of the planning lease are left.
abbrev pub HasLease : Policy → Observed → Option PlanningLease → Type 0
HasLease p o lease =
    ((load o.now lease).turns_used < p.planning_max_turns)
    × ((load o.now lease).new_tokens_used < p.planning_max_new_tokens)

-- The loop state alone decides, and in the planning state the lease.
abbrev pub Exempt : Policy → Observed → Option PlanningLease → String → Type 0
Exempt p o lease state =
    ((state ≡ "planning") × HasLease p o lease)
    ⊎ ((state ≡ "adjudication") ⊎ (state ≡ "release_finalize"))

module _ (share_id : ℕ → String) (p : Policy) where
  meter_gate-denies :
      (m : MeterStatus) (state : String) (f : Files)
      → (meter_gate share_id p m state f).1.verdict ≡ deny
  unfolding meter_gate
  meter_gate-denies (ok share) state f =
      go (band_of (observe p.hysteresis f.hysteresis share (share_id share))) _
    where
      go : (b : Band) (g : Files) → (after_observe share_id p b share state g).1.verdict ≡ deny
      go Hysteresis.normal g = refl
      go Hysteresis.high g = refl
  meter_gate-denies insufficient_data state f = refl
  meter_gate-denies stale state f = refl
  meter_gate-denies missing state f = refl
  meter_gate-denies malformed state f = refl

  lease_gate_iff :
      (l : PlanningLease) (tokens : ℤ) (state : String) (f : Files)
      → ((lease_gate share_id p l tokens state f).1.verdict ≡ allow)
        ↔ ((l.turns_used < p.planning_max_turns) × (l.new_tokens_used < p.planning_max_new_tokens))
  unfolding lease_gate exhausted
  lease_gate_iff l tokens state f = (λ h. ground arith, λ h. ground arith)

  state_gate_iff :
      (o : Observed) (c : Call) (state : String) (f : Files)
      → ((state_gate share_id p o c state f).1.verdict ≡ allow) ↔ Exempt p o f.lease state
  unfolding state_gate
  state_gate_iff o c state f =
      let leased = lease_gate_iff (load o.now f.lease) c.estimated_new_tokens state f in
      let denied = meter_gate-denies (meter_status p.meter_stale_after_s o.now o.meter) state f in
      (
        λ h. ground (
          arith,
          leased.0,
          denied,
          eq_iff state "planning",
          eq_iff state "adjudication",
          eq_iff state "release_finalize",
        ),
        λ h. ground (
          arith,
          leased.1,
          denied,
          eq_iff state "planning",
          eq_iff state "adjudication",
          eq_iff state "release_finalize",
          eq_iff "planning" "adjudication",
          eq_iff "planning" "release_finalize",
        ),
      )

  root_gate_iff :
      (o : Observed) (c : Call) (l : LoopState) (f : Files)
      → ((root_gate share_id p o c l f).1.verdict ≡ allow) ↔ (
          (overrides o.override ≢ none)
          ⊎ ((l.trusted ≡ true) × (over_budget o.budget ≡ false) × Exempt p o f.lease l.state))
  unfolding root_gate
  root_gate_iff o c l f = go (overrides o.override) refl
    where
      go :
          (why : Option Text)
          → overrides o.override ≡ why
          → ((root_gate share_id p o c l f).1.verdict ≡ allow) ↔ (
              (why ≢ none)
              ⊎ ((l.trusted ≡ true) × (over_budget o.budget ≡ false) × Exempt p o f.lease l.state))
      go (some why) e = (λ h. inl (λ q. absurd (cc)), λ h. ground (arith, e))
      go none e = (
        λ h. inr (ground (arith, e, h, (state_gate_iff o c l.state f).0)),
        λ h. ground (arith, e, h, (state_gate_iff o c l.state f).1),
      )

pub log_unattested-lease : (u : Option String) (f : Files) → (log_unattested u f).lease ≡ f.lease
log_unattested-lease none f = refl
log_unattested-lease (some s) f = refl

module _ (share_id : ℕ → String) (p : Policy) (o : Observed) (c : Call) (f : Files)
    (gated : is_gated c.tool_name ≡ true) (root : is_child_role c.role ≡ false)
    (family : model_family p.pins c.model ≡ some sol) where
  -- A gated call of the root model is let through exactly with the override, or when the ledger can
  -- be read, the budget is neither degraded nor broken, and the loop state is planning with turns
  -- and tokens of the lease left, or adjudication, or release_finalize. The token meter and the
  -- hysteresis do not appear: they decide only why a call is refused.
  pub root_call_admitted : ((evaluate share_id p o c f).1.verdict ≡ allow) ↔ (
      (overrides o.override ≢ none)
      ⊎ (((loop_state o.ledger o.attestations).trusted ≡ true)
          × (over_budget o.budget ≡ false)
          × Exempt p o f.lease (loop_state o.ledger o.attestations).state))
  unfolding evaluate
  root_call_admitted =
      let read = loop_state o.ledger o.attestations in
      rw (gated, root, family)
        (subst
          (λ lease.
            ((root_gate share_id p o c read (log_unattested read.unattested f)).1.verdict ≡ allow)
            ↔ ((overrides o.override ≢ none)
                ⊎ ((read.trusted ≡ true)
                    × (over_budget o.budget ≡ false)
                    × Exempt p o lease read.state)))
          (log_unattested-lease read.unattested f)
          (root_gate_iff share_id p o c read (log_unattested read.unattested f)))
