-- ===== src/Governor/Evaluate.antt =====
-- `RootTurnGovernor.evaluate` of harness/root_turn_governor.py: the decision on one tool call, with
-- the lease, the hysteresis and the events that it writes. `share_id` is the text that names a
-- sample by its share.
use codex_loop_orchestra.Prelude.{
  ℕ, Bool, true, false, ◌||◌, not, String, List, [], ◌∷◌, ◌++◌, Option, none, some, ℤ, str_eq,
  if◌then◌else◌,
}
use codex_loop_orchestra.Governor.Screen.{
  Text, Family, sol, k3, v4, Pins, is_gated, is_child_role, model_family,
}
use codex_loop_orchestra.Governor.Lease.{PlanningLease, load, exhausted, consume_turn}
use codex_loop_orchestra.Governor.Hysteresis.{Band, Params, Hysteresis, observe, band_of}
use codex_loop_orchestra.Governor.Hysteresis
use codex_loop_orchestra.Governor.LoopState.{Attestation, LedgerFile, LoopState, loop_state}
use codex_loop_orchestra.Governor.Meter.{
  MeterFile, MeterStatus, ok, insufficient_data, meter_status,
}

pub data Verdict : Type 0 where
  allow deny : Verdict

pub data Reason : Type 0 where
  not_gated approved_child_role dispatch_target model_unknown break_glass : Reason
  ledger_unreadable budget_denied lease_exhausted planning_lease exempt_state : Reason
  meter_denied share_high belongs_in_packet : Reason

pub data GovEvent : Type 0 where
  state_key_unattested : String → GovEvent
  break_glass_used : Text → String → GovEvent
  fail_closed : GovEvent
  lease_denied : ℕ → ℕ → GovEvent
  share_denied : ℕ → GovEvent

pub data BudgetState : Type 0 where
  normal throttle degrade break_state : BudgetState

pub record Decision : Type 0 where
  pub verdict : Verdict
  pub reason : Reason
  pub loop_state : String

pub record Policy : Type 0 where
  pub pins : Option Pins
  pub planning_max_turns : ℕ
  pub planning_max_new_tokens : ℕ
  pub meter_stale_after_s : ℕ
  pub hysteresis : Params

-- The files that a call reads and does not write, the clock and the environment variable
-- `LOOP_GOVERNOR_OVERRIDE`.
pub record Observed : Type 0 where
  pub now : ℕ
  pub override : Option Text
  pub ledger : LedgerFile
  pub attestations : List Attestation
  pub budget : BudgetState
  pub meter : MeterFile

pub record Call : Type 0 where
  pub tool_name : Text
  pub model : Text
  pub estimated_new_tokens : ℤ
  pub role : Text

-- The files that a call writes.
pub record Files : Type 0 where
  pub lease : Option PlanningLease
  pub hysteresis : Option Hysteresis
  pub events : List GovEvent

abbrev pub log : GovEvent → Files → Files
log e f = record f { events = f.events ++ e ∷ [] }

abbrev pub log_unattested : Option String → Files → Files
log_unattested none f = f
log_unattested (some state) f = log (state_key_unattested state) f

abbrev pub decided : Verdict → Reason → String → Decision
decided v r s = record { verdict = v; reason = r; loop_state = s }

abbrev pub overrides : Option Text → Option Text
overrides (some (c ∷ cs)) = some (c ∷ cs)
overrides _ = none

abbrev pub over_budget : BudgetState → Bool
over_budget degrade = true
over_budget break_state = true
over_budget _ = false

module _ (share_id : ℕ → String) (p : Policy) where
  -- The share of the root session is in the HIGH band, or is not.
  abbrev pub after_observe : Band → ℕ → String → Files → Files × Decision
  after_observe Hysteresis.high share state f =
      (log (share_denied share) f, decided deny share_high state)
  after_observe Hysteresis.normal share state f = (f, decided deny belongs_in_packet state)

  unfoldable pub meter_gate : MeterStatus → String → Files → Files × Decision
  meter_gate (ok share) state f =
      let doc = observe p.hysteresis f.hysteresis share (share_id share) in
      after_observe (band_of doc) share state (record f { hysteresis = doc })
  meter_gate insufficient_data state f = (f, decided deny belongs_in_packet state)
  meter_gate _ state f = (log fail_closed f, decided deny meter_denied state)

  unfoldable pub lease_gate : PlanningLease → ℤ → String → Files → Files × Decision
  lease_gate lease tokens state f =
      if exhausted lease p.planning_max_turns p.planning_max_new_tokens
      then (
        log (lease_denied lease.turns_used lease.new_tokens_used) f,
        decided deny lease_exhausted state,
      )
      else (
        record f { lease = some (consume_turn lease tokens) },
        decided allow planning_lease state,
      )

  -- What follows the checks that hold in every loop state.
  unfoldable pub state_gate : Observed → Call → String → Files → Files × Decision
  state_gate o c state f =
      if str_eq state "planning"
      then lease_gate (load o.now f.lease) c.estimated_new_tokens state f
      else if str_eq state "adjudication" || str_eq state "release_finalize"
      then (f, decided allow exempt_state state)
      else meter_gate (meter_status p.meter_stale_after_s o.now o.meter) state f

  unfoldable pub root_gate : Observed → Call → LoopState → Files → Files × Decision
  root_gate o c l f = elim (overrides o.override) [
    | some why ↦ (log (break_glass_used why l.state) f, decided allow break_glass l.state)
    | none ↦
        if not l.trusted
        then (log fail_closed f, decided deny ledger_unreadable l.state)
        else if over_budget o.budget
        then (log fail_closed f, decided deny budget_denied l.state)
        else state_gate o c l.state f
  ]

  abbrev pub family_gate : Option Family → Observed → Call → Files → Files × Decision
  family_gate none o c f = (f, decided deny model_unknown "-")
  family_gate (some v4) o c f = (f, decided allow dispatch_target "-")
  family_gate (some k3) o c f = (f, decided allow dispatch_target "-")
  family_gate (some sol) o c f =
      let l = loop_state o.ledger o.attestations in root_gate o c l (log_unattested l.unattested f)

  unfoldable pub evaluate : Observed → Call → Files → Files × Decision
  evaluate o c f =
      if not (is_gated c.tool_name)
      then (f, decided allow not_gated "-")
      else if is_child_role c.role
      then (f, decided allow approved_child_role "-")
      else family_gate (model_family p.pins c.model) o c f
