-- ===== src/Trigger/Guards.antt =====
-- `check_layered_gate_guards` and `effective_mode` of harness/agent_router.py: the mode that
-- harness/trigger_eval_v2.py switches on.
pub mod Ready
use codex_loop_orchestra.Prelude.{
  ℕ, ◌-◌, Bool, true, false, not, ◌&&◌, ◌||◌, String, List, [], ◌∷◌, ◌++◌, Option, none, some, all,
  keep, map, leb, str_eq, if◌then◌else◌,
}
use codex_loop_orchestra.StateMachine.Reports.{text_eq}
use codex_loop_orchestra.Trigger.Mode.{RoutingMode, cold_start, shadow, layered}

pub data GateGuard : Type 0 where
  consumer_heartbeat_fresh exactly_once_canary k3_verifier_model_pinned : GateGuard
  short_result_validator_enabled statemachine_schema_compatible : GateGuard
  rollback_key_available layered_authorization_current : GateGuard

-- What the guards observe. A heartbeat without a readable time, a stamp that is no object and a
-- missing entry are `none`; so is a pin that is refused, and a module that cannot be loaded.
pub record Observed : Type 0 where
  pub now : ℕ
  pub heartbeat_ts : Option ℕ
  pub heartbeat_max_age : ℕ
  pub canary_status : Option String
  pub k3_pin : Option String
  pub verifier_model : Option String
  pub validator_enabled : Bool
  pub schema_required : String
  pub ledger_schema : Option String
  pub module_schema : Option String
  pub rollback_mode : Option String
  pub authorized : Bool

abbrev pub heartbeat_fresh : Observed → Bool
heartbeat_fresh o = elim o.heartbeat_ts [
  | none ↦ false
  | some ts ↦ leb (o.now - ts) o.heartbeat_max_age
]

abbrev pub model_pinned : Observed → Bool
model_pinned o = elim o.k3_pin [
  | none ↦ false
  | some pin ↦ elim o.verifier_model [ none ↦ true | some model ↦ str_eq model pin ]
]

abbrev pub schema_compatible : Observed → Bool
schema_compatible o =
    text_eq o.ledger_schema (some o.schema_required)
    || text_eq o.module_schema (some o.schema_required)

abbrev pub is_layered : RoutingMode → Bool
is_layered layered = true
is_layered _ = false

-- The results, by guard; the authorisation counts only where the layered mode is requested.
unfoldable pub check_guards : RoutingMode → Observed → List (GateGuard × Bool)
check_guards requested o =
    (consumer_heartbeat_fresh, heartbeat_fresh o)
    ∷ (exactly_once_canary, text_eq o.canary_status (some "PASS"))
    ∷ (k3_verifier_model_pinned, model_pinned o)
    ∷ (short_result_validator_enabled, o.validator_enabled)
    ∷ (statemachine_schema_compatible, schema_compatible o)
    ∷ (rollback_key_available, text_eq o.rollback_mode (some "cold_start"))
    ∷ (layered_authorization_current, if is_layered requested then o.authorized else true)
    ∷ []

abbrev pub passed : List (GateGuard × Bool) → Bool
passed = all (λ x. x.1)

-- `failing`
abbrev pub failing : List (GateGuard × Bool) → List GateGuard
failing results = map (λ x. x.0) (keep (λ x. not x.1) results)

-- The mode, and `mode_downgrades.ndjsonl`, a line for each downgrade to shadow.
unfoldable pub effective_mode :
    RoutingMode → Observed → List (List GateGuard) → RoutingMode × List (List GateGuard)
effective_mode requested o downgrades =
    let results = check_guards requested o in
    if not (is_layered requested)
    then (requested, downgrades)
    else if passed results
    then (layered, downgrades)
    else (shadow, downgrades ++ failing results ∷ [])
