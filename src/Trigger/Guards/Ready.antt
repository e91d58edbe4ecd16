-- ===== src/Trigger/Guards/Ready.antt =====
-- The layered mode is effective only behind its guards.
use codex_loop_orchestra.Prelude.{
  ℕ, ◌+◌, ◌-◌, ◌≤◌, ◌≡◌, refl, ap, Bool, true, false, String, List, Option, none, some, leb, str_eq,
  eq_iff, arith, if◌then◌else◌, and_true, or_true, ◌⊎◌, inl, inr,
}
use codex_loop_orchestra.StateMachine.Reports.{text_eq}
use codex_loop_orchestra.Trigger.Mode.{RoutingMode, cold_start, shadow, layered}
use codex_loop_orchestra.Trigger.Guards.{
  GateGuard, Observed, heartbeat_fresh, model_pinned, schema_compatible, is_layered, check_guards,
  passed, effective_mode,
}

-- A heartbeat within its age, a passed canary, a pinned model that the verifier has if it names one,
-- an enabled validator, the schema that is asked for in the ledger or in the driver, the way back to
-- the cold start, and a current authorisation.
pub record IsReady (o : Observed) : Type 0 where
  pub heartbeat : ℕ
  pub heartbeat_is : o.heartbeat_ts ≡ some heartbeat
  pub fresh : o.now ≤ heartbeat + o.heartbeat_max_age
  pub canary : o.canary_status ≡ some "PASS"
  pub pin : String
  pub pin_is : o.k3_pin ≡ some pin
  pub verifier_is : (o.verifier_model ≡ none) ⊎ (o.verifier_model ≡ some pin)
  pub schema_is :
      (o.ledger_schema ≡ some o.schema_required) ⊎ (o.module_schema ≡ some o.schema_required)
  pub validator : o.validator_enabled ≡ true
  pub rollback : o.rollback_mode ≡ some "cold_start"
  pub authorised : o.authorized ≡ true

text_eq_sound : (a : Option String) (s : String) → text_eq a (some s) ≡ true → a ≡ some s
text_eq_sound none s h = cc
text_eq_sound (some t) s h = ap some ((eq_iff t s).0 h)

fresh_case :
    (now most : ℕ) (ts : Option ℕ)
    → (elim ts as (λ _. Bool) [ none ↦ false | some t ↦ leb (now - t) most ]) ≡ true
    → (t : ℕ) × (ts ≡ some t) × (now ≤ t + most)
fresh_case now most none h = cc
fresh_case now most (some t) h = (t, refl, ground (arith, h))

pin_case :
    (model pin : Option String)
    → (elim pin as (λ _. Bool) [
      | none ↦ false
      | some p ↦ elim model as (λ _. Bool) [ none ↦ true | some m ↦ str_eq m p ]
    ])
      ≡ true
    → (p : String) × (pin ≡ some p) × ((model ≡ none) ⊎ (model ≡ some p))
pin_case none none h = cc
pin_case (some m) none h = cc
pin_case none (some p) h = (p, refl, inl refl)
pin_case (some m) (some p) h = (p, refl, inr (ap some ((eq_iff m p).0 h)))

all_passed : (o : Observed) → passed (check_guards layered o) ≡ true → IsReady o
unfolding check_guards
all_passed o h =
    let (beat, h1) = and_true (heartbeat_fresh o) _ h in
    let (canary, h2) = and_true (text_eq o.canary_status (some "PASS")) _ h1 in
    let (model, h3) = and_true (model_pinned o) _ h2 in
    let (validator, h4) = and_true o.validator_enabled _ h3 in
    let (schema, h5) = and_true (schema_compatible o) _ h4 in
    let (back, h6) = and_true (text_eq o.rollback_mode (some "cold_start")) _ h5 in
    let (auth, _) = and_true o.authorized _ h6 in
    let (t, t_is, age) = fresh_case o.now o.heartbeat_max_age o.heartbeat_ts beat in
    let (p, p_is, model_is) = pin_case o.verifier_model o.k3_pin model in
    record {
      heartbeat = t;
      heartbeat_is = t_is;
      fresh = age;
      canary = text_eq_sound o.canary_status "PASS" canary;
      pin = p;
      pin_is = p_is;
      verifier_is = model_is;
      schema_is = elim (or_true (text_eq o.ledger_schema (some o.schema_required)) _ schema) [
        | inl ledger ↦ inl (text_eq_sound o.ledger_schema o.schema_required ledger)
        | inr driver ↦ inr (text_eq_sound o.module_schema o.schema_required driver)
      ];
      validator = validator;
      rollback = text_eq_sound o.rollback_mode "cold_start" back;
      authorised = auth;
    }

-- The layered mode is effective only if it is requested and every guard observes what it asks for.
pub layered-IsReady :
    (requested : RoutingMode) (o : Observed) (downgrades : List (List GateGuard))
    → (effective_mode requested o downgrades).0 ≡ layered
    → (requested ≡ layered) × IsReady o
unfolding effective_mode
layered-IsReady cold_start o downgrades h = cc
layered-IsReady shadow o downgrades h = cc
layered-IsReady layered o downgrades h =
    (refl, all_passed o (go (passed (check_guards layered o)) downgrades _ h))
  where
    go :
        (b : Bool) (d e : List (List GateGuard))
        → (let r : RoutingMode × List (List GateGuard) =
              (if b then (layered, d) else (shadow, e)) in
            r.0 ≡ layered)
        → b ≡ true
    go true d e h = refl
    go false d e h = cc (ap is_layered h)
