-- ===== src/Governor/Tests.antt =====
-- Calls that harness/root_turn_governor.py judges, and its theorems at them.
use codex_loop_orchestra.Prelude.{
  ℕ, ◌+◌, ◌*◌, ◌≤◌, ◌≡◌, ◌≢◌, ◌↔◌, ◌⊎◌, refl, true, false, String, [], ◌∷◌, none, some, pos, arith,
}
use codex_loop_orchestra.StateMachine.PacketId.{codes}
use codex_loop_orchestra.Governor.Screen.{Family, is_gated, is_child_role, model_family}
use codex_loop_orchestra.Governor.Lease.{load, exhausted, consume_turn, renew}
use codex_loop_orchestra.Governor.Hysteresis
use codex_loop_orchestra.Governor.Hysteresis.{Params, observe, count_sample, band_of}
use codex_loop_orchestra.Governor.LoopState.{
  readable, absent, attested_state, derived_state, loop_state, loop_state_set,
}
use codex_loop_orchestra.Governor.Meter
use codex_loop_orchestra.Governor.Meter.{number, meter_status}
use codex_loop_orchestra.Governor.Evaluate.{
  allow, deny, belongs_in_packet, normal, Policy, Observed, Call, Files, overrides, over_budget,
  meter_gate, lease_gate, state_gate, root_gate, evaluate,
}
use codex_loop_orchestra.Governor.Admits.{Exempt, root_call_admitted}
use codex_loop_orchestra.Governor.LeaseBound.{call, renewal, granted, renewals, lease_bound}
use codex_loop_orchestra.Governor.Attested.{loop_state_set-roundtrip}
use codex_loop_orchestra.Governor.Enters.{after, counted, AllAbove, AllBelow, band_changes}

abbrev share_id : ℕ → String
share_id share = "report"

abbrev params : Params
params = record { enter_high = 250; enter_samples = 2; leave_high = 220; leave_samples = 2 }

abbrev policy : Policy
policy = record {
  pins = some (record { sol_pin = codes "sol-1"; k3_pin = codes "k3-1"; v4_pin = codes "v4-1" });
  planning_max_turns = 2;
  planning_max_new_tokens = 30000;
  meter_stale_after_s = 600;
  hysteresis = params;
}

abbrev fresh : Observed
fresh = record {
  now = 1000;
  override = none;
  ledger = absent;
  attestations = [];
  budget = normal;
  meter = Meter.absent;
}

abbrev grep_call : Call
grep_call = record {
  tool_name = codes "Grep";
  model = codes " sol-1";
  estimated_new_tokens = pos 500;
  role = [];
}

abbrev no_files : Files
no_files = record { lease = none; hysteresis = none; events = [] }

lease_spent :
    granted share_id policy
      (call fresh grep_call
        ∷ call fresh grep_call
        ∷ call fresh grep_call
        ∷ renewal 5
        ∷ call fresh grep_call
        ∷ [])
      no_files
    ≡ 3
unfolding granted evaluate is_gated is_child_role model_family loop_state root_gate state_gate
    lease_gate load exhausted consume_turn renew
lease_spent = refl

lease_bound_example :
    granted share_id policy (call fresh grep_call ∷ renewal 5 ∷ call fresh grep_call ∷ []) no_files
    ≤ policy.planning_max_turns
      * (renewals share_id policy (call fresh grep_call ∷ renewal 5 ∷ call fresh grep_call ∷ [])
          + 1)
lease_bound_example =
    lease_bound share_id policy (call fresh grep_call ∷ renewal 5 ∷ call fresh grep_call ∷ [])
      no_files refl

grep-gated : is_gated grep_call.tool_name ≡ true
unfolding is_gated
grep-gated = refl

grep-root : is_child_role grep_call.role ≡ false
unfolding is_child_role
grep-root = refl

grep-family : model_family policy.pins grep_call.model ≡ some Family.sol
unfolding model_family
grep-family = refl

root_call_admitted_example :
    ((evaluate share_id policy fresh grep_call no_files).1.verdict ≡ allow) ↔ (
      (overrides fresh.override ≢ none)
      ⊎ (((loop_state fresh.ledger fresh.attestations).trusted ≡ true)
          × (over_budget fresh.budget ≡ false)
          × Exempt policy fresh no_files.lease (loop_state fresh.ledger fresh.attestations).state))
root_call_admitted_example =
    root_call_admitted share_id policy fresh grep_call no_files grep-gated grep-root grep-family

-- In execution a fresh report with a share far below the threshold changes nothing.
abbrev working : Observed
working = record fresh {
  ledger = readable (record {
    loop_state = none;
    loop_state_attestation = none;
    packets = ("p1", some "RUNNING") ∷ [];
  });
  meter = Meter.report (record {
    generated_at = some (number 900);
    generated_ts = none;
    rolling_5h =
        some (record {
          status = none;
          sol_share_effective = some (number 10);
          share_effective = none;
        });
  });
}

low_share_denied :
    (evaluate share_id policy working grep_call no_files).1
    ≡ record { verdict = deny; reason = belongs_in_packet; loop_state = "execution" }
unfolding evaluate is_gated is_child_role model_family loop_state attested_state derived_state
    root_gate state_gate meter_status meter_gate observe count_sample
low_share_denied = refl

abbrev key : String → String → ℕ → String
key state reason now = "k3:state_set"

state_set :
    loop_state_set key "adjudication" "merge conflict" 7 working.ledger []
    ≡ some (
      readable (record {
        loop_state = some "adjudication";
        loop_state_attestation = some "k3:state_set";
        packets = ("p1", some "RUNNING") ∷ [];
      }),
      record { state = some "adjudication"; idem_key = some "k3:state_set" } ∷ [],
    )
unfolding loop_state_set
state_set = refl

loop_state_set-roundtrip_example :
    loop_state
      (readable (record {
        loop_state = some "adjudication";
        loop_state_attestation = some "k3:state_set";
        packets = ("p1", some "RUNNING") ∷ [];
      }))
      (record { state = some "adjudication"; idem_key = some "k3:state_set" } ∷ [])
    ≡ record { state = "adjudication"; trusted = true; unattested = none }
loop_state_set-roundtrip_example =
    loop_state_set-roundtrip key (λ state reason now. refl) "adjudication" "merge conflict" 7
      working.ledger [] _ state_set

high_after_two :
    band_of (after params ((300, "c") ∷ (300, "b") ∷ (300, "b") ∷ (200, "a") ∷ []))
    ≡ Hysteresis.high
unfolding after observe count_sample
high_after_two = refl

band_changes_example :
    (band_of (after params ((300, "b") ∷ [])) ≡ Hysteresis.normal
      → band_of (after params ((310, "c") ∷ (300, "b") ∷ [])) ≡ Hysteresis.high
      → AllAbove params 2 (counted params ((310, "c") ∷ (300, "b") ∷ [])))
    × (band_of (after params ((300, "b") ∷ [])) ≡ Hysteresis.high
        → band_of (after params ((310, "c") ∷ (300, "b") ∷ [])) ≡ Hysteresis.normal
        → AllBelow params 2 (counted params ((310, "c") ∷ (300, "b") ∷ [])))
band_changes_example = band_changes params (omega arith) (omega arith) ((300, "b") ∷ []) (310, "c")
