-- ===== src/Refill/State.antt =====
-- The state that `recompute` of harness/refill_controller_v2.py publishes, and what changes it:
-- `release_finalize`, `resume` and `read_state`. The time of a file is a number. Fields that repeat
-- the policy or that follow from others, as `model_pool` does, are left out.
use codex_loop_orchestra.Prelude.{
  ℕ, Bool, true, false, ◌&&◌, String, List, [], ◌∷◌, Option, none, some, Dict, ◌==◌, str_eq,
  if◌then◌else◌,
}
use codex_loop_orchestra.Refill.Split.{Pools, sum_pools}
use codex_loop_orchestra.Refill.Recompute.{
  RefillPolicy, Registered, Observed, targets, effective_low_waters, limit, parent_target, count_of,
  queued_of, parent_debt, required_v4, required_k3, required_any, raw_debt, deficit_total, deficit,
  parent_spawn_total, parent_spawn, parent_reason, reason,
}

pub record ParentState : Type 0 where
  pub active : Bool
  pub target : ℕ
  pub running : ℕ
  pub initializing : ℕ
  pub pending : Pools
  pub deficit : ℕ
  pub spawnable_total : ℕ
  pub spawnable : Pools
  pub reason : String
  pub manifest_id : Option String

pub record RefillState : Type 0 where
  pub policy_version : String
  pub policy_mtime : Option ℕ
  pub target : Pools
  pub low_water : Pools
  pub pending : Pools
  pub active : Pools
  pub initializing : Pools
  pub refill_required : Bool
  pub required_v4 : Bool
  pub required_k3 : Bool
  pub deficit_total : ℕ
  pub deficit : Pools
  pub unfulfilled_demand : Pools
  pub parents : Dict ParentState
  pub queue_empty : Bool
  pub finalized : Bool
  pub reason : String

-- The line that is appended to the events.
pub data RefillEvent : Type 0 where
  refill_required : (deficit pending running : Pools) → RefillEvent
  refill_clear : (pending : Pools) → RefillEvent

abbrev pub parent_state : RefillPolicy → Observed → String → Registered → ParentState
parent_state policy seen parent_id registered = record {
  active = registered.active;
  target = parent_target (limit policy seen) registered;
  running = (count_of policy seen parent_id).running;
  initializing = (count_of policy seen parent_id).initializing;
  pending = queued_of policy seen parent_id;
  deficit = parent_debt policy seen parent_id registered;
  spawnable_total = parent_spawn_total policy seen parent_id registered;
  spawnable = parent_spawn policy seen parent_id registered;
  reason = parent_reason policy seen parent_id registered;
  manifest_id = registered.manifest_id;
}

-- The code sorts them by their ids.
unfoldable pub parent_states : RefillPolicy → Observed → Dict Registered → Dict ParentState
parent_states policy seen [] = []
parent_states policy seen ((parent_id, registered) ∷ rest) =
    (parent_id, parent_state policy seen parent_id registered) ∷ parent_states policy seen rest

unfoldable pub state_of : String → Option ℕ → RefillPolicy → Observed → RefillState
state_of version mtime policy seen = record {
  policy_version = version;
  policy_mtime = mtime;
  target = targets policy seen.pending;
  low_water = effective_low_waters policy seen.pending;
  pending = seen.pending;
  active = seen.running;
  initializing = seen.initializing;
  refill_required = required_any policy seen;
  required_v4 = required_v4 policy seen;
  required_k3 = required_k3 policy seen;
  deficit_total = deficit_total policy seen;
  deficit = deficit policy seen;
  unfulfilled_demand = raw_debt policy seen;
  parents = parent_states policy seen seen.registry;
  queue_empty = sum_pools seen.pending == 0;
  finalized = seen.finalized;
  reason = reason policy seen;
}

abbrev pub was_required : Option RefillState → Bool
was_required none = false
was_required (some prior) = prior.refill_required

abbrev pub was_finalized : Option RefillState → Bool
was_finalized none = false
was_finalized (some prior) = prior.finalized

-- The event follows from the new state and from what the state before it asked for.
abbrev pub events_of : Bool → RefillState → List RefillEvent
events_of before state =
    if state.refill_required
    then refill_required state.deficit state.pending state.active ∷ []
    else if before
    then refill_clear state.pending ∷ []
    else []

-- What one process reads beside the state: the version and the time of its policy, the policy, and
-- the observations.
pub record Reading : Type 0 where
  pub version : String
  pub mtime : Option ℕ
  pub policy : RefillPolicy
  pub seen : Observed

unfoldable pub recompute : Reading → Option RefillState → RefillState × List RefillEvent
recompute r prior =
    let state =
      state_of r.version r.mtime r.policy (record r.seen { finalized = was_finalized prior }) in
    (state, events_of (was_required prior) state)

-- `release_finalize` and `resume` set the flag in the file before they recompute; a file that is
-- not there becomes one with the flag alone.
abbrev pub flagged : Bool → Reading → Option RefillState → RefillState × List RefillEvent
flagged flag r prior =
    let state = state_of r.version r.mtime r.policy (record r.seen { finalized = flag }) in
    (state, events_of (was_required prior) state)

unfoldable pub release_finalize : Reading → Option RefillState → RefillState × List RefillEvent
release_finalize r prior = flagged true r prior

unfoldable pub resume : Reading → Option RefillState → RefillState × List RefillEvent
resume r prior = flagged false r prior

abbrev pub same_mtime : Option ℕ → Option ℕ → Bool
same_mtime none none = true
same_mtime (some a) (some b) = a == b
same_mtime _ _ = false

-- A state of another policy is computed again.
unfoldable pub read_state : Reading → Option RefillState → RefillState × List RefillEvent
read_state r none = recompute r none
read_state r (some state) =
    let fresh = recompute r (some state) in
    if str_eq state.policy_version r.version && same_mtime state.policy_mtime r.mtime
    then (state, [])
    else fresh
