-- ===== src/Refill/Recompute.antt =====
-- `RefillControllerV2.recompute` of harness/refill_controller_v2.py: the targets of the two pools,
-- the debt and the slots to fill, for the pools and for each parent dialogue. The rosters, the
-- queue and the registry are the values that the code has read from its files; a number that is not
-- there or no number is `none`.
use codex_loop_orchestra.Prelude.{
  ℕ, ◌+◌, ◌-◌, min, max, Bool, false, not, ◌&&◌, ◌||◌, String, [], ◌∷◌, Option, none, some, Dict,
  lookup, get_or_default, ltb, leb, ◌==◌, if◌then◌else◌, ℤ, pos, negsuc, to_nat,
}
use codex_loop_orchestra.Refill.Split.{Pools, no_slots, sum_pools, split_deficit}

-- What the policy file says.
pub record RefillPolicy : Type 0 where
  pub target : Pools
  pub low_water : Pools
  pub target_total : ℕ
  pub dialogue_target : ℕ
  pub reservations_borrowable : Bool

pub record Registered : Type 0 where
  pub active : Bool
  pub target_active : Option ℤ
  pub manifest_id : Option String

pub record ParentCount : Type 0 where
  pub running : ℕ
  pub initializing : ℕ

pub record Observed : Type 0 where
  pub pending : Pools
  pub running : Pools
  pub initializing : Pools
  pub registry : Dict Registered
  pub parent_counts : Dict ParentCount
  pub parent_pending : Dict Pools
  pub finalized : Bool

abbrev pub each_pool : (ℕ → ℕ → ℕ) → Pools → Pools → Pools
each_pool f p q = record { v4 = f p.v4 q.v4; k3 = f p.k3 q.k3 }

-- `low_waters`
abbrev pub low_waters : RefillPolicy → Pools
low_waters policy = each_pool min policy.target policy.low_water

-- With one active pool it may use everything, if reservations can be borrowed.
abbrev pub borrowed : Bool → Pools → ℕ → Pools → Pools
borrowed borrowable pending whole preferred =
    if borrowable && ltb 0 pending.v4 && pending.k3 == 0
    then record { v4 = whole; k3 = 0 }
    else if borrowable && ltb 0 pending.k3 && pending.v4 == 0
    then record { v4 = 0; k3 = whole }
    else preferred

abbrev pub targets : RefillPolicy → Pools → Pools
targets policy pending =
    borrowed policy.reservations_borrowable pending policy.target_total policy.target

abbrev pub effective_low_waters : RefillPolicy → Pools → Pools
effective_low_waters policy pending =
    borrowed policy.reservations_borrowable pending
      (min policy.target_total (sum_pools (low_waters policy))) (low_waters policy)

abbrev pub dialogue_limit : RefillPolicy → Dict Registered → ℕ
dialogue_limit policy [] = 0
dialogue_limit policy (x ∷ xs) = policy.dialogue_target

abbrev pub is_zero : ℤ → Bool
is_zero (pos n) = n == 0
is_zero (negsuc n) = false

-- `int(registered.get("target_active") or dialogue_limit)`, at least 1 and at most the limit; a
-- negative number becomes 1 as 0 would, but 0 itself counts as missing.
abbrev pub wanted : Option ℤ → ℕ → ℕ
wanted none limit = limit
wanted (some z) limit = if is_zero z then limit else to_nat z

unfoldable pub parent_target : ℕ → Registered → ℕ
parent_target limit registered = max 1 (min limit (wanted registered.target_active limit))

abbrev pub no_count : ParentCount
no_count = record { running = 0; initializing = 0 }

module _ (policy : RefillPolicy) (seen : Observed) where
  abbrev pub limit : ℕ
  limit = dialogue_limit policy seen.registry

  abbrev pub queued_of : String → Pools
  queued_of parent_id = get_or_default (lookup parent_id seen.parent_pending) no_slots

  abbrev pub count_of : String → ParentCount
  count_of parent_id = get_or_default (lookup parent_id seen.parent_counts) no_count

  unfoldable pub parent_debt : String → Registered → ℕ
  parent_debt parent_id registered =
      if registered.active
      then min (sum_pools (queued_of parent_id))
          (parent_target limit registered - (count_of parent_id).running)
      else 0

  unfoldable pub parent_demand : Dict Registered → Pools
  parent_demand [] = no_slots
  parent_demand ((parent_id, registered) ∷ rest) =
      each_pool (λ a b. a + b)
        (split_deficit (parent_debt parent_id registered) (queued_of parent_id))
        (parent_demand rest)

  -- Whether a pool needs workers, and how many of its packets could be running.
  abbrev pub required : ℕ → ℕ → ℕ → ℕ → Bool
  required pending running target demand =
      not (sum_pools seen.pending == 0)
      && not seen.finalized
      && ltb 0 pending
      && (ltb running target || ltb 0 demand)

  unfoldable pub required_v4 : Bool
  required_v4 =
      required seen.pending.v4 seen.running.v4 (targets policy seen.pending).v4
        (parent_demand seen.registry).v4

  unfoldable pub required_k3 : Bool
  required_k3 =
      required seen.pending.k3 seen.running.k3 (targets policy seen.pending).k3
        (parent_demand seen.registry).k3

  abbrev pub required_any : Bool
  required_any = required_v4 || required_k3

  abbrev pub debt : Bool → ℕ → ℕ → ℕ → ℕ → ℕ
  debt wanted pending running target demand =
      if wanted then max (min pending (target - running)) demand else 0

  unfoldable pub raw_debt : Pools
  raw_debt =
      let demand = parent_demand seen.registry in
      let target = targets policy seen.pending in
      record {
        v4 = debt required_v4 seen.pending.v4 seen.running.v4 target.v4 demand.v4;
        k3 = debt required_k3 seen.pending.k3 seen.running.k3 target.k3 demand.k3;
      }

  -- Workers that start take a slot, but their debt stays until they run.
  unfoldable pub raw_spawn : Pools
  raw_spawn = each_pool (λ a b. a - b) raw_debt seen.initializing

  unfoldable pub capacity : ℕ
  capacity = policy.target_total - sum_pools seen.running - sum_pools seen.initializing

  unfoldable pub deficit_total : ℕ
  deficit_total = if required_any then min (sum_pools raw_spawn) capacity else 0

  unfoldable pub deficit : Pools
  deficit = split_deficit deficit_total raw_spawn

  -- The slots that a parent may fill now.
  unfoldable pub parent_spawn_total : String → Registered → ℕ
  parent_spawn_total parent_id registered =
      let count = count_of parent_id in
      min
        (min (parent_debt parent_id registered)
          (parent_target limit registered - count.running - count.initializing))
        capacity

  unfoldable pub parent_spawn : String → Registered → Pools
  parent_spawn parent_id registered =
      split_deficit (parent_spawn_total parent_id registered) (queued_of parent_id)

  unfoldable pub parent_reason : String → Registered → String
  parent_reason parent_id registered =
      let count = count_of parent_id in
      if not registered.active
      then "parent_inactive"
      else if leb (parent_target limit registered) count.running
      then "at_parent_target"
      else if sum_pools (queued_of parent_id) == 0
      then "parent_backlog_empty"
      else if parent_spawn_total parent_id registered == 0 && not (count.initializing == 0)
      then "parent_initializing"
      else if capacity == 0
      then "global_at_capacity"
      else "below_parent_target"

  abbrev pub below_low_water : Bool
  below_low_water =
      let low = effective_low_waters policy seen.pending in
      (required_v4 && ltb seen.running.v4 low.v4) || (required_k3 && ltb seen.running.k3 low.k3)

  unfoldable pub reason : String
  reason =
      if sum_pools seen.pending == 0
      then "queue_empty"
      else if seen.finalized
      then "release_finalize"
      else if required_any && deficit_total == 0
      then "at_capacity"
      else if required_any
      then if below_low_water then "below_low_water" else "below_target"
      else "at_or_above_low_water"
