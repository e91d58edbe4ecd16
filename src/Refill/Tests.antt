-- ===== src/Refill/Tests.antt =====
-- Runs of harness/refill_controller_v2.py and harness/refill_consumer_v2.py, and the theorems at
-- concrete queues.
use codex_loop_orchestra.Prelude.{
  ℕ, Bool, ◌+◌, ◌≤◌, ◌≡◌, ◌⊎◌, refl, true, false, String, List, [], ◌∷◌, All, map, length,
  get_or_default, Option, none, some, lookup, insert, pos, negsuc,
}
use codex_loop_orchestra.Refill.Split.{Pools, no_slots, sum_pools, split_deficit}
use codex_loop_orchestra.Refill.Shares.{IsSplit}
use codex_loop_orchestra.Refill.Recompute.{
  RefillPolicy, Registered, Observed, limit, parent_target, count_of, queued_of, parent_debt,
  parent_demand, required_v4, required_k3, raw_debt, raw_spawn, capacity, deficit_total, deficit,
  parent_spawn_total, parent_spawn, parent_reason, reason,
}
use codex_loop_orchestra.Refill.Bounds.{refill_fits, parent_fits}
use codex_loop_orchestra.Refill.Queue.{
  pool_v4, pool_k3, in_pool, WorkQueue, Work, pool_for_packet, queue_add, queue_remove,
  count_parent, count_packet, count_all, queue_sync_ledger,
}
use codex_loop_orchestra.Refill.Synced.{parents_total, Claimed, synced_queue}
use codex_loop_orchestra.Refill.State.{RefillState, state_of, parent_states}
use codex_loop_orchestra.Refill.Select.{
  LedgerEntry, Selection, Selecting, ended, spawnable_of, add_row, bucket_entry, bucket_all, choose,
  take_task, round, rounds, select_tasks,
}
use codex_loop_orchestra.Refill.Chosen.{tasks_in, tasks_of, Ends}
use codex_loop_orchestra.Refill.Admitted.{selection_fits}

abbrev pools : ℕ → ℕ → Pools
pools v4 k3 = record { v4 = v4; k3 = k3 }

largest_remainder_first : split_deficit 5 (pools 3 4) ≡ pools 2 3
unfolding split_deficit
largest_remainder_first = refl

-- The remainders 5 * 2 % 4 are equal.
first_pool_on_a_tie : split_deficit 1 (pools 2 2) ≡ pools 1 0
unfolding split_deficit
first_pool_on_a_tie = refl

one_pool_takes_all : split_deficit 3 (pools 0 9) ≡ pools 0 3
unfolding split_deficit
one_pool_takes_all = refl

abbrev policy : RefillPolicy
policy = record {
  target = pools 6 2;
  low_water = pools 4 1;
  target_total = 8;
  dialogue_target = 4;
  reservations_borrowable = true;
}

abbrev parent : Registered
parent = record { active = true; target_active = some (pos 3); manifest_id = some "m" }

abbrev seen : Observed
seen = record {
  pending = pools 5 4;
  running = pools 3 2;
  initializing = pools 1 0;
  registry = ("d", parent) ∷ [];
  parent_counts = ("d", record { running = 1; initializing = 1 }) ∷ [];
  parent_pending = ("d", pools 1 3) ∷ [];
  finalized = false;
}

-- K3 is full, and the queue of the parent alone makes it lack workers.
parent_lacks_k3 : raw_debt policy seen ≡ pools 3 1
unfolding raw_debt required_v4 required_k3 parent_demand parent_debt parent_target split_deficit
    lookup
parent_lacks_k3 = refl

two_slots_left : deficit policy seen ≡ pools 1 1
unfolding deficit deficit_total capacity raw_spawn raw_debt required_v4 required_k3 parent_demand
    parent_debt parent_target split_deficit lookup
two_slots_left = refl

seen_reason : reason policy seen ≡ "below_low_water"
unfolding reason deficit_total capacity raw_spawn raw_debt required_v4 required_k3 parent_demand
    parent_debt parent_target split_deficit lookup
seen_reason = refl

parent_reason_shown : parent_reason policy seen "d" parent ≡ "below_parent_target"
unfolding parent_reason parent_spawn_total parent_debt parent_target capacity lookup
parent_reason_shown = refl

refill_fits_example :
    IsSplit (deficit_total policy seen) (raw_spawn policy seen) (deficit policy seen)
    × ((deficit_total policy seen ≡ 0) ⊎ (6 + deficit_total policy seen ≤ 8))
    × ((deficit_total policy seen ≡ sum_pools (raw_spawn policy seen))
        ⊎ (8 ≤ 6 + deficit_total policy seen))
refill_fits_example = refill_fits policy seen

parent_fits_example :
    IsSplit
      (parent_spawn_total policy seen "d" parent)
      (queued_of policy seen "d")
      (parent_spawn policy seen "d" parent)
    × ((parent_spawn_total policy seen "d" parent ≡ 0)
        ⊎ (((count_of policy seen "d").running
                + (count_of policy seen "d").initializing
                + parent_spawn_total policy seen "d" parent
              ≤ parent_target (limit policy seen) parent)
            × (6 + parent_spawn_total policy seen "d" parent ≤ 8)))
    × ((parent.active ≡ true) ⊎ (parent_spawn_total policy seen "d" parent ≡ 0))
parent_fits_example = parent_fits policy seen "d" parent

abbrev work : String → String → Option String → Work
work state role manifest = record {
  state = state;
  pool_hint = none;
  role = role;
  parent_session_id = some "d";
  manifest_id = manifest;
}

-- The third packet is of another manifest; the verification counts for K3 alone.
abbrev ledger : List Work
ledger =
    work "DISPATCHABLE" "worker" (some "m")
    ∷ work "DISPATCHABLE" "reviewer" (some "m")
    ∷ work "DISPATCHABLE" "worker" none
    ∷ work "L2_VERIFY" "worker" none
    ∷ []

abbrev synced : WorkQueue
synced = queue_sync_ledger (("d", parent) ∷ []) ledger

ledger_synced : synced.pools ≡ pools 1 2
unfolding queue_sync_ledger count_all count_packet count_parent pool_for_packet lookup insert
ledger_synced = refl

queue_moves : (queue_remove (pos 9) pool_v4 (queue_add (negsuc 0) pool_k3 synced)).pools ≡ pools 0 1
unfolding queue_remove queue_add queue_sync_ledger count_all count_packet count_parent
    pool_for_packet lookup insert
queue_moves = refl

synced_queue_example :
    (parents_total pool_k3 synced.parents ≤ in_pool pool_k3 synced.pools)
    × All (λ e. Claimed (("d", parent) ∷ []) e.0 e.1) synced.parents
synced_queue_example = synced_queue (("d", parent) ∷ []) ledger pool_k3

abbrev always : String → Bool
always packet_id = true

abbrev entry : String → String → Option String → LedgerEntry
entry packet_id role parent_id = record {
  packet_id = packet_id;
  release_review = false;
  work = record {
    state = "DISPATCHABLE";
    pool_hint = none;
    role = role;
    parent_session_id = parent_id;
    manifest_id = some "m";
  };
}

-- One slot for each pool, and one K3 slot for the parent: its worker waits.
abbrev waiting : List LedgerEntry
waiting =
    entry "p1" "worker" none
    ∷ entry "p2" "worker" (some "d")
    ∷ entry "p3" "verifier" (some "d")
    ∷ entry "p4" "worker" none
    ∷ []

abbrev published : RefillState
published = state_of "v1" (some 7) policy seen

abbrev selected_ids : Selecting Selection → List String
selected_ids (ended s) = map (λ t. t.packet_id) s.tasks
selected_ids _ = []

waiting_selected :
    selected_ids (select_tasks always (("d", parent) ∷ []) published waiting) ≡ "p1" ∷ "p3" ∷ []
unfolding select_tasks rounds round take_task choose bucket_all bucket_entry add_row state_of
    parent_states parent_spawn parent_spawn_total deficit deficit_total capacity raw_spawn raw_debt
    required_v4 required_k3 parent_demand parent_debt parent_target split_deficit lookup insert
    pool_for_packet
waiting_selected = refl

selection_fits_example :
    Ends
      (λ s.
        ((length s.tasks ≡ 0) ⊎ (6 + length s.tasks ≤ 8))
        × (tasks_in pool_k3 s.tasks ≤ in_pool pool_k3 published.deficit)
        × (tasks_of "d" pool_k3 s.tasks
            ≤ in_pool pool_k3
                (get_or_default (lookup "d" (spawnable_of published.parents)) no_slots)))
      (select_tasks always (("d", parent) ∷ []) published waiting)
selection_fits_example =
    selection_fits always "v1" (some 7) policy seen (("d", parent) ∷ []) waiting "d" pool_k3
