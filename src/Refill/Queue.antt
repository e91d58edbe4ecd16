-- ===== src/Refill/Queue.antt =====
-- The work queue of harness/refill_controller_v2.py: `queue_set`, `queue_add`, `queue_remove`,
-- `queue_clear`, and `queue_sync_ledger`, which counts the packets of the ledger into the pools.
use codex_loop_orchestra.Prelude.{
  ℕ, ◌+◌, ◌-◌, Bool, true, false, ◌&&◌, String, List, [], ◌∷◌, Option, none, some, Dict, lookup,
  insert, any, get_or_default, str_eq, if◌then◌else◌, ℤ, pos, negsuc, to_nat, add_nat,
}
use codex_loop_orchestra.Refill.Split.{Pools, no_slots}
use codex_loop_orchestra.Refill.Recompute.{Registered}

-- `POOLS`
pub data Pool : Type 0 where
  pool_v4 pool_k3 : Pool

abbrev pub pool_named : String → Option Pool
pool_named name =
    if str_eq name "v4" then some pool_v4 else if str_eq name "k3" then some pool_k3 else none

abbrev pub in_pool : Pool → Pools → ℕ
in_pool (pool_v4) p = p.v4
in_pool (pool_k3) p = p.k3

abbrev pub with_pool : Pool → ℕ → Pools → Pools
with_pool (pool_v4) n p = record p { v4 = n }
with_pool (pool_k3) n p = record p { k3 = n }

pub record ParentRow : Type 0 where
  pub pools : Pools
  pub manifest_id : Option String

pub record WorkQueue : Type 0 where
  pub pools : Pools
  pub parents : Dict ParentRow

-- A packet of the ledger; an empty id of a parent counts as none.
pub record Work : Type 0 where
  pub state : String
  pub pool_hint : Option String
  pub role : String
  pub parent_session_id : Option String
  pub manifest_id : Option String

abbrev pub is_k3_role : String → Bool
is_k3_role role = any (str_eq role) ("verifier" ∷ "reviewer" ∷ "plan_expander" ∷ [])

abbrev pub is_k3_work : String → Bool
is_k3_work state =
    any (str_eq state) ("L2_VERIFY" ∷ "L2_RANK" ∷ "EXPAND_K3" ∷ "L2_VERIFY_PENDING" ∷ [])

abbrev pub hinted : Option String → Option Pool
hinted none = none
hinted (some hint) = pool_named hint

unfoldable pub pool_for_packet : Work → Pool
pool_for_packet item =
    get_or_default (hinted item.pool_hint) (if is_k3_role item.role then pool_k3 else pool_v4)

unfoldable pub queue_set : ℤ → Pool → WorkQueue → WorkQueue
queue_set count pool q = record q { pools = with_pool pool (to_nat count) q.pools }

unfoldable pub queue_add : ℤ → Pool → WorkQueue → WorkQueue
queue_add count pool q = record q {
  pools = with_pool pool (to_nat (add_nat count (in_pool pool q.pools))) q.pools;
}

abbrev pub less : ℕ → ℤ → ℕ
less n (pos count) = n - count
less n (negsuc count) = n + count + 1

unfoldable pub queue_remove : ℤ → Pool → WorkQueue → WorkQueue
queue_remove count pool q = record q {
  pools = with_pool pool (less (in_pool pool q.pools) count) q.pools;
}

unfoldable pub queue_clear : WorkQueue → WorkQueue
queue_clear q = record q { pools = no_slots }

abbrev pub bump : Pool → Pools → Pools
bump pool p = with_pool pool (in_pool pool p + 1) p

abbrev pub same_id : Option String → Option String → Bool
same_id none none = true
same_id (some a) (some b) = str_eq a b
same_id _ _ = false

-- Whether the parent may claim the packet.
abbrev pub claims : Option Registered → Work → Bool
claims none item = false
claims (some parent) item = parent.active && same_id parent.manifest_id item.manifest_id

-- `setdefault` and the increment
abbrev pub bump_row : Option ParentRow → Pool → Option String → ParentRow
bump_row none pool manifest = record { pools = bump pool no_slots; manifest_id = manifest }
bump_row (some row) pool manifest = record row { pools = bump pool row.pools }

module _ (registry : Dict Registered) where
  unfoldable pub count_parent : String → Work → WorkQueue → WorkQueue
  count_parent parent_id item q =
      if claims (lookup parent_id registry) item
      then record {
        pools = bump (pool_for_packet item) q.pools;
        parents =
            insert parent_id
              (bump_row (lookup parent_id q.parents) (pool_for_packet item) item.manifest_id)
              q.parents;
      }
      else q

  abbrev pub count_dispatchable : Option String → Work → WorkQueue → WorkQueue
  count_dispatchable none item q = record q { pools = bump (pool_for_packet item) q.pools }
  count_dispatchable (some parent_id) item q = count_parent parent_id item q

  unfoldable pub count_packet : Work → WorkQueue → WorkQueue
  count_packet item q =
      if str_eq item.state "DISPATCHABLE"
      then count_dispatchable item.parent_session_id item q
      else if is_k3_work item.state
      then record q { pools = bump pool_k3 q.pools }
      else q

  unfoldable pub count_all : List Work → WorkQueue → WorkQueue
  count_all [] q = q
  count_all (item ∷ items) q = count_all items (count_packet item q)

  unfoldable pub queue_sync_ledger : List Work → WorkQueue
  queue_sync_ledger items = count_all items (record { pools = no_slots; parents = [] })
