-- ===== src/Refill/Synced.antt =====
-- What the ledger sync of harness/refill_controller_v2.py leaves in the queue.
use codex_loop_orchestra.Prelude.{
  ℕ, ◌+◌, ◌≤◌, ◌≡◌, inl, inr, refl, sym, some_inj, true, Bool-cases, and_true, String, List, [],
  ◌∷◌, All, Option, none, some, Dict, lookup, insert, str_eq, eq_iff, if_either, arith,
}
use codex_loop_orchestra.Refill.Split.{Pools, no_slots}
use codex_loop_orchestra.Refill.Recompute.{Registered}
use codex_loop_orchestra.Refill.Queue.{
  Pool, pool_v4, pool_k3, in_pool, bump, ParentRow, WorkQueue, Work, same_id, claims, bump_row,
  pool_for_packet, count_dispatchable, is_k3_work, count_parent, count_packet, count_all,
  queue_sync_ledger,
}

-- What the parents have queued for a pool together.
abbrev pub parents_total : Pool → Dict ParentRow → ℕ
parents_total pool [] = 0
parents_total pool ((key, row) ∷ rest) = in_pool pool row.pools + parents_total pool rest

abbrev row_count : Pool → Option ParentRow → ℕ
row_count pool none = 0
row_count pool (some row) = in_pool pool row.pools

parents_total-insert :
    (pool : Pool) (key : String) (row : ParentRow) (d : Dict ParentRow)
    → parents_total pool (insert key row d) + row_count pool (lookup key d)
      ≡ parents_total pool d + in_pool pool row.pools
unfolding lookup insert
parents_total-insert pool key row [] = omega arith
parents_total-insert pool key row ((name, old) ∷ rest) =
    let later = parents_total-insert pool key row rest in ground (arith, later)

-- Whether a packet of one pool counts for the other.
abbrev pub counted : Pool → Pool → ℕ
counted (pool_v4) (pool_v4) = 1
counted (pool_k3) (pool_k3) = 1
counted _ _ = 0

in_pool-bump :
    (pool to : Pool) (p : Pools) → in_pool pool (bump to p) ≡ in_pool pool p + counted pool to
in_pool-bump (pool_v4) (pool_v4) p = refl
in_pool-bump (pool_v4) (pool_k3) p = omega arith
in_pool-bump (pool_k3) (pool_v4) p = omega arith
in_pool-bump (pool_k3) (pool_k3) p = refl

row_count-bump :
    (pool to : Pool) (o : Option ParentRow) (manifest : Option String)
    → in_pool pool (bump_row o to manifest).pools ≡ row_count pool o + counted pool to
row_count-bump (pool_v4) to none manifest = in_pool-bump pool_v4 to no_slots
row_count-bump (pool_k3) to none manifest = in_pool-bump pool_k3 to no_slots
row_count-bump pool to (some row) manifest = in_pool-bump pool to row.pools

Within : Pool → WorkQueue → Type 0
Within pool q = parents_total pool q.parents ≤ in_pool pool q.pools

module _ (registry : Dict Registered) where
  count_parent-Within :
      (pool : Pool) (parent_id : String) (item : Work) (q : WorkQueue)
      → Within pool q
      → Within pool (count_parent registry parent_id item q)
  unfolding count_parent Within
  count_parent-Within pool parent_id item q h =
      let to = pool_for_packet item in
      if_either (Within pool) (claims (lookup parent_id registry) item) _ _
        (λ _. omega (
          arith,
          in_pool-bump pool to q.pools,
          row_count-bump pool to (lookup parent_id q.parents) item.manifest_id,
          parents_total-insert pool parent_id
              (bump_row (lookup parent_id q.parents) to item.manifest_id) q.parents,
        ))
        (λ _. h)

  pooled-Within :
      (pool to : Pool) (q : WorkQueue)
      → Within pool q
      → Within pool (record q { pools = bump to q.pools })
  unfolding Within
  pooled-Within pool to q h = omega (arith, in_pool-bump pool to q.pools)

  dispatchable-Within :
      (pool : Pool) (o : Option String) (item : Work) (q : WorkQueue)
      → Within pool q
      → Within pool (count_dispatchable registry o item q)
  dispatchable-Within pool none item q h = pooled-Within pool (pool_for_packet item) q h
  dispatchable-Within pool (some parent_id) item q h = count_parent-Within pool parent_id item q h

  count_packet-Within :
      (pool : Pool) (item : Work) (q : WorkQueue)
      → Within pool q
      → Within pool (count_packet registry item q)
  unfolding count_packet
  count_packet-Within pool item q h =
      if_either (Within pool) (str_eq item.state "DISPATCHABLE") _ _
        (λ _. dispatchable-Within pool item.parent_session_id item q h)
        (λ _.
          if_either (Within pool) (is_k3_work item.state) _ _ (λ _. pooled-Within pool pool_k3 q h)
            (λ _. h))

  count_all-Within :
      (pool : Pool) (items : List Work) (q : WorkQueue)
      → Within pool q
      → Within pool (count_all registry items q)
  unfolding count_all
  count_all-Within pool [] q h = h
  count_all-Within pool (item ∷ items) q h =
      count_all-Within pool items (count_packet registry item q) (count_packet-Within pool item q h)

  -- The row of an active parent of the registry that has the row's manifest.
  pub Claimed : String → ParentRow → Type 0
  Claimed parent_id row =
      (parent : Registered) × (lookup parent_id registry ≡ some parent)
      × (parent.active ≡ true)
      × (same_id parent.manifest_id row.manifest_id ≡ true)

  AllClaimed : WorkQueue → Type 0
  AllClaimed q = All (λ e. Claimed e.0 e.1) q.parents

  claims-Claimed :
      (parent_id : String) (item : Work) (row : ParentRow)
      → claims (lookup parent_id registry) item ≡ true
      → row.manifest_id ≡ item.manifest_id
      → Claimed parent_id row
  unfolding Claimed
  claims-Claimed parent_id item row h same = go (lookup parent_id registry) refl
    where
      go : (o : Option Registered) → lookup parent_id registry ≡ o → Claimed parent_id row
      go none e = absurd (ground (arith, rw e at h))
      go (some parent) e =
          let both =
            and_true parent.active (same_id parent.manifest_id item.manifest_id) (rw e at h) in
          (parent, e, both.0, rw same both.1)

  found-Claimed :
      (parent_id : String) (row : ParentRow) (d : Dict ParentRow)
      → All (λ e. Claimed e.0 e.1) d
      → lookup parent_id d ≡ some row
      → Claimed parent_id row
  unfolding lookup
  found-Claimed parent_id row [] h e = absurd (ground (arith, e))
  found-Claimed parent_id row ((name, old) ∷ d) h e = elim (Bool-cases (str_eq name parent_id)) [
    | inl same ↦
        let names = (eq_iff name parent_id).0 same in
        rw (sym names, sym (some_inj (rw same at e))) h.0
    | inr other ↦ found-Claimed parent_id row d h.1 (rw other at e)
  ]

  insert-Claimed :
      (parent_id : String) (row : ParentRow) (d : Dict ParentRow)
      → Claimed parent_id row
      → All (λ e. Claimed e.0 e.1) d
      → All (λ e. Claimed e.0 e.1) (insert parent_id row d)
  unfolding insert
  insert-Claimed parent_id row [] c h = (c, tt)
  insert-Claimed parent_id row ((name, old) ∷ d) c h =
      if_either (All (λ e. Claimed e.0 e.1)) (str_eq name parent_id) _ _
        (λ same. (rw ((eq_iff name parent_id).0 same) c, h.1))
        (λ _. (h.0, insert-Claimed parent_id row d c h.1))

  bumped-Claimed :
      (parent_id : String) (item : Work) (q : WorkQueue)
      → claims (lookup parent_id registry) item ≡ true
      → AllClaimed q
      → Claimed parent_id
          (bump_row (lookup parent_id q.parents) (pool_for_packet item) item.manifest_id)
  unfolding AllClaimed Claimed
  bumped-Claimed parent_id item q c h = go (lookup parent_id q.parents) refl
    where
      go :
          (o : Option ParentRow)
          → lookup parent_id q.parents ≡ o
          → Claimed parent_id (bump_row o (pool_for_packet item) item.manifest_id)
      go none e =
          claims-Claimed parent_id item
            (record {
              pools = bump (pool_for_packet item) no_slots;
              manifest_id = item.manifest_id;
            })
            c refl
      go (some row) e = found-Claimed parent_id row q.parents h e

  count_parent-AllClaimed :
      (parent_id : String) (item : Work) (q : WorkQueue)
      → AllClaimed q
      → AllClaimed (count_parent registry parent_id item q)
  unfolding count_parent AllClaimed
  count_parent-AllClaimed parent_id item q h =
      if_either AllClaimed (claims (lookup parent_id registry) item) _ _
        (λ c. insert-Claimed parent_id _ q.parents (bumped-Claimed parent_id item q c h) h) (λ _. h)

  dispatchable-AllClaimed :
      (o : Option String) (item : Work) (q : WorkQueue)
      → AllClaimed q
      → AllClaimed (count_dispatchable registry o item q)
  unfolding AllClaimed
  dispatchable-AllClaimed none item q h = h
  dispatchable-AllClaimed (some parent_id) item q h = count_parent-AllClaimed parent_id item q h

  count_packet-AllClaimed :
      (item : Work) (q : WorkQueue) → AllClaimed q → AllClaimed (count_packet registry item q)
  unfolding count_packet AllClaimed
  count_packet-AllClaimed item q h =
      if_either AllClaimed (str_eq item.state "DISPATCHABLE") _ _
        (λ _. dispatchable-AllClaimed item.parent_session_id item q h)
        (λ _. if_either AllClaimed (is_k3_work item.state) _ _ (λ _. h) (λ _. h))

  count_all-AllClaimed :
      (items : List Work) (q : WorkQueue) → AllClaimed q → AllClaimed (count_all registry items q)
  unfolding count_all
  count_all-AllClaimed [] q h = h
  count_all-AllClaimed (item ∷ items) q h =
      count_all-AllClaimed items (count_packet registry item q) (count_packet-AllClaimed item q h)

  -- After a sync of the ledger, the parents together have no more queued for a pool than the pool
  -- has, and each of them is registered, active and has the manifest of its row.
  pub synced_queue :
      (items : List Work) (pool : Pool)
      → (parents_total pool (queue_sync_ledger registry items).parents
          ≤ in_pool pool (queue_sync_ledger registry items).pools)
        × All (λ e. Claimed e.0 e.1) (queue_sync_ledger registry items).parents
  unfolding queue_sync_ledger Within AllClaimed
  synced_queue items pool = (
    count_all-Within pool items (record { pools = no_slots; parents = [] }) (omega arith),
    count_all-AllClaimed items (record { pools = no_slots; parents = [] }) tt,
  )
