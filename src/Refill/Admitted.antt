-- ===== src/Refill/Admitted.antt =====
-- The selection of harness/refill_consumer_v2.py on the state that harness/refill_controller_v2.py
-- publishes.
use codex_loop_orchestra.Prelude.{
  ℕ, ◌+◌, ◌≤◌, ◌≡◌, ◌⊎◌, inl, inr, refl, Bool, String, List, [], ◌∷◌, Option, Dict, lookup,
  get_or_default, length, arith,
}
use codex_loop_orchestra.Refill.Split.{Pools, no_slots, sum_pools}
use codex_loop_orchestra.Refill.Shares.{split_total}
use codex_loop_orchestra.Refill.Recompute.{
  RefillPolicy, Registered, Observed, deficit, deficit_total,
}
use codex_loop_orchestra.Refill.State.{state_of}
use codex_loop_orchestra.Refill.Bounds.{refill_fits}
use codex_loop_orchestra.Refill.Queue.{Pool, pool_v4, pool_k3, in_pool}
use codex_loop_orchestra.Refill.Synced.{counted}
use codex_loop_orchestra.Refill.Select.{
  LedgerEntry, Task, Selection, Selecting, ended, refused, ran_out, spawnable_of, role_pool,
  bucket_all, select_tasks,
}
use codex_loop_orchestra.Refill.Chosen.{tasks_in, tasks_of, Balanced, Ends}
use codex_loop_orchestra.Refill.Selected.{rounds-Ends}

length-tasks_in : (ts : List Task) → length ts ≡ tasks_in pool_v4 ts + tasks_in pool_k3 ts
length-tasks_in [] = refl
length-tasks_in (t ∷ ts) = omega (arith, length-tasks_in ts, one_pool (role_pool t.role))
  where
    one_pool : (p : Pool) → counted pool_v4 p + counted pool_k3 p ≡ 1
    one_pool (pool_v4) = refl
    one_pool (pool_k3) = refl

Ends-map {ℓ} :
    {A : Type ℓ} (P Q : A → Type 0) (o : Selecting A) → ((a : A) → P a → Q a) → Ends P o → Ends Q o
Ends-map P Q (ended a) f h = f a h
Ends-map P Q (refused) f h = h
Ends-map P Q (ran_out) f h = h

module _ (policy : RefillPolicy) (seen : Observed) (spawnable : Dict Pools) (who : String)
    (pool : Pool) where
  abbrev Fits : Selection → Type 0
  Fits s =
      ((length s.tasks ≡ 0)
        ⊎ (sum_pools seen.running + sum_pools seen.initializing + length s.tasks
            ≤ policy.target_total))
      × (tasks_in pool s.tasks ≤ in_pool pool (deficit policy seen))
      × (tasks_of who pool s.tasks ≤ in_pool pool (get_or_default (lookup who spawnable) no_slots))

  fits_target :
      (n : ℕ)
      → n ≤ deficit_total policy seen
      → (n ≡ 0) ⊎ (sum_pools seen.running + sum_pools seen.initializing + n ≤ policy.target_total)
  fits_target n le = elim (refill_fits policy seen).1 [
    | inl idle ↦ inl (omega arith)
    | inr room ↦ inr (omega arith)
  ]

  Balanced-Fits : (s : Selection) → Balanced (deficit policy seen) spawnable s → Fits s
  unfolding Balanced
  Balanced-Fits s b =
      let total = split_total _ _ (deficit policy seen) (refill_fits policy seen).0 in
      (
        fits_target (length s.tasks)
            (omega (arith, total, length-tasks_in s.tasks, b.0 pool_v4, b.0 pool_k3)),
        omega (arith, b.0 pool),
        omega (arith, b.1 who pool),
      )

-- On the state of a recompute, the selection of tasks ends or is refused. The tasks that it selects
-- are none, or fit into the target with all workers that run and start; they take no more slots of
-- a pool than the pool lacks, and no more of a parent's than the parent may fill.
pub selection_fits :
    (is_valid : String → Bool) (version : String) (mtime : Option ℕ) (policy : RefillPolicy)
    (seen : Observed) (registry : Dict Registered) (ledger : List LedgerEntry) (who : String)
    (pool : Pool)
    → Ends
        (λ s.
          ((length s.tasks ≡ 0)
            ⊎ (sum_pools seen.running + sum_pools seen.initializing + length s.tasks
                ≤ policy.target_total))
          × (tasks_in pool s.tasks ≤ in_pool pool (state_of version mtime policy seen).deficit)
          × (tasks_of who pool s.tasks
              ≤ in_pool pool (
                  get_or_default
                    (lookup who (spawnable_of (state_of version mtime policy seen).parents))
                    no_slots)))
        (select_tasks is_valid registry (state_of version mtime policy seen) ledger)
unfolding select_tasks state_of Balanced
selection_fits is_valid version mtime policy seen registry ledger who pool =
    let spawnable = spawnable_of (state_of version mtime policy seen).parents in
    Ends-map (Balanced (deficit policy seen) spawnable) (Fits policy seen spawnable who pool)
      (select_tasks is_valid registry (state_of version mtime policy seen) ledger)
      (Balanced-Fits policy seen spawnable who pool)
      (rounds-Ends (deficit policy seen) spawnable is_valid (sum_pools (deficit policy seen))
        (bucket_all registry spawnable ledger [])
        (record { remaining = deficit policy seen; parent_remaining = spawnable; tasks = [] })
        (omega arith) (λ p. omega arith, λ w p. omega arith))
