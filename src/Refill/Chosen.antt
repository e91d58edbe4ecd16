-- ===== src/Refill/Chosen.antt =====
-- The tasks that harness/refill_consumer_v2.py selects, and the slots that they take.
use codex_loop_orchestra.Prelude.{
  ℕ, ◌+◌, ◌<◌, ◌≡◌, ◌⊎◌, inl, inr, refl, sym, ap, Bool, true, false, Bool-cases, and_true, some_inj,
  get_or_default, String, List, [], ◌∷◌, ◌++◌, Option, none, some, Dict, lookup, lookup-insert, ltb,
  ltb→lt, str_eq, eq_iff, if◌then◌else◌, arith,
}
use codex_loop_orchestra.Refill.Split.{Pools, no_slots, sum_pools}
use codex_loop_orchestra.Refill.Queue.{Pool, pool_v4, pool_k3, in_pool}
use codex_loop_orchestra.Refill.Synced.{counted}
use codex_loop_orchestra.Refill.Select.{
  Candidate, Task, Selection, Selecting, ended, refused, ran_out, role_pool, same_pool, of_parent,
  parent_has_slot, has_slot, choose, one_less, parent_less,
}

-- How many tasks go to a pool, and how many of them are a parent's.
abbrev pub tasks_in : Pool → List Task → ℕ
tasks_in pool [] = 0
tasks_in pool (t ∷ ts) = counted pool (role_pool t.role) + tasks_in pool ts

abbrev pub is_parent : String → Option String → Bool
is_parent who none = false
is_parent who (some parent_id) = str_eq parent_id who

abbrev pub tasks_of : String → Pool → List Task → ℕ
tasks_of who pool [] = 0
tasks_of who pool (t ∷ ts) =
    (if is_parent who t.parent_session_id then counted pool (role_pool t.role) else 0)
    + tasks_of who pool ts

tasks_in-snoc :
    (pool : Pool) (ts : List Task) (t : Task)
    → tasks_in pool (ts ++ t ∷ []) ≡ tasks_in pool ts + counted pool (role_pool t.role)
tasks_in-snoc pool [] t = omega arith
tasks_in-snoc pool (x ∷ ts) t = omega (arith, tasks_in-snoc pool ts t)

tasks_of-snoc :
    (who : String) (pool : Pool) (ts : List Task) (t : Task)
    → tasks_of who pool (ts ++ t ∷ [])
      ≡ tasks_of who pool ts
        + (if is_parent who t.parent_session_id then counted pool (role_pool t.role) else 0)
tasks_of-snoc who pool [] t = omega arith
tasks_of-snoc who pool (x ∷ ts) t = omega (arith, tasks_of-snoc who pool ts t)

in_pool-one_less :
    (pool to : Pool) (p : Pools)
    → 0 < in_pool to p
    → in_pool pool (one_less to p) + counted pool to ≡ in_pool pool p
in_pool-one_less (pool_v4) (pool_v4) p h = omega arith
in_pool-one_less (pool_v4) (pool_k3) p h = omega arith
in_pool-one_less (pool_k3) (pool_v4) p h = omega arith
in_pool-one_less (pool_k3) (pool_k3) p h = omega arith

pub same_pool_eq : (a b : Pool) → same_pool a b ≡ true → a ≡ b
same_pool_eq (pool_v4) (pool_v4) h = refl
same_pool_eq (pool_v4) (pool_k3) h = absurd (ground (arith, h))
same_pool_eq (pool_k3) (pool_v4) h = absurd (ground (arith, h))
same_pool_eq (pool_k3) (pool_k3) h = refl

-- The slots of a parent after a task has taken one.
of_parent-less :
    (who : String) (o : Option String) (to pool : Pool) (s : Selection)
    → parent_has_slot o to s ≡ true
    → in_pool pool (of_parent who (record s { parent_remaining = parent_less o to s }))
        + (if is_parent who o then counted pool to else 0)
      ≡ in_pool pool (of_parent who s)
of_parent-less who none to pool s h = omega arith
of_parent-less who (some parent_id) to pool s h = go (Bool-cases (str_eq parent_id who))
  where
    go :
        (str_eq parent_id who ≡ true) ⊎ (str_eq parent_id who ≡ false)
        → in_pool pool
              (of_parent who (record s { parent_remaining = parent_less (some parent_id) to s }))
            + (if is_parent who (some parent_id) then counted pool to else 0)
          ≡ in_pool pool (of_parent who s)
    go (inl same) =
        let names = (eq_iff parent_id who).0 same in
        rw
          (
            lookup-insert parent_id who (one_less to (of_parent parent_id s)) s.parent_remaining,
            same,
            sym names,
          )
          (in_pool-one_less pool to (of_parent parent_id s) (ltb→lt 0 _ h))
    go (inr other) =
        rw
          (
            lookup-insert parent_id who (one_less to (of_parent parent_id s)) s.parent_remaining,
            other,
          )
          (omega arith)

pub choose-has_slot :
    (s : Selection) (rows : List Candidate) (c : Candidate) (left : List Candidate)
    → choose s rows ≡ some (c, left)
    → has_slot c s ≡ true
unfolding choose
choose-has_slot s [] c left h = absurd (ground (arith, h))
choose-has_slot s (x ∷ rows) c left h =
    go (Bool-cases (has_slot x s)) (choose s rows) refl (λ d l. choose-has_slot s rows d l)
  where
    go :
        (has_slot x s ≡ true) ⊎ (has_slot x s ≡ false)
        → (o : Option (Candidate × List Candidate)) → choose s rows ≡ o
        → ((d : Candidate) (l : List Candidate) → choose s rows ≡ some (d, l) → has_slot d s ≡ true)
        → has_slot c s ≡ true
    go (inl b) o e rest = rw (sym (ap (λ f. f.0) (some_inj (rw b at h)))) b
    go (inr b) none e rest = absurd (ground (arith, rw (b, e) at h))
    go (inr b) (some (d, l)) e rest =
        rw (sym (ap (λ f. f.0) (some_inj (rw (b, e) at h)))) (rest d l e)

-- What was selected and what remains is what there was, of each pool and of each parent.
unfoldable pub Balanced : Pools → Dict Pools → Selection → Type 0
Balanced slots spawnable s =
    ((pool : Pool) → tasks_in pool s.tasks + in_pool pool s.remaining ≡ in_pool pool slots)
    × ((who : String) (pool : Pool)
        → tasks_of who pool s.tasks + in_pool pool (of_parent who s)
          ≡ in_pool pool (get_or_default (lookup who spawnable) no_slots))

-- A property of what a selection ends with, if it is not refused; it does not run out.
abbrev pub Ends {ℓ} : {A : Type ℓ} → (A → Type 0) → Selecting A → Type 0
Ends P (ended a) = P a
Ends P (refused) = Unit
Ends P (ran_out) = ⊥

module _ (slots : Pools) (spawnable : Dict Pools) where
  abbrev pub taken_by : Candidate → Selection → Selection
  taken_by c s = record {
    remaining = one_less c.pool s.remaining;
    parent_remaining = parent_less c.parent_id c.pool s;
    tasks =
        s.tasks
        ++ record { packet_id = c.packet_id; role = c.work.role; parent_session_id = c.parent_id }
          ∷ [];
  }

  pub taken_by-Balanced :
      (c : Candidate) (s : Selection)
      → role_pool c.work.role ≡ c.pool
      → has_slot c s ≡ true
      → Balanced slots spawnable s
      → Balanced slots spawnable (taken_by c s)
  unfolding Balanced
  taken_by-Balanced c s e h b =
      let both =
        and_true (ltb 0 (in_pool c.pool s.remaining)) (parent_has_slot c.parent_id c.pool s) h in
      let task : Task = record {
        packet_id = c.packet_id;
        role = c.work.role;
        parent_session_id = c.parent_id;
      } in
      (
        λ pool. omega (
          arith,
          b.0 pool,
          in_pool-one_less pool c.pool s.remaining (ltb→lt 0 _ both.0),
          tasks_in-snoc pool s.tasks task,
          ap (counted pool) e,
        ),
        λ who pool.
            let slot = of_parent-less who c.parent_id c.pool pool s both.1 in
            let snoc = tasks_of-snoc who pool s.tasks task in
            omega (arith, b.1 who pool, slot, rw e at snoc),
      )

  pub one_less-sum :
      (to : Pool) (p : Pools) → 0 < in_pool to p → sum_pools (one_less to p) < sum_pools p
  one_less-sum (pool_v4) p h = omega arith
  one_less-sum (pool_k3) p h = omega arith
