-- ===== src/Budget/Grants/Conserved.antt =====
-- Over any sequence of operations, the tokens of a task are conserved.
use codex_loop_orchestra.Prelude.{
  ℕ, ◌+◌, ◌-◌, ◌≤◌, ◌≡◌, refl, ap, ◌∙◌, min, true, false, not, ◌&&◌, String, List, [], ◌∷◌, Option,
  none, some, Dict, lookup, arith, str_eq, ◌==◌, ltb, ℤ, pos, sub_nat, sub_nat-pos, add_nat, to_nat,
  is_some, if_either,
}
use codex_loop_orchestra.Budget.Doc.{
  is_break, Policy, RoleCostModel, role_cost_model, allocation, Doc, Store, amount, total,
}
use codex_loop_orchestra.Budget.Ladder.{recompute_state, record_usage, consume}
use codex_loop_orchestra.Budget.Grants.{
  role_key, carve, available, to_grant, register_agent, register_new, Grant, granted, Decision,
  near_limit, unused, return_unused, reclaim, extension, extend_by, extend_or_wrap_up,
}
use codex_loop_orchestra.Budget.Grants.Holdings.{
  holdings, IsFunded, total-insert, total-remove, carve-holdings,
}

-- A call on the controller, with its time.
pub data Operation : Type 0 where
  register : String → String → Operation
  record_use : ℕ → String → ℤ → Operation
  give_back : ℕ → String → Operation
  ask_more : String → String → Operation

module _ (pol : Policy) (history : Dict RoleCostModel) where
  unfoldable pub perform : Operation → Store → Store
  perform (register agent_id role) s = (register_agent pol history agent_id role s).0
  perform (record_use now agent_id tokens) s = (record_usage pol now agent_id tokens s).0
  perform (give_back now agent_id) s = (reclaim pol now agent_id s).0
  perform (ask_more agent_id verification_state) s =
      (extend_or_wrap_up agent_id verification_state s).0

  unfoldable pub perform_all : List Operation → Store → Store
  perform_all [] s = s
  perform_all (o ∷ os) s = perform_all os (perform o s)

  -- What an operation takes out of the budget: a reclaim withholds of the allocation as much as the
  -- agent has ever used, what it used of earlier allocations included.
  abbrev pub withheld_by : Operation → Store → ℕ
  withheld_by (give_back now agent_id) s =
      min (amount agent_id s.doc.allocated) (amount agent_id s.doc.consumed)
  withheld_by _ s = 0

  abbrev pub withheld : List Operation → Store → ℕ
  withheld [] s = 0
  withheld (o ∷ os) s = withheld_by o s + withheld os (perform o s)

-- The grants and the pool of one document in another.
record SameGrants (a b : Doc) : Type 0 where
  allocated : a.allocated ≡ b.allocated
  pool_returned : a.pool_returned ≡ b.pool_returned
  task_id : a.task_id ≡ b.task_id

recompute_keeps :
    (pol : Policy) (now : ℕ) (s : Store) → SameGrants (recompute_state pol now s).doc s.doc
unfolding recompute_state
recompute_keeps pol now s = record {
  allocated = ground arith;
  pool_returned = ground arith;
  task_id = ground arith;
}

-- After an operation that takes out `out` tokens.
record Keeps (out : ℕ) (a b : Doc) : Type 0 where
  funded : IsFunded b
  sum_kept : holdings b + out ≡ holdings a

same_moves : (a b : Doc) → IsFunded a → SameGrants b a → Keeps 0 a b
same_moves a b f g = record {
  funded = record {
    pool = f.pool;
    pool_is = g.pool_returned ∙ f.pool_is;
    has_task = rw g.task_id f.has_task;
  };
  sum_kept = rw (g.allocated, g.pool_returned) (omega arith);
}

available_in :
    (key : String) (n : ℕ) (d : Doc)
    → d.pool_returned ≡ pos n
    → available key d ≡ n + amount key d.allocated
available_in key n d p = ap (λ (z : ℤ). to_nat (add_nat z (amount key d.allocated))) p

module _ (pol : Policy) (history : Dict RoleCostModel) (s : Store) (f : IsFunded s.doc) where
  abbrev Kept : {A : Type 0} → Store × A → Type 0
  Kept r = Keeps 0 s.doc r.0.doc

  unchanged : Keeps 0 s.doc s.doc
  unchanged =
      same_moves s.doc s.doc f (record { allocated = refl; pool_returned = refl; task_id = refl })

  granted-Keeps :
      (agent_id role : String)
      → lookup agent_id s.doc.allocated ≡ none
      → ltb 0 (available (role_key role) s.doc) ≡ true
      → Keeps 0 s.doc (
          carve agent_id
            (role_key role)
            (to_grant
              (allocation pol (role_cost_model history role))
              (available (role_key role) s.doc))
            s.doc)
  granted-Keeps agent_id role new free =
      let a = available_in (role_key role) f.pool s.doc f.pool_is in
      let grant =
        to_grant (allocation pol (role_cost_model history role))
          (available (role_key role) s.doc) in
      let small : grant ≤ f.pool + amount (role_key role) s.doc.allocated =
        ground (arith, a, free) in
      let (kept, pool) =
        carve-holdings agent_id (role_key role) grant f.pool s.doc f.pool_is new small in
      record {
        funded = record { pool = _; pool_is = pool; has_task = f.has_task };
        sum_kept = omega (arith, kept);
      }

  register_new-Keeps :
      (agent_id role : String)
      → lookup agent_id s.doc.allocated ≡ none
      → Kept (register_new pol history agent_id role s)
  unfolding register_new
  register_new-Keeps agent_id role new =
      if_either Kept _ _ _ (λ _. unchanged)
        (λ more. granted-Keeps agent_id role new (some_free _ more))
    where
      some_free : (n : ℕ) → ((n == 0) && is_some s.doc.task_id) ≡ false → ltb 0 n ≡ true
      some_free n h = let t = f.has_task in ground arith

  register-Keeps : (agent_id role : String) → Kept (register_agent pol history agent_id role s)
  unfolding register_agent
  register-Keeps agent_id role = go (lookup agent_id s.doc.allocated) refl
    where
      go :
          (o : Option ℕ)
          → lookup agent_id s.doc.allocated ≡ o
          → Kept {A = Grant}
              (elim o [ some n ↦ (s, granted n) | none ↦ register_new pol history agent_id role s ])
      go (some n) h = unchanged
      go none h = register_new-Keeps agent_id role h

  record_usage-Keeps :
      (now : ℕ) (agent_id : String) (tokens : ℤ) → Kept (record_usage pol now agent_id tokens s)
  unfolding record_usage
  record_usage-Keeps now agent_id tokens =
      let g = recompute_keeps pol now (consume agent_id tokens s) in
      same_moves s.doc (recompute_state pol now (consume agent_id tokens s)).doc f
        (record { allocated = g.allocated; pool_returned = g.pool_returned; task_id = g.task_id })

  extend-Keeps : (agent_id verification : String) → Kept (extend_or_wrap_up agent_id verification s)
  unfolding extend_or_wrap_up
  extend-Keeps agent_id verification =
      if_either (Kept {A = Decision}) (not (near_limit agent_id s.doc)) _ _ (λ _. unchanged)
        (λ _.
          if_either (Kept {A = Decision})
            (ltb 0 n && str_eq verification "CONTINUE" && not (is_break s.doc.state)) _ _
            (λ _. extended-Keeps) (λ _. unchanged))
    where
      n : ℕ
      n = extension agent_id s.doc

      extended-Keeps : Keeps 0 s.doc (extend_by agent_id n s).doc
      extended-Keeps =
          let before = ap to_nat f.pool_is in
          let most : n ≤ f.pool = omega (arith, before) in
          let t = total-insert agent_id (amount agent_id s.doc.allocated + n) s.doc.allocated in
          let pool : (extend_by agent_id n s).doc.pool_returned ≡ pos (f.pool - n) =
            ap (λ (z : ℤ). sub_nat z n) f.pool_is ∙ sub_nat-pos f.pool n most in
          let left = ap to_nat pool in
          record {
            funded = record { pool = _; pool_is = pool; has_task = f.has_task };
            sum_kept = omega (arith, t, most, before, left);
          }

  module _ (now : ℕ) (agent_id : String) where
    abbrev out : ℕ
    out = min (amount agent_id s.doc.allocated) (amount agent_id s.doc.consumed)

    returned-Keeps : Keeps out s.doc (recompute_state pol now (return_unused agent_id s)).doc
    returned-Keeps =
        let g = recompute_keeps pol now (return_unused agent_id s) in
        let t = total-remove agent_id s.doc.allocated in
        let pool : (return_unused agent_id s).doc.pool_returned
            ≡ pos (f.pool + unused agent_id s.doc) =
          ap (λ (z : ℤ). add_nat z (unused agent_id s.doc)) f.pool_is in
        let before = ap to_nat f.pool_is in
        let after = ap to_nat (g.pool_returned ∙ pool) in
        let kept = ap total g.allocated in
        record {
          funded = record {
            pool = _;
            pool_is = g.pool_returned ∙ pool;
            has_task = rw g.task_id f.has_task;
          };
          sum_kept = omega (arith, t, before, after, kept);
        }

    reclaim-Keeps : Keeps out s.doc (reclaim pol now agent_id s).0.doc
    unfolding reclaim
    reclaim-Keeps =
        if_either (λ (r : Store). Keeps out s.doc r.doc) (unused agent_id s.doc == 0) _ _
          (λ _. returned-Keeps) (λ _. returned-Keeps)

module _ (pol : Policy) (history : Dict RoleCostModel) where
  perform-Keeps :
      (o : Operation) (s : Store)
      → IsFunded s.doc
      → Keeps (withheld_by pol history o s) s.doc (perform pol history o s).doc
  unfolding perform
  perform-Keeps (register agent_id role) s f = register-Keeps pol history s f agent_id role
  perform-Keeps (record_use now agent_id tokens) s f =
      record_usage-Keeps pol history s f now agent_id tokens
  perform-Keeps (give_back now agent_id) s f = reclaim-Keeps pol history s f now agent_id
  perform-Keeps (ask_more agent_id verification) s f =
      extend-Keeps pol history s f agent_id verification

  -- Whatever is registered, used, reclaimed and extended after a task is open and its pool is not
  -- below 0: the allocations and the pool, with what the reclaims withhold, add up to what they
  -- were, and the pool does not fall below 0. A reclaim withholds of the agent's allocation as much
  -- as the agent has ever used, what it used of earlier allocations included.
  pub tokens_conserved :
      (os : List Operation) (s : Store)
      → IsFunded s.doc
      → (holdings (perform_all pol history os s).doc + withheld pol history os s ≡ holdings s.doc)
        × IsFunded (perform_all pol history os s).doc
  unfolding perform_all
  tokens_conserved [] s f = (omega arith, f)
  tokens_conserved (o ∷ os) s f =
      let k = perform-Keeps o s f in
      let (later, funded) = tokens_conserved os (perform pol history o s) k.funded in
      let here = k.sum_kept in (omega (arith, later, here), funded)
