-- ===== src/Budget/Grants/Holdings.antt =====
-- Tokens are moved by harness/budget_controller.py, never made.
use codex_loop_orchestra.Prelude.{
  ℕ, ◌+◌, ◌-◌, ◌≤◌, ◌≡◌, refl, ap, ◌∙◌, min, true, String, [], ◌∷◌, Option, none, Dict, lookup,
  insert, remove, arith, str_eq, eq_iff, get_or_default, if◌then◌else◌, pos, sub_nat-pos, to_nat,
  is_some, Bool-cases, lookup-insert, inl, inr,
}
use codex_loop_orchestra.Budget.Doc.{Doc, amount, total}
use codex_loop_orchestra.Budget.Grants.{carve}

pub total-insert :
    (key : String) (value : ℕ) (d : Dict ℕ)
    → total (insert key value d) + amount key d ≡ total d + value
unfolding total insert lookup
total-insert key value [] = omega arith
total-insert key value ((name, old) ∷ rest) =
    let later = total-insert key value rest in ground (arith, later)

pub total-remove : (key : String) (d : Dict ℕ) → total (remove key d) + amount key d ≡ total d
unfolding total remove lookup
total-remove key [] = refl
total-remove key ((name, old) ∷ rest) = let later = total-remove key rest in ground (arith, later)

-- All that the task has left to give: what is allocated, and the pool.
abbrev pub holdings : Doc → ℕ
holdings d = total d.allocated + to_nat d.pool_returned

-- A task is open, and its pool is not below 0.
pub record IsFunded (d : Doc) : Type 0 where
  pub pool : ℕ
  pub pool_is : d.pool_returned ≡ pos pool
  pub has_task : is_some d.task_id ≡ true

no_amount : (key : String) (d : Dict ℕ) → lookup key d ≡ none → amount key d ≡ 0
no_amount key d h = rw h refl

amount-insert :
    (key j : String) (value : ℕ) (d : Dict ℕ)
    → amount j (insert key value d) ≡ (if str_eq key j then value else amount j d)
amount-insert key j value d = elim (Bool-cases (str_eq key j)) [
  | inl h ↦ ap (λ (o : Option ℕ). get_or_default o 0) (lookup-insert key j value d) ∙ rw h refl
  | inr h ↦ ap (λ (o : Option ℕ). get_or_default o 0) (lookup-insert key j value d) ∙ rw h refl
]

-- A key that is not there holds nothing, also after a part of it is taken.
still_nothing :
    (agent_id key : String) (rest : ℕ) (d : Dict ℕ)
    → lookup agent_id d ≡ none
    → rest ≤ amount key d
    → amount agent_id (insert key rest d) ≡ 0
still_nothing agent_id key rest d new h =
    let a = amount-insert key agent_id rest d in
    let z = no_amount agent_id d new in
    elim (Bool-cases (str_eq key agent_id)) [
      | inl same ↦
          let same_amount = ap (λ (k : String). amount k d) ((eq_iff key agent_id).0 same) in
          ground (arith, a, z, same, same_amount, h)
      | inr other ↦ ground (arith, a, z, other)
    ]

-- Adding a grant for a key that is not there, after a change at another key.
total-insert_new :
    (agent_id key : String) (grant rest : ℕ) (d : Dict ℕ)
    → lookup agent_id d ≡ none
    → rest ≤ amount key d
    → total (insert agent_id grant (insert key rest d)) + amount key d ≡ total d + rest + grant
total-insert_new agent_id key grant rest d new h =
    let outer = total-insert agent_id grant (insert key rest d) in
    let inner = total-insert key rest d in
    let nothing = still_nothing agent_id key rest d new h in omega (arith, outer, inner, nothing)

-- A grant moves tokens from the role and from the pool to the agent.
pub carve-holdings :
    (agent_id key : String) (grant n : ℕ) (d : Doc)
    → d.pool_returned ≡ pos n
    → lookup agent_id d.allocated ≡ none
    → grant ≤ n + amount key d.allocated
    → (holdings (carve agent_id key grant d) ≡ holdings d)
      × ((carve agent_id key grant d).pool_returned
          ≡ pos (n - (grant - min grant (amount key d.allocated))))
carve-holdings agent_id key grant n d p new h =
    let rp = amount key d.allocated in
    let t = total-insert_new agent_id key grant (rp - min grant rp) d.allocated new (omega arith) in
    let pool : (carve agent_id key grant d).pool_returned ≡ pos (n - (grant - min grant rp)) =
      rw p (sub_nat-pos n (grant - min grant rp) (omega arith)) in
    (rw (pool, p) (omega (arith, t)), pool)
