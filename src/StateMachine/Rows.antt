-- ===== src/StateMachine/Rows.antt =====
-- Facts about all rows of the transition table, by evaluating a check on each row.
use codex_loop_orchestra.Prelude.{
  ℕ, ◌≡◌, refl, inl, inr, Bool, true, false, ◌&&◌, List, [], ◌∷◌, Option, some, all, Bool-cases,
  and_true, ◌==◌, arith, ==_iff,
}
use codex_loop_orchestra.StateMachine.States.{State, ◌is◌, is_sound}
use codex_loop_orchestra.StateMachine.Events.{Event, ◌matches◌, matches_sound}
use codex_loop_orchestra.StateMachine.Table.{Row, table, lookup_row}

module _ (check : State → Event → State → ℕ → Bool) where
  abbrev checked : Row → Bool
  checked r = check r.from_state r.event r.to_state r.number

  pub lookup_row-checked :
      (s : State) (e : Event) (rows : List Row) (t : State) (n : ℕ)
      → all checked rows ≡ true
      → lookup_row s e rows ≡ some (t, n)
      → check s e t n ≡ true
  unfolding lookup_row
  lookup_row-checked s e [] t n ok h = cc
  lookup_row-checked s e (r ∷ rs) t n ok h =
      elim (Bool-cases ((r.from_state is s) && (r.event matches e))) [
        | inl hit ↦
            let (same_state, same_event) = and_true _ _ hit in
            let (first, _) = and_true (checked r) (all checked rs) ok in
            found (is_sound _ _ same_state) (matches_sound _ _ same_event) (rw hit at h) first
        | inr miss ↦
            let (_, rest) = and_true (checked r) (all checked rs) ok in
            lookup_row-checked s e rs t n rest (rw miss at h)
      ]
    where
      found :
          r.from_state ≡ s
          → r.event ≡ e
          → ◌≡◌ {A = Option (State × ℕ)} (some (r.to_state, r.number)) (some (t, n))
          → checked r ≡ true
          → check s e t n ≡ true
      found p q o c = ground arith

abbrev implies : Bool → Bool → Bool
implies true b = b
implies false b = true

implies_elim : (a b : Bool) → implies a b ≡ true → a ≡ true → b ≡ true
implies_elim a b h ha = ground arith

-- A check on the rows of `table` that has passed, at one row.
by_check :
    (check : State → Event → State → ℕ → Bool)
    → all (checked check) table ≡ true
    → (s : State) (e : Event) (t : State) (n : ℕ) → lookup_row s e table ≡ some (t, n)
    → check s e t n ≡ true
by_check check ok s e t n = lookup_row-checked check s e table t n ok

module _ (s : State) (e : Event) (t : State) (n : ℕ) (h : lookup_row s e table ≡ some (t, n)) where
  -- t22 leaves the routing state.
  pub replan_row : n ≡ 22 → s ≡ State.sol_adjudicate
  replan_row p = is_sound s _ (
      implies_elim (n == 22) _
        (by_check (λ s e t n. implies (n == 22) (s is State.sol_adjudicate)) refl s e t n h)
        ((==_iff n 22).1 p))
