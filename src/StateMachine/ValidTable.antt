-- ===== src/StateMachine/ValidTable.antt =====
-- What a table that passes `validate_transition_table` can and cannot do.
use codex_loop_orchestra.Prelude.{
  ℕ, ◌≡◌, refl, ◌≢◌, ◌⊎◌, inl, inr, Bool, true, false, not, ◌&&◌, ◌||◌, List, [], ◌∷◌, Option, none,
  some, all, any, keep, and_true, and_true₃, or_true, ==_iff, arith,
}
use codex_loop_orchestra.StateMachine.States.{State, ◌is◌, is_sound, is_self, is_l2_state}
use codex_loop_orchestra.StateMachine.Events.{Event, matches_sound}
use codex_loop_orchestra.StateMachine.Table.{Row, row, lookup_row}
use codex_loop_orchestra.StateMachine.Rows.{lookup_row-checked}
use codex_loop_orchestra.StateMachine.Validate.{
  TransitionError, validate_transition_table, require, duplicate_error, missing_error,
  dead_end_error, outbound, same_exit, exits_are, sol_exits, dead_letter_exits, merged_exits,
  l2_row_ok, is_empty, present,
}

require_ok :
    (b : Bool) (e : TransitionError) (rest : Option TransitionError)
    → require b e rest ≡ none
    → (b ≡ true) × (rest ≡ none)
unfolding require
require_ok b e rest h = ground arith

duplicate_ok :
    (o : Option ℕ) (rest : Option TransitionError) → duplicate_error o rest ≡ none → rest ≡ none
unfolding duplicate_error
duplicate_ok none rest h = h
duplicate_ok (some n) rest h = cc

missing_ok :
    (ns : List ℕ) (rest : Option TransitionError) → missing_error ns rest ≡ none → rest ≡ none
unfolding missing_error
missing_ok [] rest h = h
missing_ok (n ∷ ns) rest h = cc

dead_end_ok :
    (o : Option State) (rest : Option TransitionError) → dead_end_error o rest ≡ none → rest ≡ none
unfolding dead_end_error
dead_end_ok none rest h = h
dead_end_ok (some s) rest h = cc

or_nothing : (b : Bool) → (b || false) ≡ true → b ≡ true
or_nothing b h = ground arith

-- The invariants that the checks establish, as the driver uses the table.
pub record IsSound (rows : List Row) : Type 0 where
  pub l2_no_merge :
      (s t : State) (e : Event) (n : ℕ)
      → lookup_row s e rows ≡ some (t, n)
      → is_l2_state s ≡ true
      → (t ≢ State.merged) × (t ≢ State.done)
  pub done_final : (e : Event) → lookup_row State.done e rows ≡ none
  pub sol_two_exits :
      (t : State) (e : Event) (n : ℕ)
      → lookup_row State.sol_adjudicate e rows ≡ some (t, n)
      → (e ≡ Event.sol_replan) × (t ≡ State.planned) × (n ≡ 22)
        ⊎ (e ≡ Event.release_merge) × (t ≡ State.done) × (n ≡ 23)
  pub dead_letter_two_exits :
      (t : State) (e : Event) (n : ℕ)
      → lookup_row State.dead_letter e rows ≡ some (t, n)
      → (e ≡ Event.dead_letter_summary) × (t ≡ State.sol_adjudicate) × (n ≡ 19)
        ⊎ (e ≡ Event.duty_triage) × (t ≡ State.duty_review) × (n ≡ 38)
  pub merged_one_exit :
      (t : State) (e : Event) (n : ℕ)
      → lookup_row State.merged e rows ≡ some (t, n)
      → (e ≡ Event.wave_complete) × (t ≡ State.wave_done) × (n ≡ 18)
  pub timeout_retryable :
      (r : State × ℕ) × (lookup_row State.timed_out Event.retry_dispatch rows ≡ some r)

-- Checks of a kept part, as checks of the whole.
keep-all :
    (P Q : Row → Bool) (rows : List Row)
    → all P (keep Q rows) ≡ true
    → all (λ r. not (Q r) || P r) rows ≡ true
keep-all P Q [] h = refl
keep-all P Q (r ∷ rs) h = go (Q r) h (keep-all P Q rs)
  where
    go :
        (b : Bool)
        → all P (elim b [ true ↦ r ∷ keep Q rs | false ↦ keep Q rs ]) ≡ true
        → (all P (keep Q rs) ≡ true → all (λ x. not (Q x) || P x) rs ≡ true)
        → ((not b || P r) && all (λ x. not (Q x) || P x) rs) ≡ true
    go true k ih = let (first, rest) = and_true (P r) _ k in rw (first, ih rest)
    go false k ih = ih k

keep-empty :
    (Q : Row → Bool) (rows : List Row)
    → is_empty (keep Q rows) ≡ true
    → all (λ r. not (Q r)) rows ≡ true
keep-empty Q [] h = refl
keep-empty Q (r ∷ rs) h = go (Q r) h (keep-empty Q rs)
  where
    go :
        (b : Bool)
        → is_empty {A = Row} (elim b [ true ↦ r ∷ keep Q rs | false ↦ keep Q rs ]) ≡ true
        → (is_empty (keep Q rs) ≡ true → all (λ r. not (Q r)) rs ≡ true)
        → (not b && all (λ r. not (Q r)) rs) ≡ true
    go true k ih = cc
    go false k ih = ih k

exit_of :
    (rows : List Row) (allowed : List (Event × State × ℕ)) (s : State)
    → exits_are (outbound s rows) allowed ≡ true
    → (e : Event) (t : State) (n : ℕ) → lookup_row s e rows ≡ some (t, n)
    → any (same_exit (row s e t n)) allowed ≡ true
exit_of rows allowed s ok e t n h = strip _ (
    lookup_row-checked (λ s' e' t' n'. not (s' is s) || any (same_exit (row s' e' t' n')) allowed) s
      e rows t n
      (keep-all (λ r. any (same_exit r) allowed) (λ r. r.from_state is s) rows (and_true _ _ ok).0)
      h)
  where
    strip : (b : Bool) → (not (s is s) || b) ≡ true → b ≡ true
    strip b k = rw (is_self s) at k

exit_parts :
    (s t t' : State) (e e' : Event) (n n' : ℕ)
    → same_exit (row s e t n) (e', t', n') ≡ true
    → (e ≡ e') × (t ≡ t') × (n ≡ n')
exit_parts s t t' e e' n n' h =
    let (he, ht, hn) = and_true₃ _ _ _ h in
    (matches_sound e e' he, is_sound t t' ht, (==_iff n n').0 hn)

two_exits :
    (s t : State) (e : Event) (n : ℕ) (a b : Event × State × ℕ)
    → any (same_exit (row s e t n)) (a ∷ b ∷ []) ≡ true
    → (e ≡ a.0) × (t ≡ a.1) × (n ≡ a.2) ⊎ (e ≡ b.0) × (t ≡ b.1) × (n ≡ b.2)
two_exits s t e n a b h = elim (or_true (same_exit (row s e t n) a) _ h) [
  | inl first ↦ inl (exit_parts s t a.1 e a.0 n a.2 first)
  | inr second ↦ inr (exit_parts s t b.1 e b.0 n b.2 (or_nothing _ second))
]

-- Every check of `validate_transition_table` has passed.
record Passed (rows : List Row) : Type 0 where
  sol : exits_are (outbound State.sol_adjudicate rows) sol_exits ≡ true
  l2 : all l2_row_ok rows ≡ true
  dead : exits_are (outbound State.dead_letter rows) dead_letter_exits ≡ true
  merged : exits_are (outbound State.merged rows) merged_exits ≡ true
  done : is_empty (outbound State.done rows) ≡ true
  retry : present (lookup_row State.timed_out Event.retry_dispatch rows) ≡ true

passed : (rows : List Row) → validate_transition_table rows ≡ none → Passed rows
unfolding validate_transition_table
passed rows h =
    let h1 = duplicate_ok _ _ h in
    let h2 = missing_ok _ _ h1 in
    let (_, h3) = require_ok _ _ _ h2 in
    let (_, h4) = require_ok _ _ _ h3 in
    let (_, h5) = require_ok _ _ _ h4 in
    let (sol, h6) = require_ok _ _ _ h5 in
    let (l2, h7) = require_ok _ _ _ h6 in
    let (dead, h8) = require_ok _ _ _ h7 in
    let (merged, h9) = require_ok _ _ _ h8 in
    let (done, h10) = require_ok _ _ _ h9 in
    let (retry, _) = require_ok _ _ _ (dead_end_ok _ _ h10) in
    record { sol = sol; l2 = l2; dead = dead; merged = merged; done = done; retry = retry }

module _ (rows : List Row) (ok : Passed rows) where
  l2_case :
      (s t : State) (e : Event) (n : ℕ)
      → lookup_row s e rows ≡ some (t, n)
      → is_l2_state s ≡ true
      → (t ≢ State.merged) × (t ≢ State.done)
  l2_case s t e n h l2 =
      let checked =
        lookup_row-checked (λ s' e' t' n'. l2_row_ok (row s' e' t' n')) s e rows t n ok.l2 h in
      ((λ m. cc (rw (l2, m) at checked)), (λ d. cc (rw (l2, d) at checked)))

  done_case : (e : Event) (o : Option (State × ℕ)) → lookup_row State.done e rows ≡ o → o ≡ none
  done_case e none h = refl
  done_case e (some (t, n)) h = cc (
      lookup_row-checked (λ s' e' t' n'. not (s' is State.done)) State.done e rows t n
        (keep-empty (λ r. r.from_state is State.done) rows ok.done) h)

  retry_case : (o : Option (State × ℕ)) → present o ≡ true → (r : State × ℕ) × (o ≡ some r)
  retry_case none h = cc
  retry_case (some r) h = (r, refl)

  merged_case :
      (t : State) (e : Event) (n : ℕ)
      → lookup_row State.merged e rows ≡ some (t, n)
      → (e ≡ Event.wave_complete) × (t ≡ State.wave_done) × (n ≡ 18)
  merged_case t e n h =
      exit_parts State.merged t _ e _ n _
        (or_nothing _ (exit_of rows merged_exits State.merged ok.merged e t n h))

-- Any table that `validate_transition_table` accepts keeps the invariants: the audit states have
-- no edge into MERGED or DONE, DONE has no exit, SOL_ADJUDICATE has the two exits t22 and t23,
-- DEAD_LETTER those of t19 and t38, MERGED that of t18, and a timeout can be retried.
pub validate-IsSound : (rows : List Row) → validate_transition_table rows ≡ none → IsSound rows
validate-IsSound rows h =
    let ok = passed rows h in
    record {
      l2_no_merge = λ s t e n. l2_case rows ok s t e n;
      done_final = λ e. done_case rows ok e _ refl;
      sol_two_exits = λ t e n q.
          two_exits State.sol_adjudicate t e n _ _
            (exit_of rows sol_exits State.sol_adjudicate ok.sol e t n q);
      dead_letter_two_exits = λ t e n q.
          two_exits State.dead_letter t e n _ _
            (exit_of rows dead_letter_exits State.dead_letter ok.dead e t n q);
      merged_one_exit = λ t e n. merged_case rows ok t e n;
      timeout_retryable = retry_case rows ok _ ok.retry;
    }
