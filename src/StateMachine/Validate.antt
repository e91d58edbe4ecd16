-- ===== src/StateMachine/Validate.antt =====
-- `validate_transition_table` of harness/statemachine_v2.py, over any list of rows.
use codex_loop_orchestra.Prelude.{
  ℕ, zero, suc, ◌+◌, ◌≡◌, refl, Bool, true, false, not, ◌&&◌, ◌||◌, List, [], ◌∷◌, ◌++◌, Option,
  none, some, all, any, keep, ◌==◌, if◌then◌else◌,
}
use codex_loop_orchestra.StateMachine.States.{State, ◌is◌, states, is_terminal, is_l2_state}
use codex_loop_orchestra.StateMachine.Events.{Event, ◌matches◌}
use codex_loop_orchestra.StateMachine.Table.{Row, table, lookup_row}

-- The reasons for `TransitionError`. That a state is unknown cannot happen here: the type of
-- states is `STATES`.
pub data TransitionError : Type 0 where
  duplicate_number : ℕ → TransitionError
  missing_transitions : List ℕ → TransitionError
  number_26_in_table sol_adjudicate_terminal terminal_set_drifted : TransitionError
  sol_exits_drifted dead_letter_exits_drifted merged_exits_drifted : TransitionError
  l2_edge_to_merge done_has_exits timed_out_not_retryable : TransitionError
  no_outbound_edge : State → TransitionError

-- The `numbers` dict: the first number that comes a second time.
unfoldable pub first_duplicate : List ℕ → List Row → Option ℕ
first_duplicate seen [] = none
first_duplicate seen (r ∷ rs) =
    let rest = first_duplicate (r.number ∷ seen) rs in
    if any (λ n. r.number == n) seen then some r.number else rest

-- `range(a, a + k)`
abbrev range_from : ℕ → ℕ → List ℕ
range_from a zero = []
range_from a (suc k) = a ∷ range_from (a + 1) k

-- `set(range(1, 26)) | set(range(27, 40))`
abbrev expected : List ℕ
expected = range_from 1 25 ++ range_from 27 13

abbrev has_number : List Row → ℕ → Bool
has_number rows n = any (λ r. r.number == n) rows

abbrev missing : List Row → List ℕ
missing rows = keep (λ n. not (has_number rows n)) expected

-- `outbound[s]`
abbrev pub outbound : State → List Row → List Row
outbound s = keep (λ r. r.from_state is s)

-- `(event, to, num)` of a row against one that is allowed.
abbrev pub same_exit : Row → Event × State × ℕ → Bool
same_exit r (e, t, n) = (r.event matches e) && (r.to_state is t) && r.number == n

-- Equality of the two sets of exits.
abbrev pub exits_are : List Row → List (Event × State × ℕ) → Bool
exits_are rows allowed =
    all (λ r. any (same_exit r) allowed) rows && all (λ x. any (λ r. same_exit r x) rows) allowed

abbrev pub sol_exits : List (Event × State × ℕ)
sol_exits = (Event.sol_replan, State.planned, 22) ∷ (Event.release_merge, State.done, 23) ∷ []

abbrev pub dead_letter_exits : List (Event × State × ℕ)
dead_letter_exits =
    (Event.dead_letter_summary, State.sol_adjudicate, 19)
    ∷ (Event.duty_triage, State.duty_review, 38)
    ∷ []

abbrev pub merged_exits : List (Event × State × ℕ)
merged_exits = (Event.wave_complete, State.wave_done, 18) ∷ []

abbrev pub l2_row_ok : Row → Bool
l2_row_ok r =
    not (is_l2_state r.from_state)
    || not ((r.to_state is State.merged) || (r.to_state is State.done))

abbrev pub is_empty {ℓ} : {A : Type ℓ} → List A → Bool
is_empty [] = true
is_empty (_ ∷ _) = false

-- `not outbound[state] and state != "NONE"`, over the states that are not terminal.
abbrev pub dead_end : List Row → State → Bool
dead_end rows s = not (is_terminal s) && not (s is State.none_state) && is_empty (outbound s rows)

unfoldable pub first_dead_end : List State → List Row → Option State
first_dead_end [] rows = none
first_dead_end (s ∷ ss) rows = if dead_end rows s then some s else first_dead_end ss rows

abbrev terminal_set_ok : Bool
terminal_set_ok =
    all
      (λ s.
        if is_terminal s
        then (s is State.merged) || (s is State.dead_letter) || (s is State.done)
        else not ((s is State.merged) || (s is State.dead_letter) || (s is State.done)))
      states

abbrev pub present : Option (State × ℕ) → Bool
present none = false
present (some _) = true

-- `if not …: raise TransitionError(…)`
unfoldable pub require : Bool → TransitionError → Option TransitionError → Option TransitionError
require ok e rest = if ok then rest else some e

unfoldable pub duplicate_error : Option ℕ → Option TransitionError → Option TransitionError
duplicate_error none rest = rest
duplicate_error (some n) rest = some (duplicate_number n)

unfoldable pub missing_error : List ℕ → Option TransitionError → Option TransitionError
missing_error [] rest = rest
missing_error (n ∷ ns) rest = some (missing_transitions (n ∷ ns))

unfoldable pub dead_end_error : Option State → Option TransitionError → Option TransitionError
dead_end_error none rest = rest
dead_end_error (some s) rest = some (no_outbound_edge s)

-- `none` if every invariant holds, else the first violation.
unfoldable pub validate_transition_table : List Row → Option TransitionError
validate_transition_table rows = duplicate_error (first_duplicate [] rows) (
    missing_error (missing rows) (
      require (not (has_number rows 26)) number_26_in_table (
        require (not (is_terminal State.sol_adjudicate)) sol_adjudicate_terminal (
          require terminal_set_ok terminal_set_drifted (
            require (exits_are (outbound State.sol_adjudicate rows) sol_exits) sol_exits_drifted (
              require (all l2_row_ok rows) l2_edge_to_merge (
                require (exits_are (outbound State.dead_letter rows) dead_letter_exits)
                  dead_letter_exits_drifted
                  (require (exits_are (outbound State.merged rows) merged_exits)
                    merged_exits_drifted
                    (require (is_empty (outbound State.done rows)) done_has_exits (
                      dead_end_error (first_dead_end states rows) (
                        require (present (lookup_row State.timed_out Event.retry_dispatch rows))
                          timed_out_not_retryable none)))))))))))

-- The shipped table passes.
table_valid : validate_transition_table table ≡ none
unfolding validate_transition_table lookup_row first_duplicate first_dead_end require
    duplicate_error missing_error dead_end_error
table_valid = refl
