-- ===== src/StateMachine/States.antt =====
-- `STATES`, `TERMINAL` and `L2_STATES` of harness/statemachine_v2.py.
use codex_loop_orchestra.Prelude.{
  get_or, ◌||◌, ◌⊎◌, inl, inr, Bool-cases, ℕ, ◌≡◌, refl, sym, ap, ◌∙◌, Bool, true, false, List, [],
  ◌∷◌, ◌==◌, ==_iff, ==-self,
}

pub data State : Type 0 where
  none_state planned dispatchable running reported accepted failed timed_out duty_review dead_letter
        merged merge_conflict wave_done sol_adjudicate done expand_k3 l2_verify l2_rank :
      State

-- Every state, in the order of the set literal.
abbrev pub states : List State
states =
    none_state ∷ planned ∷ dispatchable ∷ running ∷ reported ∷ accepted ∷ failed ∷ timed_out
    ∷ duty_review ∷ dead_letter ∷ merged ∷ merge_conflict ∷ wave_done ∷ sol_adjudicate ∷ done
    ∷ expand_k3 ∷ l2_verify ∷ l2_rank ∷ []

abbrev pub state_rank : State → ℕ
state_rank none_state = 0
state_rank planned = 1
state_rank dispatchable = 2
state_rank running = 3
state_rank reported = 4
state_rank accepted = 5
state_rank failed = 6
state_rank timed_out = 7
state_rank duty_review = 8
state_rank dead_letter = 9
state_rank merged = 10
state_rank merge_conflict = 11
state_rank wave_done = 12
state_rank sol_adjudicate = 13
state_rank done = 14
state_rank expand_k3 = 15
state_rank l2_verify = 16
state_rank l2_rank = 17

abbrev state_of_rank : ℕ → State
state_of_rank n = get_or states n none_state

state_of_rank-state_rank : (s : State) → state_of_rank (state_rank s) ≡ s
state_of_rank-state_rank none_state = refl
state_of_rank-state_rank planned = refl
state_of_rank-state_rank dispatchable = refl
state_of_rank-state_rank running = refl
state_of_rank-state_rank reported = refl
state_of_rank-state_rank accepted = refl
state_of_rank-state_rank failed = refl
state_of_rank-state_rank timed_out = refl
state_of_rank-state_rank duty_review = refl
state_of_rank-state_rank dead_letter = refl
state_of_rank-state_rank merged = refl
state_of_rank-state_rank merge_conflict = refl
state_of_rank-state_rank wave_done = refl
state_of_rank-state_rank sol_adjudicate = refl
state_of_rank-state_rank done = refl
state_of_rank-state_rank expand_k3 = refl
state_of_rank-state_rank l2_verify = refl
state_of_rank-state_rank l2_rank = refl

-- Equality of two states, as Python compares the strings.
infix 50 ◌is◌
abbrev pub ◌is◌ : State → State → Bool
s is t = state_rank s == state_rank t

pub is_sound : (s t : State) → (s is t) ≡ true → s ≡ t
is_sound s t h =
    sym (state_of_rank-state_rank s)
    ∙ ap state_of_rank ((==_iff _ _).0 h)
    ∙ state_of_rank-state_rank t

pub is_self : (s : State) → (s is s) ≡ true
is_self s = ==-self (state_rank s)

-- `TERMINAL`
abbrev pub is_terminal : State → Bool
is_terminal merged = true
is_terminal dead_letter = true
is_terminal done = true
is_terminal _ = false

-- `L2_STATES`
abbrev pub is_l2_state : State → Bool
is_l2_state expand_k3 = true
is_l2_state l2_verify = true
is_l2_state l2_rank = true
is_l2_state _ = false

pub is_either : (s t u : State) → ((s is t) || (s is u)) ≡ true → (s ≡ t) ⊎ (s ≡ u)
is_either s t u h = elim (Bool-cases (s is t)) [
  | inl yes_t ↦ inl (is_sound s t yes_t)
  | inr no_t ↦ inr (is_sound s u (rw no_t at h))
]
