-- ===== src/Retry/Breaker.antt =====
-- `breaker` of harness/retry.py: the session circuit breaker. Times are in seconds.
use codex_loop_orchestra.Prelude.{
  ℕ, ◌+◌, ◌-◌, Bool, List, [], ◌∷◌, ◌++◌, length, keep, ltb, leb, if◌then◌else◌,
}

-- `DEFAULTS["breaker_window"]` and `DEFAULTS["breaker_cooldown"]`
abbrev pub breaker_window : ℕ
breaker_window = 60

abbrev pub breaker_cooldown : ℕ
breaker_cooldown = 45

-- `.breaker.json`
pub record BreakerState : Type 0 where
  pub fails : List ℕ
  pub open_until : ℕ

-- The failures of the window.
abbrev pub recent : ℕ → List ℕ → List ℕ
recent now = keep (λ t. ltb (now - t) breaker_window)

unfoldable pub breaker : ℕ → Bool → ℕ → BreakerState → BreakerState × Bool
breaker now record_failure breaker_fails st =
    let st' = if record_failure then opened else st in (st', ltb now st'.open_until)
  where
    fails : List ℕ
    fails = recent now st.fails ++ now ∷ []

    opened : BreakerState
    opened = record {
      fails = fails;
      open_until =
          if leb breaker_fails (length fails) then now + breaker_cooldown else st.open_until;
    }
