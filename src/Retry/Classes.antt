-- ===== src/Retry/Classes.antt =====
-- The rows of config/retry_classes.yaml as harness/retry.py reads them, and its decisions.
use codex_loop_orchestra.Prelude.{
  ℕ, Bool, true, false, String, List, [], ◌∷◌, Option, none, some, or_else, get_or_default, str_eq,
}

-- A class. `retryable`/`max_attempts` is the older spelling, `action`/`max_retries` the shipped one.
pub record RetryClass : Type 0 where
  pub name : String
  pub pattern : String
  pub retryable : Option Bool
  pub action : Option String
  pub max_attempts : Option ℕ
  pub max_retries : Option ℕ

abbrev pub has_action : RetryClass → String → Bool
has_action c a = elim c.action [ none ↦ false | some b ↦ str_eq b a ]

-- `matched.get("retryable", cls_action == "retry")`
abbrev pub is_retryable : RetryClass → Bool
is_retryable c = get_or_default c.retryable (has_action c "retry")

-- `DEFAULTS["max_attempts"]`
abbrev pub default_max_attempts : ℕ
default_max_attempts = 3

-- `matched.get("max_attempts", matched.get("max_retries", DEFAULTS["max_attempts"]))`
abbrev pub attempt_limit : RetryClass → ℕ
attempt_limit c = get_or_default (or_else c.max_attempts c.max_retries) default_max_attempts

-- `decision["action"]`
pub data Action : Type 0 where
  retry_already_scheduled circuit_open duty_review_offtable duty_review_repeat : Action
  duty_review_class dead_letter_permanent dead_letter_budget retry : Action

-- The exit code of `main`.
abbrev pub exit_code : Action → ℕ
exit_code retry_already_scheduled = 0
exit_code retry = 0
exit_code circuit_open = 6
exit_code dead_letter_permanent = 5
exit_code dead_letter_budget = 5
exit_code _ = 4

module _ (re_search : String → String → Bool) where
  -- `next((c for c in classes if re.re_search(c["pattern"], err)), None)`, over `re.re_search`.
  unfoldable pub first_match : List RetryClass → String → Option RetryClass
  first_match [] err = none
  first_match (c ∷ cs) err = elim (re_search c.pattern err) [
    | true ↦ some c
    | false ↦ first_match cs err
  ]
