-- ===== src/Trigger/Predicates.antt =====
-- `PREDICATES` of harness/trigger_eval_v2.py.
use codex_loop_orchestra.Prelude.{
  ℕ, ◌*◌, Bool, false, not, ◌&&◌, ◌||◌, String, List, [], ◌∷◌, Option, none, some, Dict, lookup,
  any, ltb, leb, ◌==◌, ℤ, pos, negsuc,
}
use codex_loop_orchestra.Trigger.Signals.{Signals, Derived, is_zero}

abbrev pub int_eq : ℤ → ℤ → Bool
int_eq (pos m) (pos n) = m == n
int_eq (negsuc m) (negsuc n) = m == n
int_eq _ _ = false

-- `ec[-1] == 0`
unfoldable pub last_is_zero : List ℤ → Bool
last_is_zero [] = false
last_is_zero (c ∷ cs) = let rest = last_is_zero cs in elim cs [ [] ↦ is_zero c | _ ∷ _ ↦ rest ]

-- `any(c != 0 for c in ec[:-1])`, which there is only in a list of two or more.
unfoldable pub early_nonzero : List ℤ → Bool
early_nonzero [] = false
early_nonzero (c ∷ cs) =
    let rest = early_nonzero cs in elim cs [ [] ↦ false | _ ∷ _ ↦ not (is_zero c) || rest ]

abbrev pub nonzero_then_clean : List ℤ → Bool
nonzero_then_clean ec = last_is_zero ec && early_nonzero ec

-- The last two codes are equal and not 0.
unfoldable pub persistent_failure : List ℤ → Bool
persistent_failure [] = false
persistent_failure (c ∷ cs) =
    let rest = persistent_failure cs in
    elim cs [ [] ↦ false | d ∷ ds ↦ elim ds [ [] ↦ not (is_zero d) && int_eq d c | _ ∷ _ ↦ rest ] ]

abbrev is_kill : ℤ → Bool
is_kill (pos n) = n == 137 || n == 139 || n == 143
is_kill (negsuc _) = false

abbrev clean_single_run : List ℤ → Bool
clean_single_run (c ∷ []) = is_zero c
clean_single_run _ = false

-- `_num(d, …) and …`
abbrev given : Option ℕ → (ℕ → Bool) → Bool
given none f = false
given (some n) f = f n

module _ (re_search : String → String → Bool) where
  abbrev touches : String → Signals → Bool
  touches pattern s = any (re_search pattern) s.paths_touched

  -- The predicate of a rule's name; 1.2 times a budget is 12 tenths of it.
  unfoldable pub predicates : Dict (Derived → Bool)
  predicates =
      ("exit_clean_single_run", λ d. clean_single_run d.signals.exit_codes)
      ∷ ("exit_nonzero_then_clean", λ d. nonzero_then_clean d.signals.exit_codes)
      ∷ ("exit_flapping", λ d. d.flapping)
      ∷ ("exit_signal_kill", λ d. any is_kill d.signals.exit_codes)
      ∷ ("exit_persistent_failure", λ d. persistent_failure d.signals.exit_codes)
      ∷ ("retry_none", λ d. d.signals.retry_count == 0)
      ∷ ("retry_single", λ d. d.signals.retry_count == 1)
      ∷ ("retry_double", λ d. d.signals.retry_count == 2)
      ∷ ("retry_exhausted", λ d. leb d.signals.run_level_budget d.signals.retry_count)
      ∷ (
        "diff_within_budget",
        λ d.
            given d.signals.diff_budget
              λ b. ltb 0 d.signals.diff_lines && leb d.signals.diff_lines b,
      )
      ∷ (
        "diff_near_budget",
        λ d.
            given d.signals.diff_budget
              λ b. ltb b d.signals.diff_lines && leb (10 * d.signals.diff_lines) (12 * b),
      )
      ∷ (
        "diff_over_budget",
        λ d.
            given d.signals.diff_budget
              λ b. ltb (12 * b) (10 * d.signals.diff_lines) && leb d.signals.diff_lines (2 * b),
      )
      ∷ ("diff_runaway", λ d. given d.signals.diff_budget λ b. ltb (2 * b) d.signals.diff_lines)
      ∷ ("diff_empty", λ d. d.signals.diff_lines == 0)
      ∷ ("path_boundary_attempt", λ d. ltb 0 d.signals.path_boundary_attempts)
      ∷ ("path_boundary_probe_in_log", λ d. d.signals.boundary_probe_in_log)
      ∷ (
        "test_count_increased",
        λ d. given d.signals.test_count_before λ b. given d.signals.test_count_after λ a. ltb b a,
      )
      ∷ (
        "test_count_unchanged",
        λ d.
            given d.signals.test_count_before
              λ b. given d.signals.test_count_after λ a. a == b && d.signals.requires_new_tests,
      )
      ∷ (
        "test_count_decreased",
        λ d. given d.signals.test_count_before λ b. given d.signals.test_count_after λ a. ltb a b,
      )
      ∷ ("test_assertions_modified", λ d. d.signals.test_assertions_modified)
      ∷ (
        "test_below_min_count",
        λ d. given d.signals.min_test_count λ m. given d.signals.test_count_after λ a. ltb a m,
      )
      ∷ ("high_risk_migration_path", λ d. touches "(migrations?/|schema/|\\.sql$)" d.signals)
      ∷ (
        "high_risk_credential_path",
        λ d. touches "(\\.env|secrets|credentials|\\.aws/|\\.ssh/|auth\\.json)" d.signals,
      )
      ∷ (
        "high_risk_ci_path",
        λ d. touches "(\\.github/workflows/|\\.gitlab-ci|Jenkinsfile|\\.circleci/)" d.signals,
      )
      ∷ (
        "high_risk_mass_deletion",
        λ d. ltb 200 d.signals.deleted_lines || ltb 0 d.signals.file_deletions,
      )
      ∷ (
        "high_risk_hook_or_config",
        λ d. touches "(hooks/|config/.*\\.(toml|yaml)|AGENTS\\.md)" d.signals,
      )
      ∷ ("observation_oversize", λ d. leb 1 d.obs_over_3000)
      ∷ ("observation_oversize_repeated", λ d. leb 3 d.obs_over_3000)
      ∷ ("loop_fingerprint_warn", λ d. leb 3 d.loop_max && leb d.loop_max 4)
      ∷ ("loop_fingerprint_hit", λ d. leb 5 d.loop_max)
      ∷ ("loop_fingerprint_hard", λ d. leb 10 d.loop_max)
      ∷ ("consecutive_same_type_failures", λ d. d.signals.consecutive_same_type_failures)
      ∷ ("retry_regex_no_match", λ d. d.signals.retry_class_no_match)
      ∷ ("low_confidence_ruling", λ d. given d.signals.prior_ruling_confidence λ c. ltb c 7000)
      ∷ ("evidence_missing", λ d. d.signals.evidence_missing)
      ∷ []

  -- `pred is not None and pred(d)`
  unfoldable pub holds : Derived → String → Bool
  holds d name = elim (lookup name predicates) [ none ↦ false | some pred ↦ pred d ]
