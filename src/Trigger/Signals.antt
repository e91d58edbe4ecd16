-- ===== src/Trigger/Signals.antt =====
-- The signals of a packet and `derive` of harness/trigger_eval_v2.py. Exit codes may be negative;
-- confidence is in 1/10000.
use codex_loop_orchestra.Prelude.{
  ℕ, ◌+◌, max, Bool, true, false, not, ◌&&◌, String, List, [], ◌∷◌, Option, none, some, Dict,
  lookup, insert, get_or_default, length, keep, ltb, leb, ◌==◌, if◌then◌else◌, ℤ, pos, negsuc,
}

-- The JSON object, with `derive`'s defaults where a key is missing; `observation_length` counts
-- where `observation_lengths` is missing.
pub record Signals : Type 0 where
  pub command_history : List String
  pub observation_lengths : Option (List ℕ)
  pub observation_length : Option ℕ
  pub exit_codes : List ℤ
  pub retry_count : ℕ
  pub run_level_budget : ℕ
  pub diff_lines : ℕ
  pub deleted_lines : ℕ
  pub file_deletions : ℕ
  pub diff_budget : Option ℕ
  pub path_boundary_attempts : ℕ
  pub boundary_probe_in_log : Bool
  pub test_count_before : Option ℕ
  pub test_count_after : Option ℕ
  pub min_test_count : Option ℕ
  pub requires_new_tests : Bool
  pub test_assertions_modified : Bool
  pub paths_touched : List String
  pub consecutive_same_type_failures : Bool
  pub retry_class_no_match : Bool
  pub prior_ruling_confidence : Option ℕ
  pub evidence_missing : Bool

-- What `derive` adds.
pub record Derived : Type 0 where
  pub signals : Signals
  pub loop_max : ℕ
  pub obs_over_3000 : ℕ
  pub high_risk_path_hits : List String
  pub flapping : Bool

-- `counts[cmd] = counts.get(cmd, 0) + 1`
unfoldable pub counts : List String → Dict ℕ → Dict ℕ
counts [] d = d
counts (cmd ∷ cmds) d = counts cmds (insert cmd (get_or_default (lookup cmd d) 0 + 1) d)

-- `max(counts.values()) if counts else 0`
unfoldable pub largest : Dict ℕ → ℕ
largest [] = 0
largest ((_, n) ∷ rest) = max n (largest rest)

abbrev pub observations : Signals → List ℕ
observations s = elim s.observation_lengths [
  | some obs ↦ obs
  | none ↦ elim s.observation_length [ some o ↦ o ∷ [] | none ↦ [] ]
]

abbrev pub is_zero : ℤ → Bool
is_zero (pos n) = n == 0
is_zero (negsuc _) = false

abbrev pub differ : Bool → Bool → Bool
differ true b = not b
differ false b = b

-- How often the exit code changes between zero and nonzero.
unfoldable pub switches : List ℤ → ℕ
switches [] = 0
switches (c ∷ cs) =
    let rest = switches cs in
    elim cs [ [] ↦ 0 | d ∷ _ ↦ (if differ (is_zero c) (is_zero d) then 1 else 0) + rest ]

-- `HIGH_RISK_PATH_RE`, searched without regard to case.
abbrev pub high_risk_path : String
high_risk_path =
    "(migrations?/|schema/|\\.sql$|\\.env|secrets|credentials|\\.aws/|\\.ssh/|auth\\.json|\\.github/workflows/|\\.gitlab-ci|Jenkinsfile|\\.circleci/|hooks/|AGENTS\\.md)"

module _ (re_search : String → String → Bool) where
  unfoldable pub derive : Signals → Derived
  derive s = record {
    signals = s;
    loop_max = largest (counts s.command_history []);
    obs_over_3000 = length (keep (λ o. ltb 3000 o) (observations s));
    high_risk_path_hits = keep (re_search high_risk_path) s.paths_touched;
    flapping = leb 3 (length s.exit_codes) && leb 2 (switches s.exit_codes);
  }
