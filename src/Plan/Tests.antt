-- ===== src/Plan/Tests.antt =====
-- Runs of the checks of harness/dag_assert.py, and its theorems at concrete plans.
use codex_loop_orchestra.Prelude.{
  ◌≤◌, ℕ, ◌≡◌, ◌↔◌, refl, true, false, String, List, [], ◌∷◌, All, Option, none, some, str_eq,
  eq_iff, Bool-cases, ◌⊎◌, inl, inr, if◌then◌else◌, arith,
}
use codex_loop_orchestra.StateMachine.PacketId.{codes}
use codex_loop_orchestra.Plan.Members.{member, Distinct}
use codex_loop_orchestra.Plan.Kahn.{Edges, sorted_nodes, kahn, count_in, sources, relax}
use codex_loop_orchestra.Plan.Acyclic.{IsRanking, kahn_ends}
use codex_loop_orchestra.Plan.Gate.{
  FilePath, norm, rstrip_slash, Dag, passed, cycle_detected, intersect, path_clash, paths_clash,
  clash_with, wave_clash, load_wave, check_waves, assert_dag,
}
use codex_loop_orchestra.Plan.Passes.{IsSetOf, Passed, IsolatedWave, assert_dag-passes}

-- A set that yields its elements in the order of their last insertion.
dedup : List String → List String
dedup [] = []
dedup (x ∷ xs) = let rest = dedup xs in if member x rest then rest else x ∷ rest

member-dedup : (v : String) (xs : List String) → member v (dedup xs) ≡ member v xs
unfolding dedup
member-dedup v [] = refl
member-dedup v (x ∷ xs) = ground (arith, member-dedup v xs, member-dedup x xs, eq_iff x v)

dedup-Distinct : (xs : List String) → Distinct (dedup xs)
unfolding dedup
dedup-Distinct [] = tt
dedup-Distinct (x ∷ xs) = go (Bool-cases (member x (dedup xs))) (dedup-Distinct xs)
  where
    go :
        (member x (dedup xs) ≡ true) ⊎ (member x (dedup xs) ≡ false)
        → Distinct (dedup xs)
        → Distinct (if member x (dedup xs) then dedup xs else x ∷ dedup xs)
    go (inl e) d = rw e d
    go (inr e) d = rw e (e, d)

dedup-IsSetOf : IsSetOf dedup
dedup-IsSetOf = record { distinct = dedup-Distinct; same = member-dedup }

abbrev files : String → Option (Option (List FilePath))
files pid =
    if str_eq pid "a"
    then some (some (codes "src/a/" ∷ codes "doc" ∷ []))
    else if str_eq pid "b"
    then some (some (codes "src/ab" ∷ []))
    else if str_eq pid "c"
    then some (some (codes "src" ∷ []))
    else none

abbrev chain : Edges
chain = ("a", "c") ∷ ("b", "c") ∷ ("a", "b") ∷ []

abbrev plan : Dag
plan = record { edges = chain; waves = ("a" ∷ "b" ∷ []) ∷ ("c" ∷ []) ∷ [] }

plan_passes : assert_dag files dedup plan ≡ passed 3 2
unfolding assert_dag check_waves load_wave wave_clash clash_with paths_clash path_clash norm
    rstrip_slash sorted_nodes kahn count_in sources relax dedup
plan_passes = refl

cyclic_fails :
    assert_dag files dedup (record { edges = ("c", "a") ∷ chain; waves = [] }) ≡ cycle_detected 0 3
unfolding assert_dag check_waves sorted_nodes kahn count_in sources relax dedup
cyclic_fails = refl

overlap_fails :
    assert_dag files dedup (record { edges = []; waves = ("b" ∷ "a" ∷ "c" ∷ []) ∷ [] })
    ≡ intersect 0 (record {
      first = "b";
      second = "c";
      first_path = codes "src/ab";
      second_path = codes "src";
    })
unfolding assert_dag check_waves load_wave wave_clash clash_with paths_clash path_clash norm
    rstrip_slash sorted_nodes kahn count_in sources relax dedup
overlap_fails = refl

assert_dag-passes_example :
    Passed (assert_dag files dedup plan)
    ↔ (((rank : String → ℕ) × IsRanking rank chain) × All (IsolatedWave files) plan.waves)
assert_dag-passes_example = assert_dag-passes files dedup dedup-IsSetOf plan

kahn_ends_example : (k : ℕ) × (sorted_nodes chain ("a" ∷ "b" ∷ "c" ∷ []) ≡ some k) × (k ≤ 3)
kahn_ends_example =
    kahn_ends chain ("a" ∷ "b" ∷ "c" ∷ []) ((refl, refl), ((refl, refl), ((refl, refl), tt)))
      (refl, (refl, (refl, tt)))
