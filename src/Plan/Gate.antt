-- ===== src/Plan/Gate.antt =====
-- harness/dag_assert.py as a whole. Paths are lists of code points. Two things are parameters: the
-- order in which a Python set yields its elements, and what reading a packet's file gives:
-- `none` where it cannot be read, `some none` where it has no `authorized_paths`.
use codex_loop_orchestra.Prelude.{
  ℕ, suc, Bool, ◌||◌, String, List, [], ◌∷◌, ◌++◌, Option, none, some, or_else, length, starts,
  concat, ◌==◌, if◌then◌else◌,
}
use codex_loop_orchestra.Plan.Kahn.{Edges, sorted_nodes}

abbrev pub FilePath : Type 0
FilePath = List ℕ

-- `p.rstrip("/")`
unfoldable pub rstrip_slash : FilePath → FilePath
rstrip_slash [] = []
rstrip_slash (c ∷ cs) = elim (rstrip_slash cs) [
  | [] ↦ if c == 47 then [] else c ∷ []
  | r ∷ rs ↦ c ∷ r ∷ rs
]

unfoldable pub norm : FilePath → FilePath
unfolding rstrip_slash
norm p = rstrip_slash p ++ 47 ∷ []

abbrev pub intersects : FilePath → FilePath → Bool
intersects pa pb = starts (norm pa) (norm pb) || starts (norm pb) (norm pa)

pub record Clash : Type 0 where
  pub first : String
  pub second : String
  pub first_path : FilePath
  pub second_path : FilePath

-- A packet of a wave, with its `authorized_paths`.
abbrev pub Loaded : Type 0
Loaded = String × List FilePath

-- The four nested loops, from the inside: the first pair of paths that intersect.
unfoldable pub path_clash : String → String → FilePath → List FilePath → Option Clash
path_clash a b pa [] = none
path_clash a b pa (pb ∷ pbs) =
    if intersects pa pb
    then some (record { first = a; second = b; first_path = pa; second_path = pb })
    else path_clash a b pa pbs

unfoldable pub paths_clash : String → String → List FilePath → List FilePath → Option Clash
paths_clash a b [] pbs = none
paths_clash a b (pa ∷ pas) pbs = or_else (path_clash a b pa pbs) (paths_clash a b pas pbs)

unfoldable pub clash_with : Loaded → List Loaded → Option Clash
clash_with x [] = none
clash_with x (y ∷ ys) = or_else (paths_clash x.0 y.0 x.1 y.1) (clash_with x ys)

unfoldable pub wave_clash : List Loaded → Option Clash
wave_clash [] = none
wave_clash (x ∷ xs) = or_else (clash_with x xs) (wave_clash xs)

pub record Dag : Type 0 where
  pub edges : Edges
  pub waves : List (List String)

pub data Outcome : Type 0 where
  passed : ℕ → ℕ → Outcome
  cycle_detected : ℕ → ℕ → Outcome
  intersect : ℕ → Clash → Outcome
  bad_input out_of_fuel : Outcome

abbrev pub ends : Edges → List String
ends [] = []
ends ((a, b) ∷ es) = a ∷ b ∷ ends es

-- A clash ends the check of the waves, and so does a packet that cannot be read.
abbrev pub after_clash : ℕ → Option Clash → Outcome → Outcome
after_clash w none rest = rest
after_clash w (some clash) rest = intersect w clash

abbrev pub after_load : ℕ → Option (List Loaded) → Outcome → Outcome
after_load w none rest = bad_input
after_load w (some loaded) rest = after_clash w (wave_clash loaded) rest

-- `if seen != len(nodes): fail(...)`
abbrev pub after_sort : Option ℕ → ℕ → Outcome → Outcome
after_sort none size rest = out_of_fuel
after_sort (some seen) size rest = if seen == size then rest else cycle_detected seen size

module _ (load : String → Option (Option (List FilePath))) where
  abbrev pub authorized_paths : String → Option (List FilePath)
  authorized_paths pid = elim (load pid) [ some (some paths) ↦ some paths | _ ↦ none ]

  unfoldable pub load_wave : List String → Option (List Loaded)
  load_wave [] = some []
  load_wave (pid ∷ pids) = elim (authorized_paths pid) [
    | none ↦ none
    | some paths ↦ elim (load_wave pids) [ none ↦ none | some rest ↦ some ((pid, paths) ∷ rest) ]
  ]

  unfoldable pub check_waves : ℕ → List (List String) → Outcome → Outcome
  check_waves w [] result = result
  check_waves w (wave ∷ waves) result =
      after_load w (load_wave wave) (check_waves (suc w) waves result)

  unfoldable pub assert_dag : (List String → List String) → Dag → Outcome
  assert_dag as_set dag =
      let nodes = as_set (ends dag.edges ++ concat dag.waves) in
      after_sort (sorted_nodes dag.edges nodes) (length nodes)
        (check_waves 0 dag.waves (passed (length nodes) (length dag.waves)))
