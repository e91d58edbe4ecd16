-- ===== src/Plan/Passes.antt =====
-- When harness/dag_assert.py passes a plan.
use codex_loop_orchestra.Prelude.{
  concat, ℕ, suc, ◌≡◌, ◌↔◌, ◌⊎◌, inl, inr, refl, ap, ◌∙◌, true, false, Bool-cases, String, List, [],
  ◌∷◌, ◌++◌, All, length, Option, none, some, ◌==◌, ==_iff, ==-self, arith,
}
use codex_loop_orchestra.Plan.Members.{member, Distinct, member-head, member-tail}
use codex_loop_orchestra.Plan.Kahn.{Edges}
use codex_loop_orchestra.Plan.Rounds.Ready.{IsOver}
use codex_loop_orchestra.Plan.Acyclic.{IsRanking, kahn_ends, kahn_iff}
use codex_loop_orchestra.Plan.Gate.{
  FilePath, Loaded, wave_clash, Dag, Outcome, passed, ends, load_wave, check_waves, assert_dag,
  Clash, after_load, after_clash, after_sort,
}
use codex_loop_orchestra.Plan.Isolation.{Isolated, wave_clash_iff}

-- What the program relies on of a Python set: the elements of the list, each once.
pub record IsSetOf (as_set : List String → List String) : Type 0 where
  pub distinct : (xs : List String) → Distinct (as_set xs)
  pub same : (v : String) (xs : List String) → member v (as_set xs) ≡ member v xs

abbrev pub Passed : Outcome → Type 0
Passed (passed _ _) = Unit
Passed _ = ⊥

module _ (load : String → Option (Option (List FilePath))) where
  -- The packets of the wave are readable, and no two of them have a file in common.
  abbrev pub IsolatedWave : List String → Type 0
  IsolatedWave wave = (loaded : List Loaded) × (load_wave load wave ≡ some loaded) × Isolated loaded

  waves_passed :
      (w n k : ℕ) (waves : List (List String))
      → Passed (check_waves load w waves (passed n k))
      → All IsolatedWave waves
  unfolding check_waves
  waves_passed w n k [] h = tt
  waves_passed w n k (wave ∷ waves) h =
      go (waves_passed (suc w) n k waves) (load_wave load wave) refl h
    where
      Rest : Type 0
      Rest = Passed (check_waves load (suc w) waves (passed n k)) → All IsolatedWave waves

      clear :
          Rest
          → (loaded : List Loaded) → load_wave load wave ≡ some loaded
          → (c : Option Clash) → wave_clash loaded ≡ c
          → Passed (after_clash w c (check_waves load (suc w) waves (passed n k)))
          → All IsolatedWave (wave ∷ waves)
      clear rest loaded e none f h = ((loaded, e, (wave_clash_iff loaded).0 f), rest h)
      clear rest loaded e (some c) f h = absurd h

      go :
          Rest
          → (o : Option (List Loaded)) → load_wave load wave ≡ o
          → Passed (after_load w o (check_waves load (suc w) waves (passed n k)))
          → All IsolatedWave (wave ∷ waves)
      go rest none e h = absurd h
      go rest (some loaded) e h = clear rest loaded e (wave_clash loaded) refl h

  waves_pass :
      (w n k : ℕ) (waves : List (List String))
      → All IsolatedWave waves
      → Passed (check_waves load w waves (passed n k))
  unfolding check_waves
  waves_pass w n k [] h = tt
  waves_pass w n k (wave ∷ waves) ((loaded, e, isolated), h) =
      rw (e, (wave_clash_iff loaded).1 isolated) (waves_pass (suc w) n k waves h)

member-append-left :
    (v : String) (xs ys : List String) → member v xs ≡ true → member v (xs ++ ys) ≡ true
member-append-left v [] ys h = ground arith
member-append-left v (x ∷ xs) ys h = ground (arith, member-append-left v xs ys)

ends-IsOver :
    (nodes : List String) (es : Edges)
    → ((v : String) → member v (ends es) ≡ true → member v nodes ≡ true)
    → IsOver nodes es
ends-IsOver nodes [] h = tt
ends-IsOver nodes ((a, b) ∷ es) h =
    let rest = ends es in
    (
      (h a (member-head a (b ∷ rest)), h b (member-tail b a (b ∷ rest) (member-head b rest))),
      ends-IsOver nodes es (λ v m. h v (member-tail v a (b ∷ rest) (member-tail v b rest m))),
    )

sort_passed :
    (o : Option ℕ) (n : ℕ) (rest : Outcome)
    → Passed (after_sort o n rest)
    → (o ≡ some n) × Passed rest
sort_passed none n rest h = absurd h
sort_passed (some k) n rest h = go (Bool-cases (k == n))
  where
    go : ((k == n) ≡ true) ⊎ ((k == n) ≡ false) → (some k ≡ some n) × Passed rest
    go (inl e) = (ap some ((==_iff k n).0 e), rw e at h)
    go (inr e) = absurd (rw e at h)

module _ (load : String → Option (Option (List FilePath))) (as_set : List String → List String)
    (is_set : IsSetOf as_set) (dag : Dag) where
  abbrev nodes : List String
  nodes = as_set (ends dag.edges ++ concat dag.waves)

  over : IsOver nodes dag.edges
  over =
      ends-IsOver nodes dag.edges
        (λ v m. is_set.same v _ ∙ member-append-left v (ends dag.edges) (concat dag.waves) m)

  -- The plan passes exactly when its packets can be ranked so that every edge leads to a higher
  -- rank, every packet of a wave can be read, and no two packets of a wave, at different places,
  -- may write one file. A file is taken to be any text that starts with an authorised path and a
  -- slash.
  pub assert_dag-passes :
      Passed (assert_dag load as_set dag)
      ↔ (((rank : String → ℕ) × IsRanking rank dag.edges) × All (IsolatedWave load) dag.waves)
  unfolding assert_dag
  assert_dag-passes =
      let once = is_set.distinct _ in
      let (k, e, le) = kahn_ends dag.edges nodes over once in
      let iff = kahn_iff dag.edges nodes over once in
      let n = length nodes in
      (
        λ h.
            let (all, clear) = sort_passed _ n _ h in
            (iff.0 all, waves_passed load 0 n (length dag.waves) dag.waves clear),
        λ (ranked, isolated).
            rw (iff.1 ranked, ==-self n)
              (waves_pass load 0 n (length dag.waves) dag.waves isolated),
      )
