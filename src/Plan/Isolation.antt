-- ===== src/Plan/Isolation.antt =====
-- What the nested loops of harness/dag_assert.py say of the files below the authorised paths.
use codex_loop_orchestra.Prelude.{
  ◌≡◌, ◌↔◌, inl, inr, refl, true, false, ◌||◌, Bool-cases, String, List, [], ◌∷◌, All, Option, none,
  some, or_else, starts, arith,
}
use codex_loop_orchestra.Plan.Members.{In}
use codex_loop_orchestra.Plan.Gate.{
  FilePath, norm, intersects, Loaded, path_clash, paths_clash, clash_with, wave_clash,
}

-- A file below both paths.
abbrev pub Shares : FilePath → FilePath → Type 0
Shares pa pb = (file : FilePath) × (starts file (norm pa) ≡ true) × (starts file (norm pb) ≡ true)

-- No file is below a path of the one packet and a path of the other.
abbrev pub Apart : List FilePath → List FilePath → Type 0
Apart pas pbs = (pa pb : FilePath) → In pa pas → In pb pbs → ¬ Shares pa pb

-- No two packets of the wave have a file in common.
abbrev pub Isolated : List Loaded → Type 0
Isolated [] = Unit
Isolated (x ∷ xs) = All (λ y. Apart x.1 y.1) xs × Isolated xs

starts_self : (p : FilePath) → starts p p ≡ true
starts_self [] = refl
starts_self (c ∷ p) = ground (arith, starts_self p)

-- Two starts of one text are comparable.
starts_comparable :
    (file p q : FilePath)
    → starts file p ≡ true
    → starts file q ≡ true
    → (starts p q || starts q p) ≡ true
starts_comparable file p [] hp hq = elim p [ [] ↦ refl | c ∷ cs ↦ refl ]
starts_comparable file [] (d ∷ q) hp hq = refl
starts_comparable [] (c ∷ p) (d ∷ q) hp hq = ground (arith, hp)
starts_comparable (x ∷ file) (c ∷ p) (d ∷ q) hp hq = ground (arith, starts_comparable file p q)

intersects-Shares : (pa pb : FilePath) → intersects pa pb ≡ true → Shares pa pb
intersects-Shares pa pb h = go (norm pa) (norm pb) h
  where
    go :
        (p q : FilePath)
        → (starts p q || starts q p) ≡ true
        → (file : FilePath) × (starts file p ≡ true) × (starts file q ≡ true)
    go p q h = elim (Bool-cases (starts p q)) [
      | inl e ↦ (p, starts_self p, e)
      | inr e ↦ (q, ground (arith, e, h), starts_self q)
    ]

not_intersects : (pa pb : FilePath) → intersects pa pb ≡ false → ¬ Shares pa pb
not_intersects pa pb h (file, ha, hb) =
    let both = starts_comparable file (norm pa) (norm pb) ha hb in absurd (cc)

or_else-none {ℓ} : {A : Type ℓ} (x y : Option A) → (or_else x y ≡ none) ↔ ((x ≡ none) × (y ≡ none))
or_else-none none y = (λ h. (refl, h), λ h. h.1)
or_else-none (some a) y = (λ h. absurd (cc), λ h. h.0)

module _ (a b : String) (pa : FilePath) where
  path_clash-alone :
      (pbs : List FilePath)
      → path_clash a b pa pbs ≡ none
      → (pb : FilePath) → In pb pbs
      → ¬ Shares pa pb
  unfolding path_clash
  path_clash-alone [] h pb i = absurd i
  path_clash-alone (p ∷ pbs) h pb i = elim (Bool-cases (intersects pa p)) [
    | inl e ↦ absurd (ground (arith, e, h))
    | inr e ↦ here e (path_clash-alone pbs (ground (arith, e, h)) pb) i
  ]
    where
      here :
          intersects pa p ≡ false → (In pb pbs → ¬ Shares pa pb) → In pb (p ∷ pbs) → ¬ Shares pa pb
      here e rest (inl same) = rw same (not_intersects pa p e)
      here e rest (inr later) = rest later

  path_clash_free :
      (pbs : List FilePath)
      → ((pb : FilePath) → In pb pbs → ¬ Shares pa pb)
      → path_clash a b pa pbs ≡ none
  unfolding path_clash
  path_clash_free [] h = refl
  path_clash_free (p ∷ pbs) h = elim (Bool-cases (intersects pa p)) [
    | inl e ↦ absurd (h p (inl refl) (intersects-Shares pa p e))
    | inr e ↦ rw e (path_clash_free pbs (λ pb i. h pb (inr i)))
  ]

module _ (a b : String) where
  paths_clash-Apart : (pas pbs : List FilePath) → paths_clash a b pas pbs ≡ none → Apart pas pbs
  unfolding paths_clash
  paths_clash-Apart [] pbs h pa pb i j = absurd i
  paths_clash-Apart (p ∷ pas) pbs h pa pb (inl e) j =
      rw e (path_clash-alone a b p pbs ((or_else-none _ _).0 h).0 pb j)
  paths_clash-Apart (p ∷ pas) pbs h pa pb (inr i) j =
      paths_clash-Apart pas pbs ((or_else-none _ _).0 h).1 pa pb i j

  paths_clash-free : (pas pbs : List FilePath) → Apart pas pbs → paths_clash a b pas pbs ≡ none
  unfolding paths_clash
  paths_clash-free [] pbs h = refl
  paths_clash-free (p ∷ pas) pbs h = (or_else-none _ _).1 (
    path_clash_free a b p pbs (λ pb j. h p pb (inl refl) j),
    paths_clash-free pas pbs (λ pa pb i j. h pa pb (inr i) j),
  )

clash_with_iff :
    (x : Loaded) (ys : List Loaded) → (clash_with x ys ≡ none) ↔ All (λ y. Apart x.1 y.1) ys
unfolding clash_with
clash_with_iff x [] = (λ h. tt, λ h. refl)
clash_with_iff x (y ∷ ys) = (
  λ h. (
    paths_clash-Apart x.0 y.0 x.1 y.1 ((or_else-none _ _).0 h).0,
    (clash_with_iff x ys).0 ((or_else-none _ _).0 h).1,
  ),
  λ h. (or_else-none _ _).1 (paths_clash-free x.0 y.0 x.1 y.1 h.0, (clash_with_iff x ys).1 h.1),
)

pub wave_clash_iff : (xs : List Loaded) → (wave_clash xs ≡ none) ↔ Isolated xs
unfolding wave_clash
wave_clash_iff [] = (λ h. tt, λ h. refl)
wave_clash_iff (x ∷ xs) = (
  λ h. (
    (clash_with_iff x xs).0 ((or_else-none _ _).0 h).0,
    (wave_clash_iff xs).0 ((or_else-none _ _).0 h).1,
  ),
  λ h. (or_else-none _ _).1 ((clash_with_iff x xs).1 h.0, (wave_clash_iff xs).1 h.1),
)
