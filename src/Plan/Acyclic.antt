-- ===== src/Plan/Acyclic.antt =====
-- What the count of harness/dag_assert.py says of the edges.
use codex_loop_orchestra.Prelude.{
  ℕ, zero, suc, ◌≤◌, ◌<◌, ◌≡◌, ◌↔◌, ◌⊎◌, inl, inr, refl, sym, ap, ◌∙◌, true, false, Bool-cases,
  String, List, [], ◌∷◌, length, some, str_eq, eq_iff, if◌then◌else◌, some_inj, arith,
}
use mathlib.Core.Path.{subst}
use codex_loop_orchestra.Plan.Members.{member, In, Distinct, none_missing, all_present}
use codex_loop_orchestra.Plan.Kahn.{Edges, Degrees, sorted_nodes}
use codex_loop_orchestra.Plan.Rounds.Open.{open_in}
use codex_loop_orchestra.Plan.Rounds.Ready.{IsOver}
use codex_loop_orchestra.Plan.Rounds.Loop.{Ordered, Sorting, sorted_nodes-Sorting}

-- Every edge goes from a lower rank to a higher one.
abbrev pub IsRanking : (String → ℕ) → Edges → Type 0
IsRanking rank es = (a b : String) → In (a, b) es → rank a < rank b

-- How many nodes were sorted when `v` was, itself included.
height : List String → String → ℕ
height [] v = 0
height (x ∷ xs) v = if str_eq x v then suc (length xs) else height xs v

height-le : (xs : List String) (v : String) → height xs v ≤ length xs
unfolding height
height-le [] v = omega arith
height-le (x ∷ xs) v = ground (arith, height-le xs v)

source_sorted :
    (fs : Edges) (xs : List String) (a b : String)
    → open_in fs xs b ≡ 0
    → In (a, b) fs
    → member a xs ≡ true
unfolding open_in
source_sorted [] xs a b h i = absurd i
source_sorted ((c, d) ∷ fs) xs a b h (inl e) =
    ground (arith, ap (λ p. p.0) e, ap (λ p. p.1) e, h, eq_iff d b)
source_sorted ((c, d) ∷ fs) xs a b h (inr i) = source_sorted fs xs a b (ground (arith, h)) i

source_before :
    (es : Edges) (out : List String) (a b : String)
    → Ordered es out
    → In (a, b) es
    → member b out ≡ true
    → member a out ≡ true
source_before es [] a b o i h = ground arith
source_before es (x ∷ xs) a b o i h =
    ground (arith, source_before es xs a b o.2 i, last, eq_iff x b)
  where
    last : x ≡ b → member a xs ≡ true
    last e = source_sorted es xs a b (rw (← e) o.0) i

height-lt :
    (es : Edges) (out : List String) (a b : String)
    → Ordered es out
    → In (a, b) es
    → member b out ≡ true
    → height out a < height out b
unfolding height
height-lt es [] a b o i h = ground arith
height-lt es (x ∷ xs) a b o i h = ground (
  arith,
  height-lt es xs a b o.2 i,
  source_before es xs a b o.2 i,
  last,
  height-le xs a,
  eq_iff x b,
  eq_iff x a,
)
  where
    last : x ≡ b → member a xs ≡ true
    last e = source_sorted es xs a b (rw (← e) o.0) i

edge_ends :
    (nodes : List String) (es : Edges) (a b : String)
    → IsOver nodes es
    → In (a, b) es
    → (member a nodes ≡ true) × (member b nodes ≡ true)
edge_ends nodes [] a b over i = absurd i
edge_ends nodes ((c, d) ∷ es) a b over (inl e) =
    subst (λ p. (member p.0 nodes ≡ true) × (member p.1 nodes ≡ true)) (sym e) over.0
edge_ends nodes ((c, d) ∷ es) a b over (inr i) = edge_ends nodes es a b over.1 i

-- An open edge into `v`, if there is one.
open_edge :
    (es : Edges) (out : List String) (v : String) (n : ℕ)
    → open_in es out v ≡ suc n
    → (a : String) × In (a, v) es × (member a out ≡ false)
unfolding open_in
open_edge [] out v n h = ground arith
open_edge ((a, b) ∷ es) out v n h =
    go (open_edge es out v n) (Bool-cases (str_eq b v)) (Bool-cases (member a out))
  where
    Found : Type 0
    Found = (c : String) × In (c, v) ((a, b) ∷ es) × (member c out ≡ false)

    later : (c : String) × In (c, v) es × (member c out ≡ false) → Found
    later (c, i, new) = (c, inr i, new)

    go :
        (open_in es out v ≡ suc n → (c : String) × In (c, v) es × (member c out ≡ false))
        → (str_eq b v ≡ true) ⊎ (str_eq b v ≡ false)
        → (member a out ≡ true) ⊎ (member a out ≡ false)
        → Found
    go rest (inl e) (inr new) = (a, inl (ap (λ w. (a, w)) (sym ((eq_iff b v).0 e))), new)
    go rest (inl e) (inl old) = later (rest (ground (arith, h)))
    go rest (inr e) _ = later (rest (ground (arith, h)))

module _ {es : Edges} {nodes : List String} (over : IsOver nodes es) where
  ranked_sorted :
      {out : List String} {d : Degrees} {k : ℕ} (rank : String → ℕ)
      → IsRanking rank es
      → Sorting es nodes out d [] k
      → (bound : ℕ) (v : String) → rank v < bound
      → member v nodes ≡ true
      → member v out ≡ true
  ranked_sorted {out} rank r s zero v h m = absurd (omega arith)
  ranked_sorted {out} {d} rank r s (suc bound) v h m =
      go (ranked_sorted rank r s bound) (open_in es out v) refl
    where
      go :
          ((a : String) → rank a < bound → member a nodes ≡ true → member a out ≡ true)
          → (n : ℕ) → open_in es out v ≡ n
          → member v out ≡ true
      go ih zero e = ground (arith, s.ready.settled v m, s.degrees v, e)
      go ih (suc n) e =
          let (a, i, new) = open_edge es out v n e in
          let before = r a v i in
          let sorted = ih a (omega arith) (edge_ends nodes es a v over i).0 in absurd (cc)

module _ (es : Edges) (nodes : List String) (over : IsOver nodes es) (once : Distinct nodes) where
  -- The loop ends, after at most one round for each node.
  pub kahn_ends : (k : ℕ) × (sorted_nodes es nodes ≡ some k) × (k ≤ length nodes)
  kahn_ends =
      let (out, d, k, e, s) = sorted_nodes-Sorting over once in (k, e, omega (arith, s.counted))

  -- All nodes are sorted exactly when some ranking of the nodes rises along every edge.
  pub kahn_iff :
      (sorted_nodes es nodes ≡ some (length nodes)) ↔ ((rank : String → ℕ) × IsRanking rank es)
  kahn_iff = let (out, d, k, e, s) = sorted_nodes-Sorting over once in (sound out s e, complete s e)
    where
      sound :
          (out : List String) {d : Degrees} {k : ℕ}
          → Sorting es nodes out d [] k
          → sorted_nodes es nodes ≡ some k
          → sorted_nodes es nodes ≡ some (length nodes)
          → (rank : String → ℕ) × IsRanking rank es
      sound out {k} s e all =
          let same : k ≡ length nodes = some_inj (sym e ∙ all) in
          (
            height out,
            λ a b i. height-lt es out a b s.ordered i (
                none_missing nodes out b (omega (arith, s.counted))
                  (edge_ends nodes es a b over i).1),
          )

      complete :
          {out : List String} {d : Degrees} {k : ℕ}
          → Sorting es nodes out d [] k
          → sorted_nodes es nodes ≡ some k
          → (rank : String → ℕ) × IsRanking rank es
          → sorted_nodes es nodes ≡ some (length nodes)
      complete {out} {k} s e (rank, r) =
          let none_left =
            all_present nodes out
              (λ v m. ranked_sorted over rank r s (suc (rank v)) v (omega arith) m) in
          e ∙ ap some (omega (arith, s.counted))
