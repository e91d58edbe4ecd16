-- ===== src/Plan/Rounds/Loop.antt =====
-- The `while` loop of harness/dag_assert.py: `out` are the nodes that have been sorted, the last
-- one first.
use codex_loop_orchestra.Prelude.{
  ℕ, zero, suc, ◌+◌, ◌<◌, ◌≡◌, refl, Bool, true, false, ◌||◌, String, List, [], ◌∷◌, length, some,
  ℤ, pos, str_eq, eq_iff, arith,
}
use codex_loop_orchestra.Plan.Members.{member, Distinct, missing, missing-cons, missing-nothing}
use codex_loop_orchestra.Plan.Kahn.{Edges, Degrees, is_zero, relax, kahn, sorted_nodes}
use codex_loop_orchestra.Plan.Rounds.Open.{open_in, Degree, count_in-Degree, relax-Degree}
use codex_loop_orchestra.Plan.Rounds.Ready.{Ready, IsOver, relax-Ready, sources-Ready, take-Ready}

-- No edge comes into a node from one that is not sorted before it, and none is sorted twice.
abbrev pub Ordered : Edges → List String → Type 0
Ordered es [] = Unit
Ordered es (x ∷ xs) = (open_in es xs x ≡ 0) × (member x xs ≡ false) × Ordered es xs

pub record Sorting (es : Edges) (nodes out : List String) (d : Degrees) (queue : List String)
    (seen : ℕ) : Type 0 where
  pub degrees : (v : String) → d v ≡ pos (open_in es out v)
  pub ready : Ready nodes out d queue
  pub ordered : Ordered es out
  pub counted : seen + missing nodes out ≡ length nodes

no_open :
    (b c : Bool) (z : ℤ) (m : ℕ) (n : String)
    → z ≡ pos m
    → (b || (str_eq n n || c)) ≡ is_zero z
    → m ≡ 0
no_open b c z zero n e h = refl
no_open true c z (suc m) n e h = ground (arith, e, h)
no_open false c z (suc m) n e h = ground (arith, e, h, eq_iff n n)

module _ {es : Edges} {nodes : List String} (over : IsOver nodes es) (once : Distinct nodes) where
  round-Sorting :
      {out queue : List String} {d : Degrees} {n : String} {seen : ℕ}
      → Sorting es nodes out d (n ∷ queue) seen
      → Sorting es nodes (n ∷ out) (relax n es d queue).0 (relax n es d queue).1 (suc seen)
  round-Sorting {out} {queue} {d} {n} s =
      let deg : Degree d (λ v. 0 + open_in es out v) = λ v. ground (arith, s.degrees v) in
      let new = s.ready.fresh.0 in
      record {
        degrees = λ v. ground (arith, relax-Degree n es out d queue (λ _. 0) new deg v);
        ready = relax-Ready n es out d queue (λ _. 0) new deg over (take-Ready s.ready);
        ordered = (
          no_open (member n out) (member n queue) _ _ n (s.degrees n)
              (s.ready.settled n s.ready.inside.0),
          new,
          s.ordered,
        );
        counted = omega (arith, missing-cons nodes n out once s.ready.inside.0 new, s.counted);
      }

  -- With fuel for the nodes that are left the loop ends, with an empty queue.
  kahn-Sorting :
      (fuel : ℕ) (out queue : List String) (d : Degrees) (seen : ℕ)
      → missing nodes out < fuel
      → Sorting es nodes out d queue seen
      → (out' : List String) × (d' : Degrees) × (k : ℕ) × (kahn fuel es d queue seen ≡ some k)
        × Sorting es nodes out' d' [] k
  unfolding kahn
  kahn-Sorting zero out queue d seen enough s = absurd (omega arith)
  kahn-Sorting (suc fuel) out [] d seen enough s = (out, d, seen, refl, s)
  kahn-Sorting (suc fuel) out (n ∷ queue) d seen enough s =
      kahn-Sorting fuel (n ∷ out) (relax n es d queue).1 (relax n es d queue).0 (suc seen)
        (omega (arith, missing-cons nodes n out once s.ready.inside.0 s.ready.fresh.0))
        (round-Sorting s)

  pub sorted_nodes-Sorting :
      (out : List String) × (d : Degrees) × (k : ℕ) × (sorted_nodes es nodes ≡ some k)
      × Sorting es nodes out d [] k
  unfolding sorted_nodes
  sorted_nodes-Sorting =
      kahn-Sorting (suc (length nodes)) [] _ _ 0 (omega (arith, missing-nothing nodes)) record {
        degrees = λ v. ground (arith, count_in-Degree es (λ _. pos 0) (λ _. 0) (λ _. refl) v);
        ready = sources-Ready _ nodes once;
        ordered = tt;
        counted = omega (arith, missing-nothing nodes);
      }
