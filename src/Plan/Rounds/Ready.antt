-- ===== src/Plan/Rounds/Ready.antt =====
-- What the queue of harness/dag_assert.py holds: the nodes without an open edge that are not yet
-- taken, each once.
use codex_loop_orchestra.Prelude.{
  ℕ, zero, suc, ◌+◌, ◌≡◌, ◌⊎◌, inl, inr, Bool-cases, refl, true, false, ◌||◌, String, List, [], ◌∷◌,
  All, pos, sub_nat, str_eq, eq_iff, if◌then◌else◌, arith,
}
use codex_loop_orchestra.Plan.Members.{member, Distinct, member-head, member-tail}
use codex_loop_orchestra.Plan.Kahn.{Edges, Degrees, is_zero, put, sources, push_ready, relax}
use codex_loop_orchestra.Plan.Rounds.Open.{
  open_in, Degree, relaxed, counted, relaxed-Degree, open_at_end,
}

pub record Ready (nodes taken : List String) (d : Degrees) (queue : List String) : Type 0 where
  pub settled :
      (v : String) → member v nodes ≡ true → (member v taken || member v queue) ≡ is_zero (d v)
  pub distinct : Distinct queue
  pub fresh : All (λ v. member v taken ≡ false) queue
  pub inside : All (λ v. member v nodes ≡ true) queue

-- The ends of the edges are nodes.
abbrev pub IsOver : List String → Edges → Type 0
IsOver nodes = All (λ e. (member e.0 nodes ≡ true) × (member e.1 nodes ≡ true))

push-Ready :
    {nodes taken queue : List String} (d : Degrees) (b : String) (m : ℕ)
    → d b ≡ pos (suc m)
    → member b nodes ≡ true
    → Ready nodes taken d queue
    → Ready nodes taken (put b (pos m) d) (push_ready b (pos m) queue)
push-Ready d b zero e node r = record {
  settled = λ v inside. ground (arith, r.settled v inside, eq_iff b v);
  distinct = (ground (arith, r.settled b node), r.distinct);
  fresh = (ground (arith, r.settled b node), r.fresh);
  inside = (node, r.inside);
}
push-Ready d b (suc m) e node r = record {
  settled = λ v inside. ground (arith, r.settled v inside, r.settled b node, eq_iff b v);
  distinct = r.distinct;
  fresh = r.fresh;
  inside = r.inside;
}

fresh-cons :
    (n : String) (out queue : List String)
    → member n queue ≡ false
    → All (λ v. member v out ≡ false) queue
    → All (λ v. member v (n ∷ out) ≡ false) queue
fresh-cons n out [] new h = tt
fresh-cons n out (v ∷ vs) new h =
    (ground (arith, eq_iff n v, eq_iff v n), fresh-cons n out vs (ground arith) h.1)

pub take-Ready :
    {nodes out queue : List String} {d : Degrees} {n : String}
    → Ready nodes out d (n ∷ queue)
    → Ready nodes (n ∷ out) d queue
take-Ready r = record {
  settled = λ v inside. ground (arith, r.settled v inside);
  distinct = r.distinct.1;
  fresh = fresh-cons _ _ _ r.distinct.0 r.fresh.1;
  inside = r.inside.1;
}

sub_one : (m : ℕ) → sub_nat (pos (suc m)) 1 ≡ pos m
sub_one m = ground arith

pub relax-Ready :
    {nodes : List String} (n : String) (es : Edges) (out : List String) (d : Degrees)
    (queue : List String) (k : String → ℕ)
    → member n out ≡ false
    → Degree d (λ v. k v + open_in es out v)
    → IsOver nodes es
    → Ready nodes (n ∷ out) d queue
    → Ready nodes (n ∷ out) (relax n es d queue).0 (relax n es d queue).1
unfolding relax
relax-Ready n [] out d queue k new h over r = r
relax-Ready {nodes} n ((a, b) ∷ es) out d queue k new h over r =
    relax-Ready n es out (relaxed n a b d)
      (if str_eq a n then push_ready b (sub_nat (d b) 1) queue else queue) (counted (n ∷ out) a b k)
      new (relaxed-Degree n a b es out d k new h) over.1 (next (Bool-cases (str_eq a n)))
  where
    next :
        (str_eq a n ≡ true) ⊎ (str_eq a n ≡ false)
        → Ready nodes
            (n ∷ out)
            (relaxed n a b d)
            (if str_eq a n then push_ready b (sub_nat (d b) 1) queue else queue)
    next (inl e) =
        let at_b = open_at_end n a b es out d k new h ((eq_iff a n).0 e) in
        let z : sub_nat (d b) 1 ≡ pos (k b + open_in es out b) = rw at_b (sub_one _) in
        rw (e, z) (push-Ready d b _ at_b over.0.1 r)
    next (inr e) = rw e r

-- Half way through the list of the sources: `left` are the nodes to come.
record Gathered (nodes left : List String) (d : Degrees) (queue : List String) : Type 0 where
  settled :
      (v : String) → member v nodes ≡ true → member v left ≡ false → member v queue ≡ is_zero (d v)
  ahead : (v : String) → member v left ≡ true → member v queue ≡ false
  distinct : Distinct queue
  inside : All (λ v. member v nodes ≡ true) queue

gather :
    {nodes queue : List String} (d : Degrees) (n : String) (left : List String)
    → member n left ≡ false
    → member n nodes ≡ true
    → Gathered nodes (n ∷ left) d queue
    → Gathered nodes left d (if is_zero (d n) then n ∷ queue else queue)
gather d n left once node g = record {
  settled = λ v inside later. ground (arith, g.settled v inside, g.ahead n, eq_iff n v, eq_iff n n);
  ahead = λ v later. ground (arith, g.ahead v, eq_iff n v);
  distinct = ground (arith, g.ahead n, eq_iff n n);
  inside = ground arith;
}

sources-Gathered :
    {nodes : List String} (d : Degrees) (left queue : List String)
    → Distinct left
    → All (λ v. member v nodes ≡ true) left
    → Gathered nodes left d queue
    → Gathered nodes [] d (sources d left queue)
unfolding sources
sources-Gathered d [] queue once nodes g = g
sources-Gathered d (n ∷ left) queue once nodes g =
    sources-Gathered d left (if is_zero (d n) then n ∷ queue else queue) once.1 nodes.1
      (gather d n left once.0 nodes.0 g)

none_taken : (queue : List String) → All (λ v. member v [] ≡ false) queue
none_taken [] = tt
none_taken (v ∷ vs) = (refl, none_taken vs)

pub all_of_member :
    (nodes xs : List String)
    → ((v : String) → member v xs ≡ true → member v nodes ≡ true)
    → All (λ v. member v nodes ≡ true) xs
all_of_member nodes [] h = tt
all_of_member nodes (x ∷ xs) h =
    (h x (member-head x xs), all_of_member nodes xs (λ v m. h v (member-tail v x xs m)))

pub sources-Ready :
    (d : Degrees) (nodes : List String) → Distinct nodes → Ready nodes [] d (sources d nodes [])
sources-Ready d nodes distinct =
    let g = sources-Gathered d nodes [] distinct (all_of_member nodes nodes (λ v m. m)) start in
    record {
      settled = λ v inside. g.settled v inside refl;
      distinct = g.distinct;
      fresh = none_taken _;
      inside = g.inside;
    }
  where
    start : Gathered nodes nodes d []
    start = record {
      settled = λ v inside later. cc;
      ahead = λ v later. refl;
      distinct = tt;
      inside = tt;
    }
