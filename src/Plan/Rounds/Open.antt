-- ===== src/Plan/Rounds/Open.antt =====
-- The in-degrees of harness/dag_assert.py count the edges whose source is not yet taken.
use codex_loop_orchestra.Prelude.{
  ℕ, suc, ◌+◌, ◌≡◌, false, not, ◌&&◌, String, List, [], ◌∷◌, pos, add_nat, sub_nat, str_eq, eq_iff,
  if◌then◌else◌, arith,
}
use codex_loop_orchestra.Plan.Members.{member}
use codex_loop_orchestra.Plan.Kahn.{Edges, Degrees, put, count_in, push_ready, relax}

-- The edges into `v` whose source is not in `out`.
unfoldable pub open_in : Edges → List String → String → ℕ
open_in [] out v = 0
open_in ((a, b) ∷ es) out v = (if str_eq b v && not (member a out) then 1 else 0) + open_in es out v

abbrev pub Degree : Degrees → (String → ℕ) → Type 0
Degree d count = (v : String) → d v ≡ pos (count v)

pub count_in-Degree :
    (es : Edges) (d : Degrees) (k : String → ℕ)
    → Degree d k
    → Degree (count_in es d) (λ v. k v + open_in es [] v)
unfolding count_in open_in
count_in-Degree [] d k h v = ground (arith, h v)
count_in-Degree ((a, b) ∷ es) d k h v =
    let ih =
      count_in-Degree es (put b (add_nat (d b) 1) d) (λ w. k w + (if str_eq b w then 1 else 0)) in
    ground (arith, ih next v)
  where
    next : Degree (put b (add_nat (d b) 1) d) (λ w. k w + (if str_eq b w then 1 else 0))
    next w = ground (arith, h w, h b, eq_iff b w)

-- The degrees after the edge from `a` to `b` is looked at.
abbrev pub relaxed : String → String → String → Degrees → Degrees
relaxed n a b d = if str_eq a n then put b (sub_nat (d b) 1) d else d

abbrev pub counted : List String → String → String → (String → ℕ) → String → ℕ
counted taken a b k w = k w + (if str_eq b w && not (member a taken) then 1 else 0)

module _ (n a b : String) (es : Edges) (out : List String) (d : Degrees) (k : String → ℕ)
    (new : member n out ≡ false) (h : Degree d (λ v. k v + open_in ((a, b) ∷ es) out v)) where
  pub relaxed-Degree : Degree (relaxed n a b d) (λ v. counted (n ∷ out) a b k v + open_in es out v)
  unfolding open_in
  relaxed-Degree v = ground (arith, h v, h b, eq_iff b v, eq_iff a n, eq_iff n a)

  pub open_at_end : a ≡ n → d b ≡ pos (suc (k b + open_in es out b))
  unfolding open_in
  open_at_end e = rw (h b) (ground (arith, eq_iff b b, eq_iff a n))

pub relax-Degree :
    (n : String) (es : Edges) (out : List String) (d : Degrees) (queue : List String)
    (k : String → ℕ)
    → member n out ≡ false
    → Degree d (λ v. k v + open_in es out v)
    → Degree (relax n es d queue).0 (λ v. k v + open_in es (n ∷ out) v)
unfolding relax open_in
relax-Degree n [] out d queue k new h v = h v
relax-Degree n ((a, b) ∷ es) out d queue k new h v =
    let ih =
      relax-Degree n es out (relaxed n a b d)
        (if str_eq a n then push_ready b (sub_nat (d b) 1) queue else queue)
        (counted (n ∷ out) a b k) new (relaxed-Degree n a b es out d k new h) v in
    ground (arith, ih)
