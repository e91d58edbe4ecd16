-- ===== src/Verdicts/Strictest.antt =====
-- The strictest verdict wins.
use mathlib.Core.List.{Memᴰ}
use mathlib.Core.Path.{subst}
use codex_loop_orchestra.Prelude.{
  ℕ, ◌≤◌, ◌≡◌, refl, sym, ap, Bool, true, false, String, List, [], ◌∷◌, keep, lookup, ltb, arith,
  if_either,
}
use codex_loop_orchestra.Verdicts.Aggregate.{
  rank, rank_of, Judgement, Candidate, has_rank, stricter, strictest_from, strictest, verdict_of,
  worst_from, aggregate,
}

le_trans : (a b c : ℕ) → a ≤ b → b ≤ c → a ≤ c
le_trans a b c h k = omega arith

stricter_old : (worst v : String) → rank_of worst ≤ rank_of (stricter worst v)
stricter_old worst v =
    if_either (λ s. rank_of worst ≤ rank_of s) (ltb (rank_of worst) (rank_of v)) v worst
      (λ h. ground (arith, h)) (λ _. omega arith)

stricter_new : (worst v : String) → rank_of v ≤ rank_of (stricter worst v)
stricter_new worst v =
    if_either (λ s. rank_of v ≤ rank_of s) (ltb (rank_of worst) (rank_of v)) v worst
      (λ _. omega arith) (λ h. ground (arith, h))

strictest_from-start :
    (worst : String) (js : List Judgement) → rank_of worst ≤ rank_of (strictest_from worst js)
unfolding strictest_from
strictest_from-start worst [] = omega arith
strictest_from-start worst (j ∷ js) =
    le_trans _ _ _ (stricter_old worst j.verdict)
      (strictest_from-start (stricter worst j.verdict) js)

strictest_from-all :
    (worst : String) (js : List Judgement) (j : Judgement)
    → Memᴰ j js
    → rank_of j.verdict ≤ rank_of (strictest_from worst js)
unfolding strictest_from
strictest_from-all worst [] j m = elim m [ ]
strictest_from-all worst (k ∷ js) j (Memᴰ.head e) =
    subst
      (λ (x : Judgement).
        rank_of x.verdict ≤ rank_of (strictest_from (stricter worst k.verdict) js))
      (sym e)
      (le_trans _ _ _ (stricter_new worst k.verdict)
        (strictest_from-start (stricter worst k.verdict) js))
strictest_from-all worst (k ∷ js) j (Memᴰ.tail m) =
    strictest_from-all (stricter worst k.verdict) js j m

strictest-all :
    (js : List Judgement) (j : Judgement) → Memᴰ j js → rank_of j.verdict ≤ rank_of (strictest js)
unfolding strictest
strictest-all [] j m = elim m [ ]
strictest-all (k ∷ js) j (Memᴰ.head e) =
    subst (λ (x : Judgement). rank_of x.verdict ≤ rank_of (strictest_from k.verdict js)) (sym e)
      (strictest_from-start k.verdict js)
strictest-all (k ∷ js) j (Memᴰ.tail m) = strictest_from-all k.verdict js j m

Memᴰ-keep :
    (p : Judgement → Bool) (js : List Judgement) (j : Judgement)
    → Memᴰ j js
    → p j ≡ true
    → Memᴰ j (keep p js)
Memᴰ-keep p [] j m h = elim m [ ]
Memᴰ-keep p (k ∷ js) j m h = go (p k) refl m (λ t. Memᴰ-keep p js j t h)
  where
    go :
        (b : Bool)
        → p k ≡ b
        → Memᴰ j (k ∷ js)
        → (Memᴰ j js → Memᴰ j (keep p js))
        → Memᴰ j (elim b [ true ↦ k ∷ keep p js | false ↦ keep p js ])
    go true e (Memᴰ.head i) later = Memᴰ.head i
    go true e (Memᴰ.tail t) later = Memᴰ.tail (later t)
    go false e (Memᴰ.head i) later = cc (ap p i, h, e)
    go false e (Memᴰ.tail t) later = later t

worst_from-start :
    (worst : String) (cs : List Candidate) → rank_of worst ≤ rank_of (worst_from worst cs)
unfolding worst_from
worst_from-start worst [] = omega arith
worst_from-start worst (c ∷ cs) =
    le_trans _ _ _ (stricter_old worst (verdict_of c))
      (worst_from-start (stricter worst (verdict_of c)) cs)

worst_from-all :
    (worst : String) (cs : List Candidate) (c : Candidate)
    → Memᴰ c cs
    → rank_of (verdict_of c) ≤ rank_of (worst_from worst cs)
unfolding worst_from
worst_from-all worst [] c m = elim m [ ]
worst_from-all worst (d ∷ cs) c (Memᴰ.head e) =
    subst
      (λ (x : Candidate).
        rank_of (verdict_of x) ≤ rank_of (worst_from (stricter worst (verdict_of d)) cs))
      (sym e)
      (le_trans _ _ _ (stricter_new worst (verdict_of d))
        (worst_from-start (stricter worst (verdict_of d)) cs))
worst_from-all worst (d ∷ cs) c (Memᴰ.tail m) =
    worst_from-all (stricter worst (verdict_of d)) cs c m

-- The aggregate is at least as strict as every verdict of every candidate that has a rank.
pub aggregate_is_strictest :
    (mean : ℕ → ℕ → ℕ) (cs : List Candidate) (c : Candidate) (j : Judgement)
    → Memᴰ c cs
    → Memᴰ j c.judgements
    → has_rank j ≡ true
    → rank_of j.verdict ≤ rank_of (aggregate mean cs).aggregate_verdict
unfolding aggregate
aggregate_is_strictest mean [] c j m k h = elim m [ ]
aggregate_is_strictest mean (d ∷ cs) c j m k h =
    le_trans _ _ _
      (strictest-all (keep has_rank c.judgements) j (Memᴰ-keep has_rank c.judgements j k h))
      (worst_from-all "pass" (d ∷ cs) c m)

-- A candidate without a verdict that has a rank escalates the aggregate to level 3.
pub unjudged_escalates :
    (mean : ℕ → ℕ → ℕ) (cs : List Candidate) (c : Candidate)
    → Memᴰ c cs
    → keep has_rank c.judgements ≡ []
    → 3 ≤ rank_of (aggregate mean cs).aggregate_verdict
unfolding aggregate strictest rank lookup
unjudged_escalates mean [] c m h = elim m [ ]
unjudged_escalates mean (d ∷ cs) c m h =
    le_trans 3 (rank_of (verdict_of c)) _ (rw h (omega arith)) (worst_from-all "pass" (d ∷ cs) c m)
