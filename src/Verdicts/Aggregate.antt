-- ===== src/Verdicts/Aggregate.antt =====
-- `main` of harness/verdict_aggregate.py on a document of verdicts. The rounded mean of the scores
-- is a parameter.
use codex_loop_orchestra.Prelude.{
  ℕ, Bool, ◌&&◌, ◌||◌, String, List, [], ◌∷◌, Option, none, some, lookup, get_or_default, keep,
  is_some, length, sum, map, ltb, ◌==◌, if◌then◌else◌,
}

-- `RANK`
unfoldable pub rank : String → Option ℕ
rank verdict =
    lookup verdict (("pass", 0) ∷ ("redo", 1) ∷ ("escalate_l2_5", 2) ∷ ("escalate_l3", 3) ∷ [])

-- `RANK[v]` of a verdict that has one.
abbrev pub rank_of : String → ℕ
rank_of verdict = get_or_default (rank verdict) 0

pub record Judgement : Type 0 where
  pub verdict : String
  pub score : ℕ

pub record Candidate : Type 0 where
  pub candidate_id : String
  pub judgements : List Judgement

pub record Ranked : Type 0 where
  pub candidate_id : String
  pub verdict : String
  pub mean_score : ℕ

-- `v.get("verdict") in RANK`
abbrev pub has_rank : Judgement → Bool
has_rank j = is_some (rank j.verdict)

abbrev pub stricter : String → String → String
stricter worst v = if ltb (rank_of worst) (rank_of v) then v else worst

-- The first of the strictest, from the one at the front on.
unfoldable pub strictest_from : String → List Judgement → String
strictest_from worst [] = worst
strictest_from worst (j ∷ js) = strictest_from (stricter worst j.verdict) js

-- A candidate that nobody judged cannot pass.
unfoldable pub strictest : List Judgement → String
strictest [] = "escalate_l3"
strictest (j ∷ js) = strictest_from j.verdict js

abbrev pub verdict_of : Candidate → String
verdict_of c = strictest (keep has_rank c.judgements)

unfoldable pub worst_from : String → List Candidate → String
worst_from worst [] = worst
worst_from worst (c ∷ cs) = worst_from (stricter worst (verdict_of c)) cs

-- The key `(RANK[verdict], -mean_score)`.
abbrev pub before : Ranked → Ranked → Bool
before a b =
    ltb (rank_of a.verdict) (rank_of b.verdict)
    || (rank_of a.verdict == rank_of b.verdict) && ltb b.mean_score a.mean_score

-- `ranking.sort`: stable.
unfoldable pub place : Ranked → List Ranked → List Ranked
place r [] = r ∷ []
place r (s ∷ ss) = let rest = place r ss in if before s r then s ∷ rest else r ∷ s ∷ ss

unfoldable pub sorted : List Ranked → List Ranked
sorted [] = []
sorted (r ∷ rs) = place r (sorted rs)

abbrev first : List Ranked → Option Ranked
first [] = none
first (r ∷ _) = some r

-- The printed result; the exit code is 2 without candidates, else 0.
pub record Aggregate : Type 0 where
  pub aggregate_verdict : String
  pub best_candidate : Option Ranked
  pub ranking : List Ranked

module _ (mean : ℕ → ℕ → ℕ) where
  abbrev pub score_of : List Judgement → ℕ
  score_of [] = 0
  score_of (j ∷ js) = mean (sum (map (λ k. k.score) (j ∷ js))) (length (j ∷ js))

  abbrev pub ranked : Candidate → Ranked
  ranked c = record {
    candidate_id = c.candidate_id;
    verdict = verdict_of c;
    mean_score = score_of (keep has_rank c.judgements);
  }

  unfoldable pub aggregate : List Candidate → Aggregate
  aggregate [] = record { aggregate_verdict = "escalate_l3"; best_candidate = none; ranking = [] }
  aggregate (c ∷ cs) =
      let ranking = sorted (map ranked (c ∷ cs)) in
      record {
        aggregate_verdict = worst_from "pass" (c ∷ cs);
        best_candidate = first ranking;
        ranking = ranking;
      }
