-- ===== src/Verdicts/Tests.antt =====
-- The aggregate of harness/verdict_aggregate.py over two candidates.
use mathlib.Core.List.{Memᴰ}
use codex_loop_orchestra.Prelude.{◌≤◌, ◌/◌, refl, [], ◌∷◌, lookup}
use codex_loop_orchestra.Verdicts.Aggregate.{rank, rank_of, Judgement, Candidate, aggregate}
use codex_loop_orchestra.Verdicts.Strictest.{aggregate_is_strictest}

abbrev redo : Judgement
redo = record { verdict = "redo"; score = 4000 }

abbrev judged : Candidate
judged = record { candidate_id = "a"; judgements = redo ∷ [] }

abbrev unjudged : Candidate
unjudged = record { candidate_id = "b"; judgements = record { verdict = "?"; score = 0 } ∷ [] }

aggregate_is_strictest_example :
    rank_of "redo" ≤ rank_of (aggregate ◌/◌ (judged ∷ unjudged ∷ [])).aggregate_verdict
unfolding rank lookup
aggregate_is_strictest_example =
    aggregate_is_strictest ◌/◌ (judged ∷ unjudged ∷ []) judged redo (Memᴰ.head refl)
      (Memᴰ.head refl) refl
