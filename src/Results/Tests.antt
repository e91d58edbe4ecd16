-- ===== src/Results/Tests.antt =====
-- Runs of harness/short_result_validator.py and harness/result_reducer.py, and the theorems at
-- concrete results.
use codex_loop_orchestra.Prelude.{
  ℕ, ◌+◌, ◌*◌, ◌≤◌, ◌≡◌, ◌↔◌, ◌⊎◌, refl, true, false, String, List, [], ◌∷◌, All, Option, none,
  some, Dict, lookup, insert, length, pos,
}
use codex_loop_orchestra.Results.Validate.{
  is_str, text, int, list, null, object, Document, Validator, validate, extra_errors, item_errors,
  extra_parts, bad_verdict, bad_needs_decision, stale_revision,
}
use codex_loop_orchestra.Results.Reduce.{
  severity_of, Reducer, add, add_short_result, add_completion, strictest_from, entry_verdicts,
  is_inconsistent, no_results, consolidate,
}
use codex_loop_orchestra.Results.Passing.{Clean}
use codex_loop_orchestra.Results.Reduction.{Added, result, verified, collect, reduction_passes}
use codex_loop_orchestra.Results.Packet.{
  append_new, gather_one, gather, gathered, set_last, fewer_paths, fewer_findings, shrink,
  AdjudicationPacket, render_adjudication_packet,
}
use codex_loop_orchestra.Results.Bounded.{packet_bounded}

abbrev limits : Validator
limits = record { max_tokens = 500; max_findings = 8; require_verdict = false }

abbrev done_report : Document
done_report =
    ("packet_id", text "p1")
    ∷ ("control_packet_id", text "c1")
    ∷ ("control_packet_revision", int (pos 3))
    ∷ ("status", text "completed")
    ∷ ("conclusion", text "built")
    ∷ ("artifact_paths", list (some "a" ∷ some "b" ∷ some "a" ∷ []))
    ∷ ("finding_ids", list (some "f" ∷ []))
    ∷ ("needs_decision", null)
    ∷ []

done_report_accepted : validate limits (some 3) done_report ≡ []
unfolding validate extra_errors item_errors lookup
done_report_accepted = refl

stale_report_rejected : validate limits (some 4) done_report ≡ stale_revision ∷ []
unfolding validate extra_errors item_errors lookup
stale_report_rejected = refl

broken_report_rejected :
    validate limits none (
      ("verdict", text "fine")
      ∷ ("needs_decision", object (("question", is_str) ∷ []))
      ∷ done_report)
    ≡ bad_verdict ∷ bad_needs_decision "decision_refs" ∷ bad_needs_decision "evidence_refs" ∷ []
unfolding validate extra_errors item_errors extra_parts lookup
broken_report_rejected = refl

abbrev named : Document → String
named doc = "sr:p1:3:completed"

abbrev empty_reducer : Reducer
empty_reducer = record { results = []; duplicates = 0 }

-- The same report twice, and a verification that passed.
abbrev passing : List Added
passing =
    result none done_report ∷ result none done_report ∷ verified (some "k") (some "pass") true ∷ []

passing_consolidated : consolidate (collect named limits passing empty_reducer) ≡ "pass"
unfolding collect add_short_result add_completion add consolidate entry_verdicts is_inconsistent
    strictest_from severity_of validate extra_errors item_errors lookup insert
passing_consolidated = refl

invalid_escalates :
    consolidate
      (collect named limits (verified (some "j") (some "pass") false ∷ passing) empty_reducer)
    ≡ "escalate_l3"
unfolding collect add_short_result add_completion add consolidate entry_verdicts is_inconsistent
    strictest_from severity_of validate extra_errors item_errors lookup insert
invalid_escalates = refl

reduction_passes_example : (consolidate (collect named limits passing empty_reducer) ≡ "pass") ↔ (
    (no_results (collect named limits passing empty_reducer).results ≡ false)
    × All (λ e. Clean e.1) (collect named limits passing empty_reducer).results)
reduction_passes_example = reduction_passes named limits passing

abbrev missing_text : ℕ → String
missing_text n = "more"

-- Ten tokens for each finding and each path.
abbrev tens : Dict String → String → List String → List String → ℕ
tens statuses verdict fids arts = 10 * (length fids + length arts)

abbrev kept_of : Option AdjudicationPacket → List String × List String
kept_of none = ([], [])
kept_of (some p) = (p.finding_ids, p.artifact_paths)

abbrev collected : Reducer
collected = collect named limits passing empty_reducer

one_path_goes :
    kept_of (render_adjudication_packet missing_text tens 20 collected) ≡ ("f" ∷ [], "more" ∷ [])
unfolding render_adjudication_packet shrink fewer_paths fewer_findings set_last gather gather_one
    append_new collect add_short_result add_completion add consolidate entry_verdicts
    is_inconsistent strictest_from severity_of validate extra_errors item_errors lookup insert
one_path_goes = refl

packet_bounded_example :
    (p : AdjudicationPacket) × (render_adjudication_packet missing_text tens 20 collected ≡ some p)
    × ((p.token_estimate ≤ 20) ⊎ ((p.finding_ids ≡ []) × (p.artifact_paths ≡ [])))
    × ((p.finding_ids ≡ (gathered collected).finding_ids) ⊎ (p.artifact_paths ≡ []))
packet_bounded_example = packet_bounded missing_text tens 20 collected
