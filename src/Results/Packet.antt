-- ===== src/Results/Packet.antt =====
-- `render_adjudication_packet` of harness/result_reducer.py: the packet for the root agent is made
-- small enough for its budget. The estimate of the rendered JSON's tokens is a parameter, a function
-- of the finding ids and the artifact paths that the packet keeps, and so is the text that stands
-- for the paths that were left out.
use codex_loop_orchestra.Prelude.{
  ℕ, zero, suc, ◌+◌, ◌-◌, ◌/◌, String, List, [], ◌∷◌, ◌++◌, Option, none, some, Dict, lookup,
  insert, any, get_or_default, length, take, max, leb, str_eq, if◌then◌else◌,
}
use codex_loop_orchestra.Results.Validate.{Value, list}
use codex_loop_orchestra.Results.Reduce.{
  Entry, short_result, completion, Reducer, text_of, consolidate,
}

abbrev pub strings : List (Option String) → List String
strings [] = []
strings (none ∷ xs) = strings xs
strings (some x ∷ xs) = x ∷ strings xs

abbrev pub strings_of : Option Value → List String
strings_of (some (list items)) = strings items
strings_of _ = []

-- `if f not in finding_ids: finding_ids.append(f)`
unfoldable pub append_new : List String → List String → List String
append_new seen [] = seen
append_new seen (x ∷ xs) = append_new (if any (str_eq x) seen then seen else seen ++ x ∷ []) xs

pub record Gathered : Type 0 where
  pub statuses : Dict String
  pub finding_ids : List String
  pub artifact_paths : List String

unfoldable pub gather_one : Entry → Gathered → Gathered
gather_one (completion verdict valid) g = g
gather_one (short_result doc) g = record {
  statuses =
      insert (get_or_default (text_of (lookup "packet_id" doc)) "?")
        (get_or_default (text_of (lookup "status" doc)) "?") g.statuses;
  finding_ids = append_new g.finding_ids (strings_of (lookup "finding_ids" doc));
  artifact_paths = append_new g.artifact_paths (strings_of (lookup "artifact_paths" doc));
}

unfoldable pub gather : Dict Entry → Gathered → Gathered
gather [] g = g
gather ((key, entry) ∷ rest) g = gather rest (gather_one entry g)

abbrev pub gathered : Reducer → Gathered
gathered r = gather r.results (record { statuses = []; finding_ids = []; artifact_paths = [] })

module _ (more_text : ℕ → String) where
  -- `arts[-1] = ...`
  unfoldable pub set_last : String → List String → List String
  set_last text [] = []
  set_last text (x ∷ []) = text ∷ []
  set_last text (x ∷ y ∷ ys) = x ∷ set_last text (y ∷ ys)

  -- A quarter of the paths goes, at least one; the last that stays says how many are missing.
  unfoldable pub fewer_paths : ℕ → List String → List String
  fewer_paths total arts =
      let kept = take (length arts - max 1 (length arts / 4)) arts in
      set_last (more_text (total - length kept + 1)) kept

  unfoldable pub fewer_findings : List String → List String
  fewer_findings fids = take (length fids - 1) fids

  module _ (estimate : List String → List String → ℕ) (max_tokens total : ℕ) where
    -- The `while` loop; `none` means that the fuel ran out.
    unfoldable pub shrink : ℕ → List String → List String → Option (List String × List String)
    shrink zero fids arts = none
    shrink (suc fuel) fids (a ∷ arts) =
        let rest = shrink fuel fids (fewer_paths total (a ∷ arts)) in
        if leb (estimate fids (a ∷ arts)) max_tokens then some (fids, a ∷ arts) else rest
    shrink (suc fuel) (f ∷ fids) [] =
        let rest = shrink fuel (fewer_findings (f ∷ fids)) [] in
        if leb (estimate (f ∷ fids) []) max_tokens then some (f ∷ fids, []) else rest
    shrink (suc fuel) [] [] = some ([], [])

pub record AdjudicationPacket : Type 0 where
  pub statuses : Dict String
  pub verdict : String
  pub finding_ids : List String
  pub artifact_paths : List String
  pub token_estimate : ℕ

module _ (more_text : ℕ → String) (estimate : Dict String → String → List String → List String → ℕ)
    (max_tokens : ℕ) where
  abbrev pub built :
      Dict String → String → Option (List String × List String) → Option AdjudicationPacket
  built statuses verdict none = none
  built statuses verdict (some (fids, arts)) = some (record {
    statuses = statuses;
    verdict = verdict;
    finding_ids = fids;
    artifact_paths = arts;
    token_estimate = estimate statuses verdict fids arts;
  })

  -- A round takes away a path or a finding, so their number and one more rounds are enough.
  unfoldable pub render_adjudication_packet : Reducer → Option AdjudicationPacket
  render_adjudication_packet r =
      let g = gathered r in
      let verdict = consolidate r in
      built g.statuses verdict (
        shrink more_text (estimate g.statuses verdict) max_tokens (length g.artifact_paths)
          (suc (length g.finding_ids + length g.artifact_paths)) g.finding_ids g.artifact_paths)
