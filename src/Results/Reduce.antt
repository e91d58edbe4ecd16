-- ===== src/Results/Reduce.antt =====
-- `ResultReducer` of harness/result_reducer.py: the collection of results and `consolidate`. The key
-- that is made of a document's fields is a parameter, and so is the length of the rendered JSON.
use codex_loop_orchestra.Prelude.{
  ℕ, ◌+◌, Bool, true, false, not, ◌&&◌, ◌||◌, String, List, [], ◌∷◌, ◌++◌, Option, none, some, Dict,
  lookup, insert, any, is_some, get_or_default, ltb, str_eq, if◌then◌else◌,
}
use codex_loop_orchestra.Results.Validate.{
  Value, text, null, list, object, Document, Error, Validator, validate,
}

-- `_RANK`
unfoldable pub severity_of : String → Option ℕ
severity_of verdict =
    lookup verdict (("pass", 0) ∷ ("redo", 1) ∷ ("escalate_l2_5", 2) ∷ ("escalate_l3", 3) ∷ [])

-- A record of `_results`: a ShortResult, or the completion of a verification.
pub data Entry : Type 0 where
  short_result : Document → Entry
  completion : (verdict : String) (valid : Bool) → Entry

pub record Reducer : Type 0 where
  pub results : Dict Entry
  pub duplicates : ℕ

abbrev pub has_result : Reducer → String → Bool
has_result r key = is_some (lookup key r.results)

-- A key that is there already counts as a duplicate.
unfoldable pub add : String → Entry → Reducer → Reducer × Bool
add key entry r =
    if has_result r key
    then (record r { duplicates = r.duplicates + 1 }, false)
    else (record r { results = insert key entry r.results }, true)

abbrev pub text_of : Option Value → Option String
text_of (some (text s)) = some s
text_of _ = none

-- `x or y` on texts: an empty text counts as none.
abbrev pub non_empty : Option String → Option String
non_empty none = none
non_empty (some s) = if str_eq s "" then none else some s

abbrev pub or_key : Option String → String → String
or_key none key = key
or_key (some s) key = s

module _ (semantic_key : Document → String) (v : Validator) where
  abbrev pub result_key : Option String → Document → String
  result_key given doc =
      or_key (non_empty given)
        (or_key (non_empty (text_of (lookup "idem_key" doc))) (semantic_key doc))

  abbrev pub add_valid : List Error → String → Document → Reducer → Reducer × Bool
  add_valid [] key doc r = add key (short_result doc) r
  add_valid (e ∷ es) key doc r = (r, false)

  unfoldable pub add_short_result : Option String → Document → Reducer → Reducer × Bool
  add_short_result given doc r = add_valid (validate v none doc) (result_key given doc) doc r

-- `verdict if verdict in _RANK else "escalate_l3"`
abbrev pub known_or_l3 : Option String → String
known_or_l3 none = "escalate_l3"
known_or_l3 (some verdict) = if is_some (severity_of verdict) then verdict else "escalate_l3"

unfoldable pub add_completion : Option String → Option String → Bool → Reducer → Reducer × Bool
add_completion given verdict valid r = elim (non_empty given) [
  | none ↦ (r, false)
  | some key ↦ add key (completion (known_or_l3 verdict) valid) r
]

-- `_strictest`
abbrev pub stricter : String → String → String
stricter worst verdict = elim (severity_of verdict) [
  | none ↦ worst
  | some n ↦ if ltb (get_or_default (severity_of worst) 0) n then verdict else worst
]

unfoldable pub strictest_from : String → List String → String
strictest_from worst [] = worst
strictest_from worst (verdict ∷ verdicts) = strictest_from (stricter worst verdict) verdicts

abbrev pub is_empty : Option Value → Bool
is_empty none = true
is_empty (some (list [])) = true
is_empty (some null) = true
is_empty _ = false

-- `doc.get("needs_decision")` as a condition
abbrev pub is_truthy : Option Value → Bool
is_truthy (some (object (x ∷ xs))) = true
is_truthy _ = false

abbrev pub status_verdicts : Option String → List String
status_verdicts none = []
status_verdicts (some status) =
    if str_eq status "completed"
    then "pass" ∷ []
    else if str_eq status "failed" || str_eq status "blocked" || str_eq status "stale_revision"
    then "redo" ∷ []
    else if str_eq status "cancelled"
    then "escalate_l3" ∷ []
    else []

-- The verdict that a document names, if it is a legal one.
abbrev pub explicit : Document → Option String
explicit doc = elim (text_of (lookup "verdict" doc)) [
  | none ↦ none
  | some verdict ↦ if is_some (severity_of verdict) then some verdict else none
]

abbrev pub named_verdicts : Option String → Option String → List String
named_verdicts (some verdict) status = verdict ∷ []
named_verdicts none status = status_verdicts status

unfoldable pub entry_verdicts : Entry → List String
entry_verdicts (completion verdict valid) = verdict ∷ []
entry_verdicts (short_result doc) =
    named_verdicts (explicit doc) (text_of (lookup "status" doc))
    ++ (if is_truthy (lookup "needs_decision" doc) then "escalate_l3" ∷ [] else [])

abbrev pub unfounded : Option String → Option Value → Bool
unfounded none findings = false
unfounded (some verdict) findings = not (str_eq verdict "pass") && is_empty findings

unfoldable pub is_inconsistent : Entry → Bool
is_inconsistent (completion verdict valid) = not valid
is_inconsistent (short_result doc) = unfounded (explicit doc) (lookup "finding_ids" doc)

abbrev pub all_verdicts : Dict Entry → List String
all_verdicts [] = []
all_verdicts ((key, entry) ∷ rest) = entry_verdicts entry ++ all_verdicts rest

abbrev pub worst_of : List String → String
worst_of [] = "escalate_l3"
worst_of (verdict ∷ verdicts) = strictest_from "pass" (verdict ∷ verdicts)

abbrev pub no_results : Dict Entry → Bool
no_results [] = true
no_results (x ∷ xs) = false

-- The verdict of `consolidate`.
unfoldable pub consolidate : Reducer → String
consolidate r =
    if no_results r.results || any (λ e. is_inconsistent e.1) r.results
    then "escalate_l3"
    else worst_of (all_verdicts r.results)
