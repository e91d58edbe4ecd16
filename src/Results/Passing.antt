-- ===== src/Results/Passing.antt =====
-- When the reduction of harness/result_reducer.py passes.
use codex_loop_orchestra.Prelude.{
  map, ℕ, ◌≤◌, ◌≡◌, ◌↔◌, ◌⊎◌, inl, inr, refl, ap, ◌∙◌, Bool, true, false, String, List, [], ◌∷◌,
  ◌++◌, All, Option, none, some, lookup, is_some, get_or_default, eq_iff, concat-nil, if◌then◌else◌,
  arith,
}
use codex_loop_orchestra.Results.Validate.{
  Value, text, Document, Validator, validate, is_status, checks, required_error, required_fields,
  status_errors, typed, is_text, missing_field,
}
use codex_loop_orchestra.Results.Reduce.{
  severity_of, Entry, short_result, completion, text_of, strictest_from, stricter, is_truthy,
  status_verdicts, explicit, named_verdicts, unfounded, entry_verdicts, is_inconsistent,
}

abbrev pub AllCalm : List String → Type 0
AllCalm = All (λ v. v ≡ "pass")

severity : String → ℕ
severity v = get_or_default (severity_of v) 0

severity_pass : severity "pass" ≡ 0
unfolding severity severity_of lookup
severity_pass = refl

severity_other : (v : String) → is_some (severity_of v) ≡ true → severity v ≡ 0 → v ≡ "pass"
unfolding severity severity_of lookup
severity_other v known zero_rank =
    ground
      (arith, eq_iff "pass" v, eq_iff "redo" v, eq_iff "escalate_l2_5" v, eq_iff "escalate_l3" v)

strictest-ge :
    (worst : String) (vs : List String) → severity worst ≤ severity (strictest_from worst vs)
unfolding severity strictest_from
strictest-ge worst [] = omega arith
strictest-ge worst (v ∷ vs) = ground (arith, strictest-ge (stricter worst v) vs)

-- Verdicts of the enumeration.
abbrev pub Known : List String → Type 0
Known = All (λ v. is_some (severity_of v) ≡ true)

stricter-ge : (worst v : String) → severity v ≤ severity (stricter worst v)
unfolding severity
stricter-ge worst v = ground arith

stricter-calm : (v : String) → v ≡ "pass" → stricter "pass" v ≡ "pass"
unfolding severity_of lookup
stricter-calm v e = rw e refl

pub strictest_pass :
    (vs : List String) → Known vs → (strictest_from "pass" vs ≡ "pass") ↔ AllCalm vs
unfolding strictest_from
strictest_pass [] k = (λ h. tt, λ h. refl)
strictest_pass (v ∷ vs) k = (
  λ h.
      let whole = strictest-ge (stricter "pass" v) vs in
      let low : severity v ≡ 0 =
        omega (arith, whole, stricter-ge "pass" v, ap severity h, severity_pass) in
      let calm = severity_other v k.0 low in
      (calm, (strictest_pass vs k.1).0 (rw (stricter-calm v calm) at h)),
  λ h. rw (stricter-calm v h.0) ((strictest_pass vs k.1).1 h.1),
)

-- What the reducer has checked of an entry when it keeps it.
abbrev pub IsKept : Validator → Entry → Type 0
IsKept v (short_result doc) = validate v none doc ≡ []
IsKept v (completion verdict valid) = is_some (severity_of verdict) ≡ true

-- An entry that speaks for a pass.
abbrev pub Clean : Entry → Type 0
Clean (completion verdict valid) = (valid ≡ true) × (verdict ≡ "pass")
Clean (short_result doc) =
    (is_truthy (lookup "needs_decision" doc) ≡ false)
    × ((explicit doc ≡ some "pass")
        ⊎ ((explicit doc ≡ none) × (text_of (lookup "status" doc) ≡ some "completed")))

-- The status of a valid document is one of the enumeration.
valid_status :
    (v : Validator) (doc : Document)
    → validate v none doc ≡ []
    → (status : String) × (text_of (lookup "status" doc) ≡ some status) × (is_status status ≡ true)
unfolding validate
valid_status v doc h =
    let clear = concat-nil (checks v none doc) h in
    let fields = concat-nil (map (required_error doc) required_fields) clear.1.0 in
    go (lookup "status" doc) fields.1.1.1.0 clear.1.1.1.1.0
  where
    go :
        (o : Option Value)
        → typed "status" is_text o (missing_field "status" ∷ []) ≡ []
        → status_errors o ≡ []
        → (status : String) × (text_of o ≡ some status) × (is_status status ≡ true)
    go (some (text status)) present clear = (status, refl, ground (arith, clear))
    go o present clear = absurd (ground (arith, present))

pub l3_differs : ¬ (◌≡◌ {A = String} "escalate_l3" "pass")
l3_differs h = let same = (eq_iff "escalate_l3" "pass").1 h in cc

redo_differs : ¬ (◌≡◌ {A = String} "redo" "pass")
redo_differs h = let same = (eq_iff "redo" "pass").1 h in cc

calm_last : (vs : List String) (v : String) → AllCalm (vs ++ v ∷ []) → v ≡ "pass"
calm_last [] v h = h.0
calm_last (w ∷ vs) v h = calm_last vs v h.1

status-pass :
    (s : String) → is_status s ≡ true → AllCalm (status_verdicts (some s) ++ []) ↔ (s ≡ "completed")
status-pass s legal = (
  λ h. ground (arith, h, l3_differs, redo_differs, eq_iff s "completed", legal),
  λ h. rw h (refl, tt),
)

completed :
    {status : Option String}
    → ((◌≡◌ {A = Option String} none (some "pass"))
        ⊎ ((◌≡◌ {A = Option String} none none) × (status ≡ some "completed")))
    → status ≡ some "completed"
completed (inl h) = absurd (ground (arith, h))
completed (inr (_, h)) = h

named-pass :
    (o status : Option String) (findings : Option Value) (asks : Bool) (s : String)
    → status ≡ some s
    → is_status s ≡ true
    → ((unfounded o findings ≡ false)
        × AllCalm (named_verdicts o status ++ (if asks then "escalate_l3" ∷ [] else [])))
      ↔ ((asks ≡ false) × ((o ≡ some "pass") ⊎ ((o ≡ none) × (status ≡ some "completed"))))
named-pass (some verdict) status findings true s e legal =
    (λ h. absurd (l3_differs h.1.1.0), λ h. absurd (ground (arith, h.0)))
named-pass (some verdict) status findings false s e legal =
    (λ h. (refl, inl (ap some h.1.0)), λ h. ground (arith, eq_iff verdict "pass", h.1))
named-pass none status findings true s e legal = (
  λ h. absurd (l3_differs (calm_last (status_verdicts status) "escalate_l3" h.1)),
  λ h. absurd (ground (arith, h.0)),
)
named-pass none status findings false s e legal = (
  λ h. (refl, inr (refl, e ∙ ap some ((status-pass s legal).0 (rw e at h.1)))),
  λ h. (refl, rw (completed h.1) (refl, tt)),
)

pub entry-pass :
    (v : Validator) (e : Entry)
    → IsKept v e
    → ((is_inconsistent e ≡ false) × AllCalm (entry_verdicts e)) ↔ Clean e
unfolding is_inconsistent entry_verdicts
entry-pass v (completion verdict valid) k =
    (λ h. (ground (arith, h), h.1.0), λ h. (ground (arith, h), (h.1, tt)))
entry-pass v (short_result doc) k =
    let (s, e, legal) = valid_status v doc k in
    named-pass (explicit doc) (text_of (lookup "status" doc)) (lookup "finding_ids" doc)
      (is_truthy (lookup "needs_decision" doc)) s e legal
