-- ===== src/Results/Reduction.antt =====
-- What the verdict of harness/result_reducer.py says of the results that were added.
use codex_loop_orchestra.Prelude.{
  ◌≡◌, ◌↔◌, ◌⊎◌, inl, inr, refl, ap, Bool, true, false, ◌||◌, Bool-cases, String, List, [], ◌∷◌,
  ◌++◌, All, Option, none, some, Dict, lookup, insert, any, is_some, str_eq, eq_iff, if◌then◌else◌,
  if_either, arith,
}
use codex_loop_orchestra.Results.Validate.{Document, Error, Validator, validate}
use codex_loop_orchestra.Results.Reduce.{
  severity_of, Entry, short_result, completion, Reducer, has_result, add, text_of, non_empty,
  add_short_result, add_valid, result_key, known_or_l3, add_completion, is_truthy, status_verdicts,
  explicit, named_verdicts, entry_verdicts, is_inconsistent, all_verdicts, worst_of, no_results,
  consolidate,
}
use codex_loop_orchestra.Results.Passing.{
  AllCalm, Known, strictest_pass, IsKept, Clean, entry-pass, l3_differs,
}

All-append_iff {ℓ κ} :
    {A : Type ℓ} (P : A → Type κ) (xs ys : List A) → All P (xs ++ ys) ↔ (All P xs × All P ys)
All-append_iff P [] ys = (λ h. (tt, h), λ h. h.1)
All-append_iff P (x ∷ xs) ys = (
  λ h. let rest = (All-append_iff P xs ys).0 h.1 in ((h.0, rest.0), rest.1),
  λ h. (h.0.0, (All-append_iff P xs ys).1 (h.0.1, h.1)),
)

All-insert :
    (P : Entry → Type 0) (key : String) (e : Entry) (d : Dict Entry)
    → P e
    → All (λ x. P x.1) d
    → All (λ x. P x.1) (insert key e d)
unfolding insert
All-insert P key e [] p h = (p, tt)
All-insert P key e ((k, old) ∷ d) p h =
    if_either (All (λ x. P x.1)) (str_eq k key) _ _ (λ _. (p, h.1))
      (λ _. (h.0, All-insert P key e d p h.1))

known_or_l3-known : (verdict : Option String) → is_some (severity_of (known_or_l3 verdict)) ≡ true
known_or_l3-known none = unfold severity_of lookup in refl
known_or_l3-known (some s) = go (Bool-cases (is_some (severity_of s)))
  where
    go :
        (is_some (severity_of s) ≡ true) ⊎ (is_some (severity_of s) ≡ false)
        → is_some (severity_of (known_or_l3 (some s))) ≡ true
    go (inl e) = rw (e, e) refl
    go (inr e) = rw e (unfold severity_of lookup in refl)

-- What is added to the reducer: a ShortResult, or the completion of a verification.
pub data Added : Type 0 where
  result : (given : Option String) (doc : Document) → Added
  verified : (key verdict : Option String) (valid : Bool) → Added

status-Known : (status : Option String) → Known (status_verdicts status)
unfolding severity_of lookup
status-Known none = tt
status-Known (some s) = ground (arith, eq_iff s s)

asks-Known : (asks : Bool) → Known (if asks then "escalate_l3" ∷ [] else [])
unfolding severity_of lookup
asks-Known true = (refl, tt)
asks-Known false = tt

named-Known :
    (o status : Option String)
    → ((w : String) → o ≡ some w → is_some (severity_of w) ≡ true)
    → Known (named_verdicts o status)
named-Known none status h = status-Known status
named-Known (some w) status h = (h w refl, tt)

explicit-known :
    (doc : Document) (w : String) → explicit doc ≡ some w → is_some (severity_of w) ≡ true
explicit-known doc w h = go (text_of (lookup "verdict" doc)) refl
  where
    go : (o : Option String) → text_of (lookup "verdict" doc) ≡ o → is_some (severity_of w) ≡ true
    go none e = absurd (ground (arith, e, h))
    go (some t) e = ground (arith, e, h)

entry-Known : (v : Validator) (e : Entry) → IsKept v e → Known (entry_verdicts e)
unfolding entry_verdicts
entry-Known v (completion verdict valid) k = (k, tt)
entry-Known v (short_result doc) k =
    (All-append_iff _ (named_verdicts (explicit doc) (text_of (lookup "status" doc)))
        (if is_truthy (lookup "needs_decision" doc) then "escalate_l3" ∷ [] else [])).1
      (named-Known (explicit doc) _ (explicit-known doc), asks-Known _)

named_first :
    (o status : Option String) (more : List String)
    → (o ≡ some "pass") ⊎ ((o ≡ none) × (status ≡ some "completed"))
    → (w : String) × (ws : List String) × (named_verdicts o status ++ more ≡ w ∷ ws)
named_first (some w) status more h = (w, more, refl)
named_first none status more (inl h) = absurd (ground (arith, h))
named_first none status more (inr (_, h)) = ("pass", more, rw h refl)

first_verdict :
    (e : Entry) → Clean e → (w : String) × (ws : List String) × (entry_verdicts e ≡ w ∷ ws)
unfolding entry_verdicts
first_verdict (completion verdict valid) c = (verdict, [], refl)
first_verdict (short_result doc) c =
    named_first (explicit doc) (text_of (lookup "status" doc)) _ c.1

worst-calm : (vs : List String) → Known vs → worst_of vs ≡ "pass" → AllCalm vs
worst-calm [] k h = tt
worst-calm (w ∷ ws) k h = (strictest_pass (w ∷ ws) k).0 h

calm-worst :
    (vs : List String) {w : String} {ws : List String}
    → Known vs
    → vs ≡ w ∷ ws
    → AllCalm vs
    → worst_of vs ≡ "pass"
calm-worst [] k e h = absurd (ground (arith, e))
calm-worst (w ∷ ws) k e h = (strictest_pass (w ∷ ws) k).1 h

module _ (v : Validator) where
  all-Known : (d : Dict Entry) → All (λ e. IsKept v e.1) d → Known (all_verdicts d)
  all-Known [] k = tt
  all-Known ((key, e) ∷ d) k =
      (All-append_iff _ (entry_verdicts e) (all_verdicts d)).1
        (entry-Known v e k.0, all-Known d k.1)

  all-pass :
      (d : Dict Entry)
      → All (λ e. IsKept v e.1) d
      → ((any (λ e. is_inconsistent e.1) d ≡ false) × AllCalm (all_verdicts d))
        ↔ All (λ e. Clean e.1) d
  all-pass [] k = (λ h. tt, λ h. (refl, tt))
  all-pass ((key, e) ∷ d) k =
      let parts = All-append_iff (λ w. w ≡ "pass") (entry_verdicts e) (all_verdicts d) in
      let one = entry-pass v e k.0 in
      let rest = all-pass d k.1 in
      (
        λ h.
            let calm = parts.0 h.1 in
            (one.0 (ground (arith, h.0), calm.0), rest.0 (ground (arith, h.0), calm.1)),
        λ c.
            let first = one.1 c.0 in
            let later = rest.1 c.1 in
            (ground (arith, first.0, later.0), parts.1 (first.1, later.1)),
      )

  -- The verdict of `consolidate` on the records.
  abbrev reduced : Dict Entry → String
  reduced d =
      if no_results d || any (λ e. is_inconsistent e.1) d
      then "escalate_l3"
      else worst_of (all_verdicts d)

  reduced-pass :
      (d : Dict Entry)
      → All (λ e. IsKept v e.1) d
      → (reduced d ≡ "pass") ↔ ((no_results d ≡ false) × All (λ e. Clean e.1) d)
  reduced-pass [] k = (λ h. absurd (l3_differs h), λ h. absurd (ground (arith, h.0)))
  reduced-pass ((key, e) ∷ d) k =
      let all = all-pass ((key, e) ∷ d) k in
      let known = all-Known ((key, e) ∷ d) k in
      (
        λ h. (refl, passes (Bool-cases (any (λ x. is_inconsistent x.1) ((key, e) ∷ d))) h),
        λ c.
            let ok = all.1 c.1 in
            let (w, ws, first) = first_verdict e c.1.0 in
            rw ok.0 (
              calm-worst (all_verdicts ((key, e) ∷ d)) known (ap (λ vs. vs ++ all_verdicts d) first)
                ok.1),
      )
    where
      passes :
          (any (λ x. is_inconsistent x.1) ((key, e) ∷ d) ≡ true)
            ⊎ (any (λ x. is_inconsistent x.1) ((key, e) ∷ d) ≡ false)
          → reduced ((key, e) ∷ d) ≡ "pass"
          → All (λ x. Clean x.1) ((key, e) ∷ d)
      passes (inl b) h = absurd (l3_differs (rw b at h))
      passes (inr b) h =
          (all-pass ((key, e) ∷ d) k).0
            (b, worst-calm (all_verdicts ((key, e) ∷ d)) (all-Known ((key, e) ∷ d) k) (rw b at h))

  consolidate-pass :
      (r : Reducer)
      → All (λ e. IsKept v e.1) r.results
      → (consolidate r ≡ "pass") ↔ ((no_results r.results ≡ false) × All (λ e. Clean e.1) r.results)
  unfolding consolidate
  consolidate-pass r k = reduced-pass r.results k

module _ (semantic_key : Document → String) (v : Validator) where
  unfoldable pub collect : List Added → Reducer → Reducer
  collect [] r = r
  collect (result given doc ∷ more) r = collect more (add_short_result semantic_key v given doc r).0
  collect (verified key verdict valid ∷ more) r =
      collect more (add_completion key verdict valid r).0

  abbrev AllKept : Reducer → Type 0
  AllKept r = All (λ e. IsKept v e.1) r.results

  add-AllKept :
      (key : String) (e : Entry) (r : Reducer) → IsKept v e → AllKept r → AllKept (add key e r).0
  unfolding add
  add-AllKept key e r k h = go (Bool-cases (has_result r key))
    where
      go : (has_result r key ≡ true) ⊎ (has_result r key ≡ false) → AllKept (add key e r).0
      go (inl old) = rw (add, old) h
      go (inr new) = rw (add, new) (All-insert (IsKept v) key e r.results k h)

  collect-AllKept : (adds : List Added) (r : Reducer) → AllKept r → AllKept (collect adds r)
  unfolding collect add_short_result add_completion
  collect-AllKept [] r h = h
  collect-AllKept (result given doc ∷ more) r h =
      collect-AllKept more (add_short_result semantic_key v given doc r).0
        (go (validate v none doc) refl)
    where
      go :
          (errors : List Error)
          → validate v none doc ≡ errors
          → AllKept (add_valid semantic_key v errors (result_key semantic_key v given doc) doc r).0
      go [] e = add-AllKept _ (short_result doc) r e h
      go (x ∷ xs) e = h
  collect-AllKept (verified key verdict valid ∷ more) r h =
      collect-AllKept more (add_completion key verdict valid r).0 (go (non_empty key) refl)
    where
      go : (o : Option String) → non_empty key ≡ o → AllKept (add_completion key verdict valid r).0
      go none e = rw (add_completion, e) h
      go (some k) e =
          rw (add_completion, e)
            (add-AllKept k (completion (known_or_l3 verdict) valid) r (known_or_l3-known verdict) h)

  -- The reduction passes exactly when something was kept and everything that was kept speaks for a
  -- pass: a completion is valid with the verdict pass, and a ShortResult asks for no decision and
  -- names the verdict pass, or names no legal verdict and is completed.
  pub reduction_passes :
      (adds : List Added)
      → (consolidate (collect adds (record { results = []; duplicates = 0 })) ≡ "pass") ↔ (
          (no_results (collect adds (record { results = []; duplicates = 0 })).results ≡ false)
          × All (λ e. Clean e.1) (collect adds (record { results = []; duplicates = 0 })).results)
  reduction_passes adds =
      consolidate-pass v (collect adds (record { results = []; duplicates = 0 }))
        (collect-AllKept adds (record { results = []; duplicates = 0 }) tt)
