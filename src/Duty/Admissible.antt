-- ===== src/Duty/Admissible.antt =====
-- What a ruling has that passes the gate.
use codex_loop_orchestra.Prelude.{
  ◌⊎◌, inl, inr, ℕ, ◌≤◌, ◌≡◌, refl, Bool, true, false, String, List, [], ◌∷◌, ◌++◌, Option, none,
  some, Dict, lookup, all, arith,
}
use codex_loop_orchestra.Duty.Gate.{
  Field, text, items, number, delta, other, Ruling, Reason, is_legal, is_allowed, unless,
  key_reasons, class_reasons, hint_reasons, confidence_reasons, Persisted, Result,
  recorded_not_enforced, valid, exited, persist_fix_hint, answer, route_ruling, points_at_line,
  evidence_reasons, reasons, or_empty, main,
}

-- A ruling of a legal class with line evidence and enough confidence, and no other keys.
pub record IsAdmissible (has_line : String → Bool) (theta : ℕ) (r : Ruling) (c n : Field)
    : Type 0 where
  pub cls : String
  pub class_is : c ≡ text cls
  pub legal : is_legal cls ≡ true
  pub allowed : all (λ x. is_allowed x.0) r ≡ true
  pub confidence : ℕ
  pub confidence_is : n ≡ number confidence
  pub enough : theta ≤ confidence
  pub at_most_one : confidence ≤ 10000
  pub first : Option String
  pub rest : List (Option String)
  pub evidence_is : lookup "evidence" r ≡ some (items (first ∷ rest))
  pub lines : all (points_at_line has_line) (first ∷ rest) ≡ true

append_nil : {A : Type 0} (xs ys : List A) → xs ++ ys ≡ [] → (xs ≡ []) × (ys ≡ [])
append_nil [] ys h = (refl, h)
append_nil (x ∷ xs) ys h = cc

unless_nil : (b : Bool) (e : Reason) → unless b e ≡ [] → b ≡ true
unless_nil true e h = refl
unless_nil false e h = cc

class_case :
    (o : Option Field)
    → class_reasons o ≡ []
    → (s : String) × (o ≡ some (text s)) × (is_legal s ≡ true)
class_case (some (text s)) h = (s, refl, unless_nil (is_legal s) _ h)
class_case (some (items _)) h = cc
class_case (some (number _)) h = cc
class_case (some (delta _)) h = cc
class_case (some other) h = cc
class_case none h = cc

confidence_case :
    (theta : ℕ) (o : Option Field)
    → confidence_reasons theta o ≡ []
    → (n : ℕ) × (o ≡ some (number n)) × (theta ≤ n) × (n ≤ 10000)
confidence_case theta (some (number n)) h = (n, refl, ground (arith, h), ground (arith, h))
confidence_case theta (some (text s)) h = cc
confidence_case theta (some (items _)) h = cc
confidence_case theta (some (delta _)) h = cc
confidence_case theta (some other) h = cc
confidence_case theta none h = cc

evidence_case :
    (has_line : String → Bool) (o : Option Field)
    → evidence_reasons has_line o ≡ []
    → (e : Option String) × (es : List (Option String)) × (o ≡ some (items (e ∷ es)))
      × (all (points_at_line has_line) (e ∷ es) ≡ true)
evidence_case has_line (some (items (e ∷ es))) h = (e, es, refl, unless_nil _ _ h)
evidence_case has_line (some (items [])) h = cc
evidence_case has_line (some (text s)) h = cc
evidence_case has_line (some (number n)) h = cc
evidence_case has_line (some (delta _)) h = cc
evidence_case has_line (some other) h = cc
evidence_case has_line none h = cc

-- The gate lets the ruling through, routed or recorded only.
abbrev pub Passes : Result → Field → Field → Type 0
Passes res c n = (res ≡ valid c n) ⊎ (res ≡ recorded_not_enforced c n)

Answered : List Reason → Ruling → Field → Field → Type 0
Answered rs r c n = (rs ≡ []) × (lookup "class" r ≡ some c) × (lookup "confidence" r ≡ some n)

answer_valid :
    (o o' : Option Field) (c n : Field)
    → Passes (answer valid o o') c n
    → (o ≡ some c) × (o' ≡ some n)
answer_valid (some a) (some b) c n (inl h) = (cc, cc)
answer_valid (some a) (some b) c n (inr h) = cc
answer_valid none o' c n (inl h) = cc
answer_valid none o' c n (inr h) = cc
answer_valid (some a) none c n (inl h) = cc
answer_valid (some a) none c n (inr h) = cc

answer_recorded :
    (o o' : Option Field) (c n : Field)
    → Passes (answer recorded_not_enforced o o') c n
    → (o ≡ some c) × (o' ≡ some n)
answer_recorded (some a) (some b) c n (inr h) = (cc, cc)
answer_recorded (some a) (some b) c n (inl h) = cc
answer_recorded none o' c n (inl h) = cc
answer_recorded none o' c n (inr h) = cc
answer_recorded (some a) none c n (inl h) = cc
answer_recorded (some a) none c n (inr h) = cc

route_ruling-Answered :
    (enforce : Bool) (r : Ruling) (rs : List Reason) (saved : Dict Persisted) (c n : Field)
    → Passes (route_ruling enforce r rs saved).1 c n
    → Answered rs r c n
unfolding route_ruling Answered
route_ruling-Answered enforce r (x ∷ rs) saved c n (inl h) = cc
route_ruling-Answered enforce r (x ∷ rs) saved c n (inr h) = cc
route_ruling-Answered false r [] saved c n h =
    let (a, b) = answer_recorded _ _ c n h in (refl, a, b)
route_ruling-Answered true r [] saved c n h = go (persist_fix_hint r saved) h
  where
    go :
        (o : Option (Dict Persisted))
        → Passes
            (elim o as (λ _. Dict Persisted × Result) [
              | none ↦ (saved, exited)
              | some saved' ↦ (saved', answer valid (lookup "class" r) (lookup "confidence" r))
            ]).1
            c
            n
        → Answered [] r c n
    go none (inl e) = cc
    go none (inr e) = cc
    go (some s) e = let (a, b) = answer_valid _ _ c n e in (refl, a, b)

no_reasons :
    (has_line : String → Bool) (theta : ℕ) (r : Ruling) (c n : Field)
    → Answered (reasons has_line theta (some r)) r c n
    → IsAdmissible has_line theta r c n
unfolding reasons Answered lookup
no_reasons has_line theta [] c n (e, k, l) = cc
no_reasons has_line theta (x ∷ r) c n (e, k, l) =
    let q = x ∷ r in
    let (keys, e1) = append_nil (key_reasons q) _ e in
    let (cls, e2) = append_nil (class_reasons (lookup "class" q)) _ e1 in
    let (ev, e3) = append_nil (evidence_reasons has_line (lookup "evidence" q)) _ e2 in
    let (hint, conf) =
      append_nil (hint_reasons (lookup "class" q) (lookup "fix_hint" q))
        (confidence_reasons theta (lookup "confidence" q)) e3 in
    let (s, s_is, legal) = class_case (lookup "class" q) cls in
    let (m, m_is, enough, most) = confidence_case theta (lookup "confidence" q) conf in
    let (first, rest, ev_is, lines) = evidence_case has_line (lookup "evidence" q) ev in
    record {
      cls = s;
      class_is = cc;
      legal = legal;
      allowed = unless_nil (all (λ y. is_allowed y.0) q) _ keys;
      confidence = m;
      confidence_is = cc;
      enough = enough;
      at_most_one = most;
      first = first;
      rest = rest;
      evidence_is = ev_is;
      lines = lines;
    }

-- A ruling that passes the gate has only known keys, a legal class, evidence that points at lines,
-- and a confidence from theta to 1; the class and the confidence of the answer are its own.
pub passed-IsAdmissible :
    (has_line : String → Bool) (theta : ℕ) (enforce : Bool) (ruling : Option Ruling)
    (saved : Dict Persisted) (c n : Field)
    → Passes (main has_line theta enforce ruling saved).1 c n
    → IsAdmissible has_line theta (or_empty has_line ruling) c n
unfolding main Answered reasons
passed-IsAdmissible has_line theta enforce none saved c n h =
    cc (route_ruling-Answered enforce [] _ saved c n h).0
passed-IsAdmissible has_line theta enforce (some r) saved c n h =
    no_reasons has_line theta r c n (route_ruling-Answered enforce r _ saved c n h)
