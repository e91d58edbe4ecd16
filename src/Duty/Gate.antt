-- ===== src/Duty/Gate.antt =====
-- `main` and `persist_fix_hint` of harness/duty_gate.py. Confidences are in 1/10000;
-- `LINE_PTR_RE.search` is the parameter `has_line`.
use codex_loop_orchestra.Prelude.{
  ℕ, Bool, true, false, not, ◌&&◌, String, List, [], ◌∷◌, ◌++◌, Option, none, some, Dict, lookup,
  insert, all, any, length, leb, str_eq, if◌then◌else◌,
}
use codex_loop_orchestra.StateMachine.PacketId.{valid_pid, codes}
use codex_loop_orchestra.StateMachine.Stream.{is_space}

-- A JSON value of a ruling, as far as the gate tells them apart: an item of a list that is no
-- string is `none`; `delta` is an object with its `packet_id`.
pub data Field : Type 0 where
  text : String → Field
  items : List (Option String) → Field
  number : ℕ → Field
  delta : Option String → Field
  other : Field

abbrev pub Ruling : Type 0
Ruling = Dict Field

pub data Reason : Type 0 where
  free_text_rejected off_whitelist_keys illegal_class evidence_missing : Reason
  evidence_no_line_numbers fix_hint_class_illegal fix_hint_not_string : Reason
  fix_hint_too_long confidence_illegal confidence_below_theta : Reason

abbrev pub is_among : List String → String → Bool
is_among names s = any (str_eq s) names

-- `LEGAL_CLASSES`
abbrev pub is_legal : String → Bool
is_legal = is_among ("retryable" ∷ "fixable" ∷ "terminal" ∷ [])

-- `ALLOWED_KEYS`
abbrev pub is_allowed : String → Bool
is_allowed =
    is_among ("class" ∷ "evidence" ∷ "confidence" ∷ "progress_ledger_delta" ∷ "fix_hint" ∷ [])

abbrev pub unless : Bool → Reason → List Reason
unless ok reason = if ok then [] else reason ∷ []

abbrev pub key_reasons : Ruling → List Reason
key_reasons r = unless (all (λ x. is_allowed x.0) r) off_whitelist_keys

abbrev pub class_reasons : Option Field → List Reason
class_reasons (some (text c)) = unless (is_legal c) illegal_class
class_reasons _ = illegal_class ∷ []

abbrev pub is_fixable : Option Field → Bool
is_fixable (some (text c)) = str_eq c "fixable"
is_fixable _ = false

-- `not hint.strip()`
abbrev pub is_blank : String → Bool
is_blank s = all is_space (codes s)

abbrev pub hint_text_reasons : Field → List Reason
hint_text_reasons (text s) =
    if is_blank s
    then fix_hint_not_string ∷ []
    else unless (leb (length (codes s)) 200) fix_hint_too_long
hint_text_reasons _ = fix_hint_not_string ∷ []

abbrev pub hint_reasons : Option Field → Option Field → List Reason
hint_reasons cls none = []
hint_reasons cls (some hint) =
    unless (is_fixable cls) fix_hint_class_illegal ++ hint_text_reasons hint

abbrev pub confidence_reasons : ℕ → Option Field → List Reason
confidence_reasons theta (some (number n)) =
    if leb n 10000 then unless (leb theta n) confidence_below_theta else confidence_illegal ∷ []
confidence_reasons theta _ = confidence_illegal ∷ []

-- What `data/duty_rulings/<pid>.json` holds.
pub record Persisted : Type 0 where
  pub hint : Option Field
  pub confidence : Option Field

-- The printed result: its exit code is 1, 3 or 0; `exited` is `SystemExit(1)`, and `key_error`
-- the exception of a ruling without a class or a confidence.
pub data Result : Type 0 where
  dead_letter : List Reason → Result
  recorded_not_enforced valid : Field → Field → Result
  exited key_error : Result

abbrev pub delta_pid : Option Field → Option String
delta_pid (some (delta (some s))) = if str_eq s "" then none else some s
delta_pid _ = none

abbrev pub has : Option Field → Bool
has none = false
has (some _) = true

-- `none` is the exit on an invalid packet id.
unfoldable pub persist_fix_hint : Ruling → Dict Persisted → Option (Dict Persisted)
persist_fix_hint r saved = elim (delta_pid (lookup "progress_ledger_delta" r)) [
  | none ↦ some saved
  | some pid ↦
      if not (is_fixable (lookup "class" r) && has (lookup "fix_hint" r))
      then some saved
      else if valid_pid pid
      then some (
          insert pid (record { hint = lookup "fix_hint" r; confidence = lookup "confidence" r })
            saved)
      else none
]

-- `{"class": ruling["class"], "confidence": ruling["confidence"]}`
abbrev pub answer : (Field → Field → Result) → Option Field → Option Field → Result
answer f (some c) (some n) = f c n
answer f _ _ = key_error

unfoldable pub route_ruling : Bool → Ruling → List Reason → Dict Persisted → Dict Persisted × Result
route_ruling enforce r (reason ∷ rest) saved = (saved, dead_letter (reason ∷ rest))
route_ruling false r [] saved =
    (saved, answer recorded_not_enforced (lookup "class" r) (lookup "confidence" r))
route_ruling true r [] saved = elim (persist_fix_hint r saved) [
  | none ↦ (saved, exited)
  | some saved' ↦ (saved', answer valid (lookup "class" r) (lookup "confidence" r))
]

module _ (has_line : String → Bool) where
  abbrev pub points_at_line : Option String → Bool
  points_at_line none = false
  points_at_line (some s) = has_line s

  abbrev pub evidence_reasons : Option Field → List Reason
  evidence_reasons (some (items (e ∷ es))) =
      unless (all points_at_line (e ∷ es)) evidence_no_line_numbers
  evidence_reasons _ = evidence_missing ∷ []

  -- The tests are made only for a ruling that has a key.
  unfoldable pub reasons : ℕ → Option Ruling → List Reason
  reasons theta none = free_text_rejected ∷ []
  reasons theta (some []) = []
  reasons theta (some (x ∷ r)) =
      key_reasons (x ∷ r)
      ++ (class_reasons (lookup "class" (x ∷ r))
          ++ (evidence_reasons (lookup "evidence" (x ∷ r))
              ++ (hint_reasons (lookup "class" (x ∷ r)) (lookup "fix_hint" (x ∷ r))
                  ++ confidence_reasons theta (lookup "confidence" (x ∷ r)))))

  abbrev pub or_empty : Option Ruling → Ruling
  or_empty none = []
  or_empty (some r) = r

  unfoldable pub main : ℕ → Bool → Option Ruling → Dict Persisted → Dict Persisted × Result
  main theta enforce ruling saved =
      route_ruling enforce (or_empty ruling) (reasons theta ruling) saved
