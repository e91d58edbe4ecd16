-- ===== src/Results/Validate.antt =====
-- `ShortResultValidator.validate` of harness/short_result_validator.py. A document is an association
-- list of JSON values, as far as the validator tells them apart; each error keeps its code and the
-- field.
use codex_loop_orchestra.Prelude.{
  concat, ℕ, zero, suc, ◌*◌, Bool, true, false, not, ◌&&◌, String, List, [], ◌∷◌, ◌++◌, Option,
  none, some, Dict, lookup, all, any, is_some, length, map, ℤ, pos, negsuc, ltb, ◌==◌, str_eq,
  if◌then◌else◌,
}
use codex_loop_orchestra.StateMachine.PacketId.{codes}
use codex_loop_orchestra.StateMachine.Stream.{is_space}

-- What a value inside `needs_decision` is.
pub data Kind : Type 0 where
  is_str is_list is_other : Kind

-- An item of a list that is no string is `none`.
pub data Value : Type 0 where
  text : String → Value
  int : ℤ → Value
  bool : Bool → Value
  float null : Value
  list : List (Option String) → Value
  object : Dict Kind → Value

abbrev pub Document : Type 0
Document = Dict Value

pub data Error : Type 0 where
  extra_field missing_field type_error empty_field item_type bad_needs_decision : String → Error
  bad_status bad_verdict oversize too_many_findings stale_revision : Error

-- The types of a field; `bool` is a subclass of `int`.
abbrev pub is_text : Value → Bool
is_text (text _) = true
is_text _ = false

abbrev pub is_int : Value → Bool
is_int (int _) = true
is_int (bool _) = true
is_int _ = false

abbrev pub is_array : Value → Bool
is_array (list _) = true
is_array _ = false

abbrev pub is_decision : Value → Bool
is_decision (object _) = true
is_decision null = true
is_decision _ = false

abbrev pub is_number : Value → Bool
is_number (float) = true
is_number v = is_int v

abbrev pub FieldType : Type 0
FieldType = String × (Value → Bool)

-- `_REQUIRED_FIELDS` and `_OPTIONAL_FIELDS`
abbrev pub required_fields : List FieldType
required_fields =
    ("packet_id", is_text)
    ∷ ("control_packet_id", is_text)
    ∷ ("control_packet_revision", is_int)
    ∷ ("status", is_text)
    ∷ ("conclusion", is_text)
    ∷ ("artifact_paths", is_array)
    ∷ ("finding_ids", is_array)
    ∷ ("needs_decision", is_decision)
    ∷ []

abbrev pub optional_fields : List FieldType
optional_fields = ("verdict", is_text) ∷ ("idem_key", is_text) ∷ ("score", is_number) ∷ []

abbrev pub is_allowed : String → Bool
is_allowed name = any (λ f. str_eq f.0 name) (required_fields ++ optional_fields)

abbrev pub among : List String → String → Bool
among names s = any (str_eq s) names

-- `STATUS_ENUM` and `L2_VERDICTS`
abbrev pub is_status : String → Bool
is_status = among ("completed" ∷ "failed" ∷ "blocked" ∷ "cancelled" ∷ "stale_revision" ∷ [])

abbrev pub is_l2_verdict : String → Bool
is_l2_verdict = among ("pass" ∷ "redo" ∷ "escalate_l2_5" ∷ "escalate_l3" ∷ [])

abbrev pub when : Bool → Error → List Error
when failed e = if failed then e ∷ [] else []

-- The names of the document that the schema does not have; the code sorts them.
unfoldable pub extra_errors : Document → List Error
extra_errors [] = []
extra_errors ((name, value) ∷ rest) =
    let more = extra_errors rest in if is_allowed name then more else extra_field name ∷ more

abbrev pub typed : String → (Value → Bool) → Option Value → List Error → List Error
typed name fits none absent = absent
typed name fits (some value) absent = when (not (fits value)) (type_error name)

abbrev pub required_error : Document → FieldType → List Error
required_error doc f = typed f.0 f.1 (lookup f.0 doc) (missing_field f.0 ∷ [])

abbrev pub optional_error : Document → FieldType → List Error
optional_error doc f = typed f.0 f.1 (lookup f.0 doc) []

abbrev pub status_errors : Option Value → List Error
status_errors (some (text s)) = when (not (is_status s)) bad_status
status_errors _ = []

abbrev pub verdict_errors : Option Value → List Error
verdict_errors (some (text v)) = when (not (is_l2_verdict v)) bad_verdict
verdict_errors _ = []

-- `not s.strip()`
abbrev pub is_blank : String → Bool
is_blank s = all is_space (codes s)

abbrev pub conclusion_errors : ℕ → Option Value → List Error
conclusion_errors max_chars (some (text s)) =
    if is_blank s
    then empty_field "conclusion" ∷ []
    else when (ltb max_chars (length (codes s))) oversize
conclusion_errors max_chars _ = []

abbrev pub id_errors : String → Option Value → List Error
id_errors name (some (text s)) = when (is_blank s) (empty_field name)
id_errors name _ = []

unfoldable pub item_errors : String → List (Option String) → List Error
item_errors name [] = []
item_errors name (none ∷ items) = item_type name ∷ item_errors name items
item_errors name (some _ ∷ items) = item_errors name items

abbrev pub findings_errors : ℕ → Option Value → List Error
findings_errors max_findings (some (list items)) =
    when (ltb max_findings (length items)) too_many_findings ++ item_errors "finding_ids" items
findings_errors max_findings _ = []

abbrev pub artifacts_errors : Option Value → List Error
artifacts_errors (some (list items)) = item_errors "artifact_paths" items
artifacts_errors _ = []

-- `_NEEDS_DECISION_FIELDS`
abbrev pub is_str_kind : Kind → Bool
is_str_kind is_str = true
is_str_kind _ = false

abbrev pub is_list_kind : Kind → Bool
is_list_kind is_list = true
is_list_kind _ = false

abbrev pub part_errors : String → (Kind → Bool) → Dict Kind → List Error
part_errors name fits needs = elim (lookup name needs) [
  | none ↦ bad_needs_decision name ∷ []
  | some kind ↦ when (not (fits kind)) (bad_needs_decision name)
]

unfoldable pub extra_parts : Dict Kind → List Error
extra_parts [] = []
extra_parts ((name, kind) ∷ rest) =
    let more = extra_parts rest in
    if among ("question" ∷ "decision_refs" ∷ "evidence_refs" ∷ []) name
    then more
    else bad_needs_decision name ∷ more

abbrev pub decision_errors : Option Value → List Error
decision_errors (some (object needs)) =
    extra_parts needs
    ++ (part_errors "question" is_str_kind needs
        ++ (part_errors "decision_refs" is_list_kind needs
            ++ part_errors "evidence_refs" is_list_kind needs))
decision_errors _ = []

abbrev pub stale : Option ℕ → ℕ → Bool
stale none revision = false
stale (some expected) revision = not (revision == expected)

abbrev pub revision_errors : Option ℕ → Option Value → List Error
revision_errors expected (some (bool _)) = type_error "control_packet_revision" ∷ []
revision_errors expected (some (int (negsuc _))) = type_error "control_packet_revision" ∷ []
revision_errors expected (some (int (pos zero))) = type_error "control_packet_revision" ∷ []
revision_errors expected (some (int (pos (suc n)))) = when (stale expected (suc n)) stale_revision
revision_errors expected _ = []

pub record Validator : Type 0 where
  pub max_tokens : ℕ
  pub max_findings : ℕ
  pub require_verdict : Bool

-- `CHARS_PER_TOKEN`
abbrev pub chars_per_token : ℕ
chars_per_token = 4

abbrev pub checks : Validator → Option ℕ → Document → List (List Error)
checks v expected doc =
    extra_errors doc
    ∷ concat (map (required_error doc) required_fields)
    ∷ concat (map (optional_error doc) optional_fields)
    ∷ when (v.require_verdict && not (is_some (lookup "verdict" doc))) (missing_field "verdict")
    ∷ status_errors (lookup "status" doc)
    ∷ verdict_errors (lookup "verdict" doc)
    ∷ conclusion_errors (v.max_tokens * chars_per_token) (lookup "conclusion" doc)
    ∷ id_errors "packet_id" (lookup "packet_id" doc)
    ∷ id_errors "control_packet_id" (lookup "control_packet_id" doc)
    ∷ findings_errors v.max_findings (lookup "finding_ids" doc)
    ∷ artifacts_errors (lookup "artifact_paths" doc)
    ∷ decision_errors (lookup "needs_decision" doc)
    ∷ revision_errors expected (lookup "control_packet_revision" doc)
    ∷ []

-- The errors that `validate` collects: the document is accepted if there are none.
unfoldable pub validate : Validator → Option ℕ → Document → List Error
validate v expected doc = concat (checks v expected doc)
