-- ===== src/StateMachine/Reports.antt =====
-- `report_is_current` of harness/statemachine_v2.py, and the readings of JSON fields.
use codex_loop_orchestra.Prelude.{
  ℕ, Bool, true, false, ◌&&◌, String, Option, none, some, lookup, leb, ltb, str_eq, if◌then◌else◌,
}
use codex_loop_orchestra.StateMachine.Packet.{
  AttemptField, Detail, Timestamp, Stamp, IdField, ReportValue, Report, Env,
}

-- A string or `None` as a Python condition: the empty string counts as false.
abbrev pub truthy : Option String → Option String
truthy none = none
truthy (some s) = if str_eq s "" then none else some s

abbrev pub text_eq : Option String → Option String → Bool
text_eq none none = true
text_eq (some a) (some b) = str_eq a b
text_eq _ _ = false

-- `int(event_attempt)`, with `None` where it raises. A number below 0 keeps its sign.
pub data Attempt : Type 0 where
  unknown : Attempt
  below_zero : Attempt
  known : ℕ → Attempt

abbrev pub read_attempt : AttemptField → Attempt
read_attempt (AttemptField.nonneg n) = Attempt.known n
read_attempt (AttemptField.negative _) = Attempt.below_zero
read_attempt _ = Attempt.unknown

-- `event_attempt is not None and event_attempt < current_attempt`
abbrev pub attempt_lt : Attempt → ℕ → Bool
attempt_lt Attempt.unknown n = false
attempt_lt Attempt.below_zero n = true
attempt_lt (Attempt.known m) n = ltb m n

-- `event_attempt == current_attempt`
abbrev pub attempt_eq : Attempt → ℕ → Bool
attempt_eq (Attempt.known m) n = leb m n && leb n m
attempt_eq _ n = false

-- `ev.get("attempt", detail.get("attempt"))`: the event's own field, also where it is null.
abbrev pub event_attempt_field : AttemptField → AttemptField → AttemptField
event_attempt_field AttemptField.absent d = d
event_attempt_field f d = f

abbrev pub detail_run_id : Option Detail → Option String
detail_run_id none = none
detail_run_id (some d) = d.run_id

abbrev pub detail_attempt : Option Detail → AttemptField
detail_attempt none = AttemptField.absent
detail_attempt (some d) = d.attempt

abbrev pub detail_phase : Option Detail → Option String
detail_phase none = none
detail_phase (some d) = d.phase

-- `value.get("packet_id") not in (None, pid)`, negated
abbrev id_agrees : IdField → String → Bool
id_agrees IdField.missing pid = true
id_agrees (IdField.text s) pid = str_eq s pid
id_agrees IdField.non_text pid = false

abbrev value_ok : ReportValue → String → Bool
value_ok (ReportValue.object nonempty id) pid = nonempty && id_agrees id pid
value_ok _ pid = false

-- `stamp.get("ts")` of a stamp that is an object; a bare stamp has none.
abbrev generation_ts : Option Stamp → Timestamp
generation_ts (some (Stamp.dispatched _ ts _ _)) = ts
generation_ts _ = Timestamp.missing

abbrev not_older : ℕ → Timestamp → Bool
not_older mtime (Timestamp.at t) = leb t mtime
not_older mtime _ = true

current : Option Report → Option Stamp → String → Bool
current none stamp pid = false
current (some r) stamp pid = value_ok r.value pid && not_older r.mtime (generation_ts stamp)

unfoldable pub report_is_current : Env → String → Bool
unfolding current
report_is_current env pid = current (lookup pid env.reports) (lookup pid env.spawn_times) pid

-- `(… / "report.json").exists()`
abbrev pub present : Option Report → Bool
present none = false
present (some _) = true

unfoldable pub report_exists : Env → String → Bool
report_exists env pid = present (lookup pid env.reports)
