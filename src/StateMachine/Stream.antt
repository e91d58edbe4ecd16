-- ===== src/StateMachine/Stream.antt =====
-- `step` of harness/statemachine_v2.py: reading the event stream from the committed cursor.
-- A file is a list of bytes; `json.loads` is the parameter `json_loads`, `none` where it raises.
use codex_loop_orchestra.Prelude.{
  ℕ, zero, suc, ◌+◌, Bool, ◌&&◌, ◌||◌, List, [], ◌∷◌, Option, none, some, Dict, length, drop, all,
  ◌==◌, leb, get_or_default, if◌then◌else◌,
}
use codex_loop_orchestra.StateMachine.Packet.{Packet, EventRecord, AttemptField, Env, World}
use codex_loop_orchestra.StateMachine.Apply.{Result, running, exited, apply_all}
use codex_loop_orchestra.StateMachine.Watchdog.{reconcile, watchdog}

abbrev newline : ℕ
newline = 10

-- `readline`, if the line is complete: the line with its newline, and what follows it.
unfoldable pub take_line : List ℕ → Option (List ℕ × List ℕ)
take_line [] = none
take_line (b ∷ bs) =
    if b == newline
    then some (b ∷ [], bs)
    else elim (take_line bs) [ none ↦ none | some (line, rest) ↦ some (b ∷ line, rest) ]

-- The complete lines; the loop ends at the end of the file or at a line without its newline.
unfoldable pub lines_within : ℕ → List ℕ → List (List ℕ)
lines_within zero bytes = []
lines_within (suc fuel) bytes = elim (take_line bytes) [
  | none ↦ []
  | some (line, rest) ↦ line ∷ lines_within fuel rest
]

-- A line has at least its newline, so there are no more lines than bytes.
unfoldable pub complete_lines : List ℕ → List (List ℕ)
complete_lines bytes = lines_within (length bytes) bytes

-- `consumed = handle.tell()`, counted from the start of the reading.
abbrev pub size : List (List ℕ) → ℕ
size [] = 0
size (l ∷ ls) = length l + size ls

-- The white space of `str.strip`, among the ASCII codes.
abbrev pub is_space : ℕ → Bool
is_space b = leb 9 b && leb b 13 || leb 28 b && leb b 32

-- What stands in for a line that does not parse.
abbrev pub malformed : EventRecord
malformed = record {
  packet_id = some "malformed";
  event = some "unparseable";
  run_id = none;
  attempt = AttemptField.absent;
  detail = none;
}

-- `led["event_cursor"]`: an integer, or anything else.
pub data CursorField : Type 0 where
  count : ℕ → CursorField
  negative : CursorField
  no_count : CursorField

-- `progress_ledger.json`, and the older cursor file.
pub record Ledger : Type 0 where
  pub packets : Dict Packet
  pub event_cursor : CursorField
  pub legacy_cursor : Option ℕ

abbrev pub cursor : Ledger → ℕ
cursor led = elim led.event_cursor [
  | count n ↦ n
  | negative ↦ 0
  | no_count ↦ get_or_default led.legacy_cursor 0
]

-- The lines that a step reads.
abbrev pub new_lines : List ℕ → ℕ → List (List ℕ)
new_lines bytes offset = complete_lines (drop offset bytes)

-- A step's outcome: the files, the saved ledger and the events appended by the watchdog; or the
-- exit, which saves no ledger.
pub data StepResult : Type 0 where
  saved : World → Ledger → List EventRecord → StepResult
  died : World → StepResult

unfoldable pub commit : Env → ℕ → Result → StepResult
commit env consumed (exited w) = died w
commit env consumed (running m _) =
    let (packets, appended) = watchdog env (reconcile env m.packets) in
    saved m.world
      (record { packets = packets; event_cursor = count consumed; legacy_cursor = some consumed })
      appended

module _ (json_loads : List ℕ → Option EventRecord) where
  -- The events of the lines that are not blank.
  unfoldable pub read_events : List (List ℕ) → List EventRecord
  read_events [] = []
  read_events (l ∷ ls) =
      let rest = read_events ls in
      if all is_space l then rest else get_or_default (json_loads l) malformed ∷ rest

  unfoldable pub step : Env → List ℕ → World → Ledger → StepResult
  step env bytes w led =
      let lines = new_lines bytes (cursor led) in
      commit env (cursor led + size lines) (
        apply_all env (read_events lines)
          (record { world = record w { dead_this_step = 0 }; packets = led.packets }))
