-- ===== src/StateMachine/Tests/Reading.antt =====
-- The theorems on single events, on the watchdog, the table and the cursor, at concrete data.
use mathlib.Core.List.{Memᴰ}
use codex_loop_orchestra.Prelude.{
  ◌⊎◌, ℕ, ◌++◌, ◌≡◌, refl, ◌↔◌, true, List, [], ◌∷◌, Option, none, some, Dict, lookup, insert,
  arith, All,
}
use codex_loop_orchestra.StateMachine.States.{State}
use codex_loop_orchestra.StateMachine.Events.{Event}
use codex_loop_orchestra.StateMachine.Table.{table}
use codex_loop_orchestra.StateMachine.Packet.{
  Packet, Entry, new_packet, log, EventRecord, Env, World, Outcome, applied,
}
use codex_loop_orchestra.StateMachine.Reports.{Attempt}
use codex_loop_orchestra.StateMachine.Advance.{Input, advance}
use codex_loop_orchestra.StateMachine.Apply.{apply_event, running, read_input}
use codex_loop_orchestra.StateMachine.Edges.{Move}
use codex_loop_orchestra.StateMachine.Moves.{advance-Move}
use codex_loop_orchestra.StateMachine.Watchdog.{
  watchdog, timeout_event, watch, fires, supervised, synthetic_spawn_ts, reconcile,
  reconcile_packet,
}
use codex_loop_orchestra.StateMachine.Timeouts.{IsStuck, fires-IsStuck, watchdog_exact}
use codex_loop_orchestra.StateMachine.Absorbed.{watchdog_absorbed}
use codex_loop_orchestra.StateMachine.Validate.{
  validate_transition_table, duplicate_error, first_duplicate, missing_error, require,
  dead_end_error, first_dead_end,
}
use codex_loop_orchestra.StateMachine.ValidTable.{IsSound, validate-IsSound}
use codex_loop_orchestra.StateMachine.WaveCheck.{
  wave_check, wave_check_iff, whole, SomeInScope, IsComplete,
}
use codex_loop_orchestra.StateMachine.Stream.{
  take_line, lines_within, complete_lines, new_lines, read_events, step, commit, StepResult, saved,
  died, Ledger, count, cursor,
}
use codex_loop_orchestra.StateMachine.Cursor.{step-resumes}
use codex_loop_orchestra.StateMachine.Poison.{IsPoison, poison_stops_every_step}
use codex_loop_orchestra.StateMachine.Tests.Setup.{event, env, files, run}

-- A packet that started at time 7, and an environment an hour later.
abbrev started : Packet
started =
    log 7 State.running "dispatched" (some 3)
      (record new_packet { state = State.running; attempts = 2; current_run_id = some "run-2" })

abbrev later : Env
later = record env { now = 3600 }

abbrev stop : Input
stop = record {
  pid = "pkt-1";
  name = Event.subagent_stop;
  run_id = some "run-2";
  attempt = Attempt.known 2;
  phase = none;
}

-- What a handler leaves.
abbrev packet_of : Outcome → Packet
packet_of (applied _ p _) = p
packet_of (Outcome.aborted _) = new_packet

abbrev after : Input → Packet → Packet
unfolding run
after i p = packet_of (advance env i files p)

advance-Move_example :
    (State.reported ≡ (after stop started).state) × Move env files stop started (after stop started)
unfolding run
advance-Move_example =
    advance-Move env stop files files started (after stop started) State.reported refl

watchdog_exact_example :
    (q : Packet) × (lookup "pkt-1" (watchdog later (("pkt-1", started) ∷ [])).0 ≡ some q)
    × ((IsStuck later "pkt-1" started
          × (q ≡ record started { state = State.timed_out; history = q.history }))
        ⊎ (¬ IsStuck later "pkt-1" started × (q ≡ started)))
unfolding run
watchdog_exact_example = watchdog_exact later (("pkt-1", started) ∷ []) "pkt-1" started refl

started-IsStuck : IsStuck later "pkt-1" started
unfolding run fires supervised synthetic_spawn_ts
started-IsStuck = fires-IsStuck later "pkt-1" started refl

watchdog_absorbed_example :
    Memᴰ (timeout_event later "pkt-1") (watchdog later (("pkt-1", started) ∷ [])).1
    × ((q : Packet) × (h : List Entry) × (lookup "pkt-1"
            (watchdog later (("pkt-1", started) ∷ [])).0
          ≡ some q)
        × (q.state ≡ State.timed_out)
        × (apply_event env
              (timeout_event later "pkt-1")
              (record { world = files; packets = (watchdog later (("pkt-1", started) ∷ [])).0 })
            ≡ running
                (record {
                  world = files;
                  packets =
                      insert "pkt-1"
                        (record q { history = h })
                        (watchdog later (("pkt-1", started) ∷ [])).0;
                })
                (some State.timed_out)))
unfolding run
watchdog_absorbed_example =
    watchdog_absorbed later env files (("pkt-1", started) ∷ []) "pkt-1" started refl started-IsStuck
      refl

abbrev timeout : Input
timeout = record stop { name = Event.timeout }

abbrev timed_out : Packet
timed_out = record started { state = State.timed_out }

validate-IsSound_example : IsSound table
unfolding run validate_transition_table duplicate_error first_duplicate missing_error require
    dead_end_error first_dead_end
validate-IsSound_example = validate-IsSound table refl

abbrev settled : Dict Packet
settled = ("pkt-1", record new_packet { state = State.merged }) ∷ []

wave_check_iff_example :
    (wave_check env none none settled ≡ some true)
    ↔ (SomeInScope whole settled × All (IsComplete env whole) settled)
wave_check_iff_example = wave_check_iff env none none whole settled refl

-- A toy `json.loads`: every line is a plan for one packet.
abbrev json_loads : List ℕ → Option EventRecord
json_loads _ = some (event "pkt-1" "planned")

abbrev fresh_ledger : Ledger
fresh_ledger = record { packets = []; event_cursor = count 0; legacy_cursor = none }

-- One line, and the start of a second one, which the next read finds complete.
abbrev bytes : List ℕ
bytes = 123 ∷ 125 ∷ 10 ∷ 123 ∷ []

abbrev more : List ℕ
more = 125 ∷ 10 ∷ []

abbrev ledger_of : StepResult → Ledger
ledger_of (saved _ led _) = led
ledger_of (died _) = fresh_ledger

abbrev world_after : StepResult → World
world_after (saved w _ _) = w
world_after (died w) = w

abbrev events_after : StepResult → List EventRecord
events_after (saved _ _ es) = es
events_after (died _) = []

abbrev first_step : StepResult
unfolding run step commit read_events complete_lines lines_within take_line watchdog watch fires
    reconcile reconcile_packet
first_step = step json_loads env bytes files fresh_ledger

step-resumes_example :
    read_events json_loads (new_lines (bytes ++ more) 0)
    ≡ read_events json_loads (new_lines bytes 0)
      ++ read_events json_loads (new_lines (bytes ++ more) (cursor (ledger_of first_step)))
unfolding run step commit read_events complete_lines lines_within take_line watchdog watch fires
    reconcile reconcile_packet
step-resumes_example =
    step-resumes json_loads env bytes more files (world_after first_step) fresh_ledger
      (ledger_of first_step) (events_after first_step) (omega arith) refl

-- A ledger that has admitted an id with a slash, and a line with an unknown event for it.
abbrev unsafe_ledger : Ledger
unsafe_ledger = record fresh_ledger {
  packets = ("../x", record new_packet { state = State.planned }) ∷ [];
}

abbrev unknown_line : List ℕ → Option EventRecord
unknown_line _ = some (event "../x" "no_such_event")

unknown-IsPoison : IsPoison (read_input (event "../x" "no_such_event"))
unfolding run
unknown-IsPoison = record {
  text = "no_such_event";
  unknown_name = refl;
  no_attempt = refl;
  unsafe_id = refl;
  no_l2_job = refl;
}

poison_stops_every_step_example :
    (w' : World) × (step unknown_line env (bytes ++ more) files unsafe_ledger ≡ died w')
unfolding run read_events complete_lines lines_within take_line
poison_stops_every_step_example =
    poison_stops_every_step unknown_line bytes unsafe_ledger (event "../x" "no_such_event") []
      (record new_packet { state = State.planned }) (omega arith) refl unknown-IsPoison refl env
      more files
