-- ===== src/StateMachine/Apply.antt =====
-- `apply_event` of harness/statemachine_v2.py on the ledger, and the loop of `step` over the
-- events that one read of the stream yields.
use codex_loop_orchestra.Prelude.{
  ◌≡◌, refl, Bool, true, false, ◌||◌, String, List, [], ◌∷◌, Option, none, some, Dict, lookup,
  insert, get_or_default, or_else, starts_with, if◌then◌else◌,
}
use codex_loop_orchestra.StateMachine.States.{State}
use codex_loop_orchestra.StateMachine.Events.{Event, parse_event}
use codex_loop_orchestra.StateMachine.Packet.{
  Packet, new_packet, EventRecord, Env, World, Outcome, applied, aborted,
}
use codex_loop_orchestra.StateMachine.Reports.{
  truthy, read_attempt, event_attempt_field, detail_run_id, detail_attempt, detail_phase,
}
use codex_loop_orchestra.StateMachine.Advance.{Input, advance}

-- The files and `led["packets"]`.
pub record Machine : Type 0 where
  pub world : World
  pub packets : Dict Packet

-- The event's local variables.
unfoldable pub read_input : EventRecord → Input
read_input ev = record {
  pid = get_or_default ev.packet_id "?";
  name = parse_event (get_or_default ev.event "?");
  run_id = or_else (truthy ev.run_id) (detail_run_id ev.detail);
  attempt = read_attempt (event_attempt_field ev.attempt (detail_attempt ev.detail));
  phase = detail_phase ev.detail;
}

-- `pid.startswith(("l2v-", "v2job-"))`
abbrev pub is_l2_job : String → Bool
is_l2_job pid = starts_with "l2v-" pid || starts_with "v2job-" pid

abbrev pub is_info : Event → Bool
is_info (Event.info _) = true
is_info _ = false

-- The two events that may create a packet.
abbrev pub creates : Event → Bool
creates Event.planned = true
creates Event.skeleton_ready = true
creates _ = false

-- What a call of `apply_event` leaves: the machine, or `SystemExit(1)` with the files only.
pub data Result : Type 0 where
  running : Machine → Option State → Result
  exited : World → Result

-- The packet is a mutable entry of the ledger: its new record is stored.
unfoldable pub store : String → Dict Packet → Outcome → Result
store pid packets (applied w q s) =
    running (record { world = w; packets = insert pid q packets }) (some s)
store pid packets (aborted w) = exited w

unfoldable pub admit : Env → Input → Machine → Option Packet → Result
admit env i m (some p) = store i.pid m.packets (advance env i m.world p)
admit env i m none =
    if creates i.name
    then store i.pid m.packets (advance env i m.world new_packet)
    else running m none

unfoldable pub apply_event : Env → EventRecord → Machine → Result
apply_event env ev m =
    let i = read_input ev in
    if is_l2_job i.pid || is_info i.name
    then running m none
    else admit env i m (lookup i.pid m.packets)

abbrev pub then_apply : (Machine → Result) → Result → Result
then_apply f (running m _) = f m
then_apply f (exited w) = exited w

-- The `while` loop of `step`, over the events that it reads.
unfoldable pub apply_all : Env → List EventRecord → Machine → Result
apply_all env [] m = running m none
apply_all env (ev ∷ evs) m = then_apply (apply_all env evs) (apply_event env ev m)

-- If the loop ends well, so did each event.
pub then_apply_running :
    (f : Machine → Result) (o : Result) {m' : Machine} {r : Option State}
    → then_apply f o ≡ running m' r
    → (m : Machine) × (s : Option State) × (o ≡ running m s) × (f m ≡ running m' r)
then_apply_running f (running m s) h = (m, s, refl, h)
then_apply_running f (exited w) h = cc
