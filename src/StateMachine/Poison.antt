-- ===== src/StateMachine/Poison.antt =====
-- An unknown event for a packet whose id is no file name ends every step.
use codex_loop_orchestra.Prelude.{
  ℕ, ◌+◌, ◌++◌, ◌≤◌, ◌≡◌, refl, ap, ◌∙◌, Bool, true, false, not, ◌&&◌, ◌||◌, String, List, ◌∷◌,
  Option, none, some, lookup, length, or_else, get_or_default, arith,
}
use codex_loop_orchestra.StateMachine.States.{State}
use codex_loop_orchestra.StateMachine.Events.{Event}
use codex_loop_orchestra.StateMachine.Table.{table, lookup_row}
use codex_loop_orchestra.StateMachine.Rows.{lookup_row-checked}
use codex_loop_orchestra.StateMachine.Packet.{Packet, EventRecord, Env, World, Outcome, aborted}
use codex_loop_orchestra.StateMachine.PacketId.{valid_pid}
use codex_loop_orchestra.StateMachine.Reports.{Attempt}
use codex_loop_orchestra.StateMachine.Advance.{
  Input, advance, by_row, by_table, to_dead_letter, stale_generation, stale_run,
  duplicate_generation, pre_spawn_failure, late_stop_confirmed, dispatch_confirmed,
  timeout_confirmed, release_review_failure,
}
use codex_loop_orchestra.StateMachine.Apply.{
  Machine, Result, exited, read_input, is_l2_job, is_info, apply_event, apply_all, admit, store,
}
use codex_loop_orchestra.StateMachine.Stream.{
  died, step, commit, read_events, new_lines, Ledger, cursor, size,
}
use codex_loop_orchestra.StateMachine.Cursor.{read_events-resume}

and_last : (a : Bool) → (a && false) ≡ false
and_last a = ground arith

-- A name that neither the table nor `INFO_EVENTS` has, with no attempt, for a packet whose id
-- `PACKET_ID_RE` refuses.
pub record IsPoison (i : Input) : Type 0 where
  pub text : String
  pub unknown_name : i.name ≡ Event.other text
  pub no_attempt : i.attempt ≡ Attempt.unknown
  pub unsafe_id : valid_pid i.pid ≡ false
  pub no_l2_job : is_l2_job i.pid ≡ false

abbrev is_unknown : Event → Bool
is_unknown (Event.other _) = true
is_unknown _ = false

no_row :
    (s : State) (e : Event) (o : Option (State × ℕ))
    → is_unknown e ≡ true
    → lookup_row s e table ≡ o
    → o ≡ none
no_row s e none u h = refl
no_row s e (some (t, n)) u h =
    cc (u, lookup_row-checked (λ s e t n. not (is_unknown e)) s e table t n refl h)

module _ (env : Env) (i : Input) (w : World) (p : Packet) (h : IsPoison i) where
  passed_by :
      or_else (stale_generation env i w p) (
        or_else (stale_run env i w p) (
          or_else (duplicate_generation env i w p) (
            or_else (pre_spawn_failure env i w p) (
              or_else (late_stop_confirmed env i w p) (
                or_else
                  (dispatch_confirmed env i w p)
                  (or_else (timeout_confirmed env i w p) (release_review_failure env i w p)))))))
      ≡ none
  unfolding stale_generation stale_run duplicate_generation pre_spawn_failure late_stop_confirmed
      dispatch_confirmed timeout_confirmed release_review_failure
  passed_by = rw (h.no_attempt, h.unknown_name) (simp and_last)

  aborts : advance env i w p ≡ aborted w
  unfolding advance by_table by_row to_dead_letter
  aborts =
      ap (λ (o : Option Outcome). get_or_default o (by_table env i w p)) passed_by
      ∙ ap (λ (o : Option (State × ℕ)). by_row env i o w p)
          (no_row p.state i.name (lookup_row p.state i.name table) (rw h.unknown_name) refl)
      ∙ rw h.unsafe_id

poison_exits :
    (env : Env) (ev : EventRecord) (m : Machine) (p : Packet)
    → IsPoison (read_input ev)
    → lookup (read_input ev).pid m.packets ≡ some p
    → apply_event env ev m ≡ exited m.world
unfolding apply_event admit store
poison_exits env ev m p h found =
    rw (seen (read_input ev) h) (rw found (rw (aborts env (read_input ev) m.world p h)))
  where
    seen : (i : Input) → IsPoison i → (is_l2_job i.pid || is_info i.name) ≡ false
    seen i k = rw (k.no_l2_job, k.unknown_name)

-- The loop from a state in which the first event exits.
exits_first :
    (env : Env) (ev : EventRecord) (evs : List EventRecord) (m : Machine) (w : World)
    → apply_event env ev m ≡ exited w
    → apply_all env (ev ∷ evs) m ≡ exited w
unfolding apply_all
exits_first env ev evs m w h = rw h

-- If the first unread event of the stream is an unknown name for a known packet with an unsafe
-- id, then every later step dies on it, at any time, with any settings and whatever has been
-- appended: the ledger and its cursor are never saved again.
pub poison_stops_every_step :
    (json_loads : List ℕ → Option EventRecord) (bytes : List ℕ) (led : Ledger) (ev : EventRecord)
    (rest : List EventRecord) (p : Packet)
    → cursor led ≤ length bytes
    → read_events json_loads (new_lines bytes (cursor led)) ≡ ev ∷ rest
    → IsPoison (read_input ev)
    → lookup (read_input ev).pid led.packets ≡ some p
    → (env : Env) (more : List ℕ) (w : World)
    → (w' : World) × (step json_loads env (bytes ++ more) w led ≡ died w')
unfolding step commit
poison_stops_every_step json_loads bytes led ev rest p h first poison found env more w =
    let m : Machine = record { world = record w { dead_this_step = 0 }; packets = led.packets } in
    let later =
      read_events json_loads
        (new_lines (bytes ++ more) (cursor led + size (new_lines bytes (cursor led)))) in
    let stream =
      read_events-resume json_loads bytes more (cursor led) h
      ∙ ap (λ (es : List EventRecord). es ++ later) first in
    (
      m.world,
      ap (λ (r : Result). commit env (cursor led + size (new_lines (bytes ++ more) (cursor led))) r)
          (ap (λ (es : List EventRecord). apply_all env es m) stream
            ∙ exits_first env ev (rest ++ later) m m.world (poison_exits env ev m p poison found)),
    )
