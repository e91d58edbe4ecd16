-- ===== src/StateMachine/Absorbed.antt =====
-- The events that the watchdog of harness/statemachine_v2.py appends come back with the next read.
use mathlib.Core.List.{Memᴰ}
use codex_loop_orchestra.Prelude.{
  arith, ◌≡◌, refl, ap, ◌∙◌, inl, inr, true, false, String, List, [], ◌∷◌, none, some, Dict, lookup,
  insert, Bool-cases, str_eq, eq_iff,
}
use codex_loop_orchestra.StateMachine.States.{State}
use codex_loop_orchestra.StateMachine.Events.{Event, parse_event, event_name}
use codex_loop_orchestra.StateMachine.Packet.{
  Packet, Entry, EventRecord, Env, World, Outcome, log, applied,
}
use codex_loop_orchestra.StateMachine.Watchdog.{watch, watchdog, fires, timeout_event}
use codex_loop_orchestra.StateMachine.WatchdogLaws.{watched, lookup-watchdog}
use codex_loop_orchestra.StateMachine.Timeouts.{IsStuck, IsStuck-fires}
use codex_loop_orchestra.StateMachine.Outcomes.{advance_timeout, handled_if}
use codex_loop_orchestra.StateMachine.Apply.{
  Machine, running, apply_event, admit, store, read_input, is_l2_job, is_info,
}
use codex_loop_orchestra.StateMachine.Advance.{
  Input, advance, stale_generation, stale_run, duplicate_generation, pre_spawn_failure,
  late_stop_confirmed, dispatch_confirmed, timeout_confirmed,
}

module _ (env : Env) (i : Input) (w : World) (p : Packet) (hn : i.name ≡ Event.timeout)
    (hs : p.state ≡ State.timed_out) where
  -- The packet stays TIMED_OUT, and only its history changes.
  abbrev Quiet : Outcome → Type 0
  Quiet o = (h : List Entry) × (o ≡ applied w (record p { history = h }) State.timed_out)

  only_logged : (via : String) → Quiet (applied w (log env.now p.state via none p) p.state)
  only_logged via =
      ((log env.now p.state via none p).history, ap (applied w (log env.now p.state via none p)) hs)

  absorbs : Quiet (advance env i w p)
  unfolding stale_generation stale_run duplicate_generation pre_spawn_failure late_stop_confirmed
      dispatch_confirmed timeout_confirmed
  absorbs =
      advance_timeout Quiet env i w p
        (applied w (log env.now State.timed_out "timeout_confirmed_idempotent" none p)
          State.timed_out)
        (handled_if Quiet _ _ (λ _. only_logged "stale_generation_ignored"))
        (handled_if Quiet _ _ (λ _. only_logged "stale_run_id_ignored"))
        (handled_if Quiet _ _ (λ _. only_logged "duplicate_generation_ignored"))
        (handled_if Quiet _ _ (λ h. cc (rw hn at h))) (handled_if Quiet _ _ (λ h. cc (rw hn at h)))
        (handled_if Quiet _ _ (λ h. cc (rw hn at h))) (rw (hn, hs)) (_, refl)

same_packet : {p q : Packet} → some q ≡ some p → q ≡ p
same_packet h = cc

appended :
    (env : Env) (packets : Dict Packet) (pid : String) (p : Packet)
    → lookup pid packets ≡ some p
    → fires env pid p ≡ true
    → Memᴰ (timeout_event env pid) (watchdog env packets).1
unfolding watchdog lookup
appended env [] pid p found late = absurd (ground (arith, found))
appended env ((j, q) ∷ rest) pid p found late = elim (Bool-cases (str_eq j pid)) [
  | inl same ↦ rw ((eq_iff j pid).0 same, same_packet (rw same at found), late) (Memᴰ.head refl)
  | inr other ↦
      let ih = appended env rest pid p (rw other at found) late in
      elim (Bool-cases (fires env j q)) [ inl f ↦ rw f (Memᴰ.tail ih) | inr f ↦ rw f ih ]
]

-- An event of a packet of the ledger stores what `advance` makes of it.
taken :
    (env : Env) (ev : EventRecord) (m : Machine) {w : World} {p q : Packet} {s : State}
    → is_l2_job (read_input ev).pid ≡ false
    → is_info (read_input ev).name ≡ false
    → lookup (read_input ev).pid m.packets ≡ some p
    → advance env (read_input ev) m.world p ≡ applied w q s
    → apply_event env ev m
      ≡ running (record { world = w; packets = insert (read_input ev).pid q m.packets }) (some s)
unfolding apply_event admit store
taken env ev m a b c d = rw (a, b, c, d) refl

-- For a packet that the watchdog times out, it appends the packet's timeout event; when that event
-- is applied to the ledger that it leaves, at any later time, the packet stays TIMED_OUT, only its
-- history changes, and no file is written. The packet's id is not one of a level-2 job.
pub watchdog_absorbed :
    (env later : Env) (w : World) (packets : Dict Packet) (pid : String) (p : Packet)
    → lookup pid packets ≡ some p
    → IsStuck env pid p
    → is_l2_job pid ≡ false
    → Memᴰ (timeout_event env pid) (watchdog env packets).1
      × ((q : Packet) × (h : List Entry) × (lookup pid (watchdog env packets).0 ≡ some q)
          × (q.state ≡ State.timed_out)
          × (apply_event later
                (timeout_event env pid)
                (record { world = w; packets = (watchdog env packets).0 })
              ≡ running
                  (record {
                    world = w;
                    packets = insert pid (record q { history = h }) (watchdog env packets).0;
                  })
                  (some State.timed_out)))
unfolding read_input watch parse_event event_name
watchdog_absorbed env later w packets pid p found stuck packet =
    let late = IsStuck-fires env pid p stuck in
    let now_in = lookup-watchdog env packets pid ∙ ap (watched env pid) found in
    let (h, e) =
      absorbs later (read_input (timeout_event env pid)) w (watch env pid p) refl (rw late refl) in
    (
      appended env packets pid p found late,
      (
        watch env pid p,
        h,
        now_in,
        rw late refl,
        taken later (timeout_event env pid)
            (record { world = w; packets = (watchdog env packets).0 }) packet refl now_in e,
      ),
    )
