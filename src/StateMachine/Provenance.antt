-- ===== src/StateMachine/Provenance.antt =====
-- Which events a packet needs on its way into a set of states.
use mathlib.Core.List.{Memᴰ}
use codex_loop_orchestra.StateMachine.Table.{table, lookup_row}
use codex_loop_orchestra.Prelude.{
  ℕ, not, all, ◌≡◌, refl, sym, ap, ◌∙◌, ◌⊎◌, inl, inr, Bool, true, false, ◌||◌, String, List, [],
  ◌∷◌, Option, none, some, lookup, lookup-insert, arith, Bool-cases, if◌then◌else◌, str_eq, eq_iff,
}
use codex_loop_orchestra.StateMachine.States.{State}
use codex_loop_orchestra.StateMachine.Events.{Event}
use codex_loop_orchestra.StateMachine.Packet.{Packet, EventRecord, Env, World}
use codex_loop_orchestra.StateMachine.Advance.{Input}
use codex_loop_orchestra.StateMachine.Apply.{
  Machine, running, read_input, apply_event, apply_all, then_apply_running,
}
use codex_loop_orchestra.StateMachine.Edges.{
  Move, stays, buried, along, requeued, exhausted, reviewed, l2_exhausted,
}
use codex_loop_orchestra.StateMachine.Moves.{advance-Move}
use codex_loop_orchestra.StateMachine.Frame.{
  Found, known, created, Applied, passed, advanced, apply_event-Applied,
}
use codex_loop_orchestra.StateMachine.Rows.{lookup_row-checked}

abbrev packet_in : (State → Bool) → Option Packet → Bool
packet_in S none = false
packet_in S (some p) = S p.state

-- The ledger holds the packet, in a state of the set.
abbrev pub in_states : (State → Bool) → String → Machine → Bool
in_states S pid m = packet_in S (lookup pid m.packets)

-- The event names the packet and is of the given kind.
abbrev pub IsEventOf : (Event → Bool) → String → EventRecord → Type 0
IsEventOf E pid ev = ((read_input ev).pid ≡ pid) × (E (read_input ev).name ≡ true)

-- The set is entered from outside only by events of the kind, and not by a new packet.
record IsGate (S : State → Bool) (E : Event → Bool) : Type 0 where
  outside : S State.none_state ≡ false
  entry :
      (env : Env) (w : World) (i : Input) (p q : Packet)
      → Move env w i p q
      → S q.state ≡ true
      → (S p.state ≡ true) ⊎ (E i.name ≡ true)

module _ (S : State → Bool) (E : Event → Bool) (gate : IsGate S E) (pid : String) where
  entered :
      (m : Machine) (i : Input) (p q : Packet)
      → Found i.pid m p
      → i.pid ≡ pid
      → (S p.state ≡ true) ⊎ (E i.name ≡ true)
      → (in_states S pid m ≡ true) ⊎ (E i.name ≡ true)
  entered m i p q f e (inr kind) = inr kind
  entered m i p q (known h) e (inl was_in) = inl (rw (← e) (ap (packet_in S) h ∙ was_in))
  entered m i p q (created h) e (inl was_in) = cc gate.outside

  step_needs :
      (env : Env) (ev : EventRecord) (m m' : Machine)
      → Applied env (read_input ev) m m'
      → in_states S pid m' ≡ true
      → (in_states S pid m ≡ true) ⊎ IsEventOf E pid ev
  step_needs env ev m m' (passed e) h = inl (rw (← e) h)
  step_needs env ev m m' (advanced p q w s f a e) h =
      elim (Bool-cases (str_eq (read_input ev).pid pid)) [
        | inl same ↦ at_packet ((eq_iff _ _).0 same) (rw same at after)
        | inr other ↦ inl (rw other at after)
      ]
    where
      after :
          packet_in S (if str_eq (read_input ev).pid pid then some q else lookup pid m.packets)
          ≡ true
      after =
          ap (packet_in S) (sym (lookup-insert (read_input ev).pid pid q m.packets)) ∙ (rw e at h)

      at_packet :
          (read_input ev).pid ≡ pid
          → S q.state ≡ true
          → (in_states S pid m ≡ true) ⊎ IsEventOf E pid ev
      at_packet same now_in =
          elim (entered m (read_input ev) p q f same (
            gate.entry env m.world (read_input ev) p q
              (advance-Move env (read_input ev) m.world w p q s a).1 now_in)) [
                | inl was ↦ inl was
                | inr kind ↦ inr (same, kind)
              ]

  stream_needs :
      (env : Env) (evs : List EventRecord) (m m' : Machine) (r : Option State)
      → apply_all env evs m ≡ running m' r
      → in_states S pid m' ≡ true
      → (in_states S pid m ≡ true) ⊎ ((ev : EventRecord) × Memᴰ ev evs × IsEventOf E pid ev)
  unfolding apply_all
  stream_needs env [] m m' r h now_in = inl (rw (← same h) at now_in)
    where
      same : running m none ≡ running m' r → m ≡ m'
      same q = cc
  stream_needs env (ev ∷ evs) m m' r h now_in =
      let (m1, s1, e, h1) = then_apply_running (apply_all env evs) (apply_event env ev m) h in
      elim (stream_needs env evs m1 m' r h1 now_in) [
        | inl early ↦ elim (step_needs env ev m m1 (apply_event-Applied env ev m m1 s1 e) early) [
          | inl was ↦ inl was
          | inr first ↦ inr (ev, Memᴰ.head refl, first)
        ]
        | inr later ↦ inr (later.0, Memᴰ.tail later.1, later.2)
      ]

-- The rows of the table respect the gate.
abbrev row_respects : (State → Bool) → (Event → Bool) → State → Event → State → ℕ → Bool
row_respects S E s e t n = not (S t) || S s || E e

-- The targets of the rules outside the table.
abbrev sinks : List State
sinks =
    State.none_state ∷ State.dead_letter ∷ State.dispatchable ∷ State.duty_review
    ∷ State.sol_adjudicate ∷ []

-- A gate, by evaluation: the rows respect it, and the sinks lie outside.
IsGate-by_table :
    (S : State → Bool) (E : Event → Bool)
    → all (λ r. row_respects S E r.from_state r.event r.to_state r.number) table ≡ true
    → all (λ s. not (S s)) sinks ≡ true
    → IsGate S E
IsGate-by_table S E rows out = record { outside = ground arith; entry = enters }
  where
    by_row :
        (s : State) (e : Event) (t : State) (n : ℕ)
        → lookup_row s e table ≡ some (t, n)
        → S t ≡ true
        → (S s ≡ true) ⊎ (E e ≡ true)
    by_row s e t n h now_in =
        let ok = lookup_row-checked (row_respects S E) s e table t n rows h in ground arith

    never : {A : Type 0} (q : Packet) (s : State) → q.state ≡ s → S s ≡ false → S q.state ≡ true → A
    never q s e o h = cc (ap S e)

    enters :
        (env : Env) (w : World) (i : Input) (p q : Packet)
        → Move env w i p q
        → S q.state ≡ true
        → (S p.state ≡ true) ⊎ (E i.name ≡ true)
    enters env w i p q (stays _ e) h = inl (rw (← e) h)
    enters env w i p q (along num _ e _) h = by_row p.state i.name q.state num e h
    enters env w i p q (buried _ _ e) h = never q State.dead_letter e (ground arith) h
    enters env w i p q (requeued _ _ _ e) h = never q State.dispatchable e (ground arith) h
    enters env w i p q (exhausted _ _ _ e) h = never q State.duty_review e (ground arith) h
    enters env w i p q (reviewed _ _ _ e) h = never q State.sol_adjudicate e (ground arith) h
    enters env w i p q (l2_exhausted _ _ _ _ e) h = never q State.sol_adjudicate e (ground arith) h

-- One state, and one event.
abbrev pub is_done : State → Bool
is_done State.done = true
is_done _ = false

abbrev pub is_release : Event → Bool
is_release Event.release_merge = true
is_release _ = false

abbrev pub is_merged : State → Bool
is_merged State.merged = true
is_merged _ = false

abbrev pub is_merge : Event → Bool
is_merge Event.merged = true
is_merge _ = false

-- The states behind an acceptance, up to the merge.
abbrev pub is_accepted : State → Bool
is_accepted State.accepted = true
is_accepted State.merged = true
is_accepted _ = false

abbrev pub is_acceptance : Event → Bool
is_acceptance Event.acceptance_pass = true
is_acceptance Event.verdict_pass = true
is_acceptance _ = false

merged_accepted :
    (o : Option Packet) → packet_in is_merged o ≡ true → packet_in is_accepted o ≡ true
merged_accepted none h = h
merged_accepted (some p) h = ground arith

module _ (env : Env) (evs : List EventRecord) (m m' : Machine) (r : Option State) (pid : String)
    (h : apply_all env evs m ≡ running m' r) where
  -- Whatever the stream of events, a packet that reaches DONE was DONE before or was named by a
  -- `release_merge` event of the stream.
  pub done_needs_release :
      in_states is_done pid m' ≡ true
      → (in_states is_done pid m ≡ true)
        ⊎ ((ev : EventRecord) × Memᴰ ev evs × IsEventOf is_release pid ev)
  done_needs_release =
      stream_needs is_done is_release (IsGate-by_table is_done is_release refl refl) pid env evs m
        m' r h

  -- A packet that reaches MERGED was ACCEPTED or MERGED before the stream, or the stream has an
  -- `acceptance_pass` or `verdict_pass` event for it.
  pub merged_needs_acceptance :
      in_states is_merged pid m' ≡ true
      → (in_states is_accepted pid m ≡ true)
        ⊎ ((ev : EventRecord) × Memᴰ ev evs × IsEventOf is_acceptance pid ev)
  merged_needs_acceptance now_in =
      stream_needs is_accepted is_acceptance (IsGate-by_table is_accepted is_acceptance refl refl)
        pid env evs m m' r h (merged_accepted (lookup pid m'.packets) now_in)
