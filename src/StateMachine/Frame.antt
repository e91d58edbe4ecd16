-- ===== src/StateMachine/Frame.antt =====
-- What an event leaves alone, and how the ledger follows the packet.
use codex_loop_orchestra.Prelude.{
  ◌≡◌, refl, inl, inr, ◌||◌, String, Option, none, some, lookup, insert, Bool-cases,
}
use codex_loop_orchestra.StateMachine.States.{State}
use codex_loop_orchestra.StateMachine.Packet.{
  Packet, new_packet, EventRecord, Env, Outcome, applied, aborted, World,
}
use codex_loop_orchestra.StateMachine.Advance.{Input, advance}
use codex_loop_orchestra.StateMachine.Apply.{
  Machine, running, read_input, is_l2_job, is_info, creates, store, admit, apply_event,
}

-- The packet that an event finds: the ledger's, or a new one.
pub data Found (pid : String) (m : Machine) : Packet → Type 0 where
  known : {p : Packet} → lookup pid m.packets ≡ some p → Found pid m p
  created : lookup pid m.packets ≡ none → Found pid m new_packet

-- An event that is applied either passes the ledger by or stores what `advance` makes of the
-- packet that it names.
pub data Applied (env : Env) (i : Input) (m m' : Machine) : Type 0 where
  passed : m' ≡ m → Applied env i m m'
  advanced :
      (p q : Packet) (w : World) (s : State)
      → Found i.pid m p
      → advance env i m.world p ≡ applied w q s
      → m' ≡ record { world = w; packets = insert i.pid q m.packets }
      → Applied env i m m'

stored :
    (env : Env) (i : Input) (m m' : Machine) (r : Option State) (p : Packet) (o : Outcome)
    → Found i.pid m p
    → advance env i m.world p ≡ o
    → store i.pid m.packets o ≡ running m' r
    → Applied env i m m'
unfolding store
stored env i m m' r p (applied w q s) f a h = advanced p q w s f a (cc)
stored env i m m' r p (aborted w) f a h = cc

admitted :
    (env : Env) (i : Input) (m m' : Machine) (r : Option State) (o : Option Packet)
    → lookup i.pid m.packets ≡ o
    → admit env i m o ≡ running m' r
    → Applied env i m m'
unfolding admit
admitted env i m m' r (some p) e h =
    stored env i m m' r p (advance env i m.world p) (known e) refl h
admitted env i m m' r none e h = elim (Bool-cases (creates i.name)) [
  | inl c ↦
      stored env i m m' r new_packet (advance env i m.world new_packet) (created e) refl (rw c at h)
  | inr n ↦ passed (same (rw n at h))
]
  where
    same : running m none ≡ running m' r → m' ≡ m
    same q = cc

pub apply_event-Applied :
    (env : Env) (ev : EventRecord) (m m' : Machine) (r : Option State)
    → apply_event env ev m ≡ running m' r
    → Applied env (read_input ev) m m'
unfolding apply_event
apply_event-Applied env ev m m' r h =
    elim (Bool-cases (is_l2_job (read_input ev).pid || is_info (read_input ev).name)) [
      | inl c ↦ passed (same (rw c at h))
      | inr n ↦
          admitted env (read_input ev) m m' r (lookup (read_input ev).pid m.packets) refl
            (rw n at h)
    ]
  where
    same : running m none ≡ running m' r → m' ≡ m
    same q = cc
