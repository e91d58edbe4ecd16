-- ===== src/StateMachine/WatchdogLaws.antt =====
-- What the watchdog makes of each packet.
use codex_loop_orchestra.Prelude.{
  ◌≡◌, refl, inl, inr, String, [], ◌∷◌, Option, none, some, Dict, lookup, Bool-cases, str_eq,
  eq_iff,
}
use codex_loop_orchestra.StateMachine.Packet.{Packet, Env}
use codex_loop_orchestra.StateMachine.Watchdog.{watch, watchdog}

abbrev pub watched : Env → String → Option Packet → Option Packet
watched env pid none = none
watched env pid (some p) = some (watch env pid p)

pub lookup-watchdog :
    (env : Env) (packets : Dict Packet) (pid : String)
    → lookup pid (watchdog env packets).0 ≡ watched env pid (lookup pid packets)
unfolding watchdog lookup
lookup-watchdog env [] pid = refl
lookup-watchdog env ((j, p) ∷ rest) pid = elim (Bool-cases (str_eq j pid)) [
  | inl h ↦ rw h (rw ((eq_iff j pid).0 h))
  | inr h ↦ rw h (lookup-watchdog env rest pid)
]
