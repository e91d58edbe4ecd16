-- ===== src/Retry/Route.antt =====
-- `main` of harness/retry.py: one call for one failed packet. The random delay of a retry is not
-- modelled; nobody else writes the files during the call.
use codex_loop_orchestra.Prelude.{
  ℕ, ◌+◌, Bool, true, false, not, ◌&&◌, ◌||◌, String, List, [], ◌∷◌, ◌++◌, Option, none, some, Dict,
  lookup, insert, leb, ◌==◌, str_eq, if◌then◌else◌, any, get_or_default, or_else,
}
use codex_loop_orchestra.StateMachine.States.{State, ◌is◌}
use codex_loop_orchestra.StateMachine.Events.{Event, ◌matches◌}
use codex_loop_orchestra.StateMachine.Packet.{Packet, new_packet, log}
use codex_loop_orchestra.StateMachine.PacketId.{valid_pid}
use codex_loop_orchestra.Retry.Classes.{
  RetryClass, Action, retry_already_scheduled, circuit_open, duty_review_offtable,
  duty_review_repeat, duty_review_class, dead_letter_permanent, dead_letter_budget, retry,
  has_action, is_retryable, attempt_limit, first_match,
}
use codex_loop_orchestra.StateMachine.Reports.{truthy, text_eq}
use codex_loop_orchestra.Retry.Breaker.{BreakerState, breaker}

-- A line of events.ndjson that this program writes or looks for.
pub record RetryEvent : Type 0 where
  pub packet_id : String
  pub event : Event
  pub attempt : Option ℕ

-- The files: the ledger, the event stream, the breaker, the last failure class of each packet (in
-- the sidecar, and in an older ledger), the duty tickets and the dead letters.
pub record Files : Type 0 where
  pub packets : Dict Packet
  pub events : List RetryEvent
  pub breaker_state : BreakerState
  pub last_fail_class : Dict String
  pub legacy_fail_class : Dict String
  pub tickets : Dict String
  pub dead_letters : Dict String

-- The command line, the clock and the tables.
pub record Call : Type 0 where
  pub packet : String
  pub err : String
  pub now : ℕ
  pub classes : List RetryClass
  pub run_budget : ℕ
  pub breaker_fails : ℕ

abbrev pub append_event : String → Event → Option ℕ → Files → Files
append_event pid e attempt f = record f {
  events = f.events ++ record { packet_id = pid; event = e; attempt = attempt } ∷ [];
}

-- The event with the ticket for the duty officer.
abbrev pub duty_review : String → String → Files → Files
duty_review pid why f =
    append_event pid Event.duty_review none (record f { tickets = insert pid why f.tickets })

abbrev pub dead_letter : String → String → Files → Files
dead_letter pid reason f =
    append_event pid Event.budget_exhausted none
      (record f { dead_letters = insert pid reason f.dead_letters })

-- The packet that the ledger holds, or the default that is only in memory.
abbrev pub failed_packet : Packet
failed_packet = record new_packet { state = State.failed }

abbrev pub the_packet : String → Files → Packet
the_packet pid f = get_or_default (lookup pid f.packets) failed_packet

-- `sum(p.get("attempts", 0) for p in led["packets"].values())`
unfoldable pub total_retries : Dict Packet → ℕ
total_retries [] = 0
total_retries ((pid, p) ∷ rest) = p.attempts + total_retries rest

-- A `retry_dispatch` of this packet for this attempt is in the stream.
abbrev pub is_dispatch_of : String → ℕ → RetryEvent → Bool
is_dispatch_of pid n e =
    str_eq e.packet_id pid
    && (e.event matches Event.retry_dispatch)
    && elim e.attempt [ none ↦ false | some m ↦ m == n ]

abbrev pub has_retry_dispatch : String → ℕ → List RetryEvent → Bool
has_retry_dispatch pid n = any (is_dispatch_of pid n)

-- A packet that the ledger does not hold is admitted as FAILED.
abbrev pub admit_failed_packet : ℕ → String → Files → Files
admit_failed_packet now pid f = elim (lookup pid f.packets) [
  | none ↦ record f {
    packets = insert pid (log now State.failed "retry_admission" none failed_packet) f.packets;
  }
  | some _ ↦ f
]

abbrev pub no_history : Packet → Bool
no_history p = elim p.history [ [] ↦ true | _ ∷ _ ↦ false ]

-- Budget left: the retry is claimed once per attempt.
unfoldable pub schedule : Call → Packet → Files → Files × Action
schedule c p f =
    let n = p.attempts + 1 in
    let f' =
      if (p.state is State.failed) && no_history p
      then admit_failed_packet c.now c.packet f
      else f in
    if has_retry_dispatch c.packet n f'.events
    then (f', retry_already_scheduled)
    else (append_event c.packet Event.retry_dispatch (some n) f', retry)

-- The class decides, then the budgets.
unfoldable pub by_class : Call → RetryClass → Packet → ℕ → Files → Files × Action
by_class c m p total f =
    if not (is_retryable m)
    then if has_action m "duty_review"
      then (duty_review c.packet "class_action_duty_review" f, duty_review_class)
      else (dead_letter c.packet "permanent_class" f, dead_letter_permanent)
    else if leb (attempt_limit m) p.attempts || leb c.run_budget total
    then (dead_letter c.packet "budget_exhausted" f, dead_letter_budget)
    else schedule c p f

-- The class in the sidecar, or the ledger's older field.
abbrev pub load_last_fail_class : String → Files → Option String
load_last_fail_class pid f =
    or_else (truthy (lookup pid f.last_fail_class)) (lookup pid f.legacy_fail_class)

-- The second failure of one class in a row goes to the duty officer.
unfoldable pub on_class : Call → RetryClass → Packet → ℕ → Files → Files × Action
on_class c m p total f =
    let f' = record f { last_fail_class = insert c.packet m.name f.last_fail_class } in
    if text_eq (load_last_fail_class c.packet f) (some m.name)
    then (duty_review c.packet "2_consecutive_same_class" f', duty_review_repeat)
    else by_class c m p total f'

unfoldable pub on_match : Call → Option RetryClass → Packet → ℕ → Files → Files × Action
on_match c none p total f = (duty_review c.packet "regex_no_match" f, duty_review_offtable)
on_match c (some m) p total f = on_class c m p total f

module _ (re_search : String → String → Bool) where
  -- A packet in FAILED or TIMED_OUT, after the breaker has counted the failure.
  unfoldable pub route : Call → Packet → ℕ → Files → Files × Action
  route c p total f =
      let (st, is_open) = breaker c.now true c.breaker_fails f.breaker_state in
      let f' = record f { breaker_state = st } in
      if is_open
      then (duty_review c.packet "circuit_breaker_open" f', circuit_open)
      else on_match c (first_match re_search c.classes c.err) p total f'

  -- `none` is the exit on an invalid packet id, before any write.
  unfoldable pub main : Call → Files → Option (Files × Action)
  main c f =
      let p = the_packet c.packet f in
      if not (valid_pid c.packet)
      then none
      else if not ((p.state is State.failed) || (p.state is State.timed_out))
      then some (f, retry_already_scheduled)
      else some (route c p (total_retries (insert c.packet p f.packets)) f)
