-- ===== src/Retry/RouteLaws/OnTable.antt =====
-- What harness/retry.py writes has a row in the table of the state machine.
use mathlib.Core.Path.{subst}
use codex_loop_orchestra.Prelude.{
  ℕ, ◌+◌, ◌≡◌, refl, sym, ◌∙◌, ◌⊎◌, inl, inr, Bool, true, false, ◌||◌, String, [], ◌∷◌, ◌++◌,
  Option, none, some, if◌then◌else◌,
}
use codex_loop_orchestra.StateMachine.States.{State, ◌is◌, is_either}
use codex_loop_orchestra.StateMachine.Events.{Event}
use codex_loop_orchestra.StateMachine.Table.{table, lookup_row}
use codex_loop_orchestra.StateMachine.Packet.{Packet}
use codex_loop_orchestra.Retry.Classes.{Action, retry, retry_already_scheduled}
use codex_loop_orchestra.Retry.Route.{
  RetryEvent, Files, Call, append_event, duty_review, dead_letter, the_packet, has_retry_dispatch,
  schedule, main,
}
use codex_loop_orchestra.Retry.RouteLaws.{Leaves, ready, ready-events, main_leaves}

-- The stream has grown by at most one event: of this packet, and with a row from its state.
abbrev pub Emits : Call → Packet → Files → Files × Action → Type 0
Emits c p f r =
    (r.0.events ≡ f.events)
    ⊎ ((e : RetryEvent) × (r.0.events ≡ f.events ++ e ∷ [])
        × (e.packet_id ≡ c.packet)
        × (x : State × ℕ) × (lookup_row p.state e.event table ≡ some x))

-- The three events have rows from both states.
abbrev HasRows : State → Type 0
HasRows s =
    ((x : State × ℕ) × (lookup_row s Event.retry_dispatch table ≡ some x))
    × ((x : State × ℕ) × (lookup_row s Event.duty_review table ≡ some x))
    × ((x : State × ℕ) × (lookup_row s Event.budget_exhausted table ≡ some x))

failed-HasRows : HasRows State.failed
unfolding lookup_row
failed-HasRows = (
  ((State.dispatchable, 9), refl),
  ((State.duty_review, 10), refl),
  ((State.dead_letter, 15), refl),
)

timed_out-HasRows : HasRows State.timed_out
unfolding lookup_row
timed_out-HasRows = (
  ((State.dispatchable, 37), refl),
  ((State.duty_review, 39), refl),
  ((State.dead_letter, 14), refl),
)

module _ (re_search : String → String → Bool) (c : Call) (p : Packet) (total : ℕ) (f : Files)
    (rows : HasRows p.state) where
  one_event :
      (g h : Files) (a : Action) (e : Event) (n : Option ℕ)
      → g.events ≡ f.events
      → h.events ≡ g.events ++ record { packet_id = c.packet; event = e; attempt = n } ∷ []
      → ((x : State × ℕ) × (lookup_row p.state e table ≡ some x))
      → Emits c p f (h, a)
  one_event g h a e n same grown found = inr (
    record { packet_id = c.packet; event = e; attempt = n },
    rw same at grown,
    refl,
    found.0,
    found.1,
  )

  each_exit_on_table : Leaves re_search (Emits c p f) c p total f
  unfolding schedule
  each_exit_on_table = record {
    review = λ why g a same _.
        one_event g (duty_review c.packet why g) a Event.duty_review none same refl rows.1;
    dead = λ reason g a same _.
        one_event g (dead_letter c.packet reason g) a Event.budget_exhausted none same refl rows.2;
    scheduled = λ m g same _ _ _ _.
        claim g same (has_retry_dispatch c.packet (p.attempts + 1) (ready c p g).events);
  }
    where
      claim :
          (g : Files)
          → g.events ≡ f.events
          → (b : Bool)
          → Emits c p f (
              if b then (ready c p g, retry_already_scheduled) else (
                append_event c.packet Event.retry_dispatch (some (p.attempts + 1)) (ready c p g),
                retry,
              ))
      claim g same true = inl (ready-events c p g ∙ same)
      claim g same false =
          one_event (ready c p g)
            (append_event c.packet Event.retry_dispatch (some (p.attempts + 1)) (ready c p g)) retry
            Event.retry_dispatch (some (p.attempts + 1)) (ready-events c p g ∙ same) refl rows.0

rows_of : (s : State) → ((s is State.failed) || (s is State.timed_out)) ≡ true → HasRows s
rows_of s h = elim (is_either s State.failed State.timed_out h) [
  | inl e ↦ subst HasRows (sym e) failed-HasRows
  | inr e ↦ subst HasRows (sym e) timed_out-HasRows
]

-- A call of `main` appends at most one event; it names the packet of the call, and the state
-- machine has a row for it from the packet's state, so it is never off-table.
pub main-Emits :
    (re_search : String → String → Bool) (c : Call) (f g : Files) (a : Action)
    → main re_search c f ≡ some (g, a)
    → Emits c (the_packet c.packet f) f (g, a)
main-Emits re_search c f g a =
    main_leaves re_search (Emits c (the_packet c.packet f) f) c f g a (inl refl)
      λ w. each_exit_on_table re_search c (the_packet c.packet f) _ f (rows_of _ w)
