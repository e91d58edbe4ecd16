-- ===== src/Retry/RouteLaws/Once.antt =====
-- harness/retry.py dispatches an attempt of a packet at most once.
use codex_loop_orchestra.Prelude.{
  ℕ, ◌+◌, ◌≤◌, ◌≡◌, refl, ap, ◌∙◌, inl, inr, Bool, true, false, ◌&&◌, ◌||◌, String, List, [], ◌∷◌,
  ◌++◌, some, arith, ◌==◌, str_eq, eq_iff, ==_iff, if◌then◌else◌, Bool-cases, and_true,
}
use codex_loop_orchestra.StateMachine.Events.{Event}
use codex_loop_orchestra.StateMachine.Packet.{Packet}
use codex_loop_orchestra.Retry.Classes.{Action, retry, retry_already_scheduled}
use codex_loop_orchestra.Retry.Route.{
  RetryEvent, Files, Call, append_event, duty_review, dead_letter, the_packet, has_retry_dispatch,
  is_dispatch_of, schedule, main,
}
use codex_loop_orchestra.Retry.RouteLaws.{Leaves, ready, ready-events, main_leaves}

-- How often the stream has a `retry_dispatch` of this packet for this attempt.
abbrev pub dispatches : String → ℕ → List RetryEvent → ℕ
dispatches pid n [] = 0
dispatches pid n (e ∷ es) = (if is_dispatch_of pid n e then 1 else 0) + dispatches pid n es

abbrev pub DispatchedOnce : Files → Type 0
DispatchedOnce f = (pid : String) (n : ℕ) → dispatches pid n f.events ≤ 1

dispatches-append :
    (pid : String) (n : ℕ) (es : List RetryEvent) (e : RetryEvent)
    → dispatches pid n (es ++ e ∷ [])
      ≡ dispatches pid n es + (if is_dispatch_of pid n e then 1 else 0)
dispatches-append pid n [] e = omega arith
dispatches-append pid n (x ∷ es) e = omega (arith, dispatches-append pid n es e)

none_dispatched :
    (pid : String) (n : ℕ) (es : List RetryEvent)
    → has_retry_dispatch pid n es ≡ false
    → dispatches pid n es ≡ 0
none_dispatched pid n [] h = refl
none_dispatched pid n (e ∷ es) h =
    let (here, later) = neither (is_dispatch_of pid n e) _ h in
    rw here (omega (arith, none_dispatched pid n es later))
  where
    neither : (a b : Bool) → (a || b) ≡ false → (a ≡ false) × (b ≡ false)
    neither a b k = ground arith

-- Another kind of event is no dispatch.
other_event :
    (f g : Files) (e : RetryEvent)
    → f.events ≡ g.events ++ e ∷ []
    → ((pid : String) (n : ℕ) → is_dispatch_of pid n e ≡ false)
    → DispatchedOnce g
    → DispatchedOnce f
other_event f g e grown no_dispatch once pid n =
    let d = ap (dispatches pid n) grown ∙ dispatches-append pid n g.events e in
    ground (arith, d, no_dispatch pid n, once pid n)

abbrev claimed : String → ℕ → RetryEvent
claimed pid n = record { packet_id = pid; event = Event.retry_dispatch; attempt = some n }

-- A claim of an attempt that the stream does not have.
fresh_claim :
    (g : Files) (own : String) (k : ℕ)
    → has_retry_dispatch own k g.events ≡ false
    → DispatchedOnce g
    → DispatchedOnce (append_event own Event.retry_dispatch (some k) g)
fresh_claim g own k fresh once pid n =
    let d = dispatches-append pid n g.events (claimed own k) in
    elim (Bool-cases (is_dispatch_of pid n (claimed own k))) [
      | inr other ↦ ground (arith, d, other, once pid n)
      | inl same ↦
          let (this_packet, this_attempt) = and_true (str_eq own pid && true) (k == n) same in
          let at_own = none_dispatched own k g.events fresh in
          let zero_here = moved (eq_of own pid this_packet) ((==_iff k n).0 this_attempt) at_own in
          ground (arith, d, same, zero_here)
    ]
  where
    eq_of : (s t : String) → (str_eq s t && true) ≡ true → s ≡ t
    eq_of s t h = (eq_iff s t).0 (and_true _ _ h).0

    moved :
        {s : String} {m : ℕ}
        → own ≡ s
        → k ≡ m
        → dispatches own k g.events ≡ 0
        → dispatches s m g.events ≡ 0
    moved e e' h = rw (← e, ← e') h

each_exit_once :
    (re_search : String → String → Bool) (c : Call) (p : Packet) (total : ℕ) (f : Files)
    → DispatchedOnce f
    → Leaves re_search (λ r. DispatchedOnce r.0) c p total f
unfolding schedule
each_exit_once re_search c p total f once = record {
  review = λ why g a same _.
      other_event (duty_review c.packet why g) g _ refl (λ pid n. plain pid _) (again g same);
  dead = λ reason g a same _.
      other_event (dead_letter c.packet reason g) g _ refl (λ pid n. plain pid _) (again g same);
  scheduled = λ m g same _ _ _ _.
      claim (ready c p g) (again (ready c p g) (ready-events c p g ∙ same))
        (has_retry_dispatch c.packet (p.attempts + 1) (ready c p g).events) refl;
}
  where
    again : (g : Files) → g.events ≡ f.events → DispatchedOnce g
    again g same pid n = rw same (once pid n)

    plain : (pid : String) (b : Bool) → ((str_eq c.packet pid && false) && b) ≡ false
    plain pid b = ground arith

    claim :
        (g : Files)
        → DispatchedOnce g
        → (b : Bool) → has_retry_dispatch c.packet (p.attempts + 1) g.events ≡ b
        → DispatchedOnce (
            let r : Files × Action =
              (if b then (g, retry_already_scheduled) else (
                append_event c.packet Event.retry_dispatch (some (p.attempts + 1)) g,
                retry,
              )) in
            r.0)
    claim g o true e = o
    claim g o false e = fresh_claim g c.packet (p.attempts + 1) e o

-- However often and for whatever packets the program is called, no attempt of a packet is
-- dispatched twice: a call keeps that property of the stream.
pub main-DispatchedOnce :
    (re_search : String → String → Bool) (c : Call) (f g : Files) (a : Action)
    → DispatchedOnce f
    → main re_search c f ≡ some (g, a)
    → DispatchedOnce g
main-DispatchedOnce re_search c f g a once =
    main_leaves re_search (λ r. DispatchedOnce r.0) c f g a once
      (λ _. each_exit_once re_search c (the_packet c.packet f) _ f once)
