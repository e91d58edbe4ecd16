-- ===== src/StateMachine/Caps/Ledger.antt =====
-- The caps hold of every packet after any events.
use mathlib.Core.Path.{subst}
use codex_loop_orchestra.Prelude.{
  ◌≤◌, ◌≡◌, refl, sym, ◌∙◌, true, false, String, List, [], ◌∷◌, Option, some, lookup, insert,
  lookup-insert, arith, str_eq, eq_iff, if◌then◌else◌, Bool-cases, inl, inr, can_read,
}
use codex_loop_orchestra.StateMachine.States.{State}
use codex_loop_orchestra.StateMachine.Packet.{Packet, new_packet, EventRecord, Env, World}
use codex_loop_orchestra.StateMachine.Advance.{Input, replan_cap, timeout_retry_max}
use codex_loop_orchestra.StateMachine.Outcomes.{Ensures}
use codex_loop_orchestra.StateMachine.Apply.{
  Machine, running, read_input, apply_event, apply_all, then_apply_running,
}
use codex_loop_orchestra.StateMachine.Frame.{
  Found, known, created, Applied, passed, advanced, apply_event-Applied,
}
use codex_loop_orchestra.StateMachine.Caps.{IsCapped, Counts, replans, timeout_retries}
use codex_loop_orchestra.StateMachine.Caps.Stages.{advance_keeps_caps, Kept}

-- Every packet of the ledger is within the caps.
abbrev pub AllCapped : Machine → Type 0
AllCapped m = (pid : String) (p : Packet) → lookup pid m.packets ≡ some p → IsCapped pid m.world p

new_packet-IsCapped : (pid : String) (w : World) → IsCapped pid w new_packet
new_packet-IsCapped pid w = omega arith

admitted-IsCapped :
    (pid : String) (m : Machine) (p : Packet) → AllCapped m → Found pid m p → IsCapped pid m.world p
admitted-IsCapped pid m p c (known h) = c pid p h
admitted-IsCapped pid m p c (created h) = new_packet-IsCapped pid m.world

-- The counters of the other packets are as they were, and so are the packets.
other-IsCapped :
    (pid j : String) (w w' : World) (p : Packet)
    → str_eq pid j ≡ false
    → Counts pid w w'
    → IsCapped j w p
    → IsCapped j w' p
other-IsCapped pid j w w' p ne g c =
    let (r, t) = g.elsewhere j ne in
    record {
      replans_counted = rw r c.replans_counted;
      replans_capped = c.replans_capped;
      retries_counted = rw t c.retries_counted;
      retries_capped = c.retries_capped;
    }

Applied-AllCapped :
    (env : Env) (i : Input) (m m' : Machine)
    → can_read env.counter_io ≡ true
    → Applied env i m m'
    → AllCapped m
    → AllCapped m'
Applied-AllCapped env i m m' reads (passed e) c = subst AllCapped (sym e) c
Applied-AllCapped env i m m' reads (advanced p q w s f a e) c = subst AllCapped (sym e) after
  where
    kept : Kept i.pid m.world w q s
    kept =
        subst (Ensures (Kept i.pid m.world)) a
          (advance_keeps_caps i.pid m.world p (admitted-IsCapped i.pid m p c f) env i refl reads)

    after : AllCapped (record { world = w; packets = insert i.pid q m.packets })
    after j r h = elim (Bool-cases (str_eq i.pid j)) [
      | inl same ↦ at_packet j r same (sym (lookup-insert i.pid j q m.packets) ∙ h)
      | inr ne ↦
          other-IsCapped i.pid j m.world w r ne kept.1
            (c j r (rw ne at (sym (lookup-insert i.pid j q m.packets) ∙ h)))
    ]
      where
        at_packet :
            (k : String) (x : Packet)
            → str_eq i.pid k ≡ true
            → (if str_eq i.pid k then some q else lookup k m.packets) ≡ some x
            → IsCapped k w x
        at_packet k x same found =
            let own = (eq_iff i.pid k).0 same in
            let this : q ≡ x = cc (rw same at found) in
            subst (λ (y : Packet). IsCapped k w y) this
              (subst (λ (l : String). IsCapped l w q) own kept.0)

apply_all-AllCapped :
    (env : Env) (evs : List EventRecord) (m m' : Machine) (r : Option State)
    → can_read env.counter_io ≡ true
    → apply_all env evs m ≡ running m' r
    → AllCapped m
    → AllCapped m'
unfolding apply_all
apply_all-AllCapped env [] m m' r reads h c = subst AllCapped (cc h) c
apply_all-AllCapped env (ev ∷ evs) m m' r reads h c =
    let (m1, s1, e, h1) = then_apply_running (apply_all env evs) (apply_event env ev m) h in
    apply_all-AllCapped env evs m1 m' r reads h1
      (Applied-AllCapped env (read_input ev) m m1 reads (apply_event-Applied env ev m m1 s1 e) c)

-- From an empty ledger, whatever events arrive and whatever the counter files held, if no read of a
-- counter file fails, every packet has been replanned at most twice and retried after a timeout at
-- most once. A lock or a write of a counter file may fail.
pub replans_and_retries_capped :
    (env : Env) (evs : List EventRecord) (w : World) (m' : Machine) (r : Option State)
    → can_read env.counter_io ≡ true
    → apply_all env evs (record { world = w; packets = [] }) ≡ running m' r
    → (pid : String) (p : Packet) → lookup pid m'.packets ≡ some p
    → (replans p ≤ replan_cap) × (timeout_retries p ≤ timeout_retry_max)
replans_and_retries_capped env evs w m' r reads h pid p found =
    let c =
      apply_all-AllCapped env evs (record { world = w; packets = [] }) m' r reads h none_yet pid p
        found in
    (c.replans_capped, c.retries_capped)
  where
    none_yet : AllCapped (record { world = w; packets = [] })
    none_yet = unfold lookup in λ j q e. cc
