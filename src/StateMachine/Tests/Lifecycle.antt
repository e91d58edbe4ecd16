-- ===== src/StateMachine/Tests/Lifecycle.antt =====
-- One packet from the plan to the release, and the theorems on streams at it.
use mathlib.Core.List.{Memᴰ}
use codex_loop_orchestra.Prelude.{
  ◌≤◌, ◌≡◌, refl, ◌⊎◌, true, String, List, [], ◌∷◌, none, lookup, get_or_default,
}
use codex_loop_orchestra.StateMachine.States.{State}
use codex_loop_orchestra.StateMachine.Packet.{EventRecord, Packet, new_packet}
use codex_loop_orchestra.StateMachine.Advance.{replan_cap, timeout_retry_max}
use codex_loop_orchestra.StateMachine.Apply.{Machine}
use codex_loop_orchestra.StateMachine.Caps.{replans, timeout_retries}
use codex_loop_orchestra.StateMachine.Caps.Ledger.{replans_and_retries_capped}
use codex_loop_orchestra.StateMachine.Provenance.{
  done_needs_release, merged_needs_acceptance, in_states, IsEventOf, is_done, is_release,
  is_accepted, is_acceptance,
}
use codex_loop_orchestra.StateMachine.Tests.Setup.{
  event, env, files, empty_machine, run, machine_of,
}

-- The names of the events of one packet, as the stream has them.
abbrev of_packet : String → List String → List EventRecord
of_packet pid [] = []
of_packet pid (name ∷ names) = event pid name ∷ of_packet pid names

abbrev life : List EventRecord
life = of_packet "pkt-1" (
    "planned" ∷ "dag_assert_pass" ∷ "dispatched" ∷ "subagent_stop" ∷ "acceptance_pass" ∷ "merged"
    ∷ [])

abbrev released : List EventRecord
released = of_packet "pkt-1" (
    "planned" ∷ "dag_assert_pass" ∷ "dispatched" ∷ "subagent_stop" ∷ "review_verdict_pass"
    ∷ "sol_replan" ∷ "dag_assert_pass" ∷ "dispatched" ∷ "subagent_stop" ∷ "review_verdict_pass"
    ∷ "release_merge" ∷ [])

abbrev after : List EventRecord → Machine
unfolding run
after evs = machine_of (run evs empty_machine)

abbrev packet_after : List EventRecord → Packet
packet_after evs = get_or_default (lookup "pkt-1" (after evs).packets) new_packet

life_merges : (packet_after life).state ≡ State.merged
unfolding run
life_merges = refl

released_done : (packet_after released).state ≡ State.done
unfolding run
released_done = refl

done_needs_release_example :
    (in_states is_done "pkt-1" empty_machine ≡ true)
    ⊎ ((ev : EventRecord) × Memᴰ ev released × IsEventOf is_release "pkt-1" ev)
unfolding run
done_needs_release_example =
    done_needs_release env released empty_machine (after released) none "pkt-1" refl refl

merged_needs_acceptance_example :
    (in_states is_accepted "pkt-1" empty_machine ≡ true)
    ⊎ ((ev : EventRecord) × Memᴰ ev life × IsEventOf is_acceptance "pkt-1" ev)
unfolding run
merged_needs_acceptance_example =
    merged_needs_acceptance env life empty_machine (after life) none "pkt-1" refl refl

replans_and_retries_capped_example :
    (replans (packet_after released) ≤ replan_cap)
    × (timeout_retries (packet_after released) ≤ timeout_retry_max)
unfolding run
replans_and_retries_capped_example =
    replans_and_retries_capped env released files (after released) none refl refl "pkt-1"
      (packet_after released) refl
