-- ===== src/Trigger/Cap/Capped.antt =====
-- The level-3 calls of a packet are bounded, and high risk never passes.
use mathlib.Core.List.{Memᴰ}
use codex_loop_orchestra.Prelude.{
  ℕ, ◌+◌, ◌≤◌, ◌<◌, max, ◌≡◌, refl, ap, ◌∙◌, ◌⊎◌, inl, inr, Bool, true, false, ◌&&◌, String, List,
  [], ◌∷◌, Option, Dict, lookup, insert, lookup-insert, get_or_default, arith, ltb, str_eq, eq_iff,
  if◌then◌else◌, if_either, Bool-cases, All, CounterIo, works, read_fails, raises, can_read,
}
use codex_loop_orchestra.Trigger.Signals.{derive}
use codex_loop_orchestra.Trigger.Predicates.{holds}
use codex_loop_orchestra.Trigger.Verdict.{Rule, nonempty}
use codex_loop_orchestra.Trigger.Verdict.HighRisk.{high_risk_is_direct}
use codex_loop_orchestra.Trigger.Mode.{
  RoutingMode, cold_start, shadow, layered, L2Record, Queues, Request, apply_routing_mode,
  after_sampling,
}
use codex_loop_orchestra.Trigger.Cap.{bump_l3_counter, apply_l3_cap, Call, Files, main}

abbrev pub l3_calls : String → Dict ℕ → ℕ
l3_calls pid counters = get_or_default (lookup pid counters) 0

-- An answer that calls level 3 for the packet.
abbrev pub is_l3_for : String → String → String → Bool
is_l3_for pid own answer = str_eq own pid && str_eq answer "direct_l3"

-- What one application of the cap does to the counter of a packet: nothing, or it counts a call,
-- which is answered within the cap.
data Effect (most before after one : ℕ) : Type 0 where
  silent : one ≡ 0 → after ≡ before → Effect most before after one
  refused : one ≡ 0 → after ≡ before + 1 → most < after → Effect most before after one
  called : one ≡ 1 → after ≡ before + 1 → after ≤ most → Effect most before after one

abbrev one_if : Bool → ℕ
one_if b = if b then 1 else 0

no_l3 : (a b : Bool) → b ≡ false → one_if (a && b) ≡ 0
no_l3 a b h = ground arith

l3_calls-insert :
    (own pid : String) (n : ℕ) (counters : Dict ℕ)
    → l3_calls pid (insert own n counters) ≡ (if str_eq own pid then n else l3_calls pid counters)
l3_calls-insert own pid n counters = elim (Bool-cases (str_eq own pid)) [
  | inl h ↦ ap (λ (o : Option ℕ). get_or_default o 0) (lookup-insert own pid n counters) ∙ rw h refl
  | inr h ↦ ap (λ (o : Option ℕ). get_or_default o 0) (lookup-insert own pid n counters) ∙ rw h refl
]

abbrev answer : Bool → String → String
answer over action = if over then "direct_l4" else action

not_called :
    (a over : Bool) (action : String)
    → over ≡ true
    → one_if (a && str_eq (answer over action) "direct_l3") ≡ 0
not_called true true action h = refl
not_called false true action h = refl
not_called a false action h = cc

is_called :
    (a over : Bool) (action : String)
    → a ≡ true
    → over ≡ false
    → str_eq action "direct_l3" ≡ true
    → one_if (a && str_eq (answer over action) "direct_l3") ≡ 1
is_called a true action ha ho h = cc
is_called a false action ha ho h = ground arith

other_packet : (a b : Bool) → a ≡ false → one_if (a && b) ≡ 0
other_packet a b h = ground arith

module _ (most : ℕ) (own pid : String) (counters : Dict ℕ) where
  abbrev EffectOf : Dict ℕ × String → Type 0
  EffectOf r =
      Effect most (l3_calls pid counters) (l3_calls pid r.0) (one_if (is_l3_for pid own r.1))

  bumped :
      (action : String)
      → str_eq action "direct_l3" ≡ true
      → EffectOf (
        insert own (l3_calls own counters + 1) counters,
        answer (ltb most (l3_calls own counters + 1)) action,
      )
  bumped action direct =
      let count = l3_calls own counters + 1 in
      let c = l3_calls-insert own pid count counters in
      elim (Bool-cases (str_eq own pid)) [
        | inr other ↦ silent (other_packet (str_eq own pid) _ other) (ground (arith, c, other))
        | inl same ↦
            let own_calls = ap (λ (k : String). l3_calls k counters) ((eq_iff own pid).0 same) in
            elim (Bool-cases (ltb most count)) [
              | inl over ↦
                  refused (not_called (str_eq own pid) (ltb most count) action over)
                    (ground (arith, c, same, own_calls)) (ground (arith, c, same, over))
              | inr under ↦
                  called (is_called (str_eq own pid) (ltb most count) action same under direct)
                    (ground (arith, c, same, own_calls)) (ground (arith, c, same, under))
            ]
      ]

  apply_l3_cap-Effect :
      (io : CounterIo) (action : String)
      → can_read io ≡ true
      → EffectOf (apply_l3_cap io own most action counters)
  unfolding apply_l3_cap
  apply_l3_cap-Effect io action reads =
      if_either EffectOf (str_eq action "direct_l3") _ (counters, action) (λ h. by_io io reads h)
        (λ h. silent (no_l3 (str_eq own pid) _ h) refl)
    where
      by_io :
          (b : CounterIo)
          → can_read b ≡ true
          → str_eq action "direct_l3" ≡ true
          → EffectOf (
            (bump_l3_counter b own most counters).0,
            if (bump_l3_counter b own most counters).2 then "direct_l4" else action,
          )
      by_io (works) r h = unfold bump_l3_counter in bumped action h
      by_io (read_fails) r h = cc
      by_io (raises) r h = unfold bump_l3_counter in silent (no_l3 (str_eq own pid) false refl) refl

-- How often a sequence of calls answers with level 3 for the packet.
module _ (re_search : String → String → Bool) (sha_prefix : String → ℕ)
    (idem_key : String → String → ℕ → String) (in_line : String → L2Record → Bool) (most : ℕ) where
  unfoldable pub l3_answers : String → List Call → Files → ℕ
  l3_answers pid [] f = 0
  l3_answers pid (c ∷ cs) f =
      let r = main re_search sha_prefix idem_key in_line most c f in
      one_if (is_l3_for pid c.request.packet_id r.1) + l3_answers pid cs r.0

  main-Effect :
      (pid : String) (c : Call) (f : Files)
      → can_read c.counter_io ≡ true
      → let r = main re_search sha_prefix idem_key in_line most c f in
        Effect most
          (l3_calls pid f.counters)
          (l3_calls pid r.0.counters)
          (one_if (is_l3_for pid c.request.packet_id r.1))
  unfolding main
  main-Effect pid c f reads =
      apply_l3_cap-Effect most c.request.packet_id pid f.counters c.counter_io _ reads

  counted_with :
      (before after one rest : ℕ)
      → Effect most before after one
      → rest + after ≤ max most after
      → one + rest + before ≤ max most before
  counted_with before after one rest (silent h e) k = omega arith
  counted_with before after one rest (refused h e l) k = omega arith
  counted_with before after one rest (called h e l) k = omega arith

  l3_bounded :
      (pid : String) (cs : List Call) (f : Files)
      → All (λ c. can_read c.counter_io ≡ true) cs
      → l3_answers pid cs f + l3_calls pid f.counters ≤ max most (l3_calls pid f.counters)
  unfolding l3_answers
  l3_bounded pid [] f reads = omega arith
  l3_bounded pid (c ∷ cs) f reads =
      counted_with _ _ _ _ (main-Effect pid c f reads.0) (l3_bounded pid cs _ reads.1)

  -- Over any sequence of calls, in any modes, if no read of the counter file fails, a packet that
  -- has no count yet is sent to level 3 at most as often as the cap says. A write of the file may
  -- fail.
  pub l3_calls_capped :
      (pid : String) (cs : List Call) (f : Files)
      → All (λ c. can_read c.counter_io ≡ true) cs
      → l3_calls pid f.counters ≡ 0
      → l3_answers pid cs f ≤ most
  l3_calls_capped pid cs f reads h = let b = l3_bounded pid cs f reads in omega (arith, b, h)

  direct_stays :
      (mode : RoutingMode) (q : Request) (action : String) (f : Queues)
      → action ≡ "direct_l3"
      → (apply_routing_mode sha_prefix idem_key in_line mode q action f).1 ≡ "direct_l3"
  unfolding apply_routing_mode after_sampling
  direct_stays cold_start q action f h = rw h refl
  direct_stays shadow q action f h = rw h refl
  direct_stays layered q action f h = rw h refl

  capped_direct :
      (io : CounterIo) (own action : String) (counters : Dict ℕ)
      → action ≡ "direct_l3"
      → ((apply_l3_cap io own most action counters).1 ≡ "direct_l3")
        ⊎ ((apply_l3_cap io own most action counters).1 ≡ "direct_l4")
  unfolding apply_l3_cap
  capped_direct io own action counters h = rw h (
      if_either (λ (a : String). (a ≡ "direct_l3") ⊎ (a ≡ "direct_l4"))
        (bump_l3_counter io own most counters).2 "direct_l4" "direct_l3" (λ _. inr refl)
        (λ _. inl refl))

  -- A call whose signals touch a high-risk path, or hit a rule that is marked as high risk, is
  -- answered with level 3 or level 4 in every mode.
  pub high_risk_never_passes :
      (c : Call) (f : Files)
      → let d = derive re_search c.signals in
        (nonempty d.high_risk_path_hits ≡ true)
          ⊎ ((r : Rule) × Memᴰ r c.table.rules
              × (holds re_search d r.name ≡ true)
              × (r.high_risk ≡ true))
        → ((main re_search sha_prefix idem_key in_line most c f).1 ≡ "direct_l3")
          ⊎ ((main re_search sha_prefix idem_key in_line most c f).1 ≡ "direct_l4")
  unfolding main
  high_risk_never_passes c f risky = capped_direct c.counter_io c.request.packet_id _ f.counters (
      direct_stays c.mode c.request _ f.queues
        (high_risk_is_direct re_search (derive re_search c.signals) c.table risky))
