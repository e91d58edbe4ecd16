-- ===== src/Trigger/Cap.antt =====
-- `bump_l3_counter` and the decision of `main` of harness/trigger_eval_v2.py.
pub mod Capped
use codex_loop_orchestra.Prelude.{
  ℕ, ◌+◌, Bool, true, false, ◌&&◌, String, List, [], ◌∷◌, Option, none, some, Dict, lookup, insert,
  get_or_default, ltb, str_eq, if◌then◌else◌, CounterIo, works, read_fails, raises,
}
use codex_loop_orchestra.Trigger.Signals.{Signals, derive}
use codex_loop_orchestra.Trigger.Verdict.{TriggerTable, evaluate_table}
use codex_loop_orchestra.Trigger.Mode.{RoutingMode, L2Record, Queues, Request, apply_routing_mode}

-- The counters, the count, and whether the cap is exceeded. A file that cannot be read is written
-- anew with this count alone; an exception counts as exceeded.
unfoldable pub bump_l3_counter : CounterIo → String → ℕ → Dict ℕ → Dict ℕ × ℕ × Bool
bump_l3_counter (works) pid l3_cap counters =
    let count = get_or_default (lookup pid counters) 0 + 1 in
    (insert pid count counters, count, ltb l3_cap count)
bump_l3_counter (read_fails) pid l3_cap counters = (insert pid 1 [], 1, ltb l3_cap 1)
bump_l3_counter (raises) pid l3_cap counters = (counters, l3_cap + 1, true)

-- Over the cap, the call goes to level 4.
unfoldable pub apply_l3_cap : CounterIo → String → ℕ → String → Dict ℕ → Dict ℕ × String
apply_l3_cap io pid l3_cap action counters =
    if str_eq action "direct_l3"
    then (let r = bump_l3_counter io pid l3_cap counters in
        (r.0, if r.2 then "direct_l4" else action))
    else (counters, action)

-- What one call reads, and the files that it writes.
pub record Call : Type 0 where
  pub signals : Signals
  pub table : TriggerTable
  pub mode : RoutingMode
  pub request : Request
  pub counter_io : CounterIo

pub record Files : Type 0 where
  pub queues : Queues
  pub counters : Dict ℕ

module _ (re_search : String → String → Bool) (sha_prefix : String → ℕ)
    (idem_key : String → String → ℕ → String) (in_line : String → L2Record → Bool) where
  -- The action after the switch, before the cap.
  abbrev pub switched : Call → Queues → Queues × String
  switched c f =
      apply_routing_mode sha_prefix idem_key in_line c.mode c.request
        (evaluate_table re_search (derive re_search c.signals) c.table).0 f

  unfoldable pub main : ℕ → Call → Files → Files × String
  main l3_cap c f =
      let s = switched c f.queues in
      let r = apply_l3_cap c.counter_io c.request.packet_id l3_cap s.1 f.counters in
      (record { queues = s.0; counters = r.0 }, r.1)
