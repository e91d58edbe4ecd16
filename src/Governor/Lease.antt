-- ===== src/Governor/Lease.antt =====
-- `PlanningLease` of harness/root_turn_governor.py. A lease file that cannot be read as a lease is
-- `none`.
use codex_loop_orchestra.Prelude.{ℕ, ◌+◌, Bool, ◌||◌, Option, none, some, ℤ, to_nat, leb}

pub record PlanningLease : Type 0 where
  pub granted_ts : ℕ
  pub turns_used : ℕ
  pub new_tokens_used : ℕ

-- `load`
unfoldable pub load : ℕ → Option PlanningLease → PlanningLease
load now none = record { granted_ts = now; turns_used = 0; new_tokens_used = 0 }
load now (some lease) = lease

unfoldable pub exhausted : PlanningLease → ℕ → ℕ → Bool
exhausted lease max_turns max_new_tokens =
    leb max_turns lease.turns_used || leb max_new_tokens lease.new_tokens_used

unfoldable pub consume_turn : PlanningLease → ℤ → PlanningLease
consume_turn lease new_tokens = record lease {
  turns_used = lease.turns_used + 1;
  new_tokens_used = lease.new_tokens_used + to_nat new_tokens;
}

unfoldable pub renew : ℕ → PlanningLease
renew now = record { granted_ts = now; turns_used = 0; new_tokens_used = 0 }
