-- ===== src/Budget/Quota.antt =====
-- `global_quota_check` of harness/budget_controller.py over the meter's report. Shares are in
-- 1/10000.
use codex_loop_orchestra.Prelude.{ℕ, Bool, Option, leb, ltb, or_else, get_or_default, if◌then◌else◌}
use codex_loop_orchestra.Budget.Doc.{Policy}

-- `report["windows"]["rolling_5h"]`; a missing count or share is 0.
pub record Window : Type 0 where
  pub production_effective_tokens : ℕ
  pub sol_share_effective : Option ℕ
  pub share_effective : Option ℕ
  pub k3_share_effective : Option ℕ

-- The meter's report: no object, an object without a readable window, or a window.
pub data Report : Type 0 where
  no_report malformed_report : Report
  window : Window → Report

-- `status`, with the two verdicts where they are given.
pub data Quota : Type 0 where
  missing malformed insufficient_data : Quota
  ok : Bool → Bool → Quota

abbrev pub sol_share : Window → ℕ
sol_share w = get_or_default (or_else w.sol_share_effective w.share_effective) 0

abbrev pub k3_share : Window → ℕ
k3_share w = get_or_default w.k3_share_effective 0

unfoldable pub global_quota_check : Policy → Report → Quota
global_quota_check pol no_report = missing
global_quota_check pol malformed_report = malformed
global_quota_check pol (window w) =
    if ltb w.production_effective_tokens pol.minimum_denominator
    then insufficient_data
    else ok (leb (sol_share w) pol.sol_hard_cap) (leb pol.k3_floor (k3_share w))
