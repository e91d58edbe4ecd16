-- ===== src/Governor/Meter.antt =====
-- `meter_status` of harness/root_turn_governor.py. A value of the wrong type is `none`.
use codex_loop_orchestra.Prelude.{
  ℕ, ◌+◌, Bool, false, String, Option, none, some, or_else, ltb, str_eq, if◌then◌else◌,
}

pub data Reading : Type 0 where
  not_a_number : Reading
  number : ℕ → Reading

pub record Window : Type 0 where
  pub status : Option String
  pub sol_share_effective : Option Reading
  pub share_effective : Option Reading

pub record Report : Type 0 where
  pub generated_at : Option Reading
  pub generated_ts : Option Reading
  pub rolling_5h : Option Window

pub data MeterFile : Type 0 where
  absent not_an_object : MeterFile
  report : Report → MeterFile

pub data MeterStatus : Type 0 where
  ok : ℕ → MeterStatus
  stale missing malformed insufficient_data : MeterStatus

abbrev pub share_status : Option Reading → MeterStatus
share_status (some (number share)) = ok share
share_status _ = malformed

abbrev pub insufficient : Option String → Bool
insufficient none = false
insufficient (some s) = str_eq s "INSUFFICIENT_DATA"

abbrev pub window_status : Option Window → MeterStatus
window_status none = malformed
window_status (some w) =
    if insufficient w.status
    then insufficient_data
    else share_status (or_else w.sol_share_effective w.share_effective)

unfoldable pub meter_status : ℕ → ℕ → MeterFile → MeterStatus
meter_status stale_after now absent = missing
meter_status stale_after now not_an_object = malformed
meter_status stale_after now (report r) = elim (or_else r.generated_at r.generated_ts) [
  | none ↦ malformed
  | some not_a_number ↦ malformed
  | some (number generated) ↦
      if ltb (generated + stale_after) now then stale else window_status r.rolling_5h
]
