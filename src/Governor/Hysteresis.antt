-- ===== src/Governor/Hysteresis.antt =====
-- `HysteresisController` of harness/root_turn_governor.py. A share is a number of parts of a fixed
-- whole; the file holds what `observe` wrote, or nothing that can be read.
use codex_loop_orchestra.Prelude.{
  ℕ, suc, Bool, false, String, Option, none, some, ltb, leb, str_eq, if◌then◌else◌,
}

pub data Band : Type 0 where
  normal high : Band

pub record Params : Type 0 where
  pub enter_high : ℕ
  pub enter_samples : ℕ
  pub leave_high : ℕ
  pub leave_samples : ℕ

pub record Hysteresis : Type 0 where
  pub band : Band
  pub above_count : ℕ
  pub below_count : ℕ
  pub last_share : ℕ
  pub last_sample_id : String

-- `band`
abbrev pub band_of : Option Hysteresis → Band
band_of none = normal
band_of (some doc) = doc.band

abbrev pub above_of : Option Hysteresis → ℕ
above_of none = 0
above_of (some doc) = doc.above_count

abbrev pub below_of : Option Hysteresis → ℕ
below_of none = 0
below_of (some doc) = doc.below_count

abbrev pub seen_before : Option Hysteresis → String → Bool
seen_before none id = false
seen_before (some doc) id = str_eq doc.last_sample_id id

-- A sample with a new id.
unfoldable pub count_sample : Params → Band → ℕ → ℕ → ℕ → String → Hysteresis
count_sample p normal above below share id =
    let above' = if ltb p.enter_high share then suc above else 0 in
    if leb p.enter_samples above'
    then record {
      band = high;
      above_count = 0;
      below_count = 0;
      last_share = share;
      last_sample_id = id;
    }
    else record {
      band = normal;
      above_count = above';
      below_count = below;
      last_share = share;
      last_sample_id = id;
    }
count_sample p high above below share id =
    let below' = if ltb share p.leave_high then suc below else 0 in
    if leb p.leave_samples below'
    then record {
      band = normal;
      above_count = 0;
      below_count = 0;
      last_share = share;
      last_sample_id = id;
    }
    else record {
      band = high;
      above_count = above;
      below_count = below';
      last_share = share;
      last_sample_id = id;
    }

-- `observe`: the file afterwards; the band that it returns is the file's.
unfoldable pub observe : Params → Option Hysteresis → ℕ → String → Option Hysteresis
observe p doc share id =
    if seen_before doc id
    then doc
    else some (count_sample p (band_of doc) (above_of doc) (below_of doc) share id)
