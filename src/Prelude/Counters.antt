-- ===== src/Prelude/Counters.antt =====
-- What a read and a write of a counter file do.
use mathlib.Core.Bool.{Bool, true, false}

-- `read_json` of harness/orchestration_common.py answers its default if the file cannot be read or
-- parsed; a lock or a write that fails raises, and so does a count that is no number.
pub data CounterIo : Type 0 where
  works read_fails raises : CounterIo

abbrev pub can_read : CounterIo → Bool
can_read (works) = true
can_read (read_fails) = false
can_read (raises) = true
