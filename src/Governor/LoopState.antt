-- ===== src/Governor/LoopState.antt =====
-- The loop state of harness/root_turn_governor.py, and the command that sets it. The hash that
-- `idem_key` computes is a parameter.
use codex_loop_orchestra.Prelude.{
  ℕ, Bool, true, false, ◌&&◌, String, List, [], ◌∷◌, ◌++◌, Option, none, some, Dict, any, all,
  str_eq, if◌then◌else◌,
}

pub record Attestation : Type 0 where
  pub state : Option String
  pub idem_key : Option String

pub record Ledger : Type 0 where
  pub loop_state : Option String
  pub loop_state_attestation : Option String
  pub packets : Dict (Option String)

pub data LedgerFile : Type 0 where
  absent unreadable : LedgerFile
  readable : Ledger → LedgerFile

abbrev pub is_text : Option String → String → Bool
is_text none s = false
is_text (some t) s = str_eq t s

abbrev pub attests : String → String → Attestation → Bool
attests key state record' = is_text record'.idem_key key && is_text record'.state state

-- `isinstance(v, str) and v`
abbrev pub non_empty : Option String → Option String
non_empty none = none
non_empty (some s) = if str_eq s "" then none else some s

abbrev pub honoured : Option String → String → List Attestation → Bool
honoured none state records = false
honoured (some key) state records = any (attests key state) records

abbrev pub judged : List Attestation → Option String → Option String → Option String × Option String
judged records attestation none = (none, none)
judged records attestation (some state) =
    if honoured attestation state records then (some state, none) else (none, some state)

-- `_attested_state`: the state, and the one that is claimed without an attestation.
unfoldable pub attested_state : List Attestation → Ledger → Option String × Option String
attested_state records led =
    judged records (non_empty led.loop_state_attestation) (non_empty led.loop_state)

abbrev pub among : List String → Option String → Bool
among names state = any (is_text state) names

-- `ADJUDICATION_STATES` and `TERMINAL_STATES`
abbrev pub is_adjudication : Option String → Bool
is_adjudication = among (
    "SOL_ADJUDICATE" ∷ "DEAD_LETTER" ∷ "MERGE_CONFLICT" ∷ "WAVE_DONE" ∷ "WAVE_DONE_READY"
    ∷ "SOL_WAKE" ∷ [])

abbrev pub is_terminal : Option String → Bool
is_terminal = among ("MERGED" ∷ "DONE" ∷ [])

unfoldable pub derived_state : Dict (Option String) → String
derived_state [] = "planning"
derived_state (p ∷ ps) =
    if any (λ q. is_adjudication q.1) (p ∷ ps)
    then "adjudication"
    else if all (λ q. is_terminal q.1) (p ∷ ps)
    then "release_finalize"
    else "execution"

pub record LoopState : Type 0 where
  pub state : String
  pub trusted : Bool
  pub unattested : Option String

abbrev pub or_derived : Option String × Option String → Dict (Option String) → LoopState
or_derived (some state, claimed) packets = record {
  state = state;
  trusted = true;
  unattested = claimed;
}
or_derived (none, claimed) packets = record {
  state = derived_state packets;
  trusted = true;
  unattested = claimed;
}

-- `loop_state`, with the state of the event `governor.state_key_unattested`.
unfoldable pub loop_state : LedgerFile → List Attestation → LoopState
loop_state absent records = record { state = "planning"; trusted = true; unattested = none }
loop_state unreadable records = record { state = "unknown"; trusted = false; unattested = none }
loop_state (readable led) records = or_derived (attested_state records led) led.packets

abbrev pub is_settable : String → Bool
is_settable state =
    any (str_eq state) ("planning" ∷ "adjudication" ∷ "release_finalize" ∷ "execution" ∷ [])

-- A ledger that cannot be read is replaced by one without packets.
abbrev pub ledger_or_empty : LedgerFile → Ledger
ledger_or_empty (readable led) = led
ledger_or_empty _ = record { loop_state = none; loop_state_attestation = none; packets = [] }

module _ (idem_key : String → String → ℕ → String) where
  -- `loop_state_set`; `none` is the ValueError.
  unfoldable pub loop_state_set :
      String → String → ℕ → LedgerFile → List Attestation → Option (LedgerFile × List Attestation)
  loop_state_set state reason now file records =
      let key = idem_key state reason now in
      if is_settable state
      then some (
        readable (record (ledger_or_empty file) {
          loop_state = some state;
          loop_state_attestation = some key;
        }),
        records ++ record { state = some state; idem_key = some key } ∷ [],
      )
      else none
