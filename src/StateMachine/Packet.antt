-- ===== src/StateMachine/Packet.antt =====
-- What harness/statemachine_v2.py keeps: packets of the ledger, the records of the event stream
-- after `json.loads`, and the files that the methods read and write.
use codex_loop_orchestra.Prelude.{
  ℕ, Bool, false, String, List, [], ◌∷◌, ◌++◌, Option, none, Dict, CounterIo,
}
use codex_loop_orchestra.StateMachine.States.{State}

-- A line of `pkt["history"]`. Its audit-only fields, which no code reads, are left out.
pub record Entry : Type 0 where
  pub ts : ℕ
  pub to : State
  pub via : String
  pub t : Option ℕ

-- `led["packets"][pid]`. A missing counter is read as 0 everywhere.
pub record Packet : Type 0 where
  pub state : State
  pub history : List Entry
  pub attempts : ℕ
  pub current_run_id : Option String
  pub pre_spawn_failures : ℕ
  pub release_review : Bool
  pub l2_attempts : ℕ
  pub manifest_id : Option String
  pub parent_session_id : Option String

-- `{"state": "NONE", "history": [], "attempts": 0}`
abbrev pub new_packet : Packet
new_packet = record {
  state = State.none_state;
  history = [];
  attempts = 0;
  current_run_id = none;
  pre_spawn_failures = 0;
  release_review = false;
  l2_attempts = 0;
  manifest_id = none;
  parent_session_id = none;
}

-- `pkt["history"].append({"ts": …, "to": …, "via": …, "t": …})`
abbrev pub log : ℕ → State → String → Option ℕ → Packet → Packet
log now to via t p = record p {
  history = p.history ++ record { ts = now; to = to; via = via; t = t } ∷ [];
}

-- A JSON value under `"attempt"`: `int` reads a number or raises.
pub data AttemptField : Type 0 where
  absent null unreadable : AttemptField
  nonneg negative : ℕ → AttemptField

-- `ev["detail"]` when it is an object.
pub record Detail : Type 0 where
  pub run_id : Option String
  pub attempt : AttemptField
  pub phase : Option String

-- `ev`. The identifiers are strings where they are present.
pub record EventRecord : Type 0 where
  pub packet_id : Option String
  pub event : Option String
  pub run_id : Option String
  pub attempt : AttemptField
  pub detail : Option Detail

-- A JSON value that `float` reads as a time, in clock ticks.
pub data Timestamp : Type 0 where
  missing unreadable : Timestamp
  at : ℕ → Timestamp

-- An entry of `spawn_times.json`: an object, or the bare time of a legacy dispatch.
pub data Stamp : Type 0 where
  bare : Timestamp → Stamp
  dispatched : Option String → Timestamp → Option String → AttemptField → Stamp

-- `value.get("packet_id")` of a report.
pub data IdField : Type 0 where
  missing : IdField
  text : String → IdField
  non_text : IdField

-- What `json.loads` makes of a report file; `object b id` has fields if `b` holds.
pub data ReportValue : Type 0 where
  unreadable not_an_object : ReportValue
  object : Bool → IdField → ReportValue

pub record Report : Type 0 where
  pub value : ReportValue
  pub mtime : ℕ
  pub size : ℕ

-- A job of `lifecycle/exec_roster.json`.
pub record Job : Type 0 where
  pub run_id : Option String
  pub state : Option String
  pub heartbeat_at : Timestamp

pub record DeadLetter : Type 0 where
  pub reason : String
  pub prior_history : List Entry
  pub ts : ℕ

pub data Level : Type 0 where
  sol_wake direct_l4 duty_record_only : Level

pub record Escalation : Type 0 where
  pub ts : ℕ
  pub packet_id : String
  pub level : Level
  pub reason : String

-- The files that a step writes beside the ledger, and `self.dead_this_step`.
pub record World : Type 0 where
  pub replan_counters : Dict ℕ
  pub timeout_retry_counters : Dict ℕ
  pub dead_letters : Dict DeadLetter
  pub escalation_log : List Escalation
  pub dead_this_step : ℕ

-- What a step reads: the clock, the settings of the class, the other files, and what the locked
-- reads and writes of the counter files do.
pub record Env : Type 0 where
  pub now : ℕ
  pub enforce_duty : Bool
  pub job_max_runtime : ℕ
  pub heartbeat_stale : ℕ
  pub counter_io : CounterIo
  pub reports : Dict Report
  pub spawn_times : Dict Stamp
  pub exec_roster : Dict Job

-- A handler's outcome: the packet's new record and the returned state, or `SystemExit(1)`, which
-- keeps what was written to files and loses the ledger in memory.
pub data Outcome : Type 0 where
  applied : World → Packet → State → Outcome
  aborted : World → Outcome
