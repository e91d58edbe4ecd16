-- ===== src/Lib.antt =====
-- codex-loop-orchestra: a loop that drives packets of work through agents. The state is in files:
-- `progress_ledger.json` holds the packets, `events.ndjson` is an append-only stream of events
-- that every part may extend, and small counter files bound what is repeated.
--
-- harness/statemachine_v2.py is the driver. One `step` reads the complete lines of the stream
-- from the committed cursor, applies each event to its packet by a transition table with gates and
-- caps, turns stale RUNNING packets to REPORTED or TIMED_OUT, and commits the packets with the
-- new cursor in one write. harness/retry.py is called for a packet that failed: it decides
-- between a retry, the duty officer and a dead letter, and appends the event that the driver
-- then consumes. harness/duty_gate.py tests the rulings of the duty officer.
-- harness/trigger_eval_v2.py judges the signals of a packet by a table of rules; its mode switch,
-- guarded by harness/agent_router.py, decides whether the verdict stands or the root agent is
-- called. harness/verdict_aggregate.py joins the verdicts of the level-2 verifiers.
-- harness/l2_consumer.py keeps the queue of requests to the level-2 verifiers.
-- harness/short_result_validator.py accepts the results that workers publish, and
-- harness/result_reducer.py reduces them to one verdict and a packet for the root agent.
-- harness/refill_controller_v2.py says how many workers each model pool and each parent
-- dialogue may be given next, and harness/refill_consumer_v2.py selects their tasks.
-- harness/dag_assert.py checks a plan before its packets are dispatched, and
-- harness/root_turn_governor.py judges each tool call of the root agent by the loop state, the
-- budget and a bounded planning lease.
-- harness/budget_controller.py keeps the token budget of a task: agents are granted parts of it,
-- and the consumption drives a ladder of states.
--
-- StateMachine is harness/statemachine_v2.py:
--   States, Events, Table: `STATES`, `INFO_EVENTS` and `T`; Validate: `validate_transition_table`;
--   PacketId: `PACKET_ID_RE`; Packet: the ledger's packets, events, reports and side files;
--   Reports: `report_is_current`; Advance: `apply_event` for a packet of the ledger, a function for
--   each early return; Apply: `apply_event` on the ledger, and the loop over events; Watchdog:
--   `reconcile` and `watchdog`; Stream: `step` and its cursor; WaveCheck: `wave_check`.
--   The proofs are in Rows, Outcomes, Edges, Moves, Frame, Provenance, WatchdogLaws, Supervisors,
--   Timeouts, Absorbed, Caps, ValidTable, Cursor and Poison.
-- Retry is harness/retry.py: Classes (the rows of the class file and the actions), Breaker
--   (`breaker`), Route (`main` and its helpers), with the proofs in RouteLaws.
-- Budget is harness/budget_controller.py: Doc (the document, the policy and the cost models),
--   Ladder (`record_usage` and `_recompute_state`), Grants (`register_agent`, `reclaim`,
--   `extend_or_wrap_up`), Opening (`open_task`) and Quota (`global_quota_check`), with the proofs
--   in child modules. An exception is a constructor of the result.
-- Trigger is harness/trigger_eval_v2.py: Signals (`derive`), Predicates (`PREDICATES`), Verdict
--   (`evaluate_table`), Mode (`apply_routing_mode`) and Cap (the level-3 counter and the decision
--   of `main`); Guards is `check_layered_gate_guards` and `effective_mode` of
--   harness/agent_router.py. The proofs are in child modules.
-- Duty is harness/duty_gate.py: Gate (`main`, `persist_fix_hint`), with the proof in Admissible.
-- Verdicts is harness/verdict_aggregate.py: Aggregate (`main`), with the proofs in Strictest.
-- Module Plan, harness/dag_assert.py: Kahn (the in-degrees and the two loops of Kahn's
--   algorithm), Gate (the normalised paths, the loops over a wave and the script as a whole).
--   Rounds has the invariant of the loop, and Acyclic, Isolation and Passes what a plan that
--   passes guarantees.
-- Governor is harness/root_turn_governor.py: Screen (tool names, roles and models), Lease
--   (`PlanningLease`), Hysteresis (`HysteresisController`), LoopState (`loop_state`,
--   `loop_state_set`), Meter (`meter_status`) and Evaluate (`evaluate`), with the proofs in Admits,
--   LeaseBound, Attested and Enters.
-- L2 is harness/l2_consumer.py: Queue (the files, `try_claim`, `heartbeat` and the body of the loop
--   of `drain`), Passes (`enqueue`, `drain`, `reap_stale_claims`, `check_stale_pending`,
--   `complete`), with the proofs in Bounded, Final, Once, Covers and Race. `Op` in Once lists what
--   the processes around the queue do; an operation on one record is a step.
-- Results is harness/short_result_validator.py (Validate: `validate`) and harness/result_reducer.py
--   (Reduce: `add_short_result`, `add_completion` and `consolidate`; Packet:
--   `render_adjudication_packet`), with the proofs in Passing, Reduction and Bounded.
-- Refill is harness/refill_controller_v2.py: Split (`_split_deficit`), Recompute and State
--   (`recompute`, `read_state`, `release_finalize`, `resume`), Queue (the work queue and
--   `queue_sync_ledger`); Select is `select_tasks` of harness/refill_consumer_v2.py. The proofs are
--   in Shares, Bounds, Synced, Chosen, Selected and Admitted.
-- Prelude has the Boolean tests, integers, lists and association lists that all share.
--
-- State and effects. A method that changes the ledger in place is a function from the packet and
-- the files (`World`) to an `Outcome`; `SystemExit(1)` is the constructor that keeps what was
-- written to files and loses the ledger in memory. The clock, the settings and the files that are
-- only read are the record `Env`; one call sees one time. What a read and a write of a counter
-- file do is the value `counter_io`: a read that fails restarts the count, an exception counts as
-- exceeded. Locks are not modelled: a step or a call runs alone.
--
-- Numbers and data. Rates and confidences are in 1/10000 and divisions are exact before they
-- round down, where the code has floats; the rounded mean of scores is a parameter. Times are
-- natural numbers of clock ticks; an earlier start gives elapsed time 0 where the code has a
-- negative one, which passes no limit either. Identifiers in JSON are strings; a line of the
-- stream is an object or does not parse. A file is a list of bytes, only the newline ends a line,
-- and `strip` removes ASCII white space. `json.loads`, `re.search`, the hash of a packet, the key
-- of a queue line and the test of a key in a line are parameters. The fuel of `lines_within` is
-- the number of bytes: every line takes at least its newline. Kahn's loop takes a round for each
-- node and one to stop, since a node enters the stack once. The loop that shortens a packet drops
-- a path or a finding in each round, and the selection of tasks takes a slot in each round that
-- goes on. Fields of the history that nothing reads are left out, as are the Markdown pages for
-- the root agent and for the release gate, of which the escalation log's line is kept.
--
-- Not modelled: the command lines, printing, the random delay of a retry, reading the YAML and TOML
-- tables, processes and hooks, and the parts of the repository that no module above names.

pub mod Prelude
pub mod StateMachine
pub mod Retry
pub mod Budget
pub mod Trigger
pub mod Duty
pub mod Verdicts
pub mod Plan
pub mod Governor
pub mod L2
pub mod Results
pub mod Refill
