-- ===== src/L2/Once.antt =====
-- Runs of the operations of harness/l2_consumer.py: how often a request is dispatched.
use codex_loop_orchestra.Prelude.{
  ℕ, ◌+◌, ◌≤◌, ◌≡◌, refl, Bool, true, false, String, List, [], ◌∷◌, Option, some, get_or_default,
  lookup, arith,
}
use codex_loop_orchestra.L2.Queue.{
  L2Record, Completion, Queue, Settings, try_claim, crash_in_claim, take_record, heartbeat,
}
use codex_loop_orchestra.L2.Passes.{
  enqueue, reap_stale_claims, check_stale_pending, drain, Verified, complete,
}
use codex_loop_orchestra.L2.Bounded.{
  count, Bounded, take-Bounded, claim-Bounded, crash-Bounded, heartbeat-Bounded, reap_all-Bounded,
  check_all-Bounded, drain_records-Bounded, enqueue-Bounded, complete-Bounded,
}
use codex_loop_orchestra.L2.Final.{
  Final, take-Final, claim-Final, crash-Final, heartbeat-Final, reap_all-Final, check_all-Final,
  drain_records-Final, enqueue-Final, complete-Final,
}

-- What the processes around the queue do to it. `took` is a record that one of several drainers
-- takes, `stopped` and `crashed` a drainer that ends after its claim, with the body of the claim
-- written or not.
pub data Op : Type 0 where
  enqueued : (now : ℕ) (packet_id run_id : String) (attempt : ℕ) (reason : String) → Op
  drained :
      (dispatcher : L2Record → Option Bool) (max_records : Option ℕ) (blocked : Bool) (now : ℕ) → Op
  took stopped crashed : (now : ℕ) (rec : L2Record) → Op
  beat : (now : ℕ) (key : String) → Op
  reaped aged : (now : ℕ) → Op
  completed : (key : String) (v : Verified) → Op

abbrev pub empty_queue : Queue
empty_queue = record {
  pending = [];
  claims = [];
  completions = [];
  reaped = [];
  reaped_corrupt = [];
  events = [];
  sol_wakes = [];
  k3_demand = [];
  dispatches = [];
}

module _ (make_idem_key : String → String → ℕ → Option String) (listing : List String → List String)
    (s : Settings) where
  unfoldable pub run_op : Op → Queue → Queue
  run_op (enqueued now packet_id run_id attempt reason) q =
      (enqueue make_idem_key now packet_id run_id attempt reason q).0
  run_op (drained dispatcher max_records blocked now) q =
      drain s dispatcher max_records blocked now q
  run_op (took now rec) q = (take_record now rec q).0
  run_op (stopped now rec) q = get_or_default (try_claim now rec q) q
  run_op (crashed now rec) q = crash_in_claim now rec q
  run_op (beat now key) q = heartbeat now key q
  run_op (reaped now) q = reap_stale_claims s listing now q
  run_op (aged now) q = check_stale_pending s now q
  run_op (completed key v) q = complete key v q

  unfoldable pub run : List Op → Queue → Queue
  run [] q = q
  run (op ∷ ops) q = run ops (run_op op q)

  run_op-Bounded :
      (key : String) (op : Op) {q : Queue} → Bounded s key q → Bounded s key (run_op op q)
  unfolding run_op drain reap_stale_claims check_stale_pending
  run_op-Bounded key (enqueued now packet_id run_id attempt reason) b =
      enqueue-Bounded s key make_idem_key now packet_id run_id attempt reason b
  run_op-Bounded key (drained dispatcher max_records true now) b = check_all-Bounded s key now _ b
  run_op-Bounded key (drained dispatcher max_records false now) {q} b =
      check_all-Bounded s key now _
        (drain_records-Bounded s key dispatcher max_records now 0 q.pending b)
  run_op-Bounded key (took now rec) b = take-Bounded s key now rec b
  run_op-Bounded key (stopped now rec) b = claim-Bounded s key now rec b
  run_op-Bounded key (crashed now rec) b = crash-Bounded s key now rec b
  run_op-Bounded key (beat now k) b = heartbeat-Bounded s key now k b
  run_op-Bounded key (reaped now) {q} b = reap_all-Bounded s key now _ b
  run_op-Bounded key (aged now) b = check_all-Bounded s key now _ b
  run_op-Bounded key (completed k v) b = complete-Bounded s key k v b

  run-Bounded :
      (key : String) (ops : List Op) {q : Queue} → Bounded s key q → Bounded s key (run ops q)
  unfolding run
  run-Bounded key [] b = b
  run-Bounded key (op ∷ ops) b = run-Bounded key ops (run_op-Bounded key op b)

  -- Whatever the operations and their order, with drainers that stop or crash after a claim and
  -- reapers and verifiers in between, a request is dispatched once, and at most once more for each
  -- of the `claim_max_reclaims` reclaims. An operation on one record is a step of its own: nothing
  -- comes between the look at its completion and the claim.
  pub dispatch_bound :
      (ops : List Op) (key : String)
      → count key (run ops empty_queue).dispatches ≤ s.claim_max_reclaims + 1
  dispatch_bound ops key = (run-Bounded key ops start).total
    where
      start : Bounded s key empty_queue
      start = record {
        total = omega arith;
        by_slot = λ h. unfold lookup in omega arith;
        reclaimable = λ h. unfold lookup in omega arith;
      }

  run_op-Final :
      (key : String) (c : Completion) (n : ℕ) (op : Op) {q : Queue}
      → Final s key c n q
      → Final s key c n (run_op op q)
  unfolding run_op drain reap_stale_claims check_stale_pending
  run_op-Final key c n (enqueued now packet_id run_id attempt reason) f =
      enqueue-Final s key c n make_idem_key now packet_id run_id attempt reason f
  run_op-Final key c n (drained dispatcher max_records true now) f =
      check_all-Final s key c n now _ f
  run_op-Final key c n (drained dispatcher max_records false now) {q} f =
      check_all-Final s key c n now _
        (drain_records-Final s key c n dispatcher max_records now 0 q.pending f)
  run_op-Final key c n (took now rec) f = take-Final s key c n now rec f
  run_op-Final key c n (stopped now rec) f = claim-Final s key c n now rec f
  run_op-Final key c n (crashed now rec) f = crash-Final s key c n now rec f
  run_op-Final key c n (beat now k) f = heartbeat-Final s key c n now k f
  run_op-Final key c n (reaped now) f = reap_all-Final s key c n now _ f
  run_op-Final key c n (aged now) f = check_all-Final s key c n now _ f
  run_op-Final key c n (completed k v) f = complete-Final s key c n k v f

  run-Final :
      (key : String) (c : Completion) (n : ℕ) (ops : List Op) {q : Queue}
      → Final s key c n q
      → Final s key c n (run ops q)
  unfolding run
  run-Final key c n [] f = f
  run-Final key c n (op ∷ ops) f = run-Final key c n ops (run_op-Final key c n op f)

  -- A completion is never changed, and a request that has one is not dispatched again, whatever
  -- operations follow. An operation on one record is a step of its own.
  pub completion_is_final :
      (ops : List Op) (key : String) (c : Completion) (q : Queue)
      → lookup key q.completions ≡ some c
      → (lookup key (run ops q).completions ≡ some c)
        × (count key (run ops q).dispatches ≡ count key q.dispatches)
  completion_is_final ops key c q h =
      let f = run-Final key c (count key q.dispatches) ops (record { kept = h; calls = refl }) in
      (f.kept, f.calls)
