-- ===== src/L2/Tests.antt =====
-- Runs of the queue of harness/l2_consumer.py, and its theorems at concrete queues.
use codex_loop_orchestra.Prelude.{
  ℕ, ◌≤◌, ◌≡◌, refl, Bool, true, false, String, List, [], ◌∷◌, All, Option, none, some, lookup,
  insert,
}
use codex_loop_orchestra.L2.Queue.{
  L2Record, published, Queue, Settings, delete, try_claim, announce, take_record, heartbeat,
}
use codex_loop_orchestra.L2.Passes.{
  enqueue, reap_written, reap_file, reap_claim, reap_all, reap_stale_claims, check_record,
  check_all, check_stale_pending, drain_records, drain, Verified, new_record,
}
use codex_loop_orchestra.L2.Bounded.{count}
use codex_loop_orchestra.L2.Once.{
  Op, enqueued, drained, beat, reaped, empty_queue, run, run_op, dispatch_bound,
  completion_is_final,
}
use codex_loop_orchestra.L2.Covers.{settled, drain_settles}

abbrev key_of : String → String → ℕ → Option String
key_of packet_id run_id attempt = some packet_id

abbrev in_order : List String → List String
in_order names = names

abbrev settings : Settings
settings = record { claim_stale_after_s = 30; claim_max_reclaims = 1; l2_max_age_s = 3600 }

abbrev always : L2Record → Option Bool
always rec = some true

abbrev passed_report : Verified
passed_report = record { ok = true; packet_id = some "p"; verdict = some "pass" }

-- The request is dispatched, its verifier dies twice, and the second reaping gives it up.
abbrev crashes : List Op
crashes =
    enqueued 0 "p" "r" 1 "send_l2"
    ∷ enqueued 1 "p" "r" 1 "send_l2"
    ∷ drained always none false 2
    ∷ drained always none false 3
    ∷ reaped 20
    ∷ reaped 40
    ∷ drained always none false 41
    ∷ beat 60 "p"
    ∷ reaped 80
    ∷ reaped 95
    ∷ drained always none false 96
    ∷ []

crashes_dispatch_twice : count "p" (run key_of in_order settings crashes empty_queue).dispatches ≡ 2
unfolding run run_op enqueue drain drain_records take_record try_claim announce heartbeat
    reap_stale_claims reap_all reap_claim reap_file reap_written check_stale_pending check_all
    check_record lookup insert delete
crashes_dispatch_twice = refl

dispatch_bound_example : count "p" (run key_of in_order settings crashes empty_queue).dispatches ≤ 2
dispatch_bound_example = dispatch_bound key_of in_order settings crashes "p"

abbrev finished : Queue
finished = record empty_queue {
  completions = ("p", published true (some "pass")) ∷ [];
  dispatches = "p" ∷ [];
}

finished_holds : lookup "p" finished.completions ≡ some (published true (some "pass"))
unfolding lookup
finished_holds = refl

completion_is_final_example :
    (lookup "p" (run key_of in_order settings crashes finished).completions
      ≡ some (published true (some "pass")))
    × (count "p" (run key_of in_order settings crashes finished).dispatches ≡ 1)
completion_is_final_example =
    completion_is_final key_of in_order settings crashes "p" (published true (some "pass")) finished
      finished_holds

abbrev waiting : Queue
waiting = record empty_queue {
  pending = new_record "p" "p" "r" 1 "send_l2" 0 ∷ new_record "q" "q" "r" 1 "send_l2" 5 ∷ [];
}

drain_settles_example :
    All
      (λ rec. settled (drain settings always none false 10 waiting) rec.idem_key ≡ true)
      waiting.pending
drain_settles_example = drain_settles settings always 10 waiting
