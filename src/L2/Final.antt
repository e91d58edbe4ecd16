-- ===== src/L2/Final.antt =====
-- What a completion of harness/l2_consumer.py decides for good.
use codex_loop_orchestra.Prelude.{
  ℕ, ◌+◌, ◌≡◌, refl, Bool, String, List, [], ◌∷◌, Option, none, some, lookup, lookup-insert,
  get_or_default, eq_iff, arith, if_either,
}
use codex_loop_orchestra.L2.Queue.{
  L2Record, ClaimFile, Completion, written, corrupt, escalated_l3, stale_escalated, published,
  Queue, Settings, try_claim, crash_in_claim, announce, take_record, heartbeat,
}
use codex_loop_orchestra.L2.Passes.{
  enqueue, reap_written, reap_file, reap_claim, reap_all, check_record, check_all, drain_records,
  answered, is_full, Verified, complete,
}
use codex_loop_orchestra.L2.Bounded.{count}

module _ (s : Settings) (key : String) (c : Completion) (n : ℕ) where
  -- The completion of the request, and how often it was dispatched.
  pub record Final (q : Queue) : Type 0 where
    pub kept : lookup key q.completions ≡ some c
    pub calls : count key q.dispatches ≡ n

  pub take-Final :
      (now : ℕ) (rec : L2Record) {q : Queue} → Final q → Final (take_record now rec q).0
  unfolding take_record try_claim announce
  take-Final now rec {q} f = record {
    kept = ground (arith, f.kept);
    calls = ground (arith, f.kept, f.calls, eq_iff rec.idem_key key);
  }

  pub claim-Final :
      (now : ℕ) (rec : L2Record) {q : Queue}
      → Final q
      → Final (get_or_default (try_claim now rec q) q)
  unfolding try_claim
  claim-Final now rec {q} f = record {
    kept = ground (arith, f.kept);
    calls = ground (arith, f.calls);
  }

  pub crash-Final :
      (now : ℕ) (rec : L2Record) {q : Queue} → Final q → Final (crash_in_claim now rec q)
  unfolding crash_in_claim
  crash-Final now rec {q} f = record {
    kept = ground (arith, f.kept);
    calls = ground (arith, f.calls);
  }

  pub heartbeat-Final : (now : ℕ) (k : String) {q : Queue} → Final q → Final (heartbeat now k q)
  unfolding heartbeat
  heartbeat-Final now k {q} f = record {
    kept = ground (arith, f.kept);
    calls = ground (arith, f.calls);
  }

  reap_file-Final :
      (now : ℕ) (k : String) (file : ClaimFile) {q : Queue}
      → Final q
      → Final (reap_file s now k file q)
  unfolding reap_file reap_written
  reap_file-Final now k (corrupt t) {q} f = record {
    kept = ground (arith, f.kept);
    calls = ground (arith, f.calls);
  }
  reap_file-Final now k (written claim) {q} f = record {
    kept = ground (arith, f.kept, lookup-insert k key escalated_l3 q.completions, eq_iff k key);
    calls = ground (arith, f.calls);
  }

  reap_claim-Final : (now : ℕ) (k : String) {q : Queue} → Final q → Final (reap_claim s now k q)
  unfolding reap_claim
  reap_claim-Final now k {q} f = go (lookup k q.claims) refl
    where
      go : (o : Option ClaimFile) → lookup k q.claims ≡ o → Final (reap_claim s now k q)
      go none e = rw (e, reap_claim) f
      go (some file) e = rw (e, reap_claim) (reap_file-Final now k file f)

  pub reap_all-Final :
      (now : ℕ) (keys : List String) {q : Queue} → Final q → Final (reap_all s now keys q)
  unfolding reap_all
  reap_all-Final now [] f = f
  reap_all-Final now (k ∷ keys) f = reap_all-Final now keys (reap_claim-Final now k f)

  check_record-Final :
      (now : ℕ) (rec : L2Record) {q : Queue} → Final q → Final (check_record s now rec q)
  unfolding check_record
  check_record-Final now rec {q} f = record {
    kept = ground (
      arith,
      f.kept,
      lookup-insert rec.idem_key key stale_escalated q.completions,
      eq_iff rec.idem_key key,
    );
    calls = ground (arith, f.calls);
  }

  pub check_all-Final :
      (now : ℕ) (recs : List L2Record) {q : Queue} → Final q → Final (check_all s now recs q)
  unfolding check_all
  check_all-Final now [] f = f
  check_all-Final now (rec ∷ recs) f = check_all-Final now recs (check_record-Final now rec f)

  pub drain_records-Final :
      (dispatcher : L2Record → Option Bool) (max_records : Option ℕ) (now dispatched : ℕ)
      (recs : List L2Record) {q : Queue}
      → Final q
      → Final (drain_records s dispatcher max_records now dispatched recs q)
  unfolding drain_records
  drain_records-Final dispatcher max_records now dispatched [] f = f
  drain_records-Final dispatcher max_records now dispatched (rec ∷ recs) {q} f =
      if_either Final (is_full max_records dispatched) _ _ (λ _. f)
        λ _.
          drain_records-Final dispatcher max_records now
            (dispatched + answered dispatcher rec (take_record now rec q).1) recs
            (take-Final now rec f)

  pub enqueue-Final :
      (make_idem_key : String → String → ℕ → Option String) (now : ℕ) (packet_id run_id : String)
      (attempt : ℕ) (reason : String) {q : Queue}
      → Final q
      → Final (enqueue make_idem_key now packet_id run_id attempt reason q).0
  unfolding enqueue
  enqueue-Final make_idem_key now packet_id run_id attempt reason {q} f = record {
    kept = ground (arith, f.kept);
    calls = ground (arith, f.calls);
  }

  pub complete-Final : (k : String) (v : Verified) {q : Queue} → Final q → Final (complete k v q)
  unfolding complete
  complete-Final k v {q} f = record {
    kept =
        ground (
          arith,
          f.kept,
          lookup-insert k key (published v.ok v.verdict) q.completions,
          eq_iff k key,
        );
    calls = ground (arith, f.calls);
  }
