-- ===== src/L2/Bounded.antt =====
-- How often harness/l2_consumer.py dispatches one request.
use codex_loop_orchestra.Prelude.{
  ℕ, ◌+◌, ◌≤◌, ◌≡◌, refl, Bool, false, String, List, [], ◌∷◌, Option, none, some, lookup,
  lookup-insert, get_or_default, str_eq, eq_iff, if◌then◌else◌, arith, if_either,
}
use codex_loop_orchestra.L2.Queue.{
  L2Record, Claim, ClaimFile, written, corrupt, escalated_l3, stale_escalated, published, Queue,
  Settings, lookup-delete, is_complete, reclaim_count, new_claim, try_claim, crash_in_claim,
  announce, take_record, heartbeat,
}
use codex_loop_orchestra.L2.Passes.{
  enqueue, reap_written, reap_file, reap_claim, reap_all, check_record, check_all, drain_records,
  answered, is_full, Verified, complete,
}

abbrev pub count : String → List String → ℕ
count key [] = 0
count key (x ∷ xs) = (if str_eq x key then 1 else 0) + count key xs

abbrev pub numbered : Queue → String → ℕ
numbered q key = get_or_default (lookup key q.reaped) 0

-- A claim that has been written may have been dispatched since the last reaping.
abbrev slot : Option ClaimFile → ℕ
slot none = 0
slot (some (written _)) = 1
slot (some (corrupt _)) = 0

module _ (s : Settings) (key : String) where
  pub record Bounded (q : Queue) : Type 0 where
    pub total : count key q.dispatches ≤ s.claim_max_reclaims + 1
    pub by_slot :
        is_complete q key ≡ false
        → count key q.dispatches ≤ numbered q key + slot (lookup key q.claims)
    pub reclaimable : is_complete q key ≡ false → numbered q key ≤ s.claim_max_reclaims

  pub take-Bounded :
      (now : ℕ) (rec : L2Record) {q : Queue} → Bounded q → Bounded (take_record now rec q).0
  unfolding take_record try_claim announce
  take-Bounded now rec {q} b = record {
    total = ground (arith, b.total, b.by_slot, b.reclaimable, eq_iff rec.idem_key key);
    by_slot = λ h. ground (
      arith,
      b.by_slot,
      eq_iff rec.idem_key key,
      lookup-insert rec.idem_key key (written (new_claim now rec (reclaim_count q rec.idem_key)))
          q.claims,
    );
    reclaimable = λ h. ground (arith, b.reclaimable);
  }

  pub claim-Bounded :
      (now : ℕ) (rec : L2Record) {q : Queue}
      → Bounded q
      → Bounded (get_or_default (try_claim now rec q) q)
  unfolding try_claim
  claim-Bounded now rec {q} b = record {
    total = ground (arith, b.total);
    by_slot = λ h. ground (
      arith,
      b.by_slot,
      lookup-insert rec.idem_key key (written (new_claim now rec (reclaim_count q rec.idem_key)))
          q.claims,
      eq_iff rec.idem_key key,
    );
    reclaimable = λ h. ground (arith, b.reclaimable);
  }

  pub crash-Bounded :
      (now : ℕ) (rec : L2Record) {q : Queue} → Bounded q → Bounded (crash_in_claim now rec q)
  unfolding crash_in_claim
  crash-Bounded now rec {q} b = record {
    total = ground (arith, b.total);
    by_slot = λ h. ground (
      arith,
      b.by_slot,
      lookup-insert rec.idem_key key (corrupt now) q.claims,
      eq_iff rec.idem_key key,
    );
    reclaimable = λ h. ground (arith, b.reclaimable);
  }

  pub heartbeat-Bounded :
      (now : ℕ) (beating : String) {q : Queue} → Bounded q → Bounded (heartbeat now beating q)
  unfolding heartbeat
  heartbeat-Bounded now beating {q} b = go (lookup beating q.claims) refl
    where
      go : (o : Option ClaimFile) → lookup beating q.claims ≡ o → Bounded (heartbeat now beating q)
      go none e = rw (e, heartbeat) b
      go (some (corrupt t)) e = rw (e, heartbeat) b
      go (some (written claim)) e =
          rw (e, heartbeat)
            (record {
              total = b.total;
              by_slot = λ h. ground (
                arith,
                b.by_slot h,
                e,
                eq_iff beating key,
                lookup-insert beating key (written (record claim { heartbeat_ts = now })) q.claims,
              );
              reclaimable = b.reclaimable;
            })

  reap_written-Bounded :
      (now : ℕ) (stale : String) (claim : Claim) {q : Queue}
      → is_complete q stale ≡ false
      → lookup stale q.claims ≡ some (written claim)
      → Bounded q
      → Bounded (reap_written s now stale claim q)
  unfolding reap_written
  reap_written-Bounded now stale claim {q} open_key found b =
      let times = get_or_default (lookup stale q.reaped) 0 + 1 in
      let gone = lookup-delete stale key q.claims in
      let counted = lookup-insert stale key times q.reaped in
      let closed = lookup-insert stale key escalated_l3 q.completions in
      record {
        total = ground (arith, b.total);
        by_slot = λ h. ground (arith, b.by_slot, gone, counted, closed, eq_iff stale key);
        reclaimable = λ h. ground (arith, b.reclaimable, counted, closed, eq_iff stale key);
      }

  reap_file-Bounded :
      (now : ℕ) (stale : String) (file : ClaimFile) {q : Queue}
      → lookup stale q.claims ≡ some file
      → Bounded q
      → Bounded (reap_file s now stale file q)
  unfolding reap_file
  reap_file-Bounded now stale (corrupt created) {q} found b =
      let gone = lookup-delete stale key q.claims in
      record {
        total = ground (arith, b.total);
        by_slot = λ h. ground (arith, b.by_slot, gone, eq_iff stale key);
        reclaimable = λ h. ground (arith, b.reclaimable);
      }
  reap_file-Bounded now stale (written claim) {q} found b =
      if_either Bounded (is_complete q stale) _ _ (λ _. b)
        λ open_key.
          if_either Bounded _ _ _ (λ _. b)
            (λ _. reap_written-Bounded now stale claim open_key found b)

  check_record-Bounded :
      (now : ℕ) (rec : L2Record) {q : Queue} → Bounded q → Bounded (check_record s now rec q)
  unfolding check_record
  check_record-Bounded now rec {q} b =
      let closed = lookup-insert rec.idem_key key stale_escalated q.completions in
      record {
        total = ground (arith, b.total);
        by_slot = λ h. ground (arith, b.by_slot, closed, eq_iff rec.idem_key key);
        reclaimable = λ h. ground (arith, b.reclaimable, closed, eq_iff rec.idem_key key);
      }

  pub complete-Bounded :
      (done : String) (v : Verified) {q : Queue} → Bounded q → Bounded (complete done v q)
  unfolding complete
  complete-Bounded done v {q} b =
      let closed = lookup-insert done key (published v.ok v.verdict) q.completions in
      let gone = lookup-delete done key q.claims in
      record {
        total = ground (arith, b.total);
        by_slot = λ h. ground (arith, b.by_slot, closed, gone, eq_iff done key);
        reclaimable = λ h. ground (arith, b.reclaimable, closed, eq_iff done key);
      }

  reap_claim-Bounded :
      (now : ℕ) (stale : String) {q : Queue} → Bounded q → Bounded (reap_claim s now stale q)
  unfolding reap_claim
  reap_claim-Bounded now stale {q} b = go (lookup stale q.claims) refl
    where
      go : (o : Option ClaimFile) → lookup stale q.claims ≡ o → Bounded (reap_claim s now stale q)
      go none e = rw (e, reap_claim) b
      go (some file) e = rw (e, reap_claim) (reap_file-Bounded now stale file e b)

  pub reap_all-Bounded :
      (now : ℕ) (keys : List String) {q : Queue} → Bounded q → Bounded (reap_all s now keys q)
  unfolding reap_all
  reap_all-Bounded now [] b = b
  reap_all-Bounded now (k ∷ keys) b = reap_all-Bounded now keys (reap_claim-Bounded now k b)

  pub check_all-Bounded :
      (now : ℕ) (recs : List L2Record) {q : Queue} → Bounded q → Bounded (check_all s now recs q)
  unfolding check_all
  check_all-Bounded now [] b = b
  check_all-Bounded now (rec ∷ recs) b = check_all-Bounded now recs (check_record-Bounded now rec b)

  pub drain_records-Bounded :
      (dispatcher : L2Record → Option Bool) (max_records : Option ℕ) (now dispatched : ℕ)
      (recs : List L2Record) {q : Queue}
      → Bounded q
      → Bounded (drain_records s dispatcher max_records now dispatched recs q)
  unfolding drain_records
  drain_records-Bounded dispatcher max_records now dispatched [] b = b
  drain_records-Bounded dispatcher max_records now dispatched (rec ∷ recs) {q} b =
      if_either Bounded (is_full max_records dispatched) _ _ (λ _. b)
        λ _.
          drain_records-Bounded dispatcher max_records now
            (dispatched + answered dispatcher rec (take_record now rec q).1) recs
            (take-Bounded now rec b)

  pub enqueue-Bounded :
      (make_idem_key : String → String → ℕ → Option String) (now : ℕ) (packet_id run_id : String)
      (attempt : ℕ) (reason : String) {q : Queue}
      → Bounded q
      → Bounded (enqueue make_idem_key now packet_id run_id attempt reason q).0
  unfolding enqueue
  enqueue-Bounded make_idem_key now packet_id run_id attempt reason {q} b = record {
    total = ground (arith, b.total);
    by_slot = λ h. ground (arith, b.by_slot);
    reclaimable = λ h. ground (arith, b.reclaimable);
  }
