-- ===== src/L2/Passes.antt =====
-- The passes of harness/l2_consumer.py over the whole queue: `enqueue`, `drain`,
-- `reap_stale_claims`, `check_stale_pending` and `complete`. The dispatcher's answers are a function
-- of the record, with `none` for an exception; the hash in a key and the test of a packet id are
-- parameters.
use codex_loop_orchestra.Prelude.{
  ℕ, ◌+◌, Bool, true, false, ◌&&◌, String, List, [], ◌∷◌, ◌++◌, Option, none, some, lookup, insert,
  any, map, get_or_default, ltb, leb, str_eq, if◌then◌else◌,
}
use codex_loop_orchestra.L2.Queue.{
  L2Record, Claim, ClaimFile, written, corrupt, escalated_l3, stale_escalated, published, L2Event,
  verdict_escalate_l3, l2_claim_reaped, l2_consumer_stale, verdict_event, exec_failed, Queue,
  Settings, delete, is_complete, is_claimed, reclaim_count, Taken, claimed, take_record,
}

abbrev pub new_record : String → String → String → ℕ → String → ℕ → L2Record
new_record key packet_id run_id attempt reason now = record {
  idem_key = key;
  packet_id = packet_id;
  run_id = run_id;
  attempt = attempt;
  reason = reason;
  created_ts = now;
}

-- `enqueue`: `none` for a key that is pending already, or an invalid packet id.
module _ (make_idem_key : String → String → ℕ → Option String) where
  unfoldable pub enqueue : ℕ → String → String → ℕ → String → Queue → Queue × Option L2Record
  enqueue now packet_id run_id attempt reason q = elim (make_idem_key packet_id run_id attempt) [
    | none ↦ (q, none)
    | some key ↦ if any (λ r. str_eq r.idem_key key) q.pending then (q, none) else (
      record q { pending = q.pending ++ new_record key packet_id run_id attempt reason now ∷ [] },
      some (new_record key packet_id run_id attempt reason now),
    )
  ]

-- The loop of `drain`: it stops when `max_records` dispatches have answered true.
abbrev pub is_full : Option ℕ → ℕ → Bool
is_full none dispatched = false
is_full (some max) dispatched = leb max dispatched

abbrev pub answered : (L2Record → Option Bool) → L2Record → Taken → ℕ
answered dispatcher rec claimed = elim (dispatcher rec) [ some true ↦ 1 | _ ↦ 0 ]
answered dispatcher rec _ = 0

module _ (s : Settings) where
  -- The claim is moved to `reaped/`; past the bound a completion makes sure that it is not claimed
  -- again.
  unfoldable pub reap_written : ℕ → String → Claim → Queue → Queue
  reap_written now key claim q =
      let reclaims = reclaim_count q key + 1 in
      let moved : Queue = record q {
        claims = delete key q.claims;
        reaped = insert key (get_or_default (lookup key q.reaped) 0 + 1) q.reaped;
      } in
      if ltb s.claim_max_reclaims reclaims
      then record moved {
        events = q.events ++ verdict_escalate_l3 claim.packet_id ∷ [];
        completions = insert key escalated_l3 q.completions;
        sol_wakes = q.sol_wakes ++ claim.packet_id ∷ [];
      }
      else record moved { events = q.events ++ l2_claim_reaped claim.packet_id ∷ [] }

  unfoldable pub reap_file : ℕ → String → ClaimFile → Queue → Queue
  reap_file now key (corrupt created) q =
      if leb (created + s.claim_stale_after_s) now
      then record q { claims = delete key q.claims; reaped_corrupt = insert key 1 q.reaped_corrupt }
      else q
  reap_file now key (written claim) q =
      if is_complete q key
      then q
      else if ltb now (claim.heartbeat_ts + s.claim_stale_after_s)
      then q
      else reap_written now key claim q

  -- The body of the loop of `reap_stale_claims`; a claim that is gone by then is passed over.
  unfoldable pub reap_claim : ℕ → String → Queue → Queue
  reap_claim now key q = elim (lookup key q.claims) [
    | none ↦ q
    | some file ↦ reap_file now key file q
  ]

  unfoldable pub reap_all : ℕ → List String → Queue → Queue
  reap_all now [] q = q
  reap_all now (key ∷ keys) q = reap_all now keys (reap_claim now key q)

  -- `reap_stale_claims`; `listing` is the order in which the names are listed.
  unfoldable pub reap_stale_claims : (List String → List String) → ℕ → Queue → Queue
  reap_stale_claims listing now q = reap_all now (listing (map (λ c. c.0) q.claims)) q

  -- The body of the loop of `check_stale_pending`.
  unfoldable pub check_record : ℕ → L2Record → Queue → Queue
  check_record now rec q =
      if leb now (rec.created_ts + s.l2_max_age_s)
      then q
      else if is_claimed q rec.idem_key
      then q
      else if is_complete q rec.idem_key
      then q
      else record q {
        completions = insert rec.idem_key stale_escalated q.completions;
        events = q.events ++ l2_consumer_stale rec.packet_id ∷ [];
        sol_wakes = q.sol_wakes ++ rec.packet_id ∷ [];
      }

  unfoldable pub check_all : ℕ → List L2Record → Queue → Queue
  check_all now [] q = q
  check_all now (rec ∷ recs) q = check_all now recs (check_record now rec q)

  unfoldable pub check_stale_pending : ℕ → Queue → Queue
  check_stale_pending now q = check_all now q.pending q

  module _ (dispatcher : L2Record → Option Bool) (max_records : Option ℕ) where
    unfoldable pub drain_records : ℕ → ℕ → List L2Record → Queue → Queue
    drain_records now dispatched [] q = q
    drain_records now dispatched (rec ∷ recs) q =
        let taken = take_record now rec q in
        let rest = drain_records now (dispatched + answered dispatcher rec taken.1) recs taken.0 in
        if is_full max_records dispatched then q else rest

    -- `drain`; `blocked` is the backoff of the provider.
    unfoldable pub drain : Bool → ℕ → Queue → Queue
    drain blocked now q =
        check_stale_pending now (if blocked then q else drain_records now 0 q.pending q)

  unfoldable pub recover_after_restart :
      (L2Record → Option Bool) → (List String → List String) → Bool → ℕ → Queue → Queue
  recover_after_restart dispatcher listing blocked now q =
      drain dispatcher none blocked now (reap_stale_claims listing now q)

-- What `complete` reads of a report: `ok` is the answer of the validator.
pub record Verified : Type 0 where
  pub ok : Bool
  pub packet_id : Option String
  pub verdict : Option String

abbrev pub is_l2_verdict : String → Bool
is_l2_verdict v = any (str_eq v) ("pass" ∷ "redo" ∷ "escalate_l2_5" ∷ "escalate_l3" ∷ [])

abbrev pub result_event : Verified → L2Event
result_event v = elim v.verdict [
  | none ↦ exec_failed (get_or_default v.packet_id "?")
  | some verdict ↦
      if v.ok && is_l2_verdict verdict
      then verdict_event (get_or_default v.packet_id "?") verdict
      else exec_failed (get_or_default v.packet_id "?")
]

-- `complete`: nothing changes if the key has a completion.
unfoldable pub complete : String → Verified → Queue → Queue
complete key v q = if is_complete q key then q else record q {
  completions = insert key (published v.ok v.verdict) q.completions;
  events = q.events ++ result_event v ∷ [];
  claims = delete key q.claims;
}
