-- ===== src/L2/Covers.antt =====
-- What a pass of `drain` of harness/l2_consumer.py leaves behind: no request is lost.
use codex_loop_orchestra.Prelude.{
  ℕ, ◌+◌, ◌≡◌, Bool, true, false, ◌||◌, String, List, [], ◌∷◌, All, Option, none, lookup-insert,
  eq_iff, arith,
}
use codex_loop_orchestra.L2.Queue.{
  L2Record, written, stale_escalated, Queue, Settings, is_complete, is_claimed, reclaim_count,
  new_claim, try_claim, announce, take_record,
}
use codex_loop_orchestra.L2.Passes.{
  check_record, check_all, check_stale_pending, drain, drain_records, answered,
}

-- The request is claimed or has its completion.
abbrev pub settled : Queue → String → Bool
settled q key = is_claimed q key || is_complete q key

take-settled :
    (now : ℕ) (rec : L2Record) (q : Queue) → settled (take_record now rec q).0 rec.idem_key ≡ true
unfolding take_record try_claim announce
take-settled now rec q = ground (
  arith,
  eq_iff rec.idem_key rec.idem_key,
  lookup-insert rec.idem_key rec.idem_key
      (written (new_claim now rec (reclaim_count q rec.idem_key))) q.claims,
)

take-keeps :
    (now : ℕ) (rec : L2Record) (key : String) (q : Queue)
    → settled q key ≡ true
    → settled (take_record now rec q).0 key ≡ true
unfolding take_record try_claim announce
take-keeps now rec key q h = ground (
  arith,
  eq_iff rec.idem_key key,
  lookup-insert rec.idem_key key (written (new_claim now rec (reclaim_count q rec.idem_key)))
      q.claims,
)

module _ (s : Settings) where
  check-keeps :
      (now : ℕ) (rec : L2Record) (key : String) (q : Queue)
      → settled q key ≡ true
      → settled (check_record s now rec q) key ≡ true
  unfolding check_record
  check-keeps now rec key q h =
      ground (
        arith,
        eq_iff rec.idem_key key,
        lookup-insert rec.idem_key key stale_escalated q.completions,
      )

  check_all-keeps :
      (now : ℕ) (recs : List L2Record) (key : String) (q : Queue)
      → settled q key ≡ true
      → settled (check_all s now recs q) key ≡ true
  unfolding check_all
  check_all-keeps now [] key q h = h
  check_all-keeps now (rec ∷ recs) key q h =
      check_all-keeps now recs key (check_record s now rec q) (check-keeps now rec key q h)

  module _ (dispatcher : L2Record → Option Bool) (now : ℕ) where
    drain-keeps :
        (dispatched : ℕ) (recs : List L2Record) (key : String) (q : Queue)
        → settled q key ≡ true
        → settled (drain_records s dispatcher none now dispatched recs q) key ≡ true
    unfolding drain_records
    drain-keeps dispatched [] key q h = h
    drain-keeps dispatched (rec ∷ recs) key q h =
        drain-keeps (dispatched + answered dispatcher rec (take_record now rec q).1) recs key
          (take_record now rec q).0 (take-keeps now rec key q h)

    drain_records-settled :
        (dispatched : ℕ) (recs : List L2Record) (q : Queue)
        → All
            (λ rec.
              settled (drain_records s dispatcher none now dispatched recs q) rec.idem_key ≡ true)
            recs
    unfolding drain_records
    drain_records-settled dispatched [] q = tt
    drain_records-settled dispatched (rec ∷ recs) q =
        let more = dispatched + answered dispatcher rec (take_record now rec q).1 in
        (
          drain-keeps more recs rec.idem_key (take_record now rec q).0 (take-settled now rec q),
          drain_records-settled more recs (take_record now rec q).0,
        )

    settle_all :
        (recs : List L2Record) (pending : List L2Record) (q : Queue)
        → All (λ rec. settled q rec.idem_key ≡ true) recs
        → All (λ rec. settled (check_all s now pending q) rec.idem_key ≡ true) recs
    settle_all [] pending q h = tt
    settle_all (rec ∷ recs) pending q h =
        (check_all-keeps now pending rec.idem_key q h.0, settle_all recs pending q h.1)

    -- After a pass without a backoff of the provider and without a limit on the records, every
    -- request that was pending is claimed or has its completion, whatever the dispatcher answered.
    pub drain_settles :
        (q : Queue)
        → All (λ rec. settled (drain s dispatcher none false now q) rec.idem_key ≡ true) q.pending
    unfolding drain check_stale_pending
    drain_settles q = settle_all q.pending _ _ (drain_records-settled 0 q.pending q)
