-- ===== src/L2/Race.antt =====
-- The window between the look at a completion and the claim in `drain` of harness/l2_consumer.py.
use codex_loop_orchestra.Prelude.{ℕ, ◌≡◌, true, false, is_some, eq_iff, arith}
use codex_loop_orchestra.L2.Queue.{L2Record, Queue, is_complete, try_claim, lookup-delete}
use codex_loop_orchestra.L2.Passes.{Verified, complete}

-- `complete` removes the claim, so a drainer that saw no completion before it and claims after it
-- gets the claim, and dispatches a request that is done.
claim_after_completion :
    (now : ℕ) (rec : L2Record) (v : Verified) (q : Queue)
    → is_complete q rec.idem_key ≡ false
    → is_some (try_claim now rec (complete rec.idem_key v q)) ≡ true
unfolding try_claim complete
claim_after_completion now rec v q h =
    ground
      (arith, h, lookup-delete rec.idem_key rec.idem_key q.claims, eq_iff rec.idem_key rec.idem_key)
