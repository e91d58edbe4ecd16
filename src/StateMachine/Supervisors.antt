-- ===== src/StateMachine/Supervisors.antt =====
-- The live supervisor that keeps the watchdog of harness/statemachine_v2.py from a packet.
use codex_loop_orchestra.Prelude.{
  ℕ, ◌-◌, ◌≤◌, ◌≡◌, refl, ap, ◌⊎◌, inl, inr, Bool, true, String, Option, none, some, lookup, arith,
  leb→le, or_true, and_true, and_true₃, eq_iff, ◌&&◌, ◌||◌,
}
use codex_loop_orchestra.StateMachine.Packet.{Env, Timestamp, Stamp, Job, AttemptField}
use codex_loop_orchestra.StateMachine.Reports.{text_eq}
use codex_loop_orchestra.StateMachine.Watchdog.{supervised, job_runs, is_fresh, mode, stamp_run_id}

-- The stamp is of a single dispatch and has a time; the packet's job in the roster has the run of
-- the stamp, starts or runs, and its heartbeat is within the age.
pub record IsSupervised (env : Env) (pid : String) : Type 0 where
  pub time : Timestamp
  pub run_id : Option String
  pub attempt : AttemptField
  pub job : Job
  pub heartbeat : ℕ
  pub stamped :
      lookup pid env.spawn_times ≡ some (Stamp.dispatched (some "single") time run_id attempt)
  pub timed : ¬ (time ≡ Timestamp.missing)
  pub listed : lookup pid env.exec_roster ≡ some job
  pub same_run : job.run_id ≡ run_id
  pub alive : (job.state ≡ some "starting") ⊎ (job.state ≡ some "running")
  pub heard : job.heartbeat_at ≡ Timestamp.at heartbeat
  pub recent : env.now - heartbeat ≤ env.heartbeat_stale

text_eq_sound : (a b : Option String) → text_eq a b ≡ true → a ≡ b
text_eq_sound none none h = refl
text_eq_sound none (some b) h = absurd (ground (arith, h))
text_eq_sound (some a) none h = absurd (ground (arith, h))
text_eq_sound (some a) (some b) h = ap some ((eq_iff a b).0 h)

text_eq_refl : (a : Option String) → text_eq a a ≡ true
text_eq_refl none = refl
text_eq_refl (some a) = (eq_iff a a).1 refl

both : (a b c : Bool) → a ≡ true → b ≡ true → c ≡ true → (a && b && c) ≡ true
both a b c ha hb hc = ground arith

fresh_at :
    (env : Env) (t : Timestamp)
    → is_fresh env t ≡ true
    → (n : ℕ) × (t ≡ Timestamp.at n) × (env.now - n ≤ env.heartbeat_stale)
fresh_at env (Timestamp.at n) h = (n, refl, leb→le _ _ h)
fresh_at env Timestamp.missing h = absurd (ground (arith, h))
fresh_at env Timestamp.unreadable h = absurd (ground (arith, h))

at-fresh :
    (env : Env) (t : Timestamp) (n : ℕ)
    → t ≡ Timestamp.at n
    → env.now - n ≤ env.heartbeat_stale
    → is_fresh env t ≡ true
at-fresh env t n e h = rw e (ground arith)

single_stamp :
    (s : Option Stamp)
    → text_eq (mode s) (some "single") ≡ true
    → (t : Timestamp) × (r : Option String) × (a : AttemptField) × (s
        ≡ some (Stamp.dispatched (some "single") t r a))
      × ¬ (t ≡ Timestamp.missing)
single_stamp none h = absurd (ground (arith, h))
single_stamp (some (Stamp.bare Timestamp.missing)) h = absurd (ground (arith, h))
single_stamp (some (Stamp.bare Timestamp.unreadable)) h = absurd (ground (arith, h))
single_stamp (some (Stamp.bare (Timestamp.at t))) h = absurd (ground (arith, h))
single_stamp (some (Stamp.dispatched m Timestamp.missing r a)) h = absurd (ground (arith, h))
single_stamp (some (Stamp.dispatched m Timestamp.unreadable r a)) h = (
  Timestamp.unreadable,
  r,
  a,
  ap (λ x. some (Stamp.dispatched x Timestamp.unreadable r a)) (text_eq_sound m (some "single") h),
  λ e. cc,
)
single_stamp (some (Stamp.dispatched m (Timestamp.at t) r a)) h = (
  Timestamp.at t,
  r,
  a,
  ap (λ x. some (Stamp.dispatched x (Timestamp.at t) r a)) (text_eq_sound m (some "single") h),
  λ e. cc,
)

single_mode :
    (t : Timestamp) (r : Option String) (a : AttemptField)
    → ¬ (t ≡ Timestamp.missing)
    → mode (some (Stamp.dispatched (some "single") t r a)) ≡ some "single"
single_mode Timestamp.missing r a n = absurd (n refl)
single_mode Timestamp.unreadable r a n = refl
single_mode (Timestamp.at t) r a n = refl

listed_job :
    (env : Env) (j : Option Job) (r : Option String)
    → job_runs env j r ≡ true
    → (job : Job) × (heartbeat : ℕ) × (j ≡ some job)
      × (job.run_id ≡ r)
      × ((job.state ≡ some "starting") ⊎ (job.state ≡ some "running"))
      × (job.heartbeat_at ≡ Timestamp.at heartbeat)
      × (env.now - heartbeat ≤ env.heartbeat_stale)
listed_job env none r h = absurd (ground (arith, h))
listed_job env (some j) r h =
    let (same, alive, heard) = and_true₃ _ _ _ h in
    let (n, is_at, recent) = fresh_at env j.heartbeat_at heard in
    (
      j,
      n,
      refl,
      text_eq_sound j.run_id r same,
      elim (or_true _ _ alive) [
        | inl a ↦ inl (text_eq_sound j.state (some "starting") a)
        | inr b ↦ inr (text_eq_sound j.state (some "running") b)
      ],
      is_at,
      recent,
    )

pub supervised-IsSupervised :
    (env : Env) (pid : String)
    → supervised env pid (lookup pid env.spawn_times) ≡ true
    → IsSupervised env pid
unfolding supervised
supervised-IsSupervised env pid h =
    let (t, r, a, stamped, timed) = single_stamp (lookup pid env.spawn_times) (and_true _ _ h).0 in
    let runs : job_runs env (lookup pid env.exec_roster) (stamp_run_id (lookup pid env.spawn_times))
        ≡ true =
      (and_true _ _ h).1 in
    let (j, n, listed, same, alive, heard, recent) =
      listed_job env (lookup pid env.exec_roster) r (rw stamped at runs) in
    record {
      time = t;
      run_id = r;
      attempt = a;
      job = j;
      heartbeat = n;
      stamped = stamped;
      timed = timed;
      listed = listed;
      same_run = same;
      alive = alive;
      heard = heard;
      recent = recent;
    }

any_state :
    (s : Option String)
    → (s ≡ some "starting") ⊎ (s ≡ some "running")
    → (text_eq s (some "starting") || text_eq s (some "running")) ≡ true
any_state s (inl e) = rw e refl
any_state s (inr e) = rw e refl

pub IsSupervised-supervised :
    (env : Env) (pid : String)
    → IsSupervised env pid
    → supervised env pid (lookup pid env.spawn_times) ≡ true
unfolding supervised
IsSupervised-supervised env pid k =
    rw (k.stamped, single_mode k.time k.run_id k.attempt k.timed, k.listed)
      (both _ _ _ (rw k.same_run (text_eq_refl k.run_id)) (any_state k.job.state k.alive)
        (at-fresh env k.job.heartbeat_at k.heartbeat k.heard k.recent))
