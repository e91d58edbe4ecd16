-- ===== src/StateMachine/Timeouts.antt =====
-- Which packets the watchdog of harness/statemachine_v2.py times out.
use codex_loop_orchestra.Prelude.{
  ℕ, ◌-◌, ◌<◌, ◌≡◌, refl, sym, ap, ◌∙◌, ◌⊎◌, inl, inr, Bool, true, false, List, String, [], ◌∷◌,
  Option, some, Dict, lookup, arith, Bool-cases, lt→ltb, ltb→lt, and_true₃, ◌&&◌, not,
}
use codex_loop_orchestra.StateMachine.States.{State, ◌is◌, is_sound}
use codex_loop_orchestra.StateMachine.Packet.{Packet, Entry, Env, Timestamp, Stamp}
use codex_loop_orchestra.StateMachine.Watchdog.{
  watch, watchdog, fires, supervised, start_ts, stamp_ts, overdue, synthetic_spawn_ts,
}
use codex_loop_orchestra.StateMachine.Supervisors.{
  IsSupervised, supervised-IsSupervised, IsSupervised-supervised,
}
use codex_loop_orchestra.StateMachine.WatchdogLaws.{watched, lookup-watchdog}

-- No entry of the history moves the packet into RUNNING.
abbrev pub NoStart : List Entry → Type 0
NoStart [] = Unit
NoStart (e ∷ es) = ((e.to is State.running) ≡ false) × NoStart es

-- The last entry that moves the packet into RUNNING was written at the time.
pub data LastStart : List Entry → ℕ → Type 0 where
  here : (e : Entry) (es : List Entry) → e.to ≡ State.running → NoStart es → LastStart (e ∷ es) e.ts
  later : (e : Entry) (es : List Entry) (t : ℕ) → LastStart es t → LastStart (e ∷ es) t

-- When a packet has started: the time of its stamp, or of its history if the stamp has none.
pub data Started (s : Option Stamp) (p : Packet) (t : ℕ) : Type 0 where
  stamped : stamp_ts s ≡ Timestamp.at t → Started s p t
  recorded : stamp_ts s ≡ Timestamp.missing → LastStart p.history t → Started s p t

-- A packet that the watchdog is for.
pub record IsStuck (env : Env) (pid : String) (p : Packet) : Type 0 where
  pub running : p.state ≡ State.running
  pub start : ℕ
  pub started : Started (lookup pid env.spawn_times) p start
  pub late : env.job_max_runtime < env.now - start
  pub alone : ¬ IsSupervised env pid

at_inj : {a b : ℕ} → Timestamp.at a ≡ Timestamp.at b → a ≡ b
at_inj h = cc

missing-NoStart : (h : List Entry) → synthetic_spawn_ts h ≡ Timestamp.missing → NoStart h
unfolding synthetic_spawn_ts
missing-NoStart [] e = tt
missing-NoStart (x ∷ xs) e =
    go (synthetic_spawn_ts xs) refl (Bool-cases (x.to is State.running)) (missing-NoStart xs)
  where
    go :
        (t : Timestamp)
        → synthetic_spawn_ts xs ≡ t
        → ((x.to is State.running) ≡ true) ⊎ ((x.to is State.running) ≡ false)
        → (synthetic_spawn_ts xs ≡ Timestamp.missing → NoStart xs)
        → NoStart (x ∷ xs)
    go Timestamp.missing f (inl yes_start) rest = absurd (ground (arith, rw (f, yes_start) at e))
    go Timestamp.missing f (inr other) rest = (other, rest f)
    go Timestamp.unreadable f b rest = absurd (ground (arith, rw f at e))
    go (Timestamp.at t) f b rest = absurd (ground (arith, rw f at e))

NoStart-missing : (h : List Entry) → NoStart h → synthetic_spawn_ts h ≡ Timestamp.missing
unfolding synthetic_spawn_ts
NoStart-missing [] n = refl
NoStart-missing (x ∷ xs) n = rw (NoStart-missing xs n.1, n.0) refl

found-LastStart : (h : List Entry) (t : ℕ) → synthetic_spawn_ts h ≡ Timestamp.at t → LastStart h t
unfolding synthetic_spawn_ts
found-LastStart [] t e = absurd (ground (arith, e))
found-LastStart (x ∷ xs) t e =
    go (synthetic_spawn_ts xs) refl (Bool-cases (x.to is State.running)) (found-LastStart xs)
  where
    go :
        (u : Timestamp)
        → synthetic_spawn_ts xs ≡ u
        → ((x.to is State.running) ≡ true) ⊎ ((x.to is State.running) ≡ false)
        → ((v : ℕ) → synthetic_spawn_ts xs ≡ Timestamp.at v → LastStart xs v)
        → LastStart (x ∷ xs) t
    go Timestamp.missing f (inl start) rest =
        rw (sym (at_inj (rw (f, start) at e)))
          (here x xs (is_sound x.to _ start) (missing-NoStart xs f))
    go Timestamp.missing f (inr other) rest = absurd (ground (arith, rw (f, other) at e))
    go Timestamp.unreadable f b rest = absurd (ground (arith, rw f at e))
    go (Timestamp.at u) f b rest = later x xs t (rw (at_inj (rw f at e)) at (rest u f))

LastStart-found : (h : List Entry) (t : ℕ) → LastStart h t → synthetic_spawn_ts h ≡ Timestamp.at t
unfolding synthetic_spawn_ts
LastStart-found h t (here e es start no_more) = rw (NoStart-missing es no_more, start) refl
LastStart-found h t (later e es u rest) = rw (LastStart-found es u rest) refl

Started-start_ts :
    (s : Option Stamp) (p : Packet) (t : ℕ) → Started s p t → start_ts s p ≡ Timestamp.at t
Started-start_ts s p t (stamped e) = rw (start_ts, e) refl
Started-start_ts s p t (recorded e l) = rw (start_ts, e) (LastStart-found p.history t l)

start_ts-Started :
    (s : Option Stamp) (p : Packet) (t : ℕ) → start_ts s p ≡ Timestamp.at t → Started s p t
start_ts-Started s p t h = go (stamp_ts s) refl
  where
    go : (u : Timestamp) → stamp_ts s ≡ u → Started s p t
    go Timestamp.missing e = recorded e (found-LastStart p.history t (rw (start_ts, e) at h))
    go Timestamp.unreadable e = absurd (ground (arith, rw (start_ts, e) at h))
    go (Timestamp.at u) e = stamped (e ∙ rw (start_ts, e) at h)

pub fires-IsStuck :
    (env : Env) (pid : String) (p : Packet) → fires env pid p ≡ true → IsStuck env pid p
unfolding fires
fires-IsStuck env pid p h = go (start_ts (lookup pid env.spawn_times) p) refl
  where
    parts :
        ((p.state is State.running) ≡ true)
        × (overdue env (start_ts (lookup pid env.spawn_times) p) ≡ true)
        × (not (supervised env pid (lookup pid env.spawn_times)) ≡ true)
    parts = and_true₃ _ _ _ h

    go : (u : Timestamp) → start_ts (lookup pid env.spawn_times) p ≡ u → IsStuck env pid p
    go (Timestamp.at t) e = record {
      running = is_sound p.state _ parts.0;
      start = t;
      started = start_ts-Started (lookup pid env.spawn_times) p t e;
      late = ltb→lt env.job_max_runtime (env.now - t) (rw e at parts.1);
      alone = λ k. absurd (ground (arith, parts.2, IsSupervised-supervised env pid k));
    }
    go Timestamp.missing e = absurd (ground (arith, rw e at parts.1))
    go Timestamp.unreadable e = absurd (ground (arith, rw e at parts.1))

all_three : (a b c : Bool) → a ≡ true → b ≡ true → c ≡ false → (a && b && not c) ≡ true
all_three a b c ha hb hc = ground arith

pub IsStuck-fires :
    (env : Env) (pid : String) (p : Packet) → IsStuck env pid p → fires env pid p ≡ true
unfolding fires
IsStuck-fires env pid p k =
    all_three _ _ _ (rw k.running refl)
      (ap (overdue env) (Started-start_ts (lookup pid env.spawn_times) p k.start k.started)
        ∙ lt→ltb env.job_max_runtime (env.now - k.start) k.late)
      (alone (Bool-cases (supervised env pid (lookup pid env.spawn_times))))
  where
    alone :
        (supervised env pid (lookup pid env.spawn_times) ≡ true)
          ⊎ (supervised env pid (lookup pid env.spawn_times) ≡ false)
        → supervised env pid (lookup pid env.spawn_times) ≡ false
    alone (inl live) = absurd (k.alone (supervised-IsSupervised env pid live))
    alone (inr e) = e

-- The watchdog times out exactly the packets of the ledger that are RUNNING, have started further
-- back than the limit, and have no live supervisor. The start is the time of the packet's stamp, or
-- of the last move into RUNNING in its history if the stamp has no time. A live supervisor has a
-- single dispatch stamped with a time, and a job of the stamp's run that starts or runs and has a
-- recent heartbeat. No other packet changes, and of those only the state and the history.
pub watchdog_exact :
    (env : Env) (packets : Dict Packet) (pid : String) (p : Packet)
    → lookup pid packets ≡ some p
    → (q : Packet) × (lookup pid (watchdog env packets).0 ≡ some q)
      × ((IsStuck env pid p × (q ≡ record p { state = State.timed_out; history = q.history }))
          ⊎ (¬ IsStuck env pid p × (q ≡ p)))
unfolding watch
watchdog_exact env packets pid p found = (
  watch env pid p,
  lookup-watchdog env packets pid ∙ ap (watched env pid) found,
  elim (Bool-cases (fires env pid p)) [
    | inl late ↦ inl (fires-IsStuck env pid p late, rw late refl)
    | inr early ↦
        inr ((λ k. absurd (ground (arith, early, IsStuck-fires env pid p k))), rw early refl)
  ],
)
