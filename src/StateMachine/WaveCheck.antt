-- ===== src/StateMachine/WaveCheck.antt =====
-- `wave_check` of harness/statemachine_v2.py.
use codex_loop_orchestra.Prelude.{
  ◌≡◌, refl, ◌⊎◌, inl, inr, ◌↔◌, Bool, true, false, ◌&&◌, ◌||◌, String, [], ◌∷◌, Option, none, some,
  Dict, lookup, all, All, keep, ltb, arith,
}
use codex_loop_orchestra.StateMachine.States.{State, ◌is◌, is_terminal}
use codex_loop_orchestra.StateMachine.Packet.{Packet, Report, Env}
use codex_loop_orchestra.StateMachine.Reports.{text_eq}

-- The scope of a check: the whole ledger, or one manifest, or one parent session. Both keys at
-- once are a `ValueError`.
pub data Scope : Type 0 where
  whole : Scope
  manifest parent_session : String → Scope

abbrev pub scope_of : Option String → Option String → Option Scope
scope_of (some m) (some s) = none
scope_of (some m) none = some (manifest m)
scope_of none (some s) = some (parent_session s)
scope_of none none = some whole

abbrev pub in_scope : Scope → Packet → Bool
in_scope whole p = true
in_scope (manifest m) p = text_eq p.manifest_id (some m)
in_scope (parent_session s) p = text_eq p.parent_session_id (some s)

-- `s in TERMINAL or s in ("WAVE_DONE", "SOL_ADJUDICATE")`
abbrev pub is_settled : State → Bool
is_settled s = is_terminal s || (s is State.wave_done) || (s is State.sol_adjudicate)

abbrev pub has_size : Option Report → Bool
has_size none = false
has_size (some r) = ltb 0 r.size

abbrev scoped : Scope → Dict Packet → Dict Packet
scoped sc = keep (λ x. in_scope sc x.1)

abbrev is_nonempty : Dict Packet → Bool
is_nonempty [] = false
is_nonempty (_ ∷ _) = true

-- `none` is the `ValueError`.
unfoldable pub wave_check : Env → Option String → Option String → Dict Packet → Option Bool
wave_check env manifest_id parent_session_id packets =
    elim (scope_of manifest_id parent_session_id) [
      | none ↦ none
      | some sc ↦
          let mine = scoped sc packets in
          some (
            is_nonempty mine
            && all (λ x. is_settled x.1.state) mine
            && all (λ x. has_size (lookup x.0 env.reports)) mine)
    ]

-- A packet of the scope is settled and its report file is not empty.
abbrev pub IsComplete : Env → Scope → String × Packet → Type 0
IsComplete env sc (pid, p) =
    in_scope sc p ≡ true → (is_settled p.state ≡ true) × (has_size (lookup pid env.reports) ≡ true)

abbrev pub SomeInScope : Scope → Dict Packet → Type 0
SomeInScope sc [] = ⊥
SomeInScope sc ((pid, p) ∷ rest) = (in_scope sc p ≡ true) ⊎ SomeInScope sc rest

abbrev complete : Env → Dict Packet → Bool
complete env mine =
    all (λ x. is_settled x.1.state) mine && all (λ x. has_size (lookup x.0 env.reports)) mine

split_tests :
    (a x b y : Bool) → ((a && x) && (b && y)) ≡ true → (a ≡ true) × (b ≡ true) × ((x && y) ≡ true)
split_tests a x b y h = ground arith

join_tests :
    (a x b y : Bool) → a ≡ true → b ≡ true → (x && y) ≡ true → ((a && x) && (b && y)) ≡ true
join_tests a x b y ha hb h = ground arith

verdict : (n a b : Bool) → some (n && a && b) ≡ some true → (n ≡ true) × ((a && b) ≡ true)
verdict n a b h = ground arith

join_verdict : (n a b : Bool) → n ≡ true → (a && b) ≡ true → some (n && a && b) ≡ some true
join_verdict n a b hn h = ground arith

scoped-complete :
    (env : Env) (sc : Scope) (packets : Dict Packet)
    → (complete env (scoped sc packets) ≡ true) ↔ All (IsComplete env sc) packets
scoped-complete env sc [] = ((λ _. tt), (λ _. refl))
scoped-complete env sc ((pid, p) ∷ rest) = go (in_scope sc p) refl (scoped-complete env sc rest)
  where
    go :
        (b : Bool)
        → in_scope sc p ≡ b
        → ((complete env (scoped sc rest) ≡ true) ↔ All (IsComplete env sc) rest)
        → (complete env (elim b [ true ↦ (pid, p) ∷ scoped sc rest | false ↦ scoped sc rest ])
            ≡ true)
          ↔ (IsComplete env sc (pid, p) × All (IsComplete env sc) rest)
    go true e ih = (
      (λ h. let (a, b, r) = split_tests _ _ _ _ h in ((λ _. (a, b)), ih.0 r)),
      (λ h. let (a, b) = h.0 e in join_tests _ _ _ _ a b (ih.1 h.1)),
    )
    go false e ih = ((λ h. ((λ i. cc), ih.0 h)), (λ h. ih.1 h.1))

scoped_nonempty :
    (sc : Scope) (packets : Dict Packet)
    → (is_nonempty (scoped sc packets) ≡ true) ↔ SomeInScope sc packets
scoped_nonempty sc [] = ((λ h. cc), (λ h. absurd h))
scoped_nonempty sc ((pid, p) ∷ rest) = go (in_scope sc p) refl (scoped_nonempty sc rest)
  where
    go :
        (b : Bool)
        → in_scope sc p ≡ b
        → ((is_nonempty (scoped sc rest) ≡ true) ↔ SomeInScope sc rest)
        → (is_nonempty (elim b [ true ↦ (pid, p) ∷ scoped sc rest | false ↦ scoped sc rest ])
            ≡ true)
          ↔ ((in_scope sc p ≡ true) ⊎ SomeInScope sc rest)
    go true e ih = ((λ _. inl e), (λ _. refl))
    go false e ih = ((λ h. inr (ih.0 h)), elim [ inl i ↦ cc | inr r ↦ ih.1 r ])

-- Within its scope, a wave is complete exactly when it has a packet and every packet of it is
-- terminal, WAVE_DONE or SOL_ADJUDICATE with a report file that is not empty. Packets outside the
-- scope do not matter.
pub wave_check_iff :
    (env : Env) (manifest_id parent_session_id : Option String) (sc : Scope) (packets : Dict Packet)
    → scope_of manifest_id parent_session_id ≡ some sc
    → (wave_check env manifest_id parent_session_id packets ≡ some true)
      ↔ (SomeInScope sc packets × All (IsComplete env sc) packets)
unfolding wave_check
wave_check_iff env manifest_id parent_session_id sc packets h = (forth, back)
  where
    forth :
        wave_check env manifest_id parent_session_id packets ≡ some true
        → SomeInScope sc packets × All (IsComplete env sc) packets
    forth e =
        let (n, c) = verdict _ _ _ (rw (h, wave_check) at e) in
        ((scoped_nonempty sc packets).0 n, (scoped-complete env sc packets).0 c)

    back :
        SomeInScope sc packets × All (IsComplete env sc) packets
        → wave_check env manifest_id parent_session_id packets ≡ some true
    back (n, c) =
        rw (h, wave_check)
          (join_verdict _ _ _ ((scoped_nonempty sc packets).1 n)
            ((scoped-complete env sc packets).1 c))
