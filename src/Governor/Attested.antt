-- ===== src/Governor/Attested.antt =====
-- The command that sets the loop state in harness/root_turn_governor.py, and what is read back.
use codex_loop_orchestra.Prelude.{
  ℕ, ◌≡◌, refl, inl, inr, Bool-cases, some_inj, true, false, String, List, [], ◌∷◌, ◌++◌, none,
  some, any, str_eq, eq_iff, arith,
}
use mathlib.Core.Path.{subst}
use codex_loop_orchestra.Governor.LoopState.{
  Attestation, Ledger, LedgerFile, readable, attests, non_empty, honoured, attested_state,
  loop_state, is_settable, ledger_or_empty, loop_state_set, derived_state,
}

any-snoc :
    (key state : String) (records : List Attestation) (r : Attestation)
    → attests key state r ≡ true
    → any (attests key state) (records ++ r ∷ []) ≡ true
any-snoc key state [] r h = ground arith
any-snoc key state (q ∷ qs) r h = ground (arith, any-snoc key state qs r)

settable_text : (state : String) → is_settable state ≡ true → str_eq state "" ≡ false
settable_text state h = elim (Bool-cases (str_eq state "")) [
  | inl e ↦ absurd (empty ((eq_iff state "").0 e))
  | inr e ↦ e
]
  where
    empty : state ≡ "" → ⊥
    empty e = let none : is_settable "" ≡ true = subst (λ s. is_settable s ≡ true) e h in cc

module _ (idem_key : String → String → ℕ → String)
    (has_key : (state reason : String) (now : ℕ)
      → str_eq (idem_key state reason now) "" ≡ false) where
  set_state :
      (state key : String) (led : Ledger) (records : List Attestation)
      → str_eq state "" ≡ false
      → str_eq key "" ≡ false
      → loop_state
          (readable (record led { loop_state = some state; loop_state_attestation = some key }))
          (records ++ record { state = some state; idem_key = some key } ∷ [])
        ≡ record { state = state; trusted = true; unattested = none }
  unfolding loop_state attested_state
  set_state state key led records s k =
      rw
        (
          s,
          k,
          any-snoc key state records (record { state = some state; idem_key = some key })
              (ground (arith, eq_iff state state, eq_iff key key)),
        )
        refl

  -- A state that is set through the command is the one that the next call finds, and trusts, with
  -- no claim flagged, whatever the ledger and the records were before, if the key that is written
  -- is not empty.
  pub loop_state_set-roundtrip :
      (state reason : String) (now : ℕ) (file : LedgerFile) (records : List Attestation)
      (written : LedgerFile × List Attestation)
      → loop_state_set idem_key state reason now file records ≡ some written
      → loop_state written.0 written.1 ≡ record { state = state; trusted = true; unattested = none }
  unfolding loop_state_set
  loop_state_set-roundtrip state reason now file records written h =
      elim (Bool-cases (is_settable state)) [
        | inl e ↦
            subst
              (λ w.
                loop_state w.0 w.1 ≡ record { state = state; trusted = true; unattested = none })
              (some_inj (rw e at h))
              (set_state state (idem_key state reason now) (ledger_or_empty file) records
                (settable_text state e) (has_key state reason now))
        | inr e ↦ absurd (ground (arith, e, h))
      ]

-- A ledger that claims a state which no record attests is judged by its packets, and flagged.
pub unattested-ignored :
    (led : Ledger) (records : List Attestation) (state : String)
    → led.loop_state ≡ some state
    → str_eq state "" ≡ false
    → honoured (non_empty led.loop_state_attestation) state records ≡ false
    → loop_state (readable led) records
      ≡ record { state = derived_state led.packets; trusted = true; unattested = some state }
unfolding loop_state attested_state
unattested-ignored led records state e n h = rw (e, n, h) refl
