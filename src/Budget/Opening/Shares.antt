-- ===== src/Budget/Opening/Shares.antt =====
-- What a new task budget of harness/budget_controller.py allocates to whom.
use codex_loop_orchestra.Prelude.{
  ℕ, zero, suc, ◌+◌, ◌-◌, ◌≤◌, ◌<◌, min, max, ◌≡◌, refl, sym, ap, ◌∙◌, Bool, true, false, not, ◌&&◌,
  ◌||◌, String, [], ◌∷◌, some, Dict, All, arith, ltb, ltb→lt, eq_iff, if_either, and_true, some_inj,
  ℤ, pos, Bool-cases, inl, inr,
}
use codex_loop_orchestra.Budget.Doc.{Policy, RoleCostModel, Store, total}
use codex_loop_orchestra.Budget.Opening.{
  is_sol, is_k3, is_fixed, is_other, sum_of, adjust, has_role, scaled, estimates, sol_cap_tokens,
  k3_floor_tokens, cap_sol, raise_k3, fit_others, shaped, keyed, open_task,
}
use codex_loop_orchestra.Budget.Opening.Sums.{
  total-keyed, total-sum_of, sum_of-adjust_other, count_of, rescaled-target, no_role,
  count_of-adjust,
}

fixed_apart : (r : String) → is_fixed r ≡ true → is_other r ≡ false
fixed_apart r h = cc

k3_apart_other : (r : String) → is_k3 r ≡ true → is_other r ≡ false
k3_apart_other r h = go (is_sol r) (is_k3 r) h
  where
    go : (a b : Bool) → b ≡ true → not (a || b) ≡ false
    go a b e = ground arith

k3_apart_sol : (r : String) → is_k3 r ≡ true → is_sol r ≡ false
k3_apart_sol r h = elim (Bool-cases (is_sol r)) [
  | inl s ↦ cc (ap is_k3 (sym ((eq_iff r "sol").0 s)) ∙ h)
  | inr s ↦ s
]

k3_fixed : (r : String) → is_k3 r ≡ true → is_fixed r ≡ true
k3_fixed r h = go (is_sol r) (is_k3 r) h
  where
    go : (a b : Bool) → b ≡ true → (a || b) ≡ true
    go a b e = ground arith

not_scaled : (b : Bool) (a n : ℕ) → (b && ltb a n) ≡ false → (b ≡ false → n ≡ 0) → n ≤ a
not_scaled b a n h empty = elim (Bool-cases b) [
  | inl there ↦ ground (arith, there)
  | inr gone ↦ let e = empty gone in omega (arith, e)
]

-- The others fit into what the fixed roles leave, and the fixed ones stay as they are.
module _ (ceiling : ℕ) (raw : Dict ℕ) where
  abbrev room : ℕ
  room = ceiling - sum_of is_fixed raw

  abbrev too_many : Bool
  too_many = has_role is_other raw && ltb room (sum_of is_other raw)

  abbrev fitted : Dict ℕ
  fitted = adjust is_other (scaled room (sum_of is_other raw)) raw

  fit_others-apart :
      (kind : String → Bool)
      → ((r : String) → kind r ≡ true → is_other r ≡ false)
      → sum_of kind (fit_others ceiling raw) ≡ sum_of kind raw
  unfolding fit_others
  fit_others-apart kind apart =
      if_either (λ (d : Dict ℕ). sum_of kind d ≡ sum_of kind raw) too_many fitted raw
        (λ _. sum_of-adjust_other kind is_other (scaled room (sum_of is_other raw)) raw apart)
        (λ _. refl)

  fit_others-bound : sum_of is_other (fit_others ceiling raw) ≤ room
  unfolding fit_others
  fit_others-bound =
      if_either (λ (d : Dict ℕ). sum_of is_other d ≤ room) too_many fitted raw
        (λ h.
          let more = ltb→lt room (sum_of is_other raw) (and_true (has_role is_other raw) _ h).1 in
          (rescaled-target is_other room (sum_of is_other raw) raw refl (omega (arith, more))).0)
        (λ h. not_scaled (has_role is_other raw) _ _ h (no_role is_other raw))

-- All that is allocated is at most the ceiling, or what the fixed roles have.
total-shaped :
    (pol : Policy) (ceiling : ℕ) (raw : Dict ℕ)
    → total (shaped pol ceiling raw) ≤ max ceiling (sum_of is_fixed (shaped pol ceiling raw))
unfolding shaped
total-shaped pol ceiling raw =
    let before = raise_k3 pol ceiling (cap_sol pol ceiling raw) in
    let split = total-sum_of is_fixed (fit_others ceiling before) in
    let same = fit_others-apart ceiling before is_fixed fixed_apart in
    let fits = fit_others-bound ceiling before in omega (arith, split, same, fits)

-- The floor of the K3 roles.
module _ (pol : Policy) (ceiling : ℕ) (raw : Dict ℕ) where
  abbrev least : ℕ
  least = k3_floor_tokens pol ceiling

  abbrev too_few : Bool
  too_few = has_role is_k3 raw && ltb (sum_of is_k3 raw) least

  raise_k3-bound :
      0 < sum_of is_k3 raw → least ≤ sum_of is_k3 (raise_k3 pol ceiling raw) + count_of is_k3 raw
  unfolding raise_k3
  raise_k3-bound some_k3 =
      if_either (λ (d : Dict ℕ). least ≤ sum_of is_k3 d + count_of is_k3 raw) too_few
        (adjust is_k3 (scaled least (sum_of is_k3 raw)) raw) raw
        (λ _. (rescaled-target is_k3 least (sum_of is_k3 raw) raw refl some_k3).1)
        (λ h. enough (has_role is_k3 raw) h (no_role is_k3 raw))
    where
      enough :
          (b : Bool)
          → (b && ltb (sum_of is_k3 raw) least) ≡ false
          → (b ≡ false → sum_of is_k3 raw ≡ 0)
          → least ≤ sum_of is_k3 raw + count_of is_k3 raw
      enough true h empty = ground arith
      enough false h empty = let e = empty refl in omega (arith, e, some_k3)

k3-shaped :
    (pol : Policy) (ceiling : ℕ) (raw : Dict ℕ)
    → 0 < sum_of is_k3 raw
    → k3_floor_tokens pol ceiling ≤ sum_of is_k3 (shaped pol ceiling raw) + count_of is_k3 raw
unfolding shaped cap_sol
k3-shaped pol ceiling raw h =
    let capped = cap_sol pol ceiling raw in
    let cap = λ (n : ℕ). min n (sol_cap_tokens pol ceiling) in
    let kept = sum_of-adjust_other is_k3 is_sol cap raw k3_apart_sol in
    let counted = count_of-adjust is_k3 is_sol cap raw in
    let same = fit_others-apart ceiling (raise_k3 pol ceiling capped) is_k3 k3_apart_other in
    let bound = raise_k3-bound pol ceiling capped (omega (arith, kept, h)) in
    omega (arith, bound, same, counted)

-- No sol role has more than the cap.
abbrev pub SolCapped : ℕ → Dict ℕ → Type 0
SolCapped cap = All (λ x. is_sol x.0 ≡ true → x.1 ≤ cap)

SolCapped-capped : (cap : ℕ) (raw : Dict ℕ) → SolCapped cap (adjust is_sol (λ n. min n cap) raw)
unfolding adjust
SolCapped-capped cap [] = tt
SolCapped-capped cap ((role, n) ∷ rest) = ((λ h. ground (arith, h)), SolCapped-capped cap rest)

SolCapped-adjust :
    (cap : ℕ) (kind : String → Bool) (f : ℕ → ℕ) (raw : Dict ℕ)
    → ((r : String) → is_sol r ≡ true → kind r ≡ false)
    → SolCapped cap raw
    → SolCapped cap (adjust kind f raw)
unfolding adjust
SolCapped-adjust cap kind f [] apart h = tt
SolCapped-adjust cap kind f ((role, n) ∷ rest) apart (here, later) = (
  (λ e. let k = apart role e in let l = here e in ground (arith, k, l)),
  SolCapped-adjust cap kind f rest apart later,
)

sol_apart_k3 : (r : String) → is_sol r ≡ true → is_k3 r ≡ false
sol_apart_k3 r h = ap is_k3 ((eq_iff r "sol").0 h)

sol_apart_other : (r : String) → is_sol r ≡ true → is_other r ≡ false
sol_apart_other r h = go (is_sol r) (is_k3 r) h
  where
    go : (a b : Bool) → a ≡ true → not (a || b) ≡ false
    go a b e = ground arith

SolCapped-shaped :
    (pol : Policy) (ceiling : ℕ) (raw : Dict ℕ)
    → SolCapped (sol_cap_tokens pol ceiling) (shaped pol ceiling raw)
unfolding shaped cap_sol raise_k3 fit_others
SolCapped-shaped pol ceiling raw =
    let P = SolCapped (sol_cap_tokens pol ceiling) in
    let capped = cap_sol pol ceiling raw in
    let first = SolCapped-capped (sol_cap_tokens pol ceiling) raw in
    let raised = raise_k3 pol ceiling capped in
    let second : P raised =
      if_either P (too_few pol ceiling capped)
        (adjust is_k3 (scaled (k3_floor_tokens pol ceiling) (sum_of is_k3 capped)) capped) capped
        (λ _. SolCapped-adjust _ is_k3 _ capped sol_apart_k3 first) (λ _. first) in
    if_either P (too_many ceiling raised) (fitted ceiling raised) raised
      (λ _. SolCapped-adjust _ is_other _ raised sol_apart_other second) (λ _. second)

-- The shares of a call.
abbrev pub shares : Policy → Dict RoleCostModel → ℕ → Dict ℤ → Dict ℕ
shares pol history ceiling roles = shaped pol ceiling (estimates pol history roles)

opened_as :
    (pol : Policy) (history : Dict RoleCostModel) (now : ℕ) (task_id : String) (n : ℕ)
    (roles : Dict ℤ) (s s' : Store)
    → open_task pol history now task_id (pos n) roles s ≡ some s'
    → s'.doc.allocated ≡ keyed (shares pol history n roles)
unfolding open_task
opened_as pol history now task_id zero roles s s' h = cc
opened_as pol history now task_id (suc n) roles s s' h =
    ap (λ (r : Store). r.doc.allocated) (sym (some_inj h))

module _ (pol : Policy) (history : Dict RoleCostModel) (now : ℕ) (task_id : String) (n : ℕ)
    (roles : Dict ℤ) (s s' : Store)
    (h : open_task pol history now task_id (pos n) roles s ≡ some s') where
  -- A task that is opened has no more allocated than the ceiling, or than its sol and K3 roles
  -- alone if these exceed it.
  pub opening_fits : total s'.doc.allocated ≤ max n (sum_of is_fixed (shares pol history n roles))
  opening_fits =
      let raw = estimates pol history roles in
      let same = ap total (opened_as pol history now task_id n roles s s' h) in
      let bound = total-shaped pol n raw in
      let sums = total-keyed (shaped pol n raw) in omega (arith, same, bound, sums)

  -- If the K3 roles have any estimate, a task that is opened has its shares allocated to the roles; no sol role has more than the
  -- cap on sol, and the K3 roles have the floor together, less at most a token for each
  -- of them.
  pub opening_shares :
      0 < sum_of is_k3 (estimates pol history roles)
      → (s'.doc.allocated ≡ keyed (shares pol history n roles))
        × SolCapped (sol_cap_tokens pol n) (shares pol history n roles)
        × (k3_floor_tokens pol n
            ≤ sum_of is_k3 (shares pol history n roles)
              + count_of is_k3 (estimates pol history roles))
  opening_shares k3 = (
    opened_as pol history now task_id n roles s s' h,
    SolCapped-shaped pol n (estimates pol history roles),
    k3-shaped pol n (estimates pol history roles) k3,
  )
