-- ===== src/Refill/Bounds.antt =====
-- The slots that harness/refill_controller_v2.py asks to fill, and the limits that they keep.
use codex_loop_orchestra.Prelude.{
  ℕ, ◌+◌, ◌-◌, ◌≤◌, min, ◌≡◌, ◌⊎◌, inl, inr, refl, sym, Bool, true, false, Bool-cases, ==_iff, ◌==◌,
  ◌||◌, String, if◌then◌else◌, arith,
}
use codex_loop_orchestra.Refill.Split.{sum_pools}
use codex_loop_orchestra.Refill.Shares.{IsSplit, split_deficit-IsSplit}
use codex_loop_orchestra.Refill.Recompute.{
  RefillPolicy, Registered, Observed, limit, parent_target, count_of, queued_of, parent_debt,
  raw_debt, raw_spawn, required_v4, required_k3, required_any, capacity, deficit_total, deficit,
  parent_spawn_total, parent_spawn,
}

no_debt :
    (b c : Bool) (x y i j : ℕ)
    → (b || c) ≡ false
    → (if b then x else 0) - i + ((if c then y else 0) - j) ≡ 0
no_debt b c x y i j h = ground arith

-- What is given of `lacking` to fill `whole`, if anything is to be given.
abbrev given : Bool → ℕ → ℕ → ℕ → ℕ → ℕ
given wanted lacking whole running starting =
    if wanted then min lacking (whole - running - starting) else 0

given_fits :
    (wanted : Bool) (lacking whole running starting : ℕ)
    → (wanted ≡ false → lacking ≡ 0)
    → (given wanted lacking whole running starting ≤ lacking)
      × ((given wanted lacking whole running starting ≡ 0)
          ⊎ (running + starting + given wanted lacking whole running starting ≤ whole))
      × ((given wanted lacking whole running starting ≡ lacking)
          ⊎ (whole ≤ running + starting + given wanted lacking whole running starting))
given_fits true lacking whole running starting h = (ground arith, ground arith, ground arith)
given_fits false lacking whole running starting h = (omega arith, inl refl, inl (sym (h refl)))

-- What is given of `debt` within two limits.
within_both :
    (debt most running starting whole taken starting_all : ℕ)
    → (min (min debt (most - running - starting)) (whole - taken - starting_all) ≡ 0)
      ⊎ ((running
              + starting
              + min (min debt (most - running - starting)) (whole - taken - starting_all)
            ≤ most)
          × (taken
                + starting_all
                + min (min debt (most - running - starting)) (whole - taken - starting_all)
              ≤ whole))
within_both debt most running starting whole taken starting_all =
    elim (Bool-cases
      (min (min debt (most - running - starting)) (whole - taken - starting_all) == 0)) [
        | inl none_left ↦ inl ((==_iff _ _).0 none_left)
        | inr some_left ↦ inr (grind arith, grind arith)
      ]

module _ (policy : RefillPolicy) (seen : Observed) where
  abbrev taken : ℕ
  taken = sum_pools seen.running + sum_pools seen.initializing

  nothing_required : required_any policy seen ≡ false → sum_pools (raw_spawn policy seen) ≡ 0
  unfolding raw_spawn raw_debt
  nothing_required h =
      no_debt (required_v4 policy seen) (required_k3 policy seen) _ _ seen.initializing.v4
        seen.initializing.k3 h

  -- The slots to fill are split over the pools without loss and in proportion to what the pools
  -- lack; they are none, or they fit into the target; and they are all that is lacking, or they
  -- fill the target.
  pub refill_fits :
      IsSplit (deficit_total policy seen) (raw_spawn policy seen) (deficit policy seen)
      × ((deficit_total policy seen ≡ 0)
          ⊎ (taken + deficit_total policy seen ≤ policy.target_total))
      × ((deficit_total policy seen ≡ sum_pools (raw_spawn policy seen))
          ⊎ (policy.target_total ≤ taken + deficit_total policy seen))
  unfolding deficit deficit_total capacity
  refill_fits =
      let (most, room, full) =
        given_fits (required_any policy seen) (sum_pools (raw_spawn policy seen))
          policy.target_total (sum_pools seen.running) (sum_pools seen.initializing)
          nothing_required in
      (split_deficit-IsSplit _ (raw_spawn policy seen) most, room, full)

  debt_queued :
      (parent_id : String) (registered : Registered)
      → (parent_debt policy seen parent_id registered ≤ sum_pools (queued_of policy seen parent_id))
        × ((registered.active ≡ true) ⊎ (parent_debt policy seen parent_id registered ≡ 0))
  unfolding parent_debt
  debt_queued parent_id registered = go registered.active refl
    where
      go :
          (b : Bool)
          → registered.active ≡ b
          → (parent_debt policy seen parent_id registered
              ≤ sum_pools (queued_of policy seen parent_id))
            × ((registered.active ≡ true) ⊎ (parent_debt policy seen parent_id registered ≡ 0))
      go true e = rw (parent_debt, e) (omega arith, inl refl)
      go false e = rw (parent_debt, e) (omega arith, inr refl)

  -- What a parent may fill is split over the pools without loss and in proportion to what it has
  -- queued; it is nothing, or it fits into the target of the parent and into the target of all
  -- pools; and it is nothing for a parent that is not active.
  pub parent_fits :
      (parent_id : String) (registered : Registered)
      → IsSplit
          (parent_spawn_total policy seen parent_id registered)
          (queued_of policy seen parent_id)
          (parent_spawn policy seen parent_id registered)
        × ((parent_spawn_total policy seen parent_id registered ≡ 0)
            ⊎ (((count_of policy seen parent_id).running
                    + (count_of policy seen parent_id).initializing
                    + parent_spawn_total policy seen parent_id registered
                  ≤ parent_target (limit policy seen) registered)
                × (taken + parent_spawn_total policy seen parent_id registered
                    ≤ policy.target_total)))
        × ((registered.active ≡ true) ⊎ (parent_spawn_total policy seen parent_id registered ≡ 0))
  unfolding parent_spawn parent_spawn_total capacity
  parent_fits parent_id registered =
      let (queued, idle) = debt_queued parent_id registered in
      (
        split_deficit-IsSplit _ (queued_of policy seen parent_id) (omega arith),
        within_both (parent_debt policy seen parent_id registered) _
            (count_of policy seen parent_id).running _ policy.target_total _ _,
        elim idle [ inl active ↦ inl active | inr no_debt ↦ inr (omega arith) ],
      )
