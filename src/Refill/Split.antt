-- ===== src/Refill/Split.antt =====
-- `RefillControllerV2._split_deficit` of harness/refill_controller_v2.py: the largest-remainder
-- split of a number of slots over the two pools.
use codex_loop_orchestra.Prelude.{
  ℕ, ◌+◌, ◌-◌, ◌*◌, ◌/◌, ◌%◌, min, Bool, ◌&&◌, ◌||◌, ltb, leb, ◌==◌, if◌then◌else◌,
}

-- A number for each of `POOLS`.
pub record Pools : Type 0 where
  pub v4 : ℕ
  pub k3 : ℕ

abbrev pub no_slots : Pools
no_slots = record { v4 = 0; k3 = 0 }

abbrev pub sum_pools : Pools → ℕ
sum_pools p = p.v4 + p.k3

-- A round of the loop over the pools: the slots that remain, and what the pool has.
abbrev pub has_room : ℕ → ℕ → ℕ → Bool
has_room remaining floor pending = ltb 0 remaining && ltb floor pending

abbrev pub top_up : ℕ → ℕ → ℕ → ℕ
top_up remaining floor pending = if has_room remaining floor pending then floor + 1 else floor

abbrev pub remains : ℕ → ℕ → ℕ → ℕ
remains remaining floor pending =
    if has_room remaining floor pending then remaining - 1 else remaining

-- A pool without pending work has the floor 0 and no room, so it is left out as the code leaves it
-- out. The sort is stable, so v4 goes first if the remainders are equal.
unfoldable pub split_deficit : ℕ → Pools → Pools
split_deficit total pending =
    let grand = pending.v4 + pending.k3 in
    let v4 = total * pending.v4 / grand in
    let k3 = total * pending.k3 / grand in
    let remaining = total - (v4 + k3) in
    if total == 0 || grand == 0
    then no_slots
    else if leb (total * pending.k3 % grand) (total * pending.v4 % grand)
    then record {
      v4 = min (top_up remaining v4 pending.v4) pending.v4;
      k3 = min (top_up (remains remaining v4 pending.v4) k3 pending.k3) pending.k3;
    }
    else record {
      v4 = min (top_up (remains remaining k3 pending.k3) v4 pending.v4) pending.v4;
      k3 = min (top_up remaining k3 pending.k3) pending.k3;
    }
