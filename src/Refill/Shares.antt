-- ===== src/Refill/Shares.antt =====
-- What the split of harness/refill_controller_v2.py gives to the pools.
use codex_loop_orchestra.Prelude.{
  ℕ, zero, suc, ◌+◌, ◌-◌, ◌*◌, ◌/◌, ◌%◌, ◌≤◌, ◌<◌, min, ◌≡◌, ◌⊎◌, inl, inr, refl, ap, true, false,
  Bool-cases, ==_iff, leb, ◌==◌, arith,
}
use codex_loop_orchestra.Refill.Split.{Pools, sum_pools, top_up, remains, split_deficit}
use native.Mathlib.Nat.{
  div-add-mod', mod-lt, zero-mul, zero-div, mul_comm, mul-add, add-mul, le_of_mul-le-mul_right,
  lt_of_mul-lt-mul_right, mul-le-mul_right,
}

-- A share rounded down or up.
abbrev pub Rounded : ℕ → ℕ → Type 0
Rounded floor n = (floor ≤ n) × (n ≤ floor + 1)

-- The floors of the shares miss at most one slot, and then both pools have room for it.
abbrev Floors : ℕ → ℕ → ℕ → ℕ → ℕ → Type 0
Floors t v k a b = (a ≤ v) × (b ≤ k) × ((t ≡ a + b) ⊎ ((t ≡ a + b + 1) × (a < v) × (b < k)))

bounded_floor : (t v g a r : ℕ) → 0 < g → t ≤ g → a * g + r ≡ t * v → (a ≤ v) × (0 < r → a < v)
bounded_floor t v g a r pos le e =
    let most : t * v ≤ v * g = omega (arith, mul-le-mul_right v le, mul_comm g v) in
    (le_of_mul-le-mul_right {k = g} (omega arith) pos, λ h. lt_of_mul-lt-mul_right g (omega arith))

floors_add :
    (t g a b left : ℕ)
    → 0 < g
    → (a + b) * g + left ≡ t * g
    → left < g + g
    → (a + b ≤ t) × (t < a + b + 2) × (t ≡ a + b + 1 → left ≡ g)
floors_add t g a b left pos e h = (
  le_of_mul-le-mul_right {k = g} (omega arith) pos,
  lt_of_mul-lt-mul_right g (omega (arith, add-mul (a + b) 2 g)),
  λ one. omega (arith, ap (λ n. n * g) one, add-mul (a + b) 1 g),
)

least-Floors :
    (t v k g a b r s : ℕ)
    → g ≡ v + k
    → 0 < g
    → t ≤ g
    → a * g + r ≡ t * v
    → b * g + s ≡ t * k
    → r < g
    → s < g
    → Floors t v k a b
least-Floors t v k g a b r s eg pos le ea eb rl sl =
    let va = bounded_floor t v g a r pos le ea in
    let kb = bounded_floor t k g b s pos le eb in
    let whole : t * g ≡ t * v + t * k = rw (eg, mul-add t v k) refl in
    let (low, high, one) =
      floors_add t g a b (r + s) pos (omega (arith, add-mul a b g)) (omega arith) in
    (
      va.0,
      kb.0,
      elim (Bool-cases (t == a + b)) [
        | inl e ↦ inl ((==_iff t (a + b)).0 e)
        | inr e ↦
            let next : t ≡ a + b + 1 = grind arith in
            let over = one next in inr (next, va.1 (omega arith), kb.1 (omega arith))
      ],
    )

-- `out` uses all of `total`, gives no pool more than it has pending, and each pool its proportional
-- share, rounded down or up.
pub IsSplit : ℕ → Pools → Pools → Type 0
IsSplit total pending out =
    (sum_pools out ≡ total)
    × (out.v4 ≤ pending.v4)
    × (out.k3 ≤ pending.k3)
    × Rounded (total * pending.v4 / sum_pools pending) out.v4
    × Rounded (total * pending.k3 / sum_pools pending) out.k3

topped :
    (t v k a b left : ℕ)
    → left ≡ t - (a + b)
    → Floors t v k a b
    → (min (top_up left a v) v + min (top_up (remains left a v) b k) k ≡ t)
      × Rounded a (min (top_up left a v) v)
      × Rounded b (min (top_up (remains left a v) b k) k)
topped t v k a b left l (av, bk, inl e) = ground (arith, e)
topped t v k a b left l (av, bk, inr (e, al, bl)) = ground (arith, e)

Floors-swap : (t v k a b : ℕ) → Floors t v k a b → Floors t k v b a
Floors-swap t v k a b (av, bk, inl e) = (bk, av, inl (omega arith))
Floors-swap t v k a b (av, bk, inr (e, al, bl)) = (bk, av, inr (omega arith, bl, al))

floors :
    (t : ℕ) (p : Pools)
    → 0 < sum_pools p
    → t ≤ sum_pools p
    → Floors t p.v4 p.k3 (t * p.v4 / sum_pools p) (t * p.k3 / sum_pools p)
floors t p pos le =
    least-Floors t p.v4 p.k3 (sum_pools p) _ _ (t * p.v4 % sum_pools p) (t * p.k3 % sum_pools p)
      refl pos le (div-add-mod' _ _) (div-add-mod' _ _) (mod-lt _ pos) (mod-lt _ pos)

none-Rounded : (n g : ℕ) → Rounded (0 * n / g) 0
none-Rounded n g = rw (zero-mul n, zero-div g) (omega arith, omega arith)

pub split_deficit-IsSplit :
    (total : ℕ) (p : Pools) → total ≤ sum_pools p → IsSplit total p (split_deficit total p)
unfolding IsSplit split_deficit
split_deficit-IsSplit zero p le =
    (refl, omega arith, omega arith, none-Rounded _ _, none-Rounded _ _)
split_deficit-IsSplit (suc n) p le =
    go (Bool-cases (leb (suc n * p.k3 % sum_pools p) (suc n * p.v4 % sum_pools p)))
  where
    some_total : (suc n == 0) ≡ false
    some_total = ground arith

    some_pending : (sum_pools p == 0) ≡ false
    some_pending = ground arith

    shares : Floors (suc n) p.v4 p.k3 (suc n * p.v4 / sum_pools p) (suc n * p.k3 / sum_pools p)
    shares = floors (suc n) p (omega arith) le

    left : ℕ
    left = suc n - (suc n * p.v4 / sum_pools p + suc n * p.k3 / sum_pools p)

    go :
        (leb (suc n * p.k3 % sum_pools p) (suc n * p.v4 % sum_pools p) ≡ true)
          ⊎ (leb (suc n * p.k3 % sum_pools p) (suc n * p.v4 % sum_pools p) ≡ false)
        → IsSplit (suc n) p (split_deficit (suc n) p)
    go (inl order) =
        let (all, first, second) = topped (suc n) p.v4 p.k3 _ _ left refl shares in
        rw (some_total, some_pending, order) (all, omega arith, omega arith, first, second)
    go (inr order) =
        let (all, first, second) =
          topped (suc n) p.k3 p.v4 _ _ left (omega arith)
            (Floors-swap (suc n) p.v4 p.k3 _ _ shares) in
        rw (some_total, some_pending, order)
          (omega (arith, all), omega arith, omega arith, second, first)

pub split_total : (total : ℕ) (p out : Pools) → IsSplit total p out → sum_pools out ≡ total
unfolding IsSplit
split_total total p out h = h.0
