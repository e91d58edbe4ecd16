-- ===== src/Budget/Opening/Sums.antt =====
-- Sums over the roles of a kind, under scaling.
use native.Mathlib.Nat.{div-mul-le_self, lt-div-mul-add, le_of_mul-le-mul_right, mul_comm, add-mul}
use codex_loop_orchestra.Prelude.{
  ℕ, ◌+◌, ◌*◌, ◌≤◌, ◌<◌, max, ◌≡◌, refl, sym, ap, ◌∙◌, Bool, true, false, not, ◌||◌, String, [],
  ◌∷◌, Dict, arith, if◌then◌else◌,
}
use codex_loop_orchestra.Budget.Doc.{total}
use codex_loop_orchestra.Budget.Opening.{sum_of, adjust, scaled, keyed, has_role}

pub total-keyed : (d : Dict ℕ) → total (keyed d) ≡ total d
unfolding total keyed
total-keyed [] = refl
total-keyed ((role, n) ∷ rest) = omega (arith, total-keyed rest)

pub total-sum_of :
    (kind : String → Bool) (d : Dict ℕ) → total d ≡ sum_of kind d + sum_of (λ r. not (kind r)) d
unfolding total sum_of
total-sum_of kind [] = refl
total-sum_of kind ((role, n) ∷ rest) = let later = total-sum_of kind rest in ground (arith, later)

pub no_role : (kind : String → Bool) (d : Dict ℕ) → has_role kind d ≡ false → sum_of kind d ≡ 0
unfolding sum_of
no_role kind [] h = refl
no_role kind ((role, n) ∷ rest) h =
    let (here, later) = neither (kind role) _ h in
    let none_later = no_role kind rest later in ground (arith, here, none_later)
  where
    neither : (a b : Bool) → (a || b) ≡ false → (a ≡ false) × (b ≡ false)
    neither a b k = ground arith

-- A change of one kind leaves the sum of another one.
pub sum_of-adjust_other :
    (kind changed : String → Bool) (f : ℕ → ℕ) (d : Dict ℕ)
    → ((r : String) → kind r ≡ true → changed r ≡ false)
    → sum_of kind (adjust changed f d) ≡ sum_of kind d
unfolding sum_of adjust
sum_of-adjust_other kind changed f [] apart = refl
sum_of-adjust_other kind changed f ((role, n) ∷ rest) apart =
    let later = sum_of-adjust_other kind changed f rest apart in
    let here = apart role in ground (arith, later, here)

scaled_le : (to of n : ℕ) → scaled to of n * max 1 of ≤ n * to
scaled_le to of n = div-mul-le_self (n * to) (max 1 of)

scaled_lt : (to of n : ℕ) → n * to < scaled to of n * max 1 of + max 1 of
scaled_lt to of n = lt-div-mul-add (omega arith)

-- How many roles are of a kind.
abbrev pub count_of : (String → Bool) → Dict ℕ → ℕ
count_of kind [] = 0
count_of kind ((role, n) ∷ rest) = (if kind role then 1 else 0) + count_of kind rest

add_least : (x xs n ns m to : ℕ) → x * m ≤ n * to → xs * m ≤ ns * to → (x + xs) * m ≤ (n + ns) * to
add_least x xs n ns m to h hs =
    let l = add-mul x xs m in let r = add-mul n ns to in omega (arith, h, hs, l, r)

add_most :
    (x xs n ns m to one k : ℕ)
    → n * to ≤ (x + one) * m
    → ns * to ≤ (xs + k) * m
    → (n + ns) * to ≤ (x + xs + (one + k)) * m
add_most x xs n ns m to one k h hs =
    let l = add-mul n ns to in
    let r = add-mul (x + one) (xs + k) m in
    let same : (x + one + (xs + k)) * m ≡ (x + xs + (one + k)) * m =
      ap (λ y. y * m) (omega arith) in
    omega (arith, h, hs, l, r, same)

pub count_of-adjust :
    (kind changed : String → Bool) (f : ℕ → ℕ) (d : Dict ℕ)
    → count_of kind (adjust changed f d) ≡ count_of kind d
unfolding adjust
count_of-adjust kind changed f [] = refl
count_of-adjust kind changed f ((role, n) ∷ rest) =
    ap (λ m. (if kind role then 1 else 0) + m) (count_of-adjust kind changed f rest)

module _ (kind : String → Bool) (to of : ℕ) where
  abbrev rescaled : Dict ℕ → ℕ
  rescaled d = sum_of kind (adjust kind (scaled to of) d)

  one_least :
      (b : Bool) (n : ℕ)
      → (if b then (if b then scaled to of n else n) else 0) * max 1 of ≤ (if b then n else 0) * to
  one_least true n = scaled_le to of n
  one_least false n = omega arith

  one_most :
      (b : Bool) (n : ℕ)
      → (if b then n else 0) * to
        ≤ ((if b then (if b then scaled to of n else n) else 0) + (if b then 1 else 0)) * max 1 of
  one_most true n =
      let l = scaled_lt to of n in
      let r = add-mul (scaled to of n) 1 (max 1 of) in omega (arith, l, r)
  one_most false n = omega arith

  -- Rounding down loses something, but less than one token for each role.
  pub rescaled_bounds :
      (d : Dict ℕ)
      → (rescaled d * max 1 of ≤ sum_of kind d * to)
        × (sum_of kind d * to ≤ (rescaled d + count_of kind d) * max 1 of)
  unfolding sum_of adjust
  rescaled_bounds [] = (omega arith, omega arith)
  rescaled_bounds ((role, n) ∷ rest) =
      let (least, most) = rescaled_bounds rest in
      (
        add_least _ _ _ _ _ _ (one_least (kind role) n) least,
        add_most _ _ _ _ _ _ _ _ (one_most (kind role) n) most,
      )

  -- Scaling what is there to a target: not above it, and at most one token for each role below.
  pub rescaled-target :
      (d : Dict ℕ)
      → of ≡ sum_of kind d
      → 0 < of
      → (rescaled d ≤ to) × (to ≤ rescaled d + count_of kind d)
  rescaled-target d e h =
      let (least, most) = rescaled_bounds d in
      let m : max 1 of ≡ of = omega arith in
      let x = rescaled d in
      let y = x + count_of kind d in
      let to_of = ap (λ t. t * to) (sym e) ∙ mul_comm of to in
      let x_of = ap (λ t. x * t) m in
      let y_of = ap (λ t. y * t) m in
      (
        le_of_mul-le-mul_right (omega (arith, least, x_of, to_of)) h,
        le_of_mul-le-mul_right (omega (arith, most, y_of, to_of)) h,
      )
