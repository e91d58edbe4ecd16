-- ===== src/Plan/Members.antt =====
-- Membership in lists of names, and what it says of a set without repetitions.
use codex_loop_orchestra.Prelude.{
  ℕ, suc, ◌+◌, ◌≡◌, refl, ◌⊎◌, Bool, true, false, ◌||◌, String, List, [], ◌∷◌, length, str_eq,
  eq_iff, if◌then◌else◌, arith,
}

-- `v in xs`
abbrev pub member : String → List String → Bool
member v [] = false
member v (x ∷ xs) = str_eq x v || member v xs

-- The same for any list, with the place.
abbrev pub In : {A : Type 0} → A → List A → Type 0
In a [] = ⊥
In a (x ∷ xs) = (a ≡ x) ⊎ In a xs

abbrev pub Distinct : List String → Type 0
Distinct [] = Unit
Distinct (x ∷ xs) = (member x xs ≡ false) × Distinct xs

-- How many of the names are not in `out`.
unfoldable pub missing : List String → List String → ℕ
missing [] out = 0
missing (v ∷ vs) out = (if member v out then 0 else 1) + missing vs out

missing-absent :
    (vs : List String) (n : String) (out : List String)
    → member n vs ≡ false
    → missing vs (n ∷ out) ≡ missing vs out
unfolding missing
missing-absent [] n out h = refl
missing-absent (v ∷ vs) n out h = ground (arith, missing-absent vs n out, eq_iff n v, eq_iff v n)

pub missing-cons :
    (vs : List String) (n : String) (out : List String)
    → Distinct vs
    → member n vs ≡ true
    → member n out ≡ false
    → suc (missing vs (n ∷ out)) ≡ missing vs out
unfolding missing
missing-cons [] n out once inside new = ground arith
missing-cons (v ∷ vs) n out once inside new =
    ground (arith, missing-cons vs n out once.1, missing-absent vs n out, eq_iff n v, eq_iff v n)

pub missing-nothing : (vs : List String) → missing vs [] ≡ length vs
unfolding missing
missing-nothing [] = refl
missing-nothing (v ∷ vs) = omega (arith, missing-nothing vs)

pub none_missing :
    (vs : List String) (out : List String) (v : String)
    → missing vs out ≡ 0
    → member v vs ≡ true
    → member v out ≡ true
unfolding missing
none_missing [] out v h m = ground arith
none_missing (x ∷ vs) out v h m = ground (arith, none_missing vs out v, eq_iff x v)

or-true : (b : Bool) → (b || true) ≡ true
or-true true = refl
or-true false = refl

pub member-tail : (v x : String) (xs : List String) → member v xs ≡ true → member v (x ∷ xs) ≡ true
member-tail v x xs h = rw h (or-true _)

pub member-head : (x : String) (xs : List String) → member x (x ∷ xs) ≡ true
member-head x xs = ground (arith, eq_iff x x)

pub all_present :
    (vs : List String) (out : List String)
    → ((v : String) → member v vs ≡ true → member v out ≡ true)
    → missing vs out ≡ 0
unfolding missing
all_present [] out h = refl
all_present (x ∷ vs) out h =
    let first = h x (member-head x vs) in
    let rest = all_present vs out (λ v m. h v (member-tail v x vs m)) in ground arith
