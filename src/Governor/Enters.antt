-- ===== src/Governor/Enters.antt =====
-- What the band of harness/root_turn_governor.py says of the samples that it was fed.
use codex_loop_orchestra.Prelude.{
  take, ℕ, zero, suc, ◌≤◌, ◌<◌, ◌≡◌, inl, inr, refl, String, List, [], ◌∷◌, All, length, Option,
  none, some, ltb, if◌then◌else◌, Bool-cases, arith,
}
use codex_loop_orchestra.Governor.Hysteresis.{
  Band, normal, high, Params, Hysteresis, band_of, above_of, below_of, seen_before, count_sample,
  observe,
}

-- A share and the id of the report that it comes from.
abbrev pub Sample : Type 0
Sample = ℕ × String

take-All : (P : ℕ → Type 0) (n m : ℕ) (xs : List ℕ) → n ≤ m → All P (take m xs) → All P (take n xs)
take-All P zero m xs le h = tt
take-All P (suc n) zero xs le h = absurd (omega arith)
take-All P (suc n) (suc m) [] le h = tt
take-All P (suc n) (suc m) (x ∷ xs) le h = (h.0, take-All P n m xs (omega arith) h.1)

module _ (p : Params) where
  -- The file after the samples, the last of which stands first.
  unfoldable pub after : List Sample → Option Hysteresis
  after [] = none
  after ((share, id) ∷ older) = observe p (after older) share id

  -- The shares of the samples that were not repetitions of the one before.
  unfoldable pub counted : List Sample → List ℕ
  counted [] = []
  counted ((share, id) ∷ older) =
      let rest = counted older in if seen_before (after older) id then rest else share ∷ rest

  -- The last `n` shares, of which there are that many, all exceed the upper threshold.
  abbrev pub AllAbove : ℕ → List ℕ → Type 0
  AllAbove n shares = (n ≤ length shares) × All (λ s. p.enter_high < s) (take n shares)

  abbrev pub AllBelow : ℕ → List ℕ → Type 0
  AllBelow n shares = (n ≤ length shares) × All (λ s. s < p.leave_high) (take n shares)

  record Counts (doc : Option Hysteresis) (shares : List ℕ) : Type 0 where
    above : band_of doc ≡ normal → AllAbove (above_of doc) shares
    below : band_of doc ≡ high → AllBelow (below_of doc) shares

  count-Counts :
      (b : Band) (above below : ℕ) (shares : List ℕ) (share : ℕ) (id : String)
      → (b ≡ normal → AllAbove above shares)
      → (b ≡ high → AllBelow below shares)
      → Counts (some (count_sample p b above below share id)) (share ∷ shares)
  unfolding count_sample
  count-Counts normal above below shares share id a b = record {
    above = λ h. ground (arith, a refl);
    below = λ h. ground (arith, h);
  }
  count-Counts high above below shares share id a b = record {
    above = λ h. ground (arith, h);
    below = λ h. ground (arith, b refl);
  }

  observe-Counts :
      (doc : Option Hysteresis) (shares : List ℕ) (share : ℕ) (id : String)
      → Counts doc shares
      → Counts (observe p doc share id) (if seen_before doc id then shares else share ∷ shares)
  unfolding observe
  observe-Counts doc shares share id c = elim (Bool-cases (seen_before doc id)) [
    | inl e ↦ rw e c
    | inr e ↦
        rw e
          (count-Counts (band_of doc) (above_of doc) (below_of doc) shares share id c.above c.below)
  ]

  after-Counts : (samples : List Sample) → Counts (after samples) (counted samples)
  unfolding after counted
  after-Counts [] = record { above = λ h. (omega arith, tt); below = λ h. (omega arith, tt) }
  after-Counts ((share, id) ∷ older) =
      observe-Counts (after older) (counted older) share id (after-Counts older)

  fewer_above : (n m : ℕ) (shares : List ℕ) → n ≤ m → AllAbove m shares → AllAbove n shares
  fewer_above n m shares le (l, h) = (omega arith, take-All _ n m shares le h)

  fewer_below : (n m : ℕ) (shares : List ℕ) → n ≤ m → AllBelow m shares → AllBelow n shares
  fewer_below n m shares le (l, h) = (omega arith, take-All _ n m shares le h)

  count-enters :
      (above below : ℕ) (shares : List ℕ) (share : ℕ) (id : String)
      → AllAbove above shares
      → (count_sample p normal above below share id).band ≡ high
      → 0 < p.enter_samples
      → AllAbove p.enter_samples (share ∷ shares)
  unfolding count_sample
  count-enters above below shares share id a h some_samples =
      elim (Bool-cases (ltb p.enter_high share)) [
        | inl e ↦
            fewer_above p.enter_samples (suc above) (share ∷ shares) (ground (arith, e, h))
              (omega arith, (ground (arith, e), a.1))
        | inr e ↦ absurd (ground (arith, e, h))
      ]

  count-leaves :
      (above below : ℕ) (shares : List ℕ) (share : ℕ) (id : String)
      → AllBelow below shares
      → (count_sample p high above below share id).band ≡ normal
      → 0 < p.leave_samples
      → AllBelow p.leave_samples (share ∷ shares)
  unfolding count_sample
  count-leaves above below shares share id a h some_samples =
      elim (Bool-cases (ltb share p.leave_high)) [
        | inl e ↦
            fewer_below p.leave_samples (suc below) (share ∷ shares) (ground (arith, e, h))
              (omega arith, (ground (arith, e), a.1))
        | inr e ↦ absurd (ground (arith, e, h))
      ]

  observe-enters :
      (doc : Option Hysteresis) (shares : List ℕ) (share : ℕ) (id : String)
      → Counts doc shares
      → 0 < p.enter_samples
      → band_of doc ≡ normal
      → band_of (observe p doc share id) ≡ high
      → AllAbove p.enter_samples (if seen_before doc id then shares else share ∷ shares)
  unfolding observe
  observe-enters doc shares share id c some_samples was now =
      elim (Bool-cases (seen_before doc id)) [
        | inl e ↦ absurd (ground (arith, e, was, now))
        | inr e ↦ rw e (
            count-enters (above_of doc) (below_of doc) shares share id (c.above was)
              (rw (e, was) at now) some_samples)
      ]

  observe-leaves :
      (doc : Option Hysteresis) (shares : List ℕ) (share : ℕ) (id : String)
      → Counts doc shares
      → 0 < p.leave_samples
      → band_of doc ≡ high
      → band_of (observe p doc share id) ≡ normal
      → AllBelow p.leave_samples (if seen_before doc id then shares else share ∷ shares)
  unfolding observe
  observe-leaves doc shares share id c some_samples was now =
      elim (Bool-cases (seen_before doc id)) [
        | inl e ↦ absurd (ground (arith, e, was, now))
        | inr e ↦ rw e (
            count-leaves (above_of doc) (below_of doc) shares share id (c.below was)
              (rw (e, was) at now) some_samples)
      ]

  -- A sample takes the band from NORMAL to HIGH only if the last `enter_samples` counted samples,
  -- itself included, all exceed `enter_high`, and back only if the last `leave_samples` of them all
  -- lie below `leave_high`. Both numbers are at least 1, and a sample that repeats the id of the one
  -- before is not counted.
  pub band_changes :
      0 < p.enter_samples
      → 0 < p.leave_samples
      → (older : List Sample) (sample : Sample)
      → (band_of (after older) ≡ normal
          → band_of (after (sample ∷ older)) ≡ high
          → AllAbove p.enter_samples (counted (sample ∷ older)))
        × (band_of (after older) ≡ high
            → band_of (after (sample ∷ older)) ≡ normal
            → AllBelow p.leave_samples (counted (sample ∷ older)))
  unfolding after counted
  band_changes e l older (share, id) =
      let c = after-Counts older in
      (
        observe-enters (after older) (counted older) share id c e,
        observe-leaves (after older) (counted older) share id c l,
      )
