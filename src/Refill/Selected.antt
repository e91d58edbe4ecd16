-- ===== src/Refill/Selected.antt =====
-- The rounds in which harness/refill_consumer_v2.py selects tasks.
use codex_loop_orchestra.Prelude.{
  ℕ, zero, suc, ◌≤◌, ◌<◌, ◌≡◌, ◌⊎◌, inl, inr, refl, Bool, true, false, Bool-cases, ◌&&◌, and_true,
  and_true₃, String, List, [], ◌∷◌, Option, none, some, Dict, ltb, ltb→lt, ◌==◌, if◌then◌else◌,
  if_either, arith,
}
use codex_loop_orchestra.Refill.Split.{Pools, sum_pools}
use codex_loop_orchestra.Refill.Queue.{in_pool}
use codex_loop_orchestra.Refill.Select.{
  Candidate, Selection, Buckets, Round, Selecting, ended, refused, ran_out, role_pool, same_pool,
  is_loop_role, parent_has_slot, has_slot, choose, take_task, with_bucket, round, rounds,
}
use codex_loop_orchestra.Refill.Chosen.{
  Balanced, Ends, taken_by-Balanced, one_less-sum, same_pool_eq, choose-has_slot,
}

module _ (slots : Pools) (spawnable : Dict Pools) where
  -- A round keeps the balance, and one that goes on has taken a slot.
  Goes : Bool → Selection → Round → Type 0
  Goes progressed s r =
      Balanced slots spawnable r.selection
      × (sum_pools r.selection.remaining ≤ sum_pools s.remaining)
      × ((r.progressed ≡ progressed) ⊎ (sum_pools r.selection.remaining < sum_pools s.remaining))

  Goes-with_bucket :
      (progressed : Bool) (s : Selection) (key : String) (rows : List Candidate)
      (o : Selecting Round)
      → Ends (Goes progressed s) o
      → Ends (Goes progressed s) (with_bucket key rows o)
  unfolding Goes
  Goes-with_bucket progressed s key rows (ended r) h = h
  Goes-with_bucket progressed s key rows (refused) h = h
  Goes-with_bucket progressed s key rows (ran_out) h = h

  Goes-later :
      (progressed : Bool) (s next : Selection) (o : Selecting Round)
      → sum_pools next.remaining < sum_pools s.remaining
      → Ends (Goes true next) o
      → Ends (Goes progressed s) o
  unfolding Goes
  Goes-later progressed s next (ended r) less (b, le, _) = (b, omega arith, inr (omega arith))
  Goes-later progressed s next (refused) less h = h
  Goes-later progressed s next (ran_out) less h = h

  module _ (is_valid : String → Bool) where
    -- A task that is taken keeps the balance and takes a slot.
    Takes : Selection → Selection → Type 0
    Takes s next =
        Balanced slots spawnable next × (sum_pools next.remaining < sum_pools s.remaining)

    take_task-Takes :
        (c : Candidate) (s : Selection)
        → has_slot c s ≡ true
        → Balanced slots spawnable s
        → Ends (Takes s) (take_task is_valid c s)
    unfolding take_task Takes
    take_task-Takes c s h b =
        if_either (Ends (Takes s))
          (is_valid c.packet_id
            && is_loop_role c.work.role
            && same_pool (role_pool c.work.role) c.pool)
          _ _
          (λ ok.
            let same =
              (and_true₃ (is_valid c.packet_id) (is_loop_role c.work.role)
                (same_pool (role_pool c.work.role) c.pool) ok).2 in
            (
              taken_by-Balanced slots spawnable c s (same_pool_eq _ _ same) h b,
              one_less-sum slots spawnable c.pool s.remaining (
                  ltb→lt 0 _
                    (and_true (ltb 0 (in_pool c.pool s.remaining))
                      (parent_has_slot c.parent_id c.pool s) h).0),
            ))
          (λ _. tt)

    after_task :
        (progressed : Bool) (s : Selection) (key : String) (left : List Candidate) (rest : Buckets)
        (o : Selecting Selection)
        → Ends (Takes s) o
        → ((t : Selection)
            → Balanced slots spawnable t
            → Ends (Goes true t) (round is_valid rest true t))
        → Ends (Goes progressed s) (elim o [
          | ended next ↦ with_bucket key left (round is_valid rest true next)
          | refused ↦ refused
          | ran_out ↦ ran_out
        ])
    unfolding Takes
    after_task progressed s key left rest (ended next) (b, less) later =
        Goes-with_bucket progressed s key left (round is_valid rest true next)
          (Goes-later progressed s next (round is_valid rest true next) less (later next b))
    after_task progressed s key left rest (refused) h later = tt
    after_task progressed s key left rest (ran_out) h later = h

    round-Goes :
        (buckets : Buckets) (progressed : Bool) (s : Selection)
        → Balanced slots spawnable s
        → Ends (Goes progressed s) (round is_valid buckets progressed s)
    unfolding round Goes
    round-Goes [] progressed s b = (b, omega arith, inl refl)
    round-Goes ((key, rows) ∷ rest) progressed s b =
        go (choose s rows) refl (λ p t. round-Goes rest p t)
      where
        go :
            (o : Option (Candidate × List Candidate))
            → choose s rows ≡ o
            → ((p : Bool) (t : Selection)
                → Balanced slots spawnable t
                → Ends (Goes p t) (round is_valid rest p t))
            → Ends (Goes progressed s) (elim o [
              | none ↦ with_bucket key rows (round is_valid rest progressed s)
              | some (c, left) ↦ elim (take_task is_valid c s) [
                | ended next ↦ with_bucket key left (round is_valid rest true next)
                | refused ↦ refused
                | ran_out ↦ ran_out
              ]
            ])
        go none e later =
            Goes-with_bucket progressed s key rows (round is_valid rest progressed s)
              (later progressed s b)
        go (some (c, left)) e later =
            after_task progressed s key left rest (take_task is_valid c s)
              (take_task-Takes c s (choose-has_slot s rows c left e) b) (later true)

    onwards :
        (fuel : ℕ) (s : Selection) (r : Round)
        → sum_pools s.remaining ≤ suc fuel
        → Goes false s r
        → (sum_pools r.selection.remaining ≤ fuel
            → Balanced slots spawnable r.selection
            → Ends (Balanced slots spawnable) (rounds is_valid fuel r.buckets r.selection))
        → Ends
            (Balanced slots spawnable)
            (if r.progressed then rounds is_valid fuel r.buckets r.selection else ended r.selection)
    unfolding Goes
    onwards fuel s r le (b, _, moved) later = elim (Bool-cases r.progressed) [
      | inl on ↦ rw on (later (less on moved) b)
      | inr stop ↦ rw stop b
    ]
      where
        less :
            r.progressed ≡ true
            → (r.progressed ≡ false) ⊎ (sum_pools r.selection.remaining < sum_pools s.remaining)
            → sum_pools r.selection.remaining ≤ fuel
        less on (inl stop) = absurd (ground (arith, on, stop))
        less on (inr fewer) = omega arith

    pub rounds-Ends :
        (fuel : ℕ) (buckets : Buckets) (s : Selection)
        → sum_pools s.remaining ≤ fuel
        → Balanced slots spawnable s
        → Ends (Balanced slots spawnable) (rounds is_valid fuel buckets s)
    unfolding rounds
    rounds-Ends zero buckets s le b =
        let done : (sum_pools s.remaining == 0) ≡ true = ground arith in rw done b
    rounds-Ends (suc fuel) buckets s le b =
        if_either (Ends (Balanced slots spawnable)) (sum_pools s.remaining == 0) _ _ (λ _. b)
          (λ _.
            next_round (round is_valid buckets false s) (round-Goes buckets false s b)
              (λ t. rounds-Ends fuel t))
      where
        next_round :
            (o : Selecting Round)
            → Ends (Goes false s) o
            → ((t : Buckets) (u : Selection)
                → sum_pools u.remaining ≤ fuel
                → Balanced slots spawnable u
                → Ends (Balanced slots spawnable) (rounds is_valid fuel t u))
            → Ends (Balanced slots spawnable) (elim o [
              | refused ↦ refused
              | ran_out ↦ ran_out
              | ended r ↦
                  let more = rounds is_valid fuel r.buckets r.selection in
                  if r.progressed then more else ended r.selection
            ])
        next_round (refused) h later = tt
        next_round (ran_out) h later = h
        next_round (ended r) h later = onwards fuel s r le h (later r.buckets r.selection)
