-- ===== src/Results/Bounded.antt =====
-- The size of the packet that harness/result_reducer.py renders.
use codex_loop_orchestra.Prelude.{
  ℕ, zero, suc, ◌+◌, ◌-◌, ◌/◌, ◌≤◌, ◌<◌, ◌≡◌, ◌⊎◌, inl, inr, refl, ap, true, false, Bool-cases,
  String, List, [], ◌∷◌, some, Dict, length, take, max, leb, leb→le, arith,
}
use codex_loop_orchestra.Results.Reduce.{Reducer, consolidate}
use codex_loop_orchestra.Results.Packet.{
  set_last, fewer_paths, fewer_findings, shrink, gathered, AdjudicationPacket, built,
  render_adjudication_packet,
}

length-take-le {ℓ} : {A : Type ℓ} (n : ℕ) (xs : List A) → length (take n xs) ≤ n
length-take-le zero xs = omega arith
length-take-le (suc n) [] = omega arith
length-take-le (suc n) (x ∷ xs) = omega (arith, length-take-le n xs)

module _ (more_text : ℕ → String) where
  length-set_last :
      (text : String) (xs : List String) → length (set_last more_text text xs) ≡ length xs
  unfolding set_last
  length-set_last text [] = refl
  length-set_last text (x ∷ []) = refl
  length-set_last text (x ∷ y ∷ ys) = ap suc (length-set_last text (y ∷ ys))

  fewer_paths-lt :
      (total : ℕ) (a : String) (arts : List String)
      → length (fewer_paths more_text total (a ∷ arts)) < suc (length arts)
  unfolding fewer_paths
  fewer_paths-lt total a arts =
      let kept = take (suc (length arts) - max 1 (suc (length arts) / 4)) (a ∷ arts) in
      omega (
        arith,
        length-set_last (more_text (total - length kept + 1)) kept,
        length-take-le (suc (length arts) - max 1 (suc (length arts) / 4)) (a ∷ arts),
      )

  fewer_findings-lt :
      (f : String) (fids : List String)
      → length (fewer_findings more_text (f ∷ fids)) < suc (length fids)
  unfolding fewer_findings
  fewer_findings-lt f fids = omega (arith, length-take-le (suc (length fids) - 1) (f ∷ fids))

  module _ (estimate : List String → List String → ℕ) (max_tokens total : ℕ) where
    -- The budget holds, or there is nothing left to take away.
    abbrev Fits : List String × List String → Type 0
    Fits r = (estimate r.0 r.1 ≤ max_tokens) ⊎ ((r.0 ≡ []) × (r.1 ≡ []))

    -- A finding goes only when no path is left.
    abbrev Shrunk : List String → List String → List String × List String → Type 0
    Shrunk fids arts r = Fits r × ((r.0 ≡ fids) ⊎ (r.1 ≡ [])) × (arts ≡ [] → r.1 ≡ [])

    Ends : ℕ → List String → List String → Type 0
    Ends fuel fids arts =
        (r : List String × List String) × (shrink more_text estimate max_tokens total fuel fids arts
          ≡ some r)
        × Shrunk fids arts r

    drop_path :
        (fuel : ℕ) (fids : List String) (a : String) (arts : List String)
        → Ends fuel fids (fewer_paths more_text total (a ∷ arts))
        → Ends (suc fuel) fids (a ∷ arts)
    unfolding shrink Ends
    drop_path fuel fids a arts (r, e, (fits, kept, _)) =
        go (Bool-cases (leb (estimate fids (a ∷ arts)) max_tokens))
      where
        go :
            (leb (estimate fids (a ∷ arts)) max_tokens ≡ true)
              ⊎ (leb (estimate fids (a ∷ arts)) max_tokens ≡ false)
            → Ends (suc fuel) fids (a ∷ arts)
        go (inl b) = (
          (fids, a ∷ arts),
          rw b refl,
          (inl (leb→le _ _ b), inl refl, λ h. absurd (ground (arith, h))),
        )
        go (inr b) = (r, rw b e, (fits, kept, λ h. absurd (ground (arith, h))))

    drop_finding :
        (fuel : ℕ) (f : String) (fids : List String)
        → Ends fuel (fewer_findings more_text (f ∷ fids)) []
        → Ends (suc fuel) (f ∷ fids) []
    unfolding shrink Ends
    drop_finding fuel f fids (r, e, (fits, _, no_paths)) =
        go (Bool-cases (leb (estimate (f ∷ fids) []) max_tokens))
      where
        go :
            (leb (estimate (f ∷ fids) []) max_tokens ≡ true)
              ⊎ (leb (estimate (f ∷ fids) []) max_tokens ≡ false)
            → Ends (suc fuel) (f ∷ fids) []
        go (inl b) = ((f ∷ fids, []), rw b refl, (inl (leb→le _ _ b), inl refl, λ h. refl))
        go (inr b) = (r, rw b e, (fits, inr (no_paths refl), no_paths))

    shrink-Ends :
        (fuel : ℕ) (fids arts : List String)
        → length fids + length arts < fuel
        → Ends fuel fids arts
    unfolding shrink Ends
    shrink-Ends zero fids arts h = absurd (omega arith)
    shrink-Ends (suc fuel) fids (a ∷ arts) h = drop_path fuel fids a arts (
        shrink-Ends fuel fids (fewer_paths more_text total (a ∷ arts))
          (omega (arith, fewer_paths-lt total a arts)))
    shrink-Ends (suc fuel) (f ∷ fids) [] h = drop_finding fuel f fids (
        shrink-Ends fuel (fewer_findings more_text (f ∷ fids)) []
          (omega (arith, fewer_findings-lt f fids)))
    shrink-Ends (suc fuel) [] [] h = (([], []), refl, (inr (refl, refl), inl refl, λ h. refl))

module _ (more_text : ℕ → String) (estimate : Dict String → String → List String → List String → ℕ)
    (max_tokens : ℕ) where
  -- The rendering ends, and its packet is within the budget or holds no finding and no path any
  -- more. A packet that holds a path still holds every finding.
  pub packet_bounded :
      (r : Reducer)
      → (p : AdjudicationPacket) × (render_adjudication_packet more_text estimate max_tokens r
          ≡ some p)
        × ((p.token_estimate ≤ max_tokens) ⊎ ((p.finding_ids ≡ []) × (p.artifact_paths ≡ [])))
        × ((p.finding_ids ≡ (gathered r).finding_ids) ⊎ (p.artifact_paths ≡ []))
  unfolding render_adjudication_packet Ends
  packet_bounded r =
      let g = gathered r in
      let verdict = consolidate r in
      let (kept, e, (fits, findings, _)) =
        shrink-Ends more_text (estimate g.statuses verdict) max_tokens (length g.artifact_paths)
          (suc (length g.finding_ids + length g.artifact_paths)) g.finding_ids g.artifact_paths
          (omega arith) in
      (
        record {
          statuses = g.statuses;
          verdict = verdict;
          finding_ids = kept.0;
          artifact_paths = kept.1;
          token_estimate = estimate g.statuses verdict kept.0 kept.1;
        },
        ap (built more_text estimate max_tokens g.statuses verdict) e,
        fits,
        findings,
      )
