-- ===== src/Trigger/Mode/Stands.antt =====
-- In the layered mode the verdict of the table stands.
use codex_loop_orchestra.Prelude.{
  ℕ, ◌≡◌, refl, ◌⊎◌, inl, inr, Bool, true, ◌&&◌, String, str_eq, eq_iff, if_either, and_true,
}
use codex_loop_orchestra.Trigger.Mode.{
  layered, L2Record, Queues, Request, sampled_for_verification, after_sampling, apply_routing_mode,
}

-- The verdict, but for the passes of the sample.
module _ (sha_prefix : String → ℕ) (idem_key : String → String → ℕ → String)
    (in_line : String → L2Record → Bool) where
  abbrev pub KeepsVerdict : Request → String → String → Type 0
  KeepsVerdict q action answer =
      (answer ≡ action)
      ⊎ ((action ≡ "pass")
          × (sampled_for_verification sha_prefix idem_key in_line q.packet_id q.verify_sample_rate
              ≡ true)
          × (answer ≡ "send_l2"))

  -- In the layered mode the action is the verdict of the table, or it is `send_l2` for a pass that
  -- the sample takes: nothing is raised to `direct_l3`.
  pub layered_stands :
      (q : Request) (action : String) (f : Queues)
      → KeepsVerdict q action (apply_routing_mode sha_prefix idem_key in_line layered q action f).1
  unfolding apply_routing_mode after_sampling
  layered_stands q action f =
      if_either (KeepsVerdict q action)
        (str_eq action "pass"
          && sampled_for_verification sha_prefix idem_key in_line q.packet_id q.verify_sample_rate)
        "send_l2" action
        (λ h.
          let (is_pass, taken) = and_true (str_eq action "pass") _ h in
          inr ((eq_iff action "pass").0 is_pass, taken, refl))
        (λ _. inl refl)
