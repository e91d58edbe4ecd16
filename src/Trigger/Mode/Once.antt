-- ===== src/Trigger/Mode/Once.antt =====
-- The queue for level 2 has one line for each request of harness/trigger_eval_v2.py.
use codex_loop_orchestra.Prelude.{
  All-snoc, any-snoc, ℕ, ◌≡◌, ◌≢◌, refl, sym, ap, ◌∙◌, ◌⊎◌, inl, inr, Bool, true, false, ◌&&◌,
  Bool-cases, String, List, [], ◌∷◌, ◌++◌, All, any, arith, str_eq, if◌then◌else◌, if_either,
  and_true,
}
use codex_loop_orchestra.Trigger.Mode.{
  RoutingMode, cold_start, shadow, layered, L2Record, Queues, Request, key_of, request_l2,
  after_sampling, apply_routing_mode,
}

-- A call of the switch, with the action of the table.
pub record Switch : Type 0 where
  pub mode : RoutingMode
  pub request : Request
  pub action : String

-- No two lines have the same key.
abbrev pub Distinct : List L2Record → Type 0
Distinct [] = Unit
Distinct (r ∷ rs) = All (λ s. s.idem_key ≢ r.idem_key) rs × Distinct rs

Distinct-append :
    (rs : List L2Record) (x : L2Record)
    → Distinct rs
    → All (λ s. s.idem_key ≢ x.idem_key) rs
    → Distinct (rs ++ x ∷ [])
Distinct-append [] x d new = (tt, tt)
Distinct-append (r ∷ rs) x d new =
    (All-snoc _ rs x d.0 (λ e. new.0 (sym e)), Distinct-append rs x d.1 new.1)

module _ (sha_prefix : String → ℕ) (idem_key : String → String → ℕ → String)
    (in_line : String → L2Record → Bool) where
  -- The key of a line is the key of its own packet, run and attempt.
  abbrev pub OwnKey : L2Record → Type 0
  OwnKey r = r.idem_key ≡ idem_key r.packet_id r.run_id r.attempt

  abbrev pub IsOrderly : Queues → Type 0
  IsOrderly f = Distinct f.l2_pending × All OwnKey f.l2_pending

  -- The call answers `send_l2` in the layered mode.
  abbrev pub sends : Switch → Bool
  sends c = elim c.mode [
    | layered ↦ str_eq (after_sampling sha_prefix idem_key in_line c.request c.action) "send_l2"
    | _ ↦ false
  ]

  abbrev pub asked : Request → Queues → Bool
  asked q f = any (in_line (key_of sha_prefix idem_key in_line q)) f.l2_pending

  unfoldable pub switch_all : List Switch → Queues → Queues
  switch_all [] f = f
  switch_all (c ∷ cs) f =
      switch_all cs (apply_routing_mode sha_prefix idem_key in_line c.mode c.request c.action f).0

  module _ (own_key : (r : L2Record) → in_line r.idem_key r ≡ true) where
    not_there :
        (key : String) (rs : List L2Record)
        → any (in_line key) rs ≡ false
        → All (λ s. s.idem_key ≢ key) rs
    not_there key [] h = tt
    not_there key (r ∷ rs) h = (
      λ e. ground (arith, h, ap (λ k. in_line k r) (sym e) ∙ own_key r),
      not_there key rs (ground (arith, h)),
    )

    -- What one call does to the queue.
    Follows : Request → Bool → Queues → Queues → Type 0
    Follows q sent f g =
        IsOrderly g
        × ((key : String)
            → any (in_line key) f.l2_pending ≡ true
            → any (in_line key) g.l2_pending ≡ true)
        × ((sent ≡ false) ⊎ (asked q g ≡ true))

    request-Follows :
        (q : Request) (f : Queues)
        → q.queue_readable ≡ true
        → IsOrderly f
        → Follows q true f (request_l2 sha_prefix idem_key in_line q f)
    unfolding request_l2 Follows
    request-Follows q f readable o =
        if_either (Follows q true f)
          (q.queue_readable && any (in_line (key_of sha_prefix idem_key in_line q)) f.l2_pending) _
          _ (λ there. (o, λ key h. h, inr (and_true q.queue_readable _ there).1))
          (λ absent. appended (ground (arith, readable, absent)))
      where
        line : L2Record
        line = record {
          packet_id = q.packet_id;
          run_id = q.run_id;
          attempt = q.attempt;
          idem_key = key_of sha_prefix idem_key in_line q;
        }

        appended :
            any (in_line line.idem_key) f.l2_pending ≡ false
            → Follows q true f (record f { l2_pending = f.l2_pending ++ line ∷ [] })
        appended absent = (
          (
            Distinct-append f.l2_pending line o.0 (not_there line.idem_key f.l2_pending absent),
            All-snoc OwnKey f.l2_pending line o.1 refl,
          ),
          λ key h. ground (arith, h, any-snoc (in_line key) f.l2_pending line),
          inr (ground (arith, own_key line, any-snoc (in_line line.idem_key) f.l2_pending line)),
        )

    sent-Follows :
        (b : Bool) (q : Request) (f : Queues)
        → q.queue_readable ≡ true
        → IsOrderly f
        → Follows q b f (if b then request_l2 sha_prefix idem_key in_line q f else f)
    unfolding Follows
    sent-Follows true q f readable o = request-Follows q f readable o
    sent-Follows false q f readable o = (o, λ key h. h, inl refl)

    switch-Follows :
        (c : Switch) (f : Queues)
        → c.request.queue_readable ≡ true
        → IsOrderly f
        → Follows c.request
            (sends c)
            f
            (apply_routing_mode sha_prefix idem_key in_line c.mode c.request c.action f).0
    unfolding apply_routing_mode
    switch-Follows c f readable o = by_mode c.mode
      where
        by_mode :
            (mode : RoutingMode)
            → Follows c.request
                (sends (record c { mode = mode }))
                f
                (apply_routing_mode sha_prefix idem_key in_line mode c.request c.action f).0
        by_mode cold_start = unfold Follows in (o, λ key h. h, inl refl)
        by_mode shadow = unfold Follows in (o, λ key h. h, inl refl)
        by_mode layered = sent-Follows _ c.request f readable o

    -- From a queue without two lines of one key, whose lines have the keys of their own packets, runs
    -- and attempts: whatever calls are made, in any modes, if each can read the queue and a line shows
    -- its own key, the queue stays so, no line that shows a key is lost, and each call that answers
    -- `send_l2` in the layered mode has a line that shows its key.
    pub requests_once :
        (cs : List Switch) (f : Queues) (key : String)
        → All (λ c. c.request.queue_readable ≡ true) cs
        → IsOrderly f
        → IsOrderly (switch_all cs f)
          × ((any (in_line key) f.l2_pending ≡ false)
              ⊎ (any (in_line key) (switch_all cs f).l2_pending ≡ true))
          × All (λ c. (sends c ≡ false) ⊎ (asked c.request (switch_all cs f) ≡ true)) cs
    unfolding switch_all Follows
    requests_once [] f key readable o = (o, shown (any (in_line key) f.l2_pending), tt)
      where
        shown : (b : Bool) → (b ≡ false) ⊎ (b ≡ true)
        shown true = inr refl
        shown false = inl refl
    requests_once (c ∷ cs) f key readable o =
        let (o', keeps, own) = switch-Follows c f readable.0 o in
        let g : Queues =
          (apply_routing_mode sha_prefix idem_key in_line c.mode c.request c.action f).0 in
        let later = requests_once cs g key readable.1 o' in
        let mine =
          requests_once cs g (key_of sha_prefix idem_key in_line c.request) readable.1 o' in
        (
          later.0,
          elim (Bool-cases (any (in_line key) f.l2_pending)) [
            | inr absent ↦ inl absent
            | inl shown ↦ inr (stays later.1 (keeps key shown))
          ],
          (elim own [ inl silent ↦ inl silent | inr there ↦ inr (stays mine.1 there) ], later.2),
        )
      where
        stays : {a b : Bool} → (a ≡ false) ⊎ (b ≡ true) → a ≡ true → b ≡ true
        stays (inl gone) here = absurd (ground (arith, gone, here))
        stays (inr there) here = there
