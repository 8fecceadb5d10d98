-- ===== src/Chain/State/Scheduling.antt =====
-- Scheduling in a counted state, and the history of the outboxes of a chain.
use linera_protocol.Prelude.{
  ℕ, ◌+◌, ◌^◌, ◌<◌, ◌≤◌, ◌≡◌, ◌⊎◌, inl, inr, refl, sym, ap, subst, ◌∙◌, ltb, true, false, Bool, [],
  ◌∷◌, ◌++◌, ok, err, ok_inj, arith, Bool-cases, Result-cases,
}
use linera_protocol.Base.Arithmetic.{ArithmeticError, try_add_one, u64_max}
use linera_protocol.Base.Identifiers.{BlockHeight}
use linera_protocol.Base.Maps.{Key, Entries}
use linera_protocol.Base.Maps.Unique.{put-Unique}
use linera_protocol.Chain.DataTypes.{ChannelFullName, Target}
use linera_protocol.Chain.Errors.{ChainError}
use linera_protocol.Chain.Outbox.{Outbox, schedule_message}
use linera_protocol.Chain.State.{
  ChannelState, Deliveries, outbox_of, receive_acknowledgment, schedule, set_outbox,
  store_scheduled,
}
use linera_protocol.Chain.State.Counters.{
  IsCounted, new-IsCounted, receive_acknowledgment-IsCounted, stored-IsCounted, waiting,
  waiting-set_outbox,
}
use linera_protocol.Chain.Manager.Kinds.{returns}

-- The three ways in which a call of `schedule_message` ends.
schedule_message-shapes :
    (o : Outbox) (height : BlockHeight)
    → ((e : ArithmeticError) × (schedule_message o height ≡ (o, err e)))
      ⊎ (schedule_message o height ≡ (o, ok false))
      ⊎ ((o' : Outbox) × (schedule_message o height ≡ (o', ok true))
          × (o'.queue ≡ o.queue ++ height ∷ []))
unfolding schedule_message
schedule_message-shapes o height = elim (Bool-cases (ltb height o.next_height_to_schedule)) [
  | inl below ↦ inr (inl (rw below refl))
  | inr in_order ↦ elim (Result-cases (try_add_one u64_max height)) [
    | inl (next, e) ↦ inr (
        inr (
          record { next_height_to_schedule = next; queue = o.queue ++ height ∷ [] },
          rw (in_order, e) refl,
          refl,
        ))
    | inr (e, p) ↦ inl (e, rw (in_order, p) refl)
  ]
]

failed : {e : ChainError} {s : Deliveries} → err e ≡ ok s → ⊥
failed h = cc

returns_inj : {a b : Deliveries × Bool} → returns a ≡ returns b → a ≡ b
returns_inj h = cc

module _ (targets : Key Target) where
  Grows : Deliveries → Deliveries → Type 0
  Grows s s' = (h : BlockHeight) → waiting h s'.outboxes ≤ waiting h s.outboxes + 1

  loaded-IsCounted :
      (target : Target) (s : Deliveries)
      → IsCounted targets s
      → IsCounted targets (set_outbox targets target (outbox_of targets target s) s)
        × Grows s (set_outbox targets target (outbox_of targets target s) s)
  unfolding set_outbox Grows
  loaded-IsCounted target s inv =
      let o = outbox_of targets target s in
      (
        record {
          exact = λ h. omega (arith, inv.exact h, waiting-set_outbox targets h target o s);
          positive = inv.positive;
          distinct = put-Unique targets target o s.outboxes inv.distinct;
        },
        λ h. omega (arith, waiting-set_outbox targets h target o s),
      )

  schedule-IsCounted :
      (target : Target) (height : BlockHeight) (s s' : Deliveries)
      → IsCounted targets s
      → waiting height s.outboxes + 1 < 2 ^ 32
      → schedule targets target height s ≡ ok s'
      → IsCounted targets s' × Grows s s'
  unfolding schedule Grows
  schedule-IsCounted target height s s' inv small h =
      let o = outbox_of targets target s in
      let stored = store_scheduled targets target height s in
      elim (schedule_message-shapes o height) [
        | inl (e, p) ↦ absurd (failed (sym (ap stored p) ∙ h))
        | inr (inl p) ↦
            subst (λ x. IsCounted targets x × Grows s x) (ok_inj (sym (ap stored p) ∙ h))
              (loaded-IsCounted target s inv)
        | inr (inr (o', p, q)) ↦
            subst (λ x. IsCounted targets x × Grows s x) (ok_inj (sym (ap stored p) ∙ h))
              (stored-IsCounted targets target height s o' inv small q)
      ]

  -- What can happen to the outboxes of a chain, with the number of times that a message was scheduled.
  pub data Reach : ℕ → Deliveries → Type 0 where
    start : Reach 0 (record { outboxes = []; outbox_counters = []; channels = [] })
    schedules :
        {n : ℕ} {s s' : Deliveries} (target : Target) (height : BlockHeight)
        → Reach n s
        → schedule targets target height s ≡ ok s'
        → Reach (n + 1) s'
    acknowledges :
        {n : ℕ} {s s' : Deliveries} {taken : Bool} (target : Target) (height : BlockHeight)
        → Reach n s
        → receive_acknowledgment targets target height s ≡ returns (s', taken)
        → Reach n s'
    sets_channels :
        {n : ℕ} {s : Deliveries} (channels : Entries ChannelFullName ChannelState)
        → Reach n s
        → Reach n (record s { channels = channels })

  -- After any calls that schedule less than 2 ^ 32 times: each counter is the number of the outboxes in
  -- which a message of its height waits, and no more wait than were scheduled.
  pub Reach-IsCounted :
      {n : ℕ} {s : Deliveries}
      → Reach n s
      → n < 2 ^ 32
      → IsCounted targets s × ((h : BlockHeight) → waiting h s.outboxes ≤ n)
  unfolding waiting Grows
  Reach-IsCounted start lt =
      ((new-IsCounted targets).0, λ h. omega (arith, (new-IsCounted targets).1 h))
  Reach-IsCounted (schedules {n = n} {s = s} {s' = s'} target height reach h) lt =
      let (inv, le) = Reach-IsCounted reach (omega arith) in
      let (inv', grows) = schedule-IsCounted target height s s' inv (omega (arith, le height)) h in
      (inv', λ x. omega (arith, le x, grows x))
  Reach-IsCounted (acknowledges {n = n} {s = s} {s' = s'} {taken = taken} target height reach h)
        lt =
      let (inv, le) = Reach-IsCounted reach lt in
      let (t, b, e, inv', less) = receive_acknowledgment-IsCounted targets target height s inv in
      subst (λ r. IsCounted targets r.0 × ((h : BlockHeight) → waiting h r.0.outboxes ≤ n))
        (returns_inj (sym e ∙ h)) (inv', λ x. omega (arith, le x, less x))
  Reach-IsCounted (sets_channels channels reach) lt =
      let (inv, le) = Reach-IsCounted reach lt in
      (record { exact = inv.exact; positive = inv.positive; distinct = inv.distinct }, le)
