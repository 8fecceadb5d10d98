-- ===== src/Chain/State/Delivered.antt =====
-- What the first counter tells: whether all messages up to a height have been delivered.
use linera_protocol.Prelude.{
  ℕ, ◌^◌, ◌<◌, ◌≤◌, ◌≡◌, ◌≢◌, ◌↔◌, refl, sym, ap, subst, ◌∙◌, ltb, true, false, Bool, List, [], ◌∷◌,
  Option, none, some, Result, ok, err, arith, inl, inr, Bool-cases, suc, zero, ok_inj,
}
use linera_protocol.Base.Arithmetic.{ArithmeticError}
use linera_protocol.Base.Identifiers.{BlockHeight}
use linera_protocol.Base.Maps.{Key, Entries, default, find, nat_key}
use linera_protocol.Base.Maps.Ascending.{Ascending, delete-Ascending, find_below, put-Ascending}
use linera_protocol.Chain.DataTypes.{Target}
use linera_protocol.Chain.Outbox.{Outbox, mark_messages_as_received, schedule_message}
use linera_protocol.Chain.State.{
  Deliveries, acknowledge, all_messages_delivered_up_to, decremented, decrement_all, first_key,
  increment, next, outbox_of, receive_acknowledgment, schedule, set_outbox, store_scheduled,
}
use linera_protocol.Chain.State.Counters.{settle-counters, waiting}
use linera_protocol.Chain.State.Scheduling.{
  Reach, Reach-IsCounted, acknowledges, schedules, sets_channels, start,
}
use linera_protocol.Chain.Manager.Kinds.{Call, panics, returns}

next-returns :
    {A B : Type 0} (c : Call A) (f : A → Call B) {b : B}
    → next c f ≡ returns b
    → (a : A) × (c ≡ returns a) × (f a ≡ returns b)
next-returns (returns a) f h = (a, refl, h)
next-returns panics f h = cc

returned : {A : Type 0} {a b : A} → returns a ≡ returns b → a ≡ b
returned h = cc

decremented-Ascending :
    (u : ℕ) (counters left : Entries BlockHeight ℕ) (found : Option ℕ)
    → Ascending 0 counters
    → decremented u counters found ≡ returns left
    → Ascending 0 left
decremented-Ascending u counters left none a h = cc
decremented-Ascending u counters left (some zero) a h = cc
decremented-Ascending u counters left (some (suc zero)) a h =
    subst (Ascending 0) (returned h) (delete-Ascending 0 u counters a)
decremented-Ascending u counters left (some (suc (suc n))) a h =
    subst (Ascending 0) (returned h) (put-Ascending u (suc n) counters a)

decrement_all-Ascending :
    (updates : List BlockHeight) (counters left : Entries BlockHeight ℕ)
    → Ascending 0 counters
    → decrement_all updates counters ≡ returns left
    → Ascending 0 left
unfolding decrement_all
decrement_all-Ascending [] counters left a h = subst (Ascending 0) (returned h) a
decrement_all-Ascending (u ∷ rest) counters left a h =
    let (mid, e, h') =
      next-returns (decremented u counters (find nat_key u counters)) (decrement_all rest) h in
    decrement_all-Ascending rest mid left
      (decremented-Ascending u counters mid (find nat_key u counters) a e) h'

find_first : (k n : ℕ) (m : Entries ℕ ℕ) → find nat_key k ((k, n) ∷ m) ≡ some n
unfolding find
find_first k n m = ground arith

delivered_iff :
    (counters : Entries BlockHeight ℕ) (flight : BlockHeight → ℕ) (height : BlockHeight)
    → ((h : BlockHeight) → default 0 (find nat_key h counters) ≡ flight h)
    → ((h : BlockHeight) → find nat_key h counters ≢ some 0)
    → Ascending 0 counters
    → (elim (first_key counters) [ none ↦ true | some first ↦ ltb height first ] ≡ true)
      ↔ ((h : BlockHeight) → h ≤ height → flight h ≡ 0)
unfolding first_key Ascending find
delivered_iff [] flight height exact positive a = (λ _ h le. sym (exact h), λ _. refl)
delivered_iff ((first, n) ∷ rest) flight height exact positive (le, a) = (
  λ t h below.
      sym (exact h)
      ∙ ap (default 0) (find_below first h ((first, n) ∷ rest) (ground arith) (omega arith, a)),
  λ clear. elim (Bool-cases (ltb height first)) [
    | inl p ↦ p
    | inr p ↦
        let found = find_first first n rest in
        let zero : n ≡ 0 = ap (default 0) (sym found) ∙ exact first ∙ clear first (ground arith) in
        absurd (positive first (found ∙ ap some zero))
  ],
)

module _ (targets : Key Target) where
  acknowledge-Ascending :
      (target : Target) (s s' : Deliveries) (outbox : Outbox) (updates : List BlockHeight)
      (taken : Bool)
      → Ascending 0 s.outbox_counters
      → acknowledge targets target s outbox updates ≡ returns (s', taken)
      → Ascending 0 s'.outbox_counters
  unfolding set_outbox
  acknowledge-Ascending target s s' outbox [] taken a h =
      subst (λ r. Ascending 0 r.0.outbox_counters) (returned h) a
  acknowledge-Ascending target s s' outbox (u ∷ rest) taken a h =
      let (left, e, h') = next-returns (decrement_all (u ∷ rest) s.outbox_counters) _ h in
      let s1 : Deliveries = record s { outbox_counters = left } in
      subst (λ r. Ascending 0 r.0.outbox_counters) (returned h')
        (subst (Ascending 0) (sym (settle-counters targets target outbox s1 outbox.queue))
          (decrement_all-Ascending (u ∷ rest) s.outbox_counters left a e))

  store_scheduled-Ascending :
      (target : Target) (height : BlockHeight) (s s' : Deliveries)
      (r : Outbox × Result ArithmeticError Bool)
      → Ascending 0 s.outbox_counters
      → store_scheduled targets target height s r ≡ ok s'
      → Ascending 0 s'.outbox_counters
  unfolding set_outbox increment
  store_scheduled-Ascending target height s s' (o, err e) a h = cc
  store_scheduled-Ascending target height s s' (o, ok false) a h =
      subst (λ x. Ascending 0 x.outbox_counters) (ok_inj h) a
  store_scheduled-Ascending target height s s' (o, ok true) a h =
      subst (λ x. Ascending 0 x.outbox_counters) (ok_inj h)
        (put-Ascending height _ s.outbox_counters a)

  Reach-Ascending : {n : ℕ} {s : Deliveries} → Reach targets n s → Ascending 0 s.outbox_counters
  unfolding Ascending schedule receive_acknowledgment mark_messages_as_received
  Reach-Ascending start = tt
  Reach-Ascending (schedules {s = s} {s' = s'} target height reach h) =
      store_scheduled-Ascending target height s s'
        (schedule_message (outbox_of targets target s) height) (Reach-Ascending reach) h
  Reach-Ascending (acknowledges {s = s} {s' = s'} {taken = taken} target height reach h) =
      acknowledge-Ascending target s s' _ _ taken (Reach-Ascending reach) h
  Reach-Ascending (sets_channels channels reach) = Reach-Ascending reach

  -- After any calls that schedule less than 2 ^ 32 times, `all_messages_delivered_up_to` holds at a height
  -- exactly if no message of this height or a lower one waits in an outbox.
  pub all_messages_delivered_up_to_iff :
      {n : ℕ} {s : Deliveries} (height : BlockHeight)
      → Reach targets n s
      → n < 2 ^ 32
      → (all_messages_delivered_up_to s height ≡ true)
        ↔ ((h : BlockHeight) → h ≤ height → waiting h s.outboxes ≡ 0)
  unfolding all_messages_delivered_up_to
  all_messages_delivered_up_to_iff {s = s} height reach lt =
      let (inv, _) = Reach-IsCounted targets reach lt in
      delivered_iff s.outbox_counters (λ h. waiting h s.outboxes) height inv.exact inv.positive
        (Reach-Ascending reach)
