-- ===== src/Chain/State/Counters.antt =====
-- The counters of the messages in flight: at each height, the number of the outboxes whose queue holds
-- the height.
use linera_protocol.Prelude.{
  ℕ, ◌+◌, ◌%◌, ◌^◌, ◌<◌, ◌≤◌, suc, zero, ◌==◌, if◌then◌else◌, ◌≡◌, ◌≢◌, refl, sym, ap, subst, ◌∙◌,
  true, false, Bool, List, [], ◌∷◌, ◌++◌, none, some, arith, inl, inr, Option-cases, ℕ_discrete,
}
use linera_protocol.Base.Identifiers.{BlockHeight}
use linera_protocol.Base.Maps.{Key, Entries, nat_key, default, delete, find, put}
use linera_protocol.Base.Maps.Laws.{find-put_self, find-put_ne, find-delete_self, find-delete_ne}
use linera_protocol.Base.Maps.Unique.{
  Unique, weigh, weight_at, weigh-put, weigh-delete, put-Unique, delete-Unique,
}
use linera_protocol.Chain.DataTypes.{Target}
use linera_protocol.Chain.Outbox.{Outbox, mark_messages_as_received, take_received}
use linera_protocol.Chain.Outbox.Delivery.{take_received-split}
use linera_protocol.Chain.State.{
  Deliveries, next, settle, acknowledge, decremented, decrement_all, increment, outbox_of,
  receive_acknowledgment, set_outbox,
}
use linera_protocol.Chain.Manager.Kinds.{returns}

-- How often a queue holds a height.
unfoldable pub count : BlockHeight → List BlockHeight → ℕ
count h [] = 0
count h (x ∷ rest) = (if x == h then 1 else 0) + count h rest

count-append : (h : BlockHeight) (a b : List BlockHeight) → count h (a ++ b) ≡ count h a + count h b
unfolding count
count-append h [] b = omega arith
count-append h (x ∷ a) b = omega (arith, count-append h a b)

-- The messages in flight at a height.
unfoldable pub waiting : BlockHeight → Entries Target Outbox → ℕ
waiting h outboxes = weigh (λ outbox. count h outbox.queue) outboxes

abbrev counter : BlockHeight → Entries BlockHeight ℕ → ℕ
counter h counters = default 0 (find nat_key h counters)

-- No counter is zero.
abbrev Positive : Entries BlockHeight ℕ → Type 0
Positive counters = (h : BlockHeight) → find nat_key h counters ≢ some 0

counter-put_self : (h n : ℕ) (m : Entries BlockHeight ℕ) → counter h (put nat_key h n m) ≡ n
counter-put_self h n m = ap (default 0) (find-put_self nat_key h n m)

counter-put_ne :
    (h h' n : ℕ) (m : Entries BlockHeight ℕ)
    → h ≢ h'
    → counter h' (put nat_key h n m) ≡ counter h' m
counter-put_ne h h' n m ne = ap (default 0) (find-put_ne nat_key h h' n m ne)

counter-delete_self : (h : ℕ) (m : Entries BlockHeight ℕ) → counter h (delete nat_key h m) ≡ 0
counter-delete_self h m = ap (default 0) (find-delete_self nat_key h m)

counter-delete_ne :
    (h h' : ℕ) (m : Entries BlockHeight ℕ) → h ≢ h' → counter h' (delete nat_key h m) ≡ counter h' m
counter-delete_ne h h' m ne = ap (default 0) (find-delete_ne nat_key h h' m ne)

not-some : {n : ℕ} → none ≡ some n → ⊥
not-some q = cc

put-Positive :
    (h n : ℕ) (m : Entries BlockHeight ℕ) → n ≢ 0 → Positive m → Positive (put nat_key h n m)
put-Positive h n m ne p h' e = elim (ℕ_discrete h h') [
  | yes q ↦ ne (
      ap (default 0)
        (sym (find-put_self nat_key h n m) ∙ ap (λ x. find nat_key x (put nat_key h n m)) q ∙ e))
  | no q ↦ p h' (sym (find-put_ne nat_key h h' n m q) ∙ e)
]

delete-Positive : (h : ℕ) (m : Entries BlockHeight ℕ) → Positive m → Positive (delete nat_key h m)
delete-Positive h m p h' e = elim (ℕ_discrete h h') [
  | yes q ↦
      not-some
        (sym (find-delete_self nat_key h m) ∙ ap (λ x. find nat_key x (delete nat_key h m)) q ∙ e)
  | no q ↦ p h' (sym (find-delete_ne nat_key h h' m q) ∙ e)
]

-- One acknowledged height, whose counter is positive.
decremented-at :
    (u n : ℕ) (counters : Entries BlockHeight ℕ)
    → find nat_key u counters ≡ some n
    → Positive counters
    → (left : Entries BlockHeight ℕ) × (decremented u counters (some n) ≡ returns left)
      × ((h : BlockHeight) → counter h left + (if u == h then 1 else 0) ≡ counter h counters)
      × Positive left
decremented-at u zero counters e p = absurd (p u e)
decremented-at u (suc zero) counters e p = (
  delete nat_key u counters,
  refl,
  λ h. elim (ℕ_discrete u h) [
    | yes q ↦
        subst
          (λ x.
            counter x (delete nat_key u counters) + (if u == x then 1 else 0) ≡ counter x counters)
          q (ground (arith, counter-delete_self u counters, ap (default 0) e))
    | no ne ↦ ground (arith, counter-delete_ne u h counters ne)
  ],
  delete-Positive u counters p,
)
decremented-at u (suc (suc n)) counters e p = (
  put nat_key u (suc n) counters,
  refl,
  λ h. elim (ℕ_discrete u h) [
    | yes q ↦
        subst
          (λ x.
            counter x (put nat_key u (suc n) counters) + (if u == x then 1 else 0)
            ≡ counter x counters)
          q (ground (arith, counter-put_self u (suc n) counters, ap (default 0) e))
    | no ne ↦ ground (arith, counter-put_ne u h (suc n) counters ne)
  ],
  put-Positive u (suc n) counters (λ z. omega arith) p,
)

decremented-exact :
    (u : ℕ) (counters : Entries BlockHeight ℕ)
    → 0 < counter u counters
    → Positive counters
    → (left : Entries BlockHeight ℕ) × (decremented u counters (find nat_key u counters)
        ≡ returns left)
      × ((h : BlockHeight) → counter h left + (if u == h then 1 else 0) ≡ counter h counters)
      × Positive left
decremented-exact u counters lt p = elim (Option-cases (find nat_key u counters)) [
  | inl e ↦ absurd (not-positive (ap (default 0) e))
  | inr (n, e) ↦
      let (left, d, exact, p') = decremented-at u n counters e p in
      (left, ap (decremented u counters) e ∙ d, exact, p')
]
  where
    not-positive : counter u counters ≡ 0 → ⊥
    not-positive z = omega arith

-- Where every acknowledged height is counted, the loop does not panic, and takes each one off.
decrement_all-exact :
    (updates : List BlockHeight) (counters : Entries BlockHeight ℕ) (base : BlockHeight → ℕ)
    → ((h : BlockHeight) → counter h counters ≡ base h + count h updates)
    → Positive counters
    → (left : Entries BlockHeight ℕ) × (decrement_all updates counters ≡ returns left)
      × ((h : BlockHeight) → counter h left ≡ base h)
      × Positive left
unfolding decrement_all count
decrement_all-exact [] counters base exact p = (counters, refl, λ h. omega (arith, exact h), p)
decrement_all-exact (u ∷ rest) counters base exact p =
    let (left, d, step, p') = decremented-exact u counters (ground (arith, exact u)) p in
    let (end, e, total, p'') =
      decrement_all-exact rest left base (λ h. ground (arith, step h, exact h)) p' in
    (end, ap (λ c. next c (decrement_all rest)) d ∙ e, total, p'')

module _ (targets : Key Target) where
  -- The counters are those of the messages that wait in the outboxes; none is zero, and each target has
  -- one outbox.
  pub record IsCounted (s : Deliveries) : Type 0 where
    pub exact : (h : BlockHeight) → counter h s.outbox_counters ≡ waiting h s.outboxes
    pub positive : Positive s.outbox_counters
    pub distinct : Unique targets s.outboxes

  pub new-IsCounted :
      IsCounted (record { outboxes = []; outbox_counters = []; channels = [] })
      × ((h : BlockHeight) → waiting h [] ≡ 0)
  unfolding waiting weigh Unique find
  new-IsCounted =
      (record { exact = λ h. refl; positive = λ h e. not-some e; distinct = tt }, λ h. refl)

  weight-outbox_of :
      (h : BlockHeight) (target : Target) (s : Deliveries)
      → weight_at (λ outbox. count h outbox.queue) (find targets target s.outboxes)
        ≡ count h (outbox_of targets target s).queue
  unfolding outbox_of count
  weight-outbox_of h target s = elim (Option-cases (find targets target s.outboxes)) [
    | inl e ↦ rw e refl
    | inr (o, e) ↦ rw e refl
  ]

  pub waiting-set_outbox :
      (h : BlockHeight) (target : Target) (outbox : Outbox) (s : Deliveries)
      → waiting h (set_outbox targets target outbox s).outboxes
          + count h (outbox_of targets target s).queue
        ≡ waiting h s.outboxes + count h outbox.queue
  unfolding waiting set_outbox
  waiting-set_outbox h target outbox s = omega (
    arith,
    weight-outbox_of h target s,
    weigh-put targets (λ o. count h o.queue) target outbox s.outboxes,
  )

  waiting-delete :
      (h : BlockHeight) (target : Target) (s : Deliveries)
      → Unique targets s.outboxes
      → waiting h (delete targets target s.outboxes) + count h (outbox_of targets target s).queue
        ≡ waiting h s.outboxes
  unfolding waiting
  waiting-delete h target s u = omega (
    arith,
    weight-outbox_of h target s,
    weigh-delete targets (λ o. count h o.queue) target s.outboxes u,
  )

  -- The outboxes after an acknowledgment.
  waiting-settle :
      (h : BlockHeight) (target : Target) (outbox : Outbox) (s : Deliveries)
      (queue : List BlockHeight)
      → outbox.queue ≡ queue
      → Unique targets s.outboxes
      → waiting h (settle targets target outbox s queue).outboxes
          + count h (outbox_of targets target s).queue
        ≡ waiting h s.outboxes + count h outbox.queue
  unfolding count
  waiting-settle h target outbox s [] e u =
      omega (arith, waiting-delete h target s u, ap (count h) e)
  waiting-settle h target outbox s (x ∷ rest) e u = waiting-set_outbox h target outbox s

  settle-Unique :
      (target : Target) (outbox : Outbox) (s : Deliveries) (queue : List BlockHeight)
      → Unique targets s.outboxes
      → Unique targets (settle targets target outbox s queue).outboxes
  unfolding set_outbox
  settle-Unique target outbox s [] u = delete-Unique targets target s.outboxes u
  settle-Unique target outbox s (x ∷ rest) u = put-Unique targets target outbox s.outboxes u

  pub settle-counters :
      (target : Target) (outbox : Outbox) (s : Deliveries) (queue : List BlockHeight)
      → (settle targets target outbox s queue).outbox_counters ≡ s.outbox_counters
  unfolding set_outbox
  settle-counters target outbox s [] = refl
  settle-counters target outbox s (x ∷ rest) = refl

  settle-outboxes :
      (target : Target) (outbox : Outbox) (s : Deliveries) (counters : Entries BlockHeight ℕ)
      (queue : List BlockHeight)
      → (settle targets target outbox (record s { outbox_counters = counters }) queue).outboxes
        ≡ (settle targets target outbox s queue).outboxes
  unfolding set_outbox
  settle-outboxes target outbox s counters [] = refl
  settle-outboxes target outbox s counters (x ∷ rest) = refl

  settle-IsCounted :
      (target : Target) (outbox : Outbox) (s : Deliveries) (updates : List BlockHeight)
      → IsCounted s
      → ((h : BlockHeight)
          → count h (outbox_of targets target s).queue ≡ count h updates + count h outbox.queue)
      → (s' : Deliveries) × (taken : Bool) × (acknowledge targets target s outbox updates
          ≡ returns (s', taken))
        × IsCounted s'
        × ((h : BlockHeight) → waiting h s'.outboxes ≤ waiting h s.outboxes)
  unfolding set_outbox count
  settle-IsCounted target outbox s [] inv split = (
    set_outbox targets target outbox s,
    false,
    refl,
    record {
      exact = λ h. omega (arith, inv.exact h, waiting-set_outbox h target outbox s, split h);
      positive = inv.positive;
      distinct = put-Unique targets target outbox s.outboxes inv.distinct;
    },
    λ h. omega (arith, waiting-set_outbox h target outbox s, split h),
  )
  settle-IsCounted target outbox s (u ∷ rest) inv split =
      let base : BlockHeight → ℕ =
        λ h. waiting h (settle targets target outbox s outbox.queue).outboxes in
      let (left, d, exact, p) =
        decrement_all-exact (u ∷ rest) s.outbox_counters base
          (λ h. omega (
            arith,
            inv.exact h,
            waiting-settle h target outbox s outbox.queue refl inv.distinct,
            split h,
          ))
          inv.positive in
      let s1 : Deliveries = record s { outbox_counters = left } in
      (
        settle targets target outbox s1 outbox.queue,
        true,
        ap
            (λ c. next c λ counters. returns (
              settle targets target outbox (record s { outbox_counters = counters }) outbox.queue,
              true,
            ))
            d,
        record {
          exact = λ h.
              ap (counter h) (settle-counters target outbox s1 outbox.queue)
              ∙ exact h
              ∙ ap (waiting h) (sym (settle-outboxes target outbox s left outbox.queue));
          positive = λ h e.
              p h (sym (ap (find nat_key h) (settle-counters target outbox s1 outbox.queue)) ∙ e);
          distinct = settle-Unique target outbox s1 outbox.queue inv.distinct;
        },
        λ h. omega (
          arith,
          ap (waiting h) (settle-outboxes target outbox s left outbox.queue),
          waiting-settle h target outbox s outbox.queue refl inv.distinct,
          split h,
        ),
      )

  -- When the counters match the outboxes (each height counts the outboxes in which it waits), an
  -- acknowledgment does not panic: the counters match again, and no more outboxes wait at any height
  -- than before.
  pub receive_acknowledgment-IsCounted :
      (target : Target) (height : BlockHeight) (s : Deliveries)
      → IsCounted s
      → (s' : Deliveries) × (taken : Bool) × (receive_acknowledgment targets target height s
          ≡ returns (s', taken))
        × IsCounted s'
        × ((h : BlockHeight) → waiting h s'.outboxes ≤ waiting h s.outboxes)
  unfolding receive_acknowledgment mark_messages_as_received
  receive_acknowledgment-IsCounted target height s inv =
      let outbox = outbox_of targets target s in
      let (left, updates) = take_received height outbox.queue in
      settle-IsCounted target (record outbox { queue = left }) s updates inv
        λ h.
          ap (count h) (sym (take_received-split height outbox.queue)) ∙ count-append h updates left

  pub stored-IsCounted :
      (target : Target) (height : BlockHeight) (s : Deliveries) (outbox : Outbox)
      → IsCounted s
      → waiting height s.outboxes + 1 < 2 ^ 32
      → outbox.queue ≡ (outbox_of targets target s).queue ++ height ∷ []
      → let s' : Deliveries = record (set_outbox targets target outbox s) {
        outbox_counters = increment height s.outbox_counters;
      } in
        IsCounted s' × ((h : BlockHeight) → waiting h s'.outboxes ≤ waiting h s.outboxes + 1)
  unfolding set_outbox increment count
  stored-IsCounted target height s outbox inv small e =
      let held : (h : BlockHeight)
          → count h outbox.queue
            ≡ count h (outbox_of targets target s).queue + ((if height == h then 1 else 0) + 0) =
        λ h. ap (count h) e ∙ count-append h (outbox_of targets target s).queue (height ∷ []) in
      let n = (counter height s.outbox_counters + 1) % 2 ^ 32 in
      let fits : n ≡ waiting height s.outboxes + 1 = omega (arith, inv.exact height) in
      (
        record {
          exact = λ h. elim (ℕ_discrete height h) [
            | yes q ↦
                subst
                  (λ x.
                    counter x (put nat_key height n s.outbox_counters)
                    ≡ waiting x (set_outbox targets target outbox s).outboxes)
                  q
                  (ground (
                    arith,
                    counter-put_self height n s.outbox_counters,
                    waiting-set_outbox height target outbox s,
                    held height,
                  ))
            | no ne ↦ ground (
              arith,
              counter-put_ne height h n s.outbox_counters ne,
              waiting-set_outbox h target outbox s,
              held h,
              inv.exact h,
            )
          ];
          positive = put-Positive height n s.outbox_counters (λ z. omega arith) inv.positive;
          distinct = put-Unique targets target outbox s.outboxes inv.distinct;
        },
        λ h. ground (arith, waiting-set_outbox h target outbox s, held h),
      )
