-- ===== src/Chain/State/Recipients.antt =====
-- Who is sent what by `process_raw_execution_result`: the outboxes in which the block's height waits
-- afterwards.
use linera_protocol.Prelude.{
  ℕ, ◌+◌, ◌≤◌, ◌<◌, ◌≡◌, ◌⊎◌, inl, inr, refl, sym, ap, subst, ◌∙◌, ltb, Bool, true, false, List, [],
  ◌∷◌, ◌++◌, All, ok, err, ok_inj, arith, Bool-cases, Result, Result-cases, >>=-ok,
}
use mathlib.Core.List.{append-nil, append_assoc}
use linera_protocol.Base.Arithmetic.{ArithmeticError, try_add_one, u64_max}
use linera_protocol.Base.Identifiers.{BlockHeight}
use linera_protocol.Base.Maps.{Key, find, member, nat_key, put}
use linera_protocol.Base.Maps.Laws.{find-put_self, find-put_ne}
use linera_protocol.Chain.DataTypes.{Target}
use linera_protocol.Chain.Outbox.{Outbox, schedule_message}
use linera_protocol.Chain.State.{
  Deliveries, or_empty, outbox_of, schedule, schedule_all, set_outbox, store_scheduled,
}

abbrev pub Has : {A : Type 0} → A → List A → Type 0
Has x [] = ⊥
Has x (y ∷ rest) = (x ≡ y) ⊎ Has x rest

abbrev pub Waits : BlockHeight → List BlockHeight → Type 0
Waits h queue = member nat_key h queue ≡ true

Waits-one : (h : BlockHeight) → Waits h (h ∷ [])
unfolding member
Waits-one h = ground arith

pub Waits-append :
    (h : BlockHeight) (a b : List BlockHeight) → (Waits h a ⊎ Waits h b) → Waits h (a ++ b)
unfolding member
Waits-append h [] b w = ground arith
Waits-append h (x ∷ a) b w = ground (arith, Waits-append h a b)

-- One outbox becomes another: nothing that waits is lost, and a height that is no longer to come waits
-- or was not to come before.
pub record IsLater (o o' : Outbox) : Type 0 where
  pub added : List BlockHeight
  pub queue : o'.queue ≡ o.queue ++ added
  pub next : o.next_height_to_schedule ≤ o'.next_height_to_schedule

pub record IsScheduled (h : BlockHeight) (o o' : Outbox) : Type 0 where
  pub later : IsLater o o'
  pub waits : h < o'.next_height_to_schedule → (h < o.next_height_to_schedule) ⊎ Waits h o'.queue

pub IsLater-refl : (o : Outbox) → IsLater o o
IsLater-refl o = record { added = []; queue = sym (append-nil o.queue); next = omega arith }

pub IsLater-trans : (a b c : Outbox) → IsLater a b → IsLater b c → IsLater a c
IsLater-trans a b c p q = record {
  added = p.added ++ q.added;
  queue = q.queue ∙ ap (λ l. l ++ q.added) p.queue ∙ append_assoc a.queue p.added q.added;
  next = omega (arith, p.next, q.next);
}

pub IsScheduled-trans :
    (h : BlockHeight) (a b c : Outbox) → IsScheduled h a b → IsScheduled h b c → IsScheduled h a c
IsScheduled-trans h a b c p q = record {
  later = IsLater-trans a b c p.later q.later;
  waits = λ lt. elim (q.waits lt) [
    | inr w ↦ inr w
    | inl before ↦ elim (p.waits before) [
      | inl x ↦ inl x
      | inr w ↦
          inr (subst (Waits h) (sym q.later.queue) (Waits-append h b.queue q.later.added (inl w)))
    ]
  ];
}

successor : (h next : ℕ) → try_add_one u64_max h ≡ ok next → next ≡ h + 1
unfolding try_add_one
successor h next p = ground arith

pub IsScheduled-refl : (h : BlockHeight) (o : Outbox) → IsScheduled h o o
IsScheduled-refl h o = record { later = IsLater-refl o; waits = λ lt. inl lt }

schedule_message-effect :
    (o o' : Outbox) (h : BlockHeight) (b : Bool)
    → schedule_message o h ≡ (o', ok b)
    → IsScheduled h o o' × (h < o'.next_height_to_schedule)
unfolding schedule_message member
schedule_message-effect o o' h b e = elim (Bool-cases (ltb h o.next_height_to_schedule)) [
  | inl below ↦
      let same : o ≡ o' = ground arith in
      subst (λ x. IsScheduled h o x × (h < x.next_height_to_schedule)) same
        (record { later = IsLater-refl o; waits = λ lt. inl lt }, ground arith)
  | inr above ↦ elim (Result-cases (try_add_one u64_max h)) [
    | inl (next, p) ↦
        let n : next ≡ h + 1 = successor h next p in
        let same : record { next_height_to_schedule = next; queue = o.queue ++ h ∷ [] } ≡ o' =
          ground (arith, p) in
        subst (λ x. IsScheduled h o x × (h < x.next_height_to_schedule)) same
          (
            record {
              later = record { added = h ∷ []; queue = refl; next = ground (arith, n) };
              waits = λ lt. inr (Waits-append h o.queue (h ∷ []) (inr (Waits-one h)));
            },
            omega (arith, n),
          )
    | inr (x, p) ↦ absurd (ground (arith, p))
  ]
]

module _ (targets : Key Target) where
  abbrev pub box : Target → Deliveries → Outbox
  box t s = outbox_of targets t s

  box-set_outbox :
      (t t' : Target) (o : Outbox) (s : Deliveries)
      → ((t ≡ t') × (box t' (set_outbox targets t o s) ≡ o))
        ⊎ (box t' (set_outbox targets t o s) ≡ box t' s)
  unfolding outbox_of set_outbox
  box-set_outbox t t' o s = elim (targets.same t t') [
    | yes e ↦ inl (
      e,
      subst (λ x. or_empty targets (find targets x (put targets t o s.outboxes)) ≡ o) e
          (ap (or_empty targets) (find-put_self targets t o s.outboxes)),
    )
    | no n ↦ inr (ap (or_empty targets) (find-put_ne targets t t' o s.outboxes n))
  ]

  box-set_self : (t : Target) (o : Outbox) (s : Deliveries) → box t (set_outbox targets t o s) ≡ o
  unfolding outbox_of set_outbox
  box-set_self t o s = ap (or_empty targets) (find-put_self targets t o s.outboxes)

  pub box-same : (t : Target) (s s' : Deliveries) → s.outboxes ≡ s'.outboxes → box t s ≡ box t s'
  unfolding outbox_of
  box-same t s s' e = ap (λ x. or_empty targets (find targets t x)) e

  store_scheduled-ok :
      (t : Target) (h : BlockHeight) (s s' : Deliveries) (r : Outbox × Result ArithmeticError Bool)
      → store_scheduled targets t h s r ≡ ok s'
      → (b : Bool) × (r ≡ (r.0, ok b))
        × ((set_outbox targets t r.0 s).outboxes ≡ s'.outboxes)
        × (s.channels ≡ s'.channels)
  unfolding set_outbox
  store_scheduled-ok t h s s' (o, err e) p = cc
  store_scheduled-ok t h s s' (o, ok false) p =
      (false, refl, ap (λ x. x.outboxes) (ok_inj p), ap (λ x. x.channels) (ok_inj p))
  store_scheduled-ok t h s s' (o, ok true) p =
      (true, refl, ap (λ x. x.outboxes) (ok_inj p), ap (λ x. x.channels) (ok_inj p))

  -- All outboxes after a call.
  pub record IsStep (h : BlockHeight) (s s' : Deliveries) : Type 0 where
    pub boxes : (t : Target) → IsScheduled h (box t s) (box t s')
    pub channels : s.channels ≡ s'.channels

  schedule-IsStep :
      (t : Target) (h : BlockHeight) (s s' : Deliveries)
      → schedule targets t h s ≡ ok s'
      → IsStep h s s' × (h < (box t s').next_height_to_schedule)
  unfolding schedule
  schedule-IsStep t h s s' e =
      let r = schedule_message (box t s) h in
      let (b, shape, outboxes, channels) = store_scheduled-ok t h s s' r e in
      let (scheduled, past) = schedule_message-effect (box t s) r.0 h b shape in
      (
        record {
          boxes = λ t'.
              subst (IsScheduled h (box t' s))
                (box-same t' (set_outbox targets t r.0 s) s' outboxes)
                (elim (box-set_outbox t t' r.0 s) [
                  | inl (same, e) ↦
                      subst (λ x. IsScheduled h (box x s) (box t' (set_outbox targets t r.0 s)))
                        same (subst (IsScheduled h (box t s)) (sym e) scheduled)
                  | inr e ↦ subst (IsScheduled h (box t' s)) (sym e) (IsScheduled-refl h (box t' s))
                ]);
          channels = channels;
        },
        subst (λ o. h < o.next_height_to_schedule)
            (sym (box-set_self t r.0 s) ∙ box-same t (set_outbox targets t r.0 s) s' outboxes) past,
      )

  pub IsStep-trans :
      (h : BlockHeight) (a b c : Deliveries) → IsStep h a b → IsStep h b c → IsStep h a c
  IsStep-trans h a b c p q = record {
    boxes = λ t. IsScheduled-trans h (box t a) (box t b) (box t c) (p.boxes t) (q.boxes t);
    channels = p.channels ∙ q.channels;
  }

  abbrev pub Past : BlockHeight → Target → Deliveries → Type 0
  Past h t s = h < (box t s).next_height_to_schedule

  pub schedule_all-IsStep :
      (h : BlockHeight) (pending : List (Target × BlockHeight)) (s s' : Deliveries)
      → All (λ x. x.1 ≡ h) pending
      → schedule_all targets pending s ≡ ok s'
      → IsStep h s s' × ((t : Target) → Has (t, h) pending → Past h t s')
  unfolding schedule_all
  schedule_all-IsStep h [] s s' all e =
      subst (λ x. IsStep h s x × ((t : Target) → ⊥ → h < (box t x).next_height_to_schedule))
        (ok_inj e)
        (record { boxes = λ t. IsScheduled-refl h (box t s); channels = refl }, λ t m. absurd m)
  schedule_all-IsStep h ((t, h') ∷ rest) s s' (same, all) e =
      let (s1, e1, e2) = >>=-ok (schedule targets t h' s) (schedule_all targets rest) e in
      let (step, past) =
        schedule-IsStep t h s s1 (subst (λ x. schedule targets t x s ≡ ok s1) same e1) in
      let (steps, pasts) = schedule_all-IsStep h rest s1 s' all e2 in
      (
        IsStep-trans h s s1 s' step steps,
        λ t' m. elim m [
          | inl p ↦
              let one : t' ≡ t = ap (λ x. x.0) p in
              subst (λ x. h < (box x s').next_height_to_schedule) (sym one)
                (omega (arith, past, (steps.boxes t).later.next))
          | inr m ↦ pasts t' m
        ],
      )

  -- What any calls keep of the outboxes.
  pub schedule_all-IsLater :
      (pending : List (Target × BlockHeight)) (s s' : Deliveries)
      → schedule_all targets pending s ≡ ok s'
      → (t : Target) → IsLater (box t s) (box t s')
  unfolding schedule_all
  schedule_all-IsLater [] s s' e t =
      subst (λ x. IsLater (box t s) (box t x)) (ok_inj e) (IsLater-refl (box t s))
  schedule_all-IsLater ((t', h) ∷ rest) s s' e t =
      let (s1, e1, e2) = >>=-ok (schedule targets t' h s) (schedule_all targets rest) e in
      let (step, past) = schedule-IsStep t' h s s1 e1 in
      IsLater-trans (box t s) (box t s1) (box t s') (step.boxes t).later
        (schedule_all-IsLater rest s1 s' e2 t)
