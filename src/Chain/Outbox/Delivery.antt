-- ===== src/Chain/Outbox/Delivery.antt =====
-- linera-chain/src/outbox.rs: what each operation does to the queue, and the history of an outbox.
use mathlib.Core.List.{append_assoc}
use linera_protocol.Prelude.{
  ◌+◌, ◌≤◌, ◌<◌, ◌≡◌, ◌⊎◌, inl, inr, refl, sym, subst, arith, ap, ◌∙◌, ltb, leb, Bool-cases, true,
  false, List, [], ◌∷◌, ◌++◌, All, ok, err,
}
use linera_protocol.Base.Arithmetic.{u64_max, try_add_one, overflow}
use linera_protocol.Base.Identifiers.{BlockHeight}
use linera_protocol.Chain.Outbox.{
  Outbox, empty, mark_messages_as_received, schedule_message, take_received,
}

-- Heights that increase, from `lo` on and below `hi`.
abbrev pub Increasing : BlockHeight → List BlockHeight → BlockHeight → Type 0
Increasing lo [] hi = lo ≤ hi
Increasing lo (h ∷ rest) hi = (lo ≤ h) × Increasing (h + 1) rest hi

abbrev pub IsValid : Outbox → Type 0
IsValid s = Increasing 0 s.queue s.next_height_to_schedule

-- What can happen to an outbox, with all heights scheduled and all heights taken off so far, oldest
-- first. The second event is an acknowledgment up to a height.
pub data Reach : List BlockHeight → List BlockHeight → Outbox → Type 0 where
  start : Reach [] [] empty
  schedules :
      {scheduled received : List BlockHeight} {s s' : Outbox} (height : BlockHeight)
      → Reach scheduled received s
      → schedule_message s height ≡ (s', ok true)
      → Reach (scheduled ++ height ∷ []) received s'
  acknowledges :
      {scheduled received : List BlockHeight} {s : Outbox} (height : BlockHeight)
      → Reach scheduled received s
      → Reach scheduled
          (received ++ (mark_messages_as_received s height).1)
          (mark_messages_as_received s height).0

pub take_received-split :
    (height : BlockHeight) (queue : List BlockHeight)
    → (take_received height queue).1 ++ (take_received height queue).0 ≡ queue
unfolding take_received
take_received-split height [] = refl
take_received-split height (h ∷ rest) = ground (arith, take_received-split height rest)

Increasing-weaken :
    (lo mid hi : BlockHeight) (queue : List BlockHeight)
    → lo ≤ mid
    → Increasing mid queue hi
    → Increasing lo queue hi
Increasing-weaken lo mid hi [] le inc = omega arith
Increasing-weaken lo mid hi (h ∷ rest) le inc = (omega arith, inc.1)

Increasing-above :
    (height lo hi : BlockHeight) (queue : List BlockHeight)
    → height < lo
    → Increasing lo queue hi
    → All (λ h. height < h) queue
Increasing-above height lo hi [] lt inc = tt
Increasing-above height lo hi (h ∷ rest) lt inc =
    (omega arith, Increasing-above height (h + 1) hi rest (omega arith) inc.1)

-- Of heights that increase, those up to the given one are taken off and the others are left.
take_received-bounds :
    (lo hi height : BlockHeight) (queue : List BlockHeight)
    → Increasing lo queue hi
    → All (λ h. h ≤ height) (take_received height queue).1
      × All (λ h. height < h) (take_received height queue).0
      × Increasing lo (take_received height queue).0 hi
unfolding take_received
take_received-bounds lo hi height [] inc = (tt, tt, inc)
take_received-bounds lo hi height (h ∷ rest) inc = elim (Bool-cases (ltb height h)) [
  | inl later ↦
      let lt : height < h = ground arith in
      rw later (tt, (lt, Increasing-above height (h + 1) hi rest (omega arith) inc.1), inc)
  | inr reached ↦
      let (taken, left, inc') = take_received-bounds (h + 1) hi height rest inc.1 in
      rw reached ((ground arith, taken), left, Increasing-weaken lo (h + 1) hi _ (omega arith) inc')
]

Increasing-snoc :
    (lo hi h : BlockHeight) (queue : List BlockHeight)
    → Increasing lo queue hi
    → hi ≤ h
    → Increasing lo (queue ++ h ∷ []) (h + 1)
Increasing-snoc lo hi h [] inc le = omega arith
Increasing-snoc lo hi h (x ∷ rest) inc le = (inc.0, Increasing-snoc (x + 1) hi h rest inc.1 le)

-- An acknowledgment takes exactly the heights up to the given one off the queue of a valid outbox, in
-- their order, and leaves exactly the later ones.
pub mark_messages_as_received-exact :
    (s : Outbox) (height : BlockHeight)
    → IsValid s
    → ((mark_messages_as_received s height).1 ++ (mark_messages_as_received s height).0.queue
        ≡ s.queue)
      × All (λ h. h ≤ height) (mark_messages_as_received s height).1
      × All (λ h. height < h) (mark_messages_as_received s height).0.queue
      × IsValid (mark_messages_as_received s height).0
unfolding mark_messages_as_received
mark_messages_as_received-exact s height v =
    let (taken, left, v') = take_received-bounds 0 s.next_height_to_schedule height s.queue v in
    (take_received-split height s.queue, taken, left, v')

-- In a valid outbox a message is scheduled exactly if its height is not below the next one and has a
-- successor that fits; a height below changes nothing, and the largest one is an overflow.
pub schedule_message-cases :
    (s : Outbox) (height : BlockHeight)
    → IsValid s
    → ((height < s.next_height_to_schedule) × (schedule_message s height ≡ (s, ok false)))
      ⊎ ((s.next_height_to_schedule ≤ height)
          × (u64_max ≤ height)
          × (schedule_message s height ≡ (s, err overflow)))
      ⊎ ((s.next_height_to_schedule ≤ height)
          × (height < u64_max)
          × (s' : Outbox) × (schedule_message s height ≡ (s', ok true))
          × (s'.queue ≡ s.queue ++ height ∷ [])
          × IsValid s')
unfolding schedule_message try_add_one
schedule_message-cases s height v = elim (Bool-cases (ltb height s.next_height_to_schedule)) [
  | inl below ↦ inl (ground arith, rw below refl)
  | inr in_order ↦ elim (Bool-cases (leb (height + 1) u64_max)) [
    | inr full ↦ inr (inl (ground arith, ground arith, ground arith))
    | inl fits ↦ inr (
        inr (
          ground arith,
          ground arith,
          record { next_height_to_schedule = height + 1; queue = s.queue ++ height ∷ [] },
          ground arith,
          refl,
          Increasing-snoc 0 s.next_height_to_schedule height s.queue v (ground arith),
        ))
  ]
]

scheduled-IsValid :
    (s s' : Outbox) (height : BlockHeight)
    → IsValid s
    → schedule_message s height ≡ (s', ok true)
    → (s'.queue ≡ s.queue ++ height ∷ []) × IsValid s'
scheduled-IsValid s s' height v h = elim (schedule_message-cases s height v) [
  | inl (_, e) ↦ cc
  | inr (inl (_, _, e)) ↦ cc
  | inr (inr (_, _, t, e, queue, v')) ↦
      let same : t ≡ s' = ap (λ r. r.0) (sym e ∙ h) in
      (subst (λ x. x.queue ≡ s.queue ++ height ∷ []) same queue, subst IsValid same v')
]

-- After any calls: the heights scheduled are those taken off followed by those in the queue, in the
-- order in which they were scheduled, so none is lost, repeated or reordered; and they increase.
pub Reach-delivery :
    {scheduled received : List BlockHeight} {s : Outbox}
    → Reach scheduled received s
    → (scheduled ≡ received ++ s.queue) × IsValid s
Reach-delivery start = (refl, omega arith)
Reach-delivery (schedules {received = received} {s = s} {s' = s'} height reach h) =
    let (delivered, v) = Reach-delivery reach in
    let (queue, v') = scheduled-IsValid s s' height v h in
    (simp (delivered, queue, append_assoc), v')
Reach-delivery (acknowledges {received = received} {s = s} height reach) =
    let (delivered, v) = Reach-delivery reach in
    let (split, taken, left, v') = mark_messages_as_received-exact s height v in
    (delivered ∙ ap (◌++◌ received) (sym split) ∙ sym (append_assoc received _ _), v')
