-- ===== src/Chain/Inbox/Steps.antt =====
-- linera-chain/src/inbox.rs: what `remove_event` and `add_event` do when they succeed.
use linera_protocol.Prelude.{
  ◌≡◌, ◌⊎◌, inl, inr, refl, arith, ap, sym, subst, true, ◌&&◌, is_eq, is_eq→eq, Bool-cases, Result,
  ok, err, List, [], ◌∷◌, ◌++◌, All,
}
use linera_protocol.Chain.DataTypes.{Event, Event-discrete}
use linera_protocol.Chain.Inbox.{
  Cursor, Inbox, InboxError, add_event, advance_add, advance_remove, after_discard, cursor_eq,
  cursor_lt, cursor_of, discard, reconcile_added, reconcile_removed, remove_event, try_add_one,
}
use linera_protocol.Chain.Inbox.Order.{Le, Lt, next}

abbrev pub Succeeds : Inbox × Result InboxError (Unit {0}) → Inbox → Type 0
Succeeds r s = r ≡ (s, ok tt)

-- The events that may be discarded: skippable and below the cursor.
abbrev pub Skipped : Cursor → List Event → Type 0
Skipped cursor events = All (λ e. (e.is_skippable ≡ true) × Lt (cursor_of e) cursor) events

-- What is left of the added events does not begin below the cursor.
abbrev pub Begins : Cursor → List Event → Type 0
Begins cursor [] = Unit {0}
Begins cursor (e ∷ rest) = Le cursor (cursor_of e)

-- The loop takes the longest prefix of events below the cursor off, if all of it is skippable.
pub discard-ok :
    (cursor : Cursor) (events : List Event) {left : List Event}
    → discard cursor events ≡ (left, ok tt)
    → (skipped : List Event) × (events ≡ skipped ++ left)
      × Skipped cursor skipped
      × Begins cursor left
unfolding discard
discard-ok cursor [] {left} h =
    let e_left = ap (λ r. r.0) h in ([], e_left, tt, subst (Begins cursor) e_left tt)
discard-ok cursor (e ∷ rest) {left} h = elim (Bool-cases (cursor_lt (cursor_of e) cursor)) [
  | inr kept ↦
      let e_left : e ∷ rest ≡ left = ground arith in
      ([], e_left, tt, subst (Begins cursor) e_left kept)
  | inl lower ↦
      let skippable : e.is_skippable ≡ true = ground arith in
      let (skipped, split, all, begins) = discard-ok cursor rest {left = left} (ground arith) in
      (e ∷ skipped, ap (◌∷◌ e) split, ((skippable, lower), all), begins)
]

advance_remove-ok :
    (s : Inbox) (cursor : Cursor) {s' : Inbox}
    → Succeeds (advance_remove s cursor) s'
    → s' ≡ record s { next_cursor_to_remove = next cursor }
unfolding advance_remove try_add_one
advance_remove-ok s cursor h = ground arith

advance_add-ok :
    (s : Inbox) (cursor : Cursor) {s' : Inbox}
    → Succeeds (advance_add s cursor) s'
    → s' ≡ record s { next_cursor_to_add = next cursor }
unfolding advance_add try_add_one
advance_add-ok s cursor h = ground arith

-- An event is removed: some added events below it are skipped, and it is either the next added one,
-- or it is kept to be added later, when none is left.
abbrev pub Removed : Inbox → Event → Inbox → Type 0
Removed s e s' =
    Le s.next_cursor_to_remove (cursor_of e)
    × (skipped : List Event) × (left : List Event) × (s.added_events ≡ skipped ++ left)
    × Skipped (cursor_of e) skipped
    × (((left ≡ [])
          × (s' ≡ record s {
            added_events = [];
            removed_events = s.removed_events ++ e ∷ [];
            next_cursor_to_remove = next (cursor_of e);
          }))
        ⊎ ((rest : List Event) × (left ≡ e ∷ rest)
            × (s' ≡ record s { added_events = rest; next_cursor_to_remove = next (cursor_of e) })))

after_discard-ok :
    (s : Inbox) (e : Event) (d : List Event × Result InboxError (Unit {0})) {s' : Inbox}
    → Succeeds (after_discard s e d) s'
    → (left : List Event) × (d ≡ (left, ok tt)) × Succeeds (reconcile_removed s e left) s'
unfolding after_discard
after_discard-ok s e (left, ok tt) h = (left, refl, h)
after_discard-ok s e (left, err x) h = cc

reconcile_removed-ok :
    (s : Inbox) (e : Event) (left : List Event) {s' : Inbox}
    → Succeeds (reconcile_removed s e left) s'
    → ((left ≡ [])
        × (s' ≡ record s {
          added_events = [];
          removed_events = s.removed_events ++ e ∷ [];
          next_cursor_to_remove = next (cursor_of e);
        }))
      ⊎ ((rest : List Event) × (left ≡ e ∷ rest)
          × (s' ≡ record s { added_events = rest; next_cursor_to_remove = next (cursor_of e) }))
unfolding reconcile_removed
reconcile_removed-ok s e [] h = inl (refl, advance_remove-ok _ (cursor_of e) h)
reconcile_removed-ok s e (previous ∷ rest) {s'} h =
    elim (Bool-cases (is_eq Event-discrete e previous)) [
      | inl same ↦
          let h' : Succeeds (advance_remove (record s { added_events = rest }) (cursor_of e)) s' =
            rw same at h in
          inr (
            rest,
            ap (λ x. x ∷ rest) (sym (is_eq→eq Event-discrete e previous same)),
            advance_remove-ok _ (cursor_of e) h',
          )
      | inr differs ↦ cc (rw differs at h)
    ]

pub remove_event-Removed :
    (s : Inbox) (e : Event) {s' : Inbox} → Succeeds (remove_event s e) s' → Removed s e s'
unfolding remove_event
remove_event-Removed s e {s'} h =
    elim (Bool-cases (cursor_lt (cursor_of e) s.next_cursor_to_remove)) [
      | inl early ↦ cc (rw early at h)
      | inr in_order ↦
          let (left, loop, h') =
            after_discard-ok s e (discard (cursor_of e) s.added_events) {s' = s'}
              (rw in_order at h) in
          let (skipped, split, all, begins) = discard-ok (cursor_of e) s.added_events loop in
          (in_order, skipped, left, split, all, reconcile_removed-ok s e left h')
    ]

-- An event is added: it waits, or it is the first that was removed ahead of time, or it is skippable
-- and comes before that one.
abbrev pub Added : Inbox → Event → Inbox → Type 0
Added s e s' =
    Le s.next_cursor_to_add (cursor_of e)
    × (((s.removed_events ≡ [])
          × (s' ≡ record s {
            added_events = s.added_events ++ e ∷ [];
            next_cursor_to_add = next (cursor_of e);
          }))
        ⊎ ((rest : List Event) × (s.removed_events ≡ e ∷ rest)
            × (s' ≡ record s { removed_events = rest; next_cursor_to_add = next (cursor_of e) }))
        ⊎ ((first : Event) × (rest : List Event) × (s.removed_events ≡ first ∷ rest)
            × Lt (cursor_of e) (cursor_of first)
            × (e.is_skippable ≡ true)
            × (s' ≡ record s { next_cursor_to_add = next (cursor_of e) })))

reconcile_added-ok :
    (s : Inbox) (e : Event) (removed : List Event) {s' : Inbox}
    → Succeeds (reconcile_added s e removed) s'
    → ((removed ≡ [])
        × (s' ≡ record s {
          added_events = s.added_events ++ e ∷ [];
          next_cursor_to_add = next (cursor_of e);
        }))
      ⊎ ((rest : List Event) × (removed ≡ e ∷ rest)
          × (s' ≡ record s { removed_events = rest; next_cursor_to_add = next (cursor_of e) }))
      ⊎ ((first : Event) × (rest : List Event) × (removed ≡ first ∷ rest)
          × Lt (cursor_of e) (cursor_of first)
          × (e.is_skippable ≡ true)
          × (s' ≡ record s { next_cursor_to_add = next (cursor_of e) }))
unfolding reconcile_added
reconcile_added-ok s e [] h = inl (refl, advance_add-ok _ (cursor_of e) h)
reconcile_added-ok s e (first ∷ rest) {s'} h =
    elim (Bool-cases (cursor_eq (cursor_of first) (cursor_of e))) [
      | inl same ↦
          let h' = rw same at h in
          elim (Bool-cases (is_eq Event-discrete e first)) [
            | inl equal ↦ inr (
                inl (
                  rest,
                  ap (λ x. x ∷ rest) (sym (is_eq→eq Event-discrete e first equal)),
                  advance_add-ok _ (cursor_of e) (rw equal at h'),
                ))
            | inr differs ↦ cc (rw differs at h')
          ]
      | inr other ↦
          let h' = rw other at h in
          let skips : (cursor_lt (cursor_of e) (cursor_of first) && e.is_skippable) ≡ true =
            ground arith in
          inr (
            inr (
              first,
              rest,
              refl,
              ground arith,
              ground arith,
              advance_add-ok s (cursor_of e) (rw skips at h'),
            ))
    ]

pub add_event-Added :
    (s : Inbox) (e : Event) {s' : Inbox} → Succeeds (add_event s e) s' → Added s e s'
unfolding add_event
add_event-Added s e {s'} h = elim (Bool-cases (cursor_lt (cursor_of e) s.next_cursor_to_add)) [
  | inl early ↦ cc (rw early at h)
  | inr in_order ↦ (in_order, reconcile_added-ok s e s.removed_events {s' = s'} (rw in_order at h))
]
