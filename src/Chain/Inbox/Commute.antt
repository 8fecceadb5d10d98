-- ===== src/Chain/Inbox/Commute.antt =====
-- linera-chain/src/inbox.rs: receiving and executing an event in either order, and replays.
use linera_protocol.Prelude.{
  ◌<◌, ◌≡◌, refl, sym, subst, arith, ap, inl, inr, true, is_eq_refl, ok, err, [], ◌∷◌,
}
use linera_protocol.Base.Arithmetic.{u32_max}
use linera_protocol.Chain.DataTypes.{Event, Event-discrete}
use linera_protocol.Chain.Inbox.{
  Cursor, Inbox, add_event, advance_add, advance_remove, after_discard, cursor_eq, cursor_of,
  discard, incorrect_order, reconcile_added, reconcile_removed, remove_event, try_add_one,
}
use linera_protocol.Chain.Inbox.Order.{Le, Le-trans, Lt, Lt-Le, next, Le-refl, Lt-next}
use linera_protocol.Chain.Inbox.Steps.{
  Added, Removed, Succeeds, add_event-Added, remove_event-Removed,
}

advance_add-fits :
    (s : Inbox) (c : Cursor)
    → c.index < u32_max
    → advance_add s c ≡ (record s { next_cursor_to_add = next c }, ok tt)
unfolding advance_add try_add_one
advance_add-fits s c h = ground arith

advance_remove-fits :
    (s : Inbox) (c : Cursor)
    → c.index < u32_max
    → advance_remove s c ≡ (record s { next_cursor_to_remove = next c }, ok tt)
unfolding advance_remove try_add_one
advance_remove-fits s c h = ground arith

cursor_eq_refl : (c : Cursor) → cursor_eq c c ≡ true
unfolding cursor_eq
cursor_eq_refl c = ground arith

-- An inbox in which nothing waits, ready for the cursor and all that follow.
abbrev pub settled_at : Cursor → Inbox
settled_at cursor = record {
  next_cursor_to_add = cursor;
  next_cursor_to_remove = cursor;
  added_events = [];
  removed_events = [];
}

-- From an inbox with empty queues and both cursors at the same place, an event in order whose index has a successor can be received and then executed,
-- or executed ahead of time and then received: all four calls succeed, and both ways end in the same
-- inbox, ready for the next cursor.
pub add-remove_commute :
    (cursor : Cursor) (e : Event)
    → Le cursor (cursor_of e)
    → e.index < u32_max
    → (received : Inbox) × (executed : Inbox) × (add_event (settled_at cursor) e
        ≡ (received, ok tt))
      × (remove_event received e ≡ (settled_at (next (cursor_of e)), ok tt))
      × (remove_event (settled_at cursor) e ≡ (executed, ok tt))
      × (add_event executed e ≡ (settled_at (next (cursor_of e)), ok tt))
unfolding add_event reconcile_added remove_event after_discard discard reconcile_removed
add-remove_commute cursor e in_order fits =
    let after = next (cursor_of e) in
    let fits' : (cursor_of e).index < u32_max = unfold cursor_of in fits in
    let from_origin = record (settled_at cursor) { added_events = [] } in
    (
      record (settled_at cursor) { added_events = e ∷ []; next_cursor_to_add = after },
      record (settled_at cursor) { removed_events = e ∷ []; next_cursor_to_remove = after },
      rw in_order (advance_add-fits _ (cursor_of e) fits'),
      rw (in_order, Le-refl (cursor_of e), is_eq_refl Event-discrete e)
          (advance_remove-fits _ (cursor_of e) fits'),
      rw in_order (advance_remove-fits _ (cursor_of e) fits'),
      rw (in_order, cursor_eq_refl (cursor_of e), is_eq_refl Event-discrete e)
          (advance_add-fits _ (cursor_of e) fits'),
    )

Removed-cursor :
    (s : Inbox) (e : Event) (s' : Inbox)
    → Removed s e s'
    → s'.next_cursor_to_remove ≡ next (cursor_of e)
Removed-cursor s e s' (le, skipped, left, split, all, inl (_, eq)) =
    ap (λ x. x.next_cursor_to_remove) eq
Removed-cursor s e s' (le, skipped, left, split, all, inr (rest, _, eq)) =
    ap (λ x. x.next_cursor_to_remove) eq

Added-cursor :
    (s : Inbox) (e : Event) (s' : Inbox) → Added s e s' → s'.next_cursor_to_add ≡ next (cursor_of e)
Added-cursor s e s' (le, inl (_, eq)) = ap (λ x. x.next_cursor_to_add) eq
Added-cursor s e s' (le, inr (inl (rest, _, eq))) = ap (λ x. x.next_cursor_to_add) eq
Added-cursor s e s' (le, inr (inr (first, rest, _, before, skippable, eq))) =
    ap (λ x. x.next_cursor_to_add) eq

-- Calls that succeed, in any number and order, from one inbox to another.
pub data Calls (start : Inbox) : Inbox → Type 0 where
  no_calls : Calls start start
  adds : {s s' : Inbox} (e : Event) → Calls start s → Succeeds (add_event s e) s' → Calls start s'
  removes :
      {s s' : Inbox} (e : Event) → Calls start s → Succeeds (remove_event s e) s' → Calls start s'

Added-keeps_remove :
    (s : Inbox) (e : Event) (s' : Inbox)
    → Added s e s'
    → s'.next_cursor_to_remove ≡ s.next_cursor_to_remove
Added-keeps_remove s e s' (le, inl (_, eq)) = ap (λ x. x.next_cursor_to_remove) eq
Added-keeps_remove s e s' (le, inr (inl (rest, _, eq))) = ap (λ x. x.next_cursor_to_remove) eq
Added-keeps_remove s e s' (le, inr (inr (first, rest, _, before, skippable, eq))) =
    ap (λ x. x.next_cursor_to_remove) eq

-- What is below the next cursor to remove stays below it.
Calls-below :
    {start s : Inbox} (c : Cursor)
    → Calls start s
    → Lt c start.next_cursor_to_remove
    → Lt c s.next_cursor_to_remove
Calls-below c no_calls h = h
Calls-below c (adds {s = s} {s' = s'} e calls succeeds) h =
    subst (Lt c) (sym (Added-keeps_remove s e s' (add_event-Added s e succeeds)))
      (Calls-below c calls h)
Calls-below c (removes {s = s} {s' = s'} e calls succeeds) h =
    let removed = remove_event-Removed s e succeeds in
    let below = Lt-Le c s.next_cursor_to_remove (Calls-below c calls h) in
    subst (Lt c) (sym (Removed-cursor s e s' removed))
      (Lt-next c (cursor_of e) (Le-trans c s.next_cursor_to_remove (cursor_of e) below removed.0))

-- Once an event is executed, neither it nor any event up to its cursor is executed again, whatever
-- events have been received and executed since by calls that succeed: the call fails as out of order
-- and leaves the inbox as it is.
pub remove_event-no_replay :
    (s : Inbox) (e again : Event) (s' later : Inbox)
    → Le (cursor_of again) (cursor_of e)
    → Succeeds (remove_event s e) s'
    → Calls s' later
    → remove_event later again ≡ (later, err (incorrect_order again later.next_cursor_to_remove))
unfolding remove_event
remove_event-no_replay s e again s' later le h calls =
    let lower : Lt (cursor_of again) s'.next_cursor_to_remove =
      subst (Lt (cursor_of again)) (sym (Removed-cursor s e s' (remove_event-Removed s e h)))
        (Lt-next (cursor_of again) (cursor_of e) le) in
    rw (Calls-below (cursor_of again) calls lower) refl

-- Once an event is received, neither it nor any event up to its cursor is received again: the call
-- fails as out of order and leaves the inbox as it is.
pub add_event-no_replay :
    (s : Inbox) (e again : Event) (s' : Inbox)
    → Le (cursor_of again) (cursor_of e)
    → Succeeds (add_event s e) s'
    → add_event s' again ≡ (s', err (incorrect_order again s'.next_cursor_to_add))
unfolding add_event
add_event-no_replay s e again s' le h =
    let lower : Lt (cursor_of again) s'.next_cursor_to_add =
      subst (Lt (cursor_of again)) (sym (Added-cursor s e s' (add_event-Added s e h)))
        (Lt-next (cursor_of again) (cursor_of e) le) in
    rw lower refl
