-- ===== src/Examples/Queues.antt =====
-- Runs of an inbox and of an outbox.
use linera_protocol.Prelude.{
  ◌+◌, ◌≡◌, inl, refl, arith, ◌++◌, Bool, true, false, [], ◌∷◌, none, ok, err, is_eq_refl,
}
use linera_protocol.Base.Arithmetic.{try_add_one}
use linera_protocol.Base.Identifiers.{BlockHeight}
use linera_protocol.Execution.Messages.{system, application_created}
use linera_protocol.Chain.DataTypes.{Event, Event-discrete}
use linera_protocol.Chain.Inbox
use linera_protocol.Chain.Inbox.{
  Cursor, Inbox, add_event, cursor_lt, cursor_of, discard, empty, incorrect_order, origin_cursor,
  reconcile_added, reconcile_removed, remove_event,
}
use linera_protocol.Chain.Inbox.Order.{next}
use linera_protocol.Chain.Inbox.Steps.{Succeeds}
use linera_protocol.Chain.Inbox.Invariant.{IsValid}
use linera_protocol.Chain.Inbox.Reconcile
use linera_protocol.Chain.Inbox.Reconcile.{Reach-Reconciled, Reconciled}
use linera_protocol.Chain.Inbox.Commute
use linera_protocol.Chain.Inbox.Commute.{add-remove_commute, remove_event-no_replay, settled_at}
use linera_protocol.Chain.Outbox.{
  Outbox, mark_messages_as_received, schedule_message, take_received,
}
use linera_protocol.Chain.Outbox.Delivery
use linera_protocol.Chain.Outbox.Delivery.{
  Reach-delivery, mark_messages_as_received-exact, schedule_message-cases,
}

abbrev event_at : BlockHeight → Bool → Event
event_at height is_skippable = record {
  certificate_hash = 70 + height;
  height = height;
  index = 2;
  authenticated_signer = none;
  is_skippable = is_skippable;
  timestamp = 9;
  message = system application_created;
}

abbrev skipped : Event
skipped = event_at 4 true

abbrev executed : Event
executed = event_at 5 false

abbrev one_waits : Inbox
one_waits = record {
  next_cursor_to_add = record { height = 4; index = 3 };
  next_cursor_to_remove = origin_cursor;
  added_events = skipped ∷ [];
  removed_events = [];
}

abbrev ahead : Inbox
ahead = record {
  next_cursor_to_add = record { height = 4; index = 3 };
  next_cursor_to_remove = record { height = 5; index = 3 };
  added_events = [];
  removed_events = executed ∷ [];
}

abbrev reconciled : Inbox
reconciled = record {
  next_cursor_to_add = record { height = 5; index = 3 };
  next_cursor_to_remove = record { height = 5; index = 3 };
  added_events = [];
  removed_events = [];
}

adds_first : Succeeds (add_event empty skipped) one_waits
unfolding add_event reconcile_added cursor_lt Inbox.advance_add Inbox.try_add_one cursor_of
adds_first = refl

executes_ahead : Succeeds (remove_event one_waits executed) ahead
unfolding remove_event reconcile_removed cursor_lt Inbox.advance_remove Inbox.try_add_one cursor_of
    discard Inbox.after_discard
executes_ahead = refl

receives_late : Succeeds (add_event ahead executed) reconciled
unfolding add_event reconcile_added cursor_lt Inbox.cursor_eq Inbox.advance_add Inbox.try_add_one
    cursor_of
receives_late = rw (is_eq_refl Event-discrete executed) refl

Reach-Reconciled_example : Reconciled (skipped ∷ executed ∷ []) (executed ∷ []) reconciled
Reach-Reconciled_example = Reach-Reconciled (
    Reconcile.adds executed
      (Reconcile.removes executed (Reconcile.adds skipped Reconcile.start adds_first)
        executes_ahead)
      receives_late)

one_waits-IsValid : IsValid one_waits
unfolding cursor_lt cursor_of
one_waits-IsValid = inl (refl, (refl, refl))

remove_event-no_replay_example :
    remove_event reconciled executed
    ≡ (reconciled, err (incorrect_order executed reconciled.next_cursor_to_remove))
unfolding cursor_lt cursor_of
remove_event-no_replay_example =
    remove_event-no_replay one_waits executed executed ahead reconciled refl executes_ahead
      (Commute.adds executed Commute.no_calls receives_late)

add-remove_commute_example :
    let e = executed in
    (received : Inbox) × (ahead_of_time : Inbox) × (add_event (settled_at origin_cursor) e
      ≡ (received, ok tt))
    × (remove_event received e ≡ (settled_at (next (cursor_of e)), ok tt))
    × (remove_event (settled_at origin_cursor) e ≡ (ahead_of_time, ok tt))
    × (add_event ahead_of_time e ≡ (settled_at (next (cursor_of e)), ok tt))
unfolding cursor_lt cursor_of
add-remove_commute_example = add-remove_commute origin_cursor executed refl (omega arith)

abbrev two_scheduled : Outbox
two_scheduled = record { next_height_to_schedule = 8; queue = 4 ∷ 7 ∷ [] }

Reach-delivery_example :
    (two_scheduled.queue ≡ (4 ∷ []) ++ 7 ∷ [])
    × Delivery.IsValid (mark_messages_as_received two_scheduled 5).0
unfolding schedule_message try_add_one mark_messages_as_received take_received
Reach-delivery_example =
    Reach-delivery (
      Delivery.acknowledges 5
        (Delivery.schedules 7 (Delivery.schedules 4 Delivery.start refl) refl))
