-- ===== src/Chain/Inbox.antt =====
-- linera-chain/src/inbox.rs: the messages received from one origin and executed locally, reconciled
-- in either order. The registers and the queues of the view are the values that they hold; a failure
-- of the storage below (`ViewError`) is not modelled. An operation returns the inbox as it leaves it,
-- also where it fails: the caller then drops the staged changes.
pub mod Order
pub mod Steps
pub mod Invariant
pub mod Reconcile
pub mod Commute
use linera_protocol.Prelude.{
  ℕ, ◌+◌, Bool, true, false, not, ◌&&◌, ◌||◌, ltb, leb, ◌==◌, is_eq, if◌then◌else◌, List, [], ◌∷◌,
  ◌++◌, Result, ok, err, ◌>>=◌, map_err,
}
use linera_protocol.Base.Arithmetic.{ArithmeticError, u32_max, u64_max, checked_add}
use linera_protocol.Base.Arithmetic
use linera_protocol.Base.Identifiers.{BlockHeight, ChainId}
use linera_protocol.Chain.DataTypes.{Event, Event-discrete, Origin}
use linera_protocol.Chain.Errors.{
  ChainError, arithmetic_error, incorrect_message_order, unexpected_message, unskippable_message,
}

pub record Cursor : Type 0 where
  pub height : BlockHeight
  pub index : ℕ

-- `From<&Event> for Cursor`.
unfoldable pub cursor_of : Event → Cursor
cursor_of event = record { height = event.height; index = event.index }

-- The derived order: by height, then by index.
unfoldable pub cursor_lt : Cursor → Cursor → Bool
cursor_lt a b = ltb a.height b.height || (a.height == b.height && ltb a.index b.index)

unfoldable pub cursor_eq : Cursor → Cursor → Bool
cursor_eq a b = a.height == b.height && a.index == b.index

-- `Cursor::try_add_one`.
unfoldable pub try_add_one : Cursor → Result ArithmeticError Cursor
try_add_one c = do
  index ← checked_add u32_max c.index 1
  ok (record { height = c.height; index = index })

pub record Inbox : Type 0 where
  pub next_cursor_to_add : Cursor
  pub next_cursor_to_remove : Cursor
  pub added_events : List Event
  pub removed_events : List Event

abbrev pub origin_cursor : Cursor
origin_cursor = record { height = 0; index = 0 }

-- An inbox that is loaded from an empty storage.
abbrev pub empty : Inbox
empty = record {
  next_cursor_to_add = origin_cursor;
  next_cursor_to_remove = origin_cursor;
  added_events = [];
  removed_events = [];
}

pub data InboxError : Type 0 where
  arithmetic : ArithmeticError → InboxError
  unexpected_event : Event → Event → InboxError
  incorrect_order : Event → Cursor → InboxError
  unskippable_event : Event → InboxError

-- `From<(ChainId, Origin, InboxError)> for ChainError`.
unfoldable pub chain_error : ChainId → Origin → InboxError → ChainError
chain_error id origin (arithmetic e) = arithmetic_error e
chain_error id origin (unexpected_event event previous) =
    unexpected_message id origin event previous
chain_error id origin (incorrect_order event next) =
    incorrect_message_order id origin event next.height next.index
chain_error id origin (unskippable_event event) = unskippable_message id origin event

unfoldable pub next_block_height_to_receive : Inbox → Result ChainError BlockHeight
unfolding Arithmetic.try_add_one
next_block_height_to_receive s =
    let cursor = s.next_cursor_to_add in
    if cursor.index == 0
    then ok cursor.height
    else map_err arithmetic_error (Arithmetic.try_add_one u64_max cursor.height)

-- The loop of `remove_event` over the added events: those that are left, and the result.
unfoldable pub discard : Cursor → List Event → List Event × Result InboxError (Unit {0})
discard cursor [] = ([], ok tt)
discard cursor (previous ∷ rest) =
    let further = discard cursor rest in
    if not (cursor_lt (cursor_of previous) cursor)
    then (previous ∷ rest, ok tt)
    else if previous.is_skippable
    then further
    else (previous ∷ rest, err (unskippable_event previous))

-- The last step of both operations: `next_cursor.set(cursor.try_add_one()?)`.
unfoldable pub advance_remove : Inbox → Cursor → Inbox × Result InboxError (Unit {0})
advance_remove s cursor = elim (try_add_one cursor) [
  | ok next ↦ (record s { next_cursor_to_remove = next }, ok tt)
  | err e ↦ (s, err (arithmetic e))
]

unfoldable pub advance_add : Inbox → Cursor → Inbox × Result InboxError (Unit {0})
advance_add s cursor = elim (try_add_one cursor) [
  | ok next ↦ (record s { next_cursor_to_add = next }, ok tt)
  | err e ↦ (s, err (arithmetic e))
]

-- The match of `remove_event` on the first added event that was not discarded.
unfoldable pub reconcile_removed : Inbox → Event → List Event → Inbox × Result InboxError (Unit {0})
reconcile_removed s event [] =
    advance_remove (record s { added_events = []; removed_events = s.removed_events ++ event ∷ [] })
      (cursor_of event)
reconcile_removed s event (previous ∷ rest) =
    if not (is_eq Event-discrete event previous)
    then (record s { added_events = previous ∷ rest }, err (unexpected_event event previous))
    else advance_remove (record s { added_events = rest }) (cursor_of event)

unfoldable pub after_discard :
    Inbox → Event → List Event × Result InboxError (Unit {0}) → Inbox × Result InboxError (Unit {0})
after_discard s event (left, ok _) = reconcile_removed s event left
after_discard s event (left, err e) = (record s { added_events = left }, err e)

unfoldable pub remove_event : Inbox → Event → Inbox × Result InboxError (Unit {0})
remove_event s event =
    if cursor_lt (cursor_of event) s.next_cursor_to_remove
    then (s, err (incorrect_order event s.next_cursor_to_remove))
    else after_discard s event (discard (cursor_of event) s.added_events)

-- The match of `add_event` on the first event that was removed ahead of time.
unfoldable pub reconcile_added : Inbox → Event → List Event → Inbox × Result InboxError (Unit {0})
reconcile_added s event [] =
    advance_add (record s { added_events = s.added_events ++ event ∷ [] }) (cursor_of event)
reconcile_added s event (previous ∷ rest) =
    if cursor_eq (cursor_of previous) (cursor_of event)
    then (if not (is_eq Event-discrete event previous)
        then (s, err (unexpected_event event previous))
        else advance_add (record s { removed_events = rest }) (cursor_of event))
    else (if not (cursor_lt (cursor_of event) (cursor_of previous) && event.is_skippable)
        then (s, err (unexpected_event event previous))
        else advance_add s (cursor_of event))

unfoldable pub add_event : Inbox → Event → Inbox × Result InboxError (Unit {0})
add_event s event =
    if cursor_lt (cursor_of event) s.next_cursor_to_add
    then (s, err (incorrect_order event s.next_cursor_to_add))
    else reconcile_added s event s.removed_events
