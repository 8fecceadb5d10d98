-- ===== src/Chain/Outbox.antt =====
-- linera-chain/src/outbox.rs: the heights of the blocks whose messages a recipient has yet to
-- acknowledge. As in the inbox, the register and the queue of the view are the values that they hold.
pub mod Delivery
use linera_protocol.Prelude.{
  ℕ, Bool, true, false, ltb, if◌then◌else◌, List, [], ◌∷◌, ◌++◌, Result, ok, err,
}
use linera_protocol.Base.Arithmetic.{ArithmeticError, u64_max, try_add_one}
use linera_protocol.Base.Identifiers.{BlockHeight}

pub record Outbox : Type 0 where
  pub next_height_to_schedule : BlockHeight
  pub queue : List BlockHeight

abbrev pub empty : Outbox
empty = record { next_height_to_schedule = 0; queue = [] }

-- Nothing changes where the successor of the height overflows.
unfoldable pub schedule_message : Outbox → BlockHeight → Outbox × Result ArithmeticError Bool
schedule_message s height =
    if ltb height s.next_height_to_schedule
    then (s, ok false)
    else elim (try_add_one u64_max height) [
      | ok next ↦
          (record s { next_height_to_schedule = next; queue = s.queue ++ height ∷ [] }, ok true)
      | err e ↦ (s, err e)
    ]

-- The loop of `mark_messages_as_received`: the queue that is left, and the heights taken off.
unfoldable pub take_received : BlockHeight → List BlockHeight → List BlockHeight × List BlockHeight
take_received height [] = ([], [])
take_received height (h ∷ rest) =
    let further = take_received height rest in
    if ltb height h then (h ∷ rest, []) else (further.0, h ∷ further.1)

unfoldable pub mark_messages_as_received : Outbox → BlockHeight → Outbox × List BlockHeight
mark_messages_as_received s height =
    let (left, updates) = take_received height s.queue in (record s { queue = left }, updates)
