-- ===== src/Examples/Dispatches.antt =====
-- A result with a message for chain 5 and one for the subscribers of a channel, of which chain 6 is one.
use linera_protocol.Prelude.{◌≡◌, refl, false, [], ◌∷◌, List, none, some, ok, ℕ_discrete}
use linera_protocol.Base.Arithmetic.{try_add_one}
use linera_protocol.Base.Identifiers.{ChannelName, ChainId, recipient, subscribers}
use linera_protocol.Base.Maps.{find, member, put}
use linera_protocol.Execution.Messages.{Message, SystemMessage}
use linera_protocol.Execution.System.{RawExecutionResult, RawOutgoingMessage}
use linera_protocol.Chain.DataTypes.{
  ChannelFullName, GenericApplicationId, OutgoingMessage, Target, channel, direct,
}
use linera_protocol.Chain.Outbox.{schedule_message}
use linera_protocol.Chain.State.{
  Deliveries, increment, outbox_of, schedule, schedule_all, set_outbox,
}
use linera_protocol.Chain.State.Results.{
  are_distinct, broadcast_all, broadcasts_of, chain_target, channel_of, channel_target,
  deliver_channels, deliver_latest, full_name, insert_once, outgoing, process_raw_execution_result,
  recipients_of, set_channel, subscribe_all, unsubscribe_all,
}
use linera_protocol.Chain.State.Recipients.{Has, IsLater, box}
use linera_protocol.Chain.State.Sending.{Subscribed}
use linera_protocol.Chain.State.Dispatch.{Delivered, process_raw_execution_result-delivers}
use linera_protocol.Examples.Deliveries.{channels, names, targets}

abbrev news : ChannelFullName
news = record { application_id = GenericApplicationId.system; name = 9 ∷ [] }

abbrev before : Deliveries
before = record {
  outboxes = [];
  outbox_counters = [];
  channels = (news, record { subscribers = (6, tt) ∷ []; block_height = none }) ∷ [];
}

abbrev after : Deliveries
after = record {
  outboxes =
      (
        record { recipient = 5; medium = direct },
        record { next_height_to_schedule = 1; queue = 0 ∷ [] },
      )
      ∷ (
        record { recipient = 6; medium = channel news },
        record { next_height_to_schedule = 1; queue = 0 ∷ [] },
      )
      ∷ [];
  outbox_counters = (0, 2) ∷ [];
  channels = (news, record { subscribers = (6, tt) ∷ []; block_height = some 0 }) ∷ [];
}

abbrev to_five : RawOutgoingMessage SystemMessage
to_five = record {
  destination = recipient 5;
  authenticated = false;
  is_skippable = false;
  message = SystemMessage.application_created;
}

abbrev to_news : RawOutgoingMessage SystemMessage
to_news = record to_five { destination = subscribers (9 ∷ []) }

abbrev both : RawExecutionResult SystemMessage
both = record {
  authenticated_signer = none;
  messages = to_five ∷ to_news ∷ [];
  subscribe = [];
  unsubscribe = [];
}

abbrev sent_both : List OutgoingMessage
unfolding outgoing
sent_both = outgoing Message.system none both.messages

dispatches :
    process_raw_execution_result channels targets names
      (λ l. l)
      (λ l. l)
      GenericApplicationId.system
      Message.system
      []
      0
      both
      before
    ≡ ok (after, sent_both)
unfolding process_raw_execution_result recipients_of insert_once member broadcasts_of outgoing
    deliver_channels deliver_latest are_distinct unsubscribe_all broadcast_all subscribe_all
    channel_of set_channel schedule_all schedule outbox_of set_outbox schedule_message try_add_one
    increment find put ℕ_discrete
dispatches = refl

process_raw_execution_result-delivers_example :
    ((m : RawOutgoingMessage SystemMessage) (id : ChainId)
      → Has m (to_five ∷ to_news ∷ [])
      → m.destination ≡ recipient id
      → Delivered channels targets 0 (chain_target id) before after)
    × ((m : RawOutgoingMessage SystemMessage) (name : ChannelName) (id : ChainId)
        → Has m (to_five ∷ to_news ∷ [])
        → m.destination ≡ subscribers name
        → Subscribed channels id (full_name GenericApplicationId.system name) before
        → Delivered channels targets 0
            (channel_target id (full_name GenericApplicationId.system name))
            before
            after)
    × ((t : Target) → IsLater (box targets t before) (box targets t after))
unfolding unsubscribe_all
process_raw_execution_result-delivers_example =
    process_raw_execution_result-delivers channels targets names (λ l. l) (λ l. l)
      GenericApplicationId.system Message.system [] sent_both 0 both before after (λ id l h. h)
      (λ name l h. h) dispatches
