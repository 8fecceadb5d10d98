-- ===== src/Examples/Deliveries.antt =====
-- Messages of two chains in flight, a channel that broadcasts, and their acknowledgment.
use linera_protocol.Prelude.{
  ◌≤◌, ◌≡◌, ◌↔◌, refl, ltb, true, false, Bool, [], ◌∷◌, List, none, ok, ℕ_discrete, arith,
}
use linera_protocol.Base.Arithmetic.{try_add_one}
use linera_protocol.Base.Identifiers.{BlockHeight, recipient, ChannelName, ChainId}
use linera_protocol.Base.Maps.{Key, find, member, put}
use linera_protocol.Execution.Messages.{Message, SystemMessage}
use linera_protocol.Execution.System.{RawExecutionResult}
use linera_protocol.Chain.DataTypes.{
  ChannelFullName, GenericApplicationId, OutgoingMessage, Target, direct,
}
use linera_protocol.Chain.Outbox.{schedule_message}
use linera_protocol.Chain.State.{
  Deliveries, all_messages_delivered_up_to, increment, outbox_of, receive_acknowledgment, schedule,
  schedule_all, set_outbox,
}
use linera_protocol.Chain.State.Results.{
  are_distinct, broadcast_all, broadcasts_of, deliver_channels, deliver_latest, insert_once,
  outgoing, process_raw_execution_result, recipients_of, subscribe_all, unsubscribe_all,
}
use linera_protocol.Chain.State.Counters.{IsCounted, receive_acknowledgment-IsCounted, waiting}
use linera_protocol.Chain.State.Scheduling.{Reach, Reach-IsCounted, schedules, start}
use linera_protocol.Chain.State.Delivered.{all_messages_delivered_up_to_iff}
use linera_protocol.Chain.Manager.Kinds.{returns}

abbrev pub targets : Key Target
targets = record { same = hlevel ℕ_discrete; before = λ a b. ltb a.recipient b.recipient }

abbrev pub channels : Key ChannelFullName
channels = record { same = hlevel ℕ_discrete; before = λ a b. false }

abbrev pub names : Key ChannelName
names = record { same = hlevel ℕ_discrete; before = λ a b. false }

abbrev to : ChainId → Target
to id = record { recipient = id; medium = direct }

abbrev none_yet : Deliveries
none_yet = record { outboxes = []; outbox_counters = []; channels = [] }

abbrev one_sent : Deliveries
one_sent = record {
  outboxes = (to 5, record { next_height_to_schedule = 1; queue = 0 ∷ [] }) ∷ [];
  outbox_counters = (0, 1) ∷ [];
  channels = [];
}

abbrev both_sent : Deliveries
both_sent = record {
  outboxes =
      (to 5, record { next_height_to_schedule = 1; queue = 0 ∷ [] })
      ∷ (to 6, record { next_height_to_schedule = 1; queue = 0 ∷ [] })
      ∷ [];
  outbox_counters = (0, 2) ∷ [];
  channels = [];
}

first_schedule : schedule targets (to 5) 0 none_yet ≡ ok one_sent
unfolding schedule outbox_of set_outbox schedule_message try_add_one increment find put
first_schedule = refl

second_schedule : schedule targets (to 6) 0 one_sent ≡ ok both_sent
unfolding schedule outbox_of set_outbox schedule_message try_add_one increment find put ℕ_discrete
second_schedule = refl

reached : Reach targets 2 both_sent
reached = schedules (to 6) 0 (schedules (to 5) 0 start first_schedule) second_schedule

Reach-IsCounted_example :
    IsCounted targets both_sent × ((h : BlockHeight) → waiting h both_sent.outboxes ≤ 2)
Reach-IsCounted_example = Reach-IsCounted targets reached (omega arith)

all_messages_delivered_up_to_iff_example :
    (all_messages_delivered_up_to both_sent 3 ≡ true)
    ↔ ((h : BlockHeight) → h ≤ 3 → waiting h both_sent.outboxes ≡ 0)
all_messages_delivered_up_to_iff_example =
    all_messages_delivered_up_to_iff targets 3 reached (omega arith)

both-IsCounted : IsCounted targets both_sent
both-IsCounted = (Reach-IsCounted targets reached (omega arith)).0

receive_acknowledgment-IsCounted_example :
    (s' : Deliveries) × (taken : Bool) × (receive_acknowledgment targets (to 5) 0 both_sent
      ≡ returns (s', taken))
    × IsCounted targets s'
    × ((h : BlockHeight) → waiting h s'.outboxes ≤ waiting h both_sent.outboxes)
receive_acknowledgment-IsCounted_example =
    receive_acknowledgment-IsCounted targets (to 5) 0 both_sent both-IsCounted

abbrev result : RawExecutionResult SystemMessage
result = record {
  authenticated_signer = none;
  messages =
      record {
        destination = recipient 5;
        authenticated = false;
        is_skippable = false;
        message = SystemMessage.application_created;
      }
      ∷ [];
  subscribe = [];
  unsubscribe = [];
}

abbrev sent : List OutgoingMessage
sent =
    record {
      destination = recipient 5;
      authenticated_signer = none;
      is_skippable = false;
      message = Message.system SystemMessage.application_created;
    }
    ∷ []

process_runs :
    process_raw_execution_result channels targets names
      (λ l. l)
      (λ l. l)
      GenericApplicationId.system
      Message.system
      []
      0
      result
      none_yet
    ≡ ok (one_sent, sent)
unfolding process_raw_execution_result recipients_of insert_once member broadcasts_of outgoing
    deliver_channels deliver_latest are_distinct unsubscribe_all broadcast_all subscribe_all
    schedule_all schedule outbox_of set_outbox schedule_message try_add_one increment find put
process_runs = refl
