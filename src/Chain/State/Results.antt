-- ===== src/Chain/State/Results.antt =====
-- linera-chain/src/chain.rs: `process_raw_execution_result`, which records the messages of an execution
-- and schedules the block for their recipients. The code collects recipients and channels in hash
-- sets; the order in which these are visited is an argument. A list of channels must be distinct to
-- be loaded for writing: otherwise a lock is taken twice, which is an error.
use linera_protocol.Prelude.{
  ◌&&◌, not, if◌then◌else◌, Bool, true, List, [], ◌∷◌, ◌++◌, map, Option, none, some, Result, ok,
  ◌>>=◌, ◌>>◌, ensure,
}
use linera_protocol.Base.Identifiers.{
  BlockHeight, ChainId, ChannelName, Owner, recipient, subscribers,
}
use linera_protocol.Base.Maps.{Key, nat_key, delete, find, has, member, put}
use linera_protocol.Execution.Messages.{Message}
use linera_protocol.Execution.System.{RawExecutionResult, RawOutgoingMessage}
use linera_protocol.Chain.DataTypes.{
  ChannelFullName, GenericApplicationId, OutgoingMessage, Target, channel, direct,
}
use linera_protocol.Chain.Errors.{ChainError, view_error}
use linera_protocol.Chain.State.{ChannelState, Deliveries, schedule_all}

-- `HashSet::insert`.
unfoldable pub insert_once : {A : Type 0} → Key A → A → List A → List A
unfolding member
insert_once key a set = if member key a set then set else set ++ a ∷ []

-- The recipients, and the channels, of the messages.
unfoldable pub recipients_of :
    {M : Type 0} → List (RawOutgoingMessage M) → List ChainId → List ChainId
unfolding insert_once
recipients_of [] set = set
recipients_of (m ∷ rest) set = elim m.destination [
  | recipient id ↦ recipients_of rest (insert_once nat_key id set)
  | subscribers name ↦ recipients_of rest set
]

unfoldable pub broadcasts_of :
    {M : Type 0}
    → Key ChannelName
    → List (RawOutgoingMessage M)
    → List ChannelName
    → List ChannelName
unfolding insert_once
broadcasts_of key [] set = set
broadcasts_of key (m ∷ rest) set = elim m.destination [
  | recipient id ↦ broadcasts_of key rest set
  | subscribers name ↦ broadcasts_of key rest (insert_once key name set)
]

-- The messages of the block, which may carry the signer.
unfoldable pub outgoing :
    {M : Type 0} → (M → Message) → Option Owner → List (RawOutgoingMessage M) → List OutgoingMessage
outgoing lift signer [] = []
outgoing lift signer (m ∷ rest) =
    record {
      destination = m.destination;
      authenticated_signer = if m.authenticated then signer else none;
      is_skippable = m.is_skippable;
      message = lift m.message;
    }
    ∷ outgoing lift signer rest

-- `Target::chain` and `Target::channel`.
abbrev pub chain_target : ChainId → Target
chain_target id = record { recipient = id; medium = direct }

abbrev pub channel_target : ChainId → ChannelFullName → Target
channel_target id name = record { recipient = id; medium = channel name }

unfoldable pub are_distinct : {A : Type 0} → Key A → List A → Bool
unfolding member
are_distinct key [] = true
are_distinct key (a ∷ rest) = not (member key a rest) && are_distinct key rest

abbrev pub or_new : Option ChannelState → ChannelState
or_new none = record { subscribers = []; block_height = none }
or_new (some state) = state

abbrev pub full_name : GenericApplicationId → ChannelName → ChannelFullName
full_name application_id name = record { application_id = application_id; name = name }

abbrev pub full_names :
    GenericApplicationId → List (ChannelName × ChainId) → List (ChannelFullName × ChainId)
full_names application_id pairs = map (λ x. (full_name application_id x.0, x.1)) pairs

module _ (channels : Key ChannelFullName) where
  unfoldable pub channel_of : ChannelFullName → Deliveries → ChannelState
  unfolding find
  channel_of name s = or_new (find channels name s.channels)

  unfoldable pub set_channel : ChannelFullName → ChannelState → Deliveries → Deliveries
  unfolding put
  set_channel name state s = record s { channels = put channels name state s.channels }

  unfoldable pub unsubscribe_all : List (ChannelFullName × ChainId) → Deliveries → Deliveries
  unfolding channel_of set_channel delete
  unsubscribe_all [] s = s
  unsubscribe_all ((name, id) ∷ rest) s =
      let state = channel_of name s in
      unsubscribe_all rest
        (set_channel name (record state { subscribers = delete nat_key id state.subscribers }) s)

  -- The channels that broadcast: what they will send to later subscribers, and whom they send to.
  unfoldable pub broadcast_all :
      BlockHeight → List ChannelFullName → Deliveries → Deliveries × List (Target × BlockHeight)
  unfolding channel_of set_channel
  broadcast_all height [] s = (s, [])
  broadcast_all height (name ∷ rest) s =
      let state = channel_of name s in
      let (s', further) =
        broadcast_all height rest
          (set_channel name (record state { block_height = some height }) s) in
      (s', map (λ e. (channel_target e.0 name, height)) state.subscribers ++ further)

  -- The latest message of a channel, for a new subscriber.
  abbrev latest : ChainId → ChannelFullName → Option BlockHeight → List (Target × BlockHeight)
  latest id name none = []
  latest id name (some height) = (channel_target id name, height) ∷ []

  unfoldable pub subscribe_all :
      List (ChannelFullName × ChainId) → Deliveries → Deliveries × List (Target × BlockHeight)
  unfolding channel_of set_channel has put
  subscribe_all [] s = (s, [])
  subscribe_all ((name, id) ∷ rest) s =
      let state = channel_of name s in
      let subscribed = record state { subscribers = put nat_key id tt state.subscribers } in
      let old = subscribe_all rest s in
      let (s', further) = subscribe_all rest (set_channel name subscribed s) in
      if has nat_key id state.subscribers
      then old
      else (s', latest id name state.block_height ++ further)

  module _ (targets : Key Target) where
    -- The channels: who leaves, and what is sent to those who stay.
    unfoldable pub deliver_channels :
        BlockHeight
        → List (ChannelFullName × ChainId)
        → List ChannelFullName
        → Deliveries
        → Result ChainError Deliveries
    unfolding schedule_all are_distinct unsubscribe_all broadcast_all
    deliver_channels height left broadcasts s =
        let (s', sent) = broadcast_all height broadcasts (unsubscribe_all left s) in
        ensure (are_distinct channels (map (λ x. x.0) left)) view_error
        >> schedule_all targets sent s'

    -- The new subscribers, and the latest messages for them.
    unfoldable pub deliver_latest :
        List (ChannelFullName × ChainId) → Deliveries → Result ChainError Deliveries
    unfolding schedule_all are_distinct subscribe_all
    deliver_latest joined s =
        let (s', sent) = subscribe_all joined s in
        ensure (are_distinct channels (map (λ x. x.0) joined)) view_error
        >> schedule_all targets sent s'

  module _ (targets : Key Target) (names : Key ChannelName)
      (visit_chains : List ChainId → List ChainId)
      (visit_channels : List ChannelName → List ChannelName) where
    unfoldable pub process_raw_execution_result :
        {M : Type 0}
        → GenericApplicationId
        → (M → Message)
        → List OutgoingMessage
        → BlockHeight
        → RawExecutionResult M
        → Deliveries
        → Result ChainError (Deliveries × List OutgoingMessage)
    unfolding recipients_of broadcasts_of outgoing schedule_all deliver_channels deliver_latest
    process_raw_execution_result application_id lift messages height result s =
        let chains = visit_chains (recipients_of result.messages []) in
        let broadcasts = visit_channels (broadcasts_of names result.messages []) in
        schedule_all targets (map (λ id. (chain_target id, height)) chains) s >>= λ s1.
        deliver_channels targets height (full_names application_id result.unsubscribe)
          (map (full_name application_id) broadcasts) s1
        >>= λ s2. deliver_latest targets (full_names application_id result.subscribe) s2 >>= λ s3.
            ok (s3, messages ++ outgoing lift result.authenticated_signer result.messages)
