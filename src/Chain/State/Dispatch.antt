-- ===== src/Chain/State/Dispatch.antt =====
-- What `process_raw_execution_result` does to the outboxes of a chain: whom the block is scheduled for.
use linera_protocol.Prelude.{
  ◌<◌, ◌≡◌, ◌⊎◌, inl, inr, sym, ap, subst, ◌∙◌, true, List, [], map, ok, ok_inj, >>=-ok, ensure-ok,
}
use linera_protocol.Base.Identifiers.{BlockHeight, ChainId, ChannelName, recipient, subscribers}
use linera_protocol.Base.Maps.{Key, member, nat_key}
use linera_protocol.Execution.Messages.{Message}
use linera_protocol.Execution.System.{RawExecutionResult, RawOutgoingMessage}
use linera_protocol.Chain.DataTypes.{ChannelFullName, GenericApplicationId, OutgoingMessage, Target}
use linera_protocol.Chain.Errors.{view_error}
use linera_protocol.Chain.State.{Deliveries, outbox_of, schedule_all}
use linera_protocol.Chain.State.Results.{
  are_distinct, broadcasts_of, chain_target, channel_target, full_name, full_names, recipients_of,
  deliver_channels, deliver_latest, broadcast_all, process_raw_execution_result, subscribe_all,
  unsubscribe_all,
}
use linera_protocol.Chain.State.Processing.{
  OnlyChannels, broadcast_all-OnlyChannels, subscribe_all-OnlyChannels,
  unsubscribe_all-OnlyChannels,
}
use linera_protocol.Chain.State.Recipients.{
  Has, IsLater, IsLater-trans, IsScheduled, IsScheduled-trans, Past, Waits, Waits-append, box,
  box-same, schedule_all-IsLater, schedule_all-IsStep,
}
use linera_protocol.Chain.State.Sending.{
  Has-map, member-Has, recipients_of-Has, broadcasts_of-Has, direct-at, Subscribed,
  broadcast_all-at, broadcast_all-sends, unsubscribe_all-channels, Subscribed-same,
}

module _ (channels : Key ChannelFullName) where
  module _ (targets : Key Target) where
    channels-box :
        (t : Target) (s s' : Deliveries) → OnlyChannels s s' → box targets t s ≡ box targets t s'
    unfolding outbox_of
    channels-box t s s' (c, e) =
        box-same targets t (record s { channels = c }) s' (ap (λ x. x.outboxes) e)

    deliver_channels-effect :
        (height : BlockHeight) (left : List (ChannelFullName × ChainId))
        (broadcasts : List ChannelFullName) (s s' : Deliveries)
        → deliver_channels channels targets height left broadcasts s ≡ ok s'
        → ((t : Target) → IsScheduled height (box targets t s) (box targets t s'))
          × ((id : ChainId) (name : ChannelFullName)
              → Has name broadcasts
              → Subscribed channels id name (unsubscribe_all channels left s)
              → Past targets height (channel_target id name) s')
    unfolding deliver_channels
    deliver_channels-effect height left broadcasts s s' h =
        let s1 = unsubscribe_all channels left s in
        let (s2, sent) = broadcast_all channels height broadcasts s1 in
        let (_, e) =
          ensure-ok (are_distinct channels (map (λ x. x.0) left)) view_error
            (schedule_all targets sent s2) h in
        let (step, past) =
          schedule_all-IsStep targets height sent s2 s'
            (broadcast_all-at channels height broadcasts s1) e in
        (
          λ t.
              subst (λ o. IsScheduled height o (box targets t s'))
                (sym (
                  channels-box t s s1 (unsubscribe_all-OnlyChannels channels left s)
                  ∙ channels-box t s1 s2
                      (broadcast_all-OnlyChannels channels height broadcasts s1)))
                (step.boxes t),
          λ id name b k.
              past (channel_target id name)
                (broadcast_all-sends channels id name height broadcasts s1 b k),
        )

    deliver_latest-IsLater :
        (joined : List (ChannelFullName × ChainId)) (s s' : Deliveries)
        → deliver_latest channels targets joined s ≡ ok s'
        → (t : Target) → IsLater (box targets t s) (box targets t s')
    unfolding deliver_latest
    deliver_latest-IsLater joined s s' h t =
        let (s1, sent) = subscribe_all channels joined s in
        let (_, e) =
          ensure-ok (are_distinct channels (map (λ x. x.0) joined)) view_error
            (schedule_all targets sent s1) h in
        subst (λ o. IsLater o (box targets t s'))
          (sym (channels-box t s s1 (subscribe_all-OnlyChannels channels joined s)))
          (schedule_all-IsLater targets sent s1 s' e t)

    -- The height waits in the outbox of the target, unless it had come there before.
    abbrev pub Delivered : BlockHeight → Target → Deliveries → Deliveries → Type 0
    Delivered h t s s' =
        (h < (box targets t s).next_height_to_schedule) ⊎ Waits h (box targets t s').queue

    Past-Delivered :
        (h : BlockHeight) (t : Target) (s s1 s' : Deliveries)
        → IsScheduled h (box targets t s) (box targets t s1)
        → Past targets h t s1
        → IsLater (box targets t s1) (box targets t s')
        → Delivered h t s s'
    Past-Delivered h t s s1 s' step past later = elim (step.waits past) [
      | inl before ↦ inl before
      | inr w ↦ inr (
          subst (Waits h) (sym later.queue)
            (Waits-append h (box targets t s1).queue later.added (inl w)))
    ]

    -- When the result of an execution is processed, the height of the block is scheduled for every
    -- chain that a message names as its recipient, and for every chain that subscribes, once the
    -- result's unsubscriptions are made, to a channel on which a message is sent: it waits in their
    -- outboxes, unless it had come there before. No height that waited in any outbox is lost, and
    -- no outbox goes back. The hash sets are visited in any order in which nothing is left out.
    pub process_raw_execution_result-delivers :
        {M : Type 0} (names : Key ChannelName) (visit_chains : List ChainId → List ChainId)
        (visit_channels : List ChannelName → List ChannelName)
        (application_id : GenericApplicationId) (lift : M → Message)
        (messages sent : List OutgoingMessage) (height : BlockHeight)
        (result : RawExecutionResult M) (s s' : Deliveries)
        → ((id : ChainId) (l : List ChainId)
            → member nat_key id l ≡ true
            → member nat_key id (visit_chains l) ≡ true)
        → ((name : ChannelName) (l : List ChannelName)
            → member names name l ≡ true
            → member names name (visit_channels l) ≡ true)
        → process_raw_execution_result channels targets names visit_chains visit_channels
            application_id lift messages height result s
          ≡ ok (s', sent)
        → ((m : RawOutgoingMessage M) (id : ChainId)
            → Has m result.messages
            → m.destination ≡ recipient id
            → Delivered height (chain_target id) s s')
          × ((m : RawOutgoingMessage M) (name : ChannelName) (id : ChainId)
              → Has m result.messages
              → m.destination ≡ subscribers name
              → Subscribed channels id
                  (full_name application_id name)
                  (unsubscribe_all channels (full_names application_id result.unsubscribe) s)
              → Delivered height (channel_target id (full_name application_id name)) s s')
          × ((t : Target) → IsLater (box targets t s) (box targets t s'))
    unfolding process_raw_execution_result
    process_raw_execution_result-delivers names visit_chains visit_channels application_id lift
          messages sent height result s s' all_chains all_channels h =
        let chains = visit_chains (recipients_of result.messages []) in
        let visited = visit_channels (broadcasts_of names result.messages []) in
        let broadcasts = map (full_name application_id) visited in
        let direct = map (λ id. (chain_target id, height)) chains in
        let left = full_names application_id result.unsubscribe in
        let joined = full_names application_id result.subscribe in
        let (s1, e1, h1) = >>=-ok (schedule_all targets direct s) _ h in
        let (s2, e2, h2) =
          >>=-ok (deliver_channels channels targets height left broadcasts s1) _ h1 in
        let (s3, e3, h3) = >>=-ok (deliver_latest channels targets joined s2) _ h2 in
        let same : s3 ≡ s' = ap (λ r. r.0) (ok_inj h3) in
        let (step1, past1) =
          schedule_all-IsStep targets height direct s s1 (direct-at height chains) e1 in
        let (step2, past2) = deliver_channels-effect height left broadcasts s1 s2 e2 in
        let later3 : (t : Target) → IsLater (box targets t s2) (box targets t s') = λ t.
          subst (λ x. IsLater (box targets t s2) (box targets t x)) same
            (deliver_latest-IsLater joined s2 s3 e3 t) in
        (
          λ m id has d.
              let t = chain_target id in
              Past-Delivered height t s s1 s' (step1.boxes t)
                (past1 t (
                  Has-map (λ id. (chain_target id, height)) id chains
                    (member-Has nat_key id chains
                      (all_chains id _ (recipients_of-Has id m result.messages [] has d)))))
                (IsLater-trans (box targets t s1) (box targets t s2) (box targets t s')
                  (step2 t).later (later3 t)),
          λ m name id has d k.
              let full = full_name application_id name in
              let t = channel_target id full in
              Past-Delivered height t s s2 s'
                (IsScheduled-trans height (box targets t s) (box targets t s1) (box targets t s2)
                  (step1.boxes t) (step2 t))
                (past2 id full
                  (Has-map (full_name application_id) name visited (
                    member-Has names name visited (
                      all_channels name _
                        (broadcasts_of-Has names name m result.messages [] has d))))
                  (Subscribed-same channels id full (unsubscribe_all channels left s)
                    (unsubscribe_all channels left s1)
                    (unsubscribe_all-channels channels left s s1 step1.channels) k))
                (later3 t),
          λ t.
              IsLater-trans (box targets t s) (box targets t s1) (box targets t s')
                (step1.boxes t).later
                (IsLater-trans (box targets t s1) (box targets t s2) (box targets t s')
                  (step2 t).later (later3 t)),
        )
