-- ===== src/Chain/State/Processing.antt =====
-- What `process_raw_execution_result` does to the outboxes of a chain is a sequence of the calls of their
-- history.
use linera_protocol.Prelude.{
  ℕ, ◌+◌, ◌≡◌, refl, subst, List, [], ◌∷◌, map, ok, ensure-ok, >>=-ok, ok_inj, Bool-cases, inl, inr,
}
use linera_protocol.Base.Identifiers.{BlockHeight, ChainId, ChannelName}
use linera_protocol.Base.Maps.{Key, Entries, has, nat_key}
use linera_protocol.Execution.Messages.{Message}
use linera_protocol.Execution.System.{RawExecutionResult}
use linera_protocol.Chain.DataTypes.{ChannelFullName, GenericApplicationId, OutgoingMessage, Target}
use linera_protocol.Chain.Errors.{view_error}
use linera_protocol.Chain.State.{ChannelState, Deliveries, schedule, schedule_all}
use linera_protocol.Chain.State.Results.{
  are_distinct, broadcasts_of, chain_target, full_name, full_names, recipients_of, deliver_channels,
  deliver_latest, channel_of, broadcast_all, process_raw_execution_result, set_channel,
  subscribe_all, unsubscribe_all,
}
use linera_protocol.Chain.State.Scheduling.{Reach, schedules, sets_channels}

-- Only the channels change.
abbrev pub OnlyChannels : Deliveries → Deliveries → Type 0
OnlyChannels s s' =
    (channels : Entries ChannelFullName ChannelState) × (record s { channels = channels } ≡ s')

module _ (channels : Key ChannelFullName) where
  pub unsubscribe_all-OnlyChannels :
      (left : List (ChannelFullName × ChainId)) (s : Deliveries)
      → OnlyChannels s (unsubscribe_all channels left s)
  unfolding unsubscribe_all set_channel
  unsubscribe_all-OnlyChannels [] s = (s.channels, refl)
  unsubscribe_all-OnlyChannels ((name, id) ∷ rest) s = unsubscribe_all-OnlyChannels rest _

  pub broadcast_all-OnlyChannels :
      (height : BlockHeight) (names : List ChannelFullName) (s : Deliveries)
      → OnlyChannels s (broadcast_all channels height names s).0
  unfolding broadcast_all set_channel
  broadcast_all-OnlyChannels height [] s = (s.channels, refl)
  broadcast_all-OnlyChannels height (name ∷ rest) s = broadcast_all-OnlyChannels height rest _

  pub subscribe_all-OnlyChannels :
      (joined : List (ChannelFullName × ChainId)) (s : Deliveries)
      → OnlyChannels s (subscribe_all channels joined s).0
  unfolding subscribe_all set_channel
  subscribe_all-OnlyChannels [] s = (s.channels, refl)
  subscribe_all-OnlyChannels ((name, id) ∷ rest) s =
      elim (Bool-cases (has nat_key id (channel_of channels name s).subscribers)) [
        | inl p ↦ rw p (subscribe_all-OnlyChannels rest s)
        | inr p ↦ rw p (subscribe_all-OnlyChannels rest _)
      ]

  module _ (targets : Key Target) where
    channels-Reach :
        (n : ℕ) (s s' : Deliveries) → OnlyChannels s s' → Reach targets n s → Reach targets n s'
    channels-Reach n s s' (c, e) reach = subst (Reach targets n) e (sets_channels c reach)

    schedule_all-Reach :
        (n : ℕ) (pending : List (Target × BlockHeight)) (s s' : Deliveries)
        → Reach targets n s
        → schedule_all targets pending s ≡ ok s'
        → (n' : ℕ) × Reach targets n' s'
    unfolding schedule_all
    schedule_all-Reach n [] s s' reach h = (n, subst (Reach targets n) (ok_inj h) reach)
    schedule_all-Reach n ((target, height) ∷ rest) s s' reach h =
        let (s1, e, h') = >>=-ok (schedule targets target height s) (schedule_all targets rest) h in
        schedule_all-Reach (n + 1) rest s1 s' (schedules target height reach e) h'

    deliver_channels-Reach :
        (n : ℕ) (height : BlockHeight) (left : List (ChannelFullName × ChainId))
        (broadcasts : List ChannelFullName) (s s' : Deliveries)
        → Reach targets n s
        → deliver_channels channels targets height left broadcasts s ≡ ok s'
        → (n' : ℕ) × Reach targets n' s'
    unfolding deliver_channels
    deliver_channels-Reach n height left broadcasts s s' reach h =
        let s1 = unsubscribe_all channels left s in
        let (s2, sent) = broadcast_all channels height broadcasts s1 in
        let (_, e) =
          ensure-ok (are_distinct channels (map (λ x. x.0) left)) view_error
            (schedule_all targets sent s2) h in
        schedule_all-Reach n sent s2 s'
          (channels-Reach n s1 s2 (broadcast_all-OnlyChannels height broadcasts s1)
            (channels-Reach n s s1 (unsubscribe_all-OnlyChannels left s) reach))
          e

    deliver_latest-Reach :
        (n : ℕ) (joined : List (ChannelFullName × ChainId)) (s s' : Deliveries)
        → Reach targets n s
        → deliver_latest channels targets joined s ≡ ok s'
        → (n' : ℕ) × Reach targets n' s'
    unfolding deliver_latest
    deliver_latest-Reach n joined s s' reach h =
        let (s1, sent) = subscribe_all channels joined s in
        let (_, e) =
          ensure-ok (are_distinct channels (map (λ x. x.0) joined)) view_error
            (schedule_all targets sent s1) h in
        schedule_all-Reach n sent s1 s'
          (channels-Reach n s s1 (subscribe_all-OnlyChannels joined s) reach) e

    -- The outboxes that a processed result leaves come from those before by calls that schedule
    -- messages, whatever messages, channels and subscribers the result has: so every fact that the
    -- calls keep, it keeps.
    pub process_raw_execution_result-Reach :
        {M : Type 0} (names : Key ChannelName) (visit_chains : List ChainId → List ChainId)
        (visit_channels : List ChannelName → List ChannelName)
        (application_id : GenericApplicationId) (lift : M → Message)
        (messages sent : List OutgoingMessage) (height : BlockHeight)
        (result : RawExecutionResult M) (n : ℕ) (s s' : Deliveries)
        → Reach targets n s
        → process_raw_execution_result channels targets names visit_chains visit_channels
            application_id lift messages height result s
          ≡ ok (s', sent)
        → (n' : ℕ) × Reach targets n' s'
    unfolding process_raw_execution_result
    process_raw_execution_result-Reach names visit_chains visit_channels application_id lift
          messages sent height result n s s' reach h =
        let chains = visit_chains (recipients_of result.messages []) in
        let broadcasts =
          map (full_name application_id)
            (visit_channels (broadcasts_of names result.messages [])) in
        let direct = map (λ id. (chain_target id, height)) chains in
        let left = full_names application_id result.unsubscribe in
        let joined = full_names application_id result.subscribe in
        let (s1, e1, h1) = >>=-ok (schedule_all targets direct s) _ h in
        let (n1, r1) = schedule_all-Reach n direct s s1 reach e1 in
        let (s2, e2, h2) =
          >>=-ok (deliver_channels channels targets height left broadcasts s1) _ h1 in
        let (n2, r2) = deliver_channels-Reach n1 height left broadcasts s1 s2 r1 e2 in
        let (s3, e3, h3) = >>=-ok (deliver_latest channels targets joined s2) _ h2 in
        let (n3, r3) = deliver_latest-Reach n2 joined s2 s3 r2 e3 in
        (n3, subst (λ r. Reach targets n3 r.0) (ok_inj h3) r3)
