-- ===== src/Execution/System/Subscriptions.antt =====
-- `Subscribe` and `Unsubscribe`, one after the other.
use linera_protocol.Prelude.{◌≡◌, refl, sym, ap, subst, ◌∙◌, true, false, [], ◌∷◌, ok, arith}
use linera_protocol.Base.Identifiers.{ChainId, recipient}
use linera_protocol.Base.Maps.{Key, Entries, has, is_found, put, delete}
use linera_protocol.Base.Maps.Laws.{find-put_self, find-put_ne, find-delete_self, find-delete_ne}
use linera_protocol.Execution.Messages.{ChannelSubscription, SystemChannel, SystemMessage}
use linera_protocol.Execution.System.{
  Encoding, Executed, OperationContext, SystemExecutionState, sends,
}
use linera_protocol.Execution.System.Operations.{execute_subscribe, execute_unsubscribe, plain}

module _ {K V : Type 0} (key : Key K) where
  has-put_self : (k : K) (v : V) (m : Entries K V) → has key k (put key k v m) ≡ true
  unfolding has
  has-put_self k v m = ap is_found (find-put_self key k v m)

  has-delete-put :
      (k k' : K) (v : V) (m : Entries K V)
      → has key k m ≡ false
      → has key k' (delete key k (put key k v m)) ≡ has key k' m
  unfolding has
  has-delete-put k k' v m h = elim (key.same k k') [
    | yes p ↦
        subst (λ x. has key x (delete key k (put key k v m)) ≡ has key x m) p
          (ap is_found (find-delete_self key k (put key k v m)) ∙ sym h)
    | no n ↦ ap is_found (find-delete_ne key k k' (put key k v m) n ∙ find-put_ne key k k' v m n)
  ]

module _ (e : Encoding) where
  abbrev subscription : ChainId → SystemChannel → ChannelSubscription
  subscription chain_id channel = record { chain_id = chain_id; name = e.name channel }

  subscribed :
      (context : OperationContext) (state : SystemExecutionState) (chain_id : ChainId)
      (channel : SystemChannel) (executed : Executed)
      → execute_subscribe e context state chain_id channel ≡ ok executed
      → (has e.subscriptions (subscription chain_id channel) state.subscriptions ≡ false)
        × (executed.state.subscriptions
            ≡ put e.subscriptions (subscription chain_id channel) tt state.subscriptions)
  unfolding execute_subscribe
  subscribed context state chain_id channel executed h = (ground arith, ground arith)

  -- After a subscription that succeeds, to unsubscribe succeeds too, and leaves the chain subscribed to
  -- exactly what it was before.
  pub execute_unsubscribe-subscribe :
      (context : OperationContext) (state : SystemExecutionState) (chain_id : ChainId)
      (channel : SystemChannel) (executed : Executed)
      → execute_subscribe e context state chain_id channel ≡ ok executed
      → (back : Executed) × (execute_unsubscribe e context executed.state chain_id channel
          ≡ ok back)
        × ((s : ChannelSubscription)
            → has e.subscriptions s back.state.subscriptions
              ≡ has e.subscriptions s state.subscriptions)
  unfolding execute_unsubscribe
  execute_unsubscribe-subscribe context state chain_id channel executed h =
      let s = subscription chain_id channel in
      let (fresh, p) = subscribed context state chain_id channel executed h in
      let held =
        ap (has e.subscriptions s) p ∙ has-put_self e.subscriptions s tt state.subscriptions in
      (
        record {
          state = record executed.state {
            subscriptions = delete e.subscriptions s executed.state.subscriptions;
          };
          result =
              sends
                (plain (recipient chain_id) (SystemMessage.unsubscribe context.chain_id s) ∷ []);
        },
        rw held refl,
        λ t.
            ap (λ m. has e.subscriptions t (delete e.subscriptions s m)) p
            ∙ has-delete-put e.subscriptions s t tt state.subscriptions fresh,
      )
