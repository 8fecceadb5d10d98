-- ===== src/Execution/System/Tokens.antt =====
-- The tokens of a chain, in its balances and in the messages that it sends: what each operation and
-- each message does to them.
use linera_protocol.Prelude.{
  ℕ, ◌+◌, ◌-◌, ◌≤◌, ◌≡◌, refl, sym, leb, leb→le, List, [], ◌∷◌, map, Option, none, some, ok, arith,
  inl, inr, Bool-cases, Option-cases,
}
use linera_protocol.Base.Arithmetic.{saturating_add, u128_max}
use linera_protocol.Base.Amount.{Amount}
use linera_protocol.Base.Identifiers.{Owner, ApplicationId, Bytes, recipient}
use linera_protocol.Base.Maps.{Entries, nat_key}
use linera_protocol.Base.Maps.Laws.{total, total-put}
use linera_protocol.Execution.Messages.{
  Recipient, SystemMessage, SystemOperation, ChannelSubscription, Committees, burn, account, credit,
  create_committee, remove_committee,
}
use linera_protocol.Execution.System.{
  Encoding, Executed, MessageContext, OperationContext, SystemExecutionState, balance_of,
  set_balance,
}
use linera_protocol.Execution.System.Transfers.{
  execute_transfer_iff, transfer-ok, receive_withdraw-enough, receive_withdraw-short,
}
use linera_protocol.Execution.System.Incoming.{
  execute_message, receive_bytecode_published, receive_committees, receive_request, receive_credit,
  receive_withdraw,
}
use linera_protocol.Execution.System.Operations.{
  Sent, credits, execute_transfer, plain, execute_operation,
}

-- The tokens of a chain.
unfoldable pub tokens : SystemExecutionState → ℕ
tokens state = state.balance + total state.balances

-- The tokens that a message carries.
unfoldable pub carried : SystemMessage → ℕ
carried (credit _ amount) = amount
carried _ = 0

unfoldable pub carried_all : List Sent → ℕ
carried_all [] = 0
carried_all (m ∷ rest) = carried m.message + carried_all rest

-- The tokens that an operation destroys.
unfoldable pub burned_by : Recipient → Amount → ℕ
burned_by burn amount = amount
burned_by (account _) amount = 0

-- A change of one balance is a change of the tokens.
pub tokens-set_balance :
    (owner : Option Owner) (amount : Amount) (state : SystemExecutionState)
    → tokens (set_balance owner amount state) + balance_of owner state ≡ tokens state + amount
unfolding tokens set_balance balance_of
tokens-set_balance none amount state = omega arith
tokens-set_balance (some owner) amount state =
    omega (arith, total-put nat_key owner amount state.balances)

pub carried_all-credits :
    (to : Recipient) (amount : Amount)
    → carried_all (credits to amount) + burned_by to amount ≡ amount
unfolding carried_all carried credits burned_by
carried_all-credits burn amount = omega arith
carried_all-credits (account a) amount = omega arith

transfer-tokens :
    (context : OperationContext) (state : SystemExecutionState) (owner : Option Owner)
    (to : Recipient) (amount : Amount) (executed : Executed)
    → execute_transfer context state owner to amount ≡ ok executed
    → tokens executed.state + carried_all executed.result.messages + burned_by to amount
      ≡ tokens state
transfer-tokens context state owner to amount executed h =
    let (s, p, b, q) = (execute_transfer_iff context state owner to amount executed).0 h in
    let spent = balance_of owner state - amount in
    rw (sym q) (omega (arith, tokens-set_balance owner spent state, carried_all-credits to amount))

unfoldable pub burned : SystemOperation → ℕ
burned (SystemOperation.transfer _ to amount _) = burned_by to amount
burned _ = 0

module _ (e : Encoding) where
  carried_all-unsubscribed :
      (id : ℕ) (subscriptions : Entries ChannelSubscription (Unit {0}))
      → carried_all (
          map
            (λ s. plain (recipient s.0.chain_id) (SystemMessage.unsubscribe id s.0))
            subscriptions)
        ≡ 0
  unfolding carried_all carried
  carried_all-unsubscribed id [] = refl
  carried_all-unsubscribed id (s ∷ rest) = omega (arith, carried_all-unsubscribed id rest)

  pub execute_operation-tokens :
      (context : OperationContext) (state : SystemExecutionState) (operation : SystemOperation)
      (executed : Executed) (new : Option (ApplicationId × Bytes))
      → execute_operation e context state operation ≡ ok (executed, new)
      → tokens executed.state + carried_all executed.result.messages + burned operation
        ≡ tokens state
  unfolding execute_operation burned carried_all carried tokens
  execute_operation-tokens context state (SystemOperation.transfer owner to amount d) executed new
        h =
      transfer-tokens context state owner to amount executed
        (transfer-ok e context state owner to amount d executed new h)
  execute_operation-tokens context state (SystemOperation.claim owner target to amount d) executed
        new h =
      ground arith
  execute_operation-tokens context state (SystemOperation.open_chain o a p c) executed new h =
      ground arith
  execute_operation-tokens context state SystemOperation.close_chain executed new h =
      ground (arith, carried_all-unsubscribed context.chain_id state.subscriptions)
  execute_operation-tokens context state (SystemOperation.change_owner k) executed new h =
      ground arith
  execute_operation-tokens context state (SystemOperation.change_multiple_owners k r) executed new
        h =
      ground arith
  execute_operation-tokens context state (SystemOperation.subscribe c n) executed new h =
      ground arith
  execute_operation-tokens context state (SystemOperation.unsubscribe c n) executed new h =
      ground arith
  execute_operation-tokens context state (SystemOperation.publish_bytecode c s) executed new h =
      ground arith
  execute_operation-tokens context state (SystemOperation.create_application b p a r) executed new
        h =
      ground arith
  execute_operation-tokens context state (SystemOperation.request_application c a) executed new h =
      ground arith
  execute_operation-tokens context state (SystemOperation.admin_operation (create_committee p c))
        executed new h =
      ground arith
  execute_operation-tokens context state (SystemOperation.admin_operation (remove_committee p))
        executed new h =
      ground arith

  saturating_add-le : (top a b : ℕ) → saturating_add top a b ≤ a + b
  unfolding saturating_add
  saturating_add-le top a b = ground arith

  receive_credit-tokens :
      (state : SystemExecutionState) (owner : Option Owner) (amount : Amount)
      → tokens (receive_credit state owner amount) ≤ tokens state + amount
  unfolding receive_credit
  receive_credit-tokens state owner amount =
      let balance = balance_of owner state in
      let v = saturating_add u128_max balance amount in
      omega (arith, tokens-set_balance owner v state, saturating_add-le u128_max balance amount)

  receive_withdraw-tokens :
      (state : SystemExecutionState) (owner : Owner) (amount : Amount) (to : Recipient)
      → let executed = receive_withdraw state owner amount to in
        tokens executed.state + carried_all executed.result.messages ≤ tokens state
  unfolding carried_all
  receive_withdraw-tokens state owner amount to =
      let balance = balance_of (some owner) state in
      elim (Bool-cases (leb amount balance)) [
        | inl b ↦
            let p : amount ≤ balance = leb→le amount balance b in
            rw (receive_withdraw-enough state owner amount to b) (
              omega (
                arith,
                tokens-set_balance (some owner) (balance - amount) state,
                carried_all-credits to amount,
              ))
        | inr b ↦
            rw (receive_withdraw-short state owner amount to b)
              (omega (arith, tokens-set_balance (some owner) balance state))
      ]

  receive_committees-tokens :
      (state : SystemExecutionState) (epoch : ℕ) (committees : Committees) (executed : Executed)
      → receive_committees state epoch committees ≡ ok executed
      → tokens executed.state + carried_all executed.result.messages ≡ tokens state
  unfolding receive_committees tokens carried_all
  receive_committees-tokens state epoch committees executed h = ground arith

  pub execute_message-tokens :
      (context : MessageContext) (state : SystemExecutionState) (message : SystemMessage)
      (executed : Executed)
      → execute_message e context state message ≡ ok executed
      → tokens executed.state + carried_all executed.result.messages
        ≤ tokens state + carried message
  unfolding execute_message receive_bytecode_published receive_request carried_all carried tokens
  execute_message-tokens context state (credit to amount) executed h =
      ground (arith, receive_credit-tokens state to.owner amount)
  execute_message-tokens context state (SystemMessage.withdraw from amount to d) executed h =
      elim (Option-cases from.owner) [
        | inl p ↦ ground arith
        | inr (owner, p) ↦ ground (arith, receive_withdraw-tokens state owner amount to)
      ]
  execute_message-tokens context state (SystemMessage.open_chain o a p c) executed h = ground arith
  execute_message-tokens context state (SystemMessage.set_committees p c) executed h =
      ground (arith, receive_committees-tokens state p c executed h)
  execute_message-tokens context state (SystemMessage.subscribe c n) executed h = ground arith
  execute_message-tokens context state (SystemMessage.unsubscribe c n) executed h = ground arith
  execute_message-tokens context state (SystemMessage.bytecode_published i) executed h =
      ground arith
  execute_message-tokens context state SystemMessage.application_created executed h = ground arith
  execute_message-tokens context state (SystemMessage.bytecode_locations l) executed h =
      ground arith
  execute_message-tokens context state (SystemMessage.register_applications a) executed h =
      ground arith
  execute_message-tokens context state (SystemMessage.notify i) executed h = ground arith
  execute_message-tokens context state (SystemMessage.request_application a) executed h =
      ground arith
