-- ===== src/Execution/System/Delivery.antt =====
-- A transfer between two chains: the operation on the one and its message on the other.
use linera_protocol.Prelude.{
  ℕ, ◌+◌, ◌-◌, ◌≤◌, ◌≡◌, refl, sym, ap, ◌∙◌, ◌==◌, true, [], ◌∷◌, Option, ok, arith,
}
use linera_protocol.Base.Arithmetic.{saturating_add, u128_max}
use linera_protocol.Base.Amount.{Amount}
use linera_protocol.Base.Identifiers.{Owner, recipient}
use linera_protocol.Execution.Messages.{Account, account, credit}
use linera_protocol.Execution.System.{
  Encoding, Executed, MessageContext, OperationContext, SystemExecutionState, balance_of, sends,
}
use linera_protocol.Execution.System.Authority.{balance_of-set_balance_self}
use linera_protocol.Execution.System.Incoming.{execute_message, receive_credit}
use linera_protocol.Execution.System.Operations.{credits, execute_transfer, plain}
use linera_protocol.Execution.System.Transfers.{execute_transfer_iff}

equal : (a b : ℕ) → a ≡ b → (a == b) ≡ true
equal a b h = ground arith

saturating_add-fits : (top a b : ℕ) → a + b ≤ top → saturating_add top a b ≡ a + b
unfolding saturating_add
saturating_add-fits top a b h = ground arith

module _ (e : Encoding) where
  -- A transfer to an account sends one message, to the chain of the account. Executed there, where the
  -- sum does not overflow, it credits the account with what the transfer debits.
  pub transfer-credit :
      (context : OperationContext) (state : SystemExecutionState) (owner : Option Owner)
      (to : Account) (amount : Amount) (executed : Executed) (context' : MessageContext)
      (state' : SystemExecutionState)
      → execute_transfer context state owner (account to) amount ≡ ok executed
      → context'.chain_id ≡ to.chain_id
      → balance_of to.owner state' + amount ≤ u128_max
      → (balance_of owner executed.state + amount ≡ balance_of owner state)
        × (executed.result.messages ≡ plain (recipient to.chain_id) (credit to amount) ∷ [])
        × ((received : Executed) × (execute_message e context' state' (credit to amount)
              ≡ ok received)
            × (balance_of to.owner received.state ≡ balance_of to.owner state' + amount))
  unfolding execute_message receive_credit credits
  transfer-credit context state owner to amount executed context' state' h here fits =
      let (s, p, b, q) =
        (execute_transfer_iff context state owner (account to) amount executed).0 h in
      let v = saturating_add u128_max (balance_of to.owner state') amount in
      (
        ap (λ x. balance_of owner x.state + amount) (sym q)
            ∙ omega
                (arith, balance_of-set_balance_self owner (balance_of owner state - amount) state),
        ap (λ x. x.result.messages) (sym q),
        (
          record { state = receive_credit state' to.owner amount; result = sends [] },
          rw (equal context'.chain_id to.chain_id here) refl,
          balance_of-set_balance_self to.owner v state'
              ∙ saturating_add-fits u128_max (balance_of to.owner state') amount fits,
        ),
      )
