-- ===== src/Execution/System/Authority.antt =====
-- Who can spend: the balance of an owner falls only under the signature of that owner.
use linera_protocol.Prelude.{
  ◌-◌, ◌≤◌, ◌≡◌, ◌≢◌, ◌⊎◌, inl, inr, refl, sym, ap, subst, ◌∙◌, true, leb, Option, none, some, ok,
  arith, Bool-cases, Option-cases, ℕ_discrete,
}
use linera_protocol.Base.Arithmetic.{saturating_add, u128_max}
use linera_protocol.Base.Amount.{Amount}
use linera_protocol.Base.Identifiers.{ApplicationId, Bytes, Owner}
use linera_protocol.Base.Maps.{default, find, nat_key}
use linera_protocol.Base.Maps.Laws.{find-put_self, find-put_ne}
use linera_protocol.Execution.Messages.{
  Recipient, SystemMessage, SystemOperation, create_committee, remove_committee,
}
use linera_protocol.Execution.System.{
  Encoding, Executed, MessageContext, OperationContext, SystemExecutionState, balance_of, equals,
  set_balance,
}
use linera_protocol.Execution.System.Incoming.{
  execute_message, receive_bytecode_published, receive_committees, receive_credit, receive_request,
  receive_withdraw,
}
use linera_protocol.Execution.System.Operations.{execute_operation, signs_for}
use linera_protocol.Execution.System.Transfers.{
  execute_transfer_iff, receive_withdraw-enough, receive_withdraw-short, transfer-ok,
}

pub balance_of-set_balance_self :
    (owner : Option Owner) (amount : Amount) (state : SystemExecutionState)
    → balance_of owner (set_balance owner amount state) ≡ amount
unfolding balance_of set_balance
balance_of-set_balance_self none amount state = refl
balance_of-set_balance_self (some owner) amount state =
    ap (default 0) (find-put_self nat_key owner amount state.balances)

pub balance_of-set_balance_ne :
    (owner other : Option Owner) (amount : Amount) (state : SystemExecutionState)
    → owner ≢ other
    → balance_of other (set_balance owner amount state) ≡ balance_of other state
unfolding balance_of set_balance
balance_of-set_balance_ne none none amount state n = absurd (n refl)
balance_of-set_balance_ne none (some other) amount state n = refl
balance_of-set_balance_ne (some owner) none amount state n = refl
balance_of-set_balance_ne (some owner) (some other) amount state n =
    ap (default 0) (find-put_ne nat_key owner other amount state.balances λ p. n (ap some p))

Option-Owner-discrete : Discrete (Option Owner)
Option-Owner-discrete = hlevel ℕ_discrete

pub equals-some :
    (signer : Option Owner) (owner : Owner) → equals signer owner ≡ true → signer ≡ some owner
equals-some none owner h = cc
equals-some (some other) owner h = ap some (ground arith)

signs_for-some :
    (signer : Option Owner) (owner : Owner)
    → signs_for signer (some owner) ≡ true
    → signer ≡ some owner
unfolding signs_for
signs_for-some = equals-some

-- A transfer from one balance lowers no other.
spends-own :
    (signer : Option Owner) (state : SystemExecutionState) (from : Option Owner) (owner : Owner)
    (amount : Amount)
    → signs_for signer from ≡ true
    → (balance_of (some owner) state ≤ balance_of (some owner) (set_balance from amount state))
      ⊎ (signer ≡ some owner)
spends-own signer state from owner amount s = elim (Option-Owner-discrete from (some owner)) [
  | yes p ↦ inr (signs_for-some signer owner (subst (λ x. signs_for signer x ≡ true) p s))
  | no n ↦ inl (omega (arith, balance_of-set_balance_ne from (some owner) amount state n))
]

module _ (e : Encoding) where
  -- An operation lowers the balance of an owner only if this owner has signed it.
  pub execute_operation-owner :
      (context : OperationContext) (state : SystemExecutionState) (operation : SystemOperation)
      (executed : Executed) (new : Option (ApplicationId × Bytes)) (owner : Owner)
      → execute_operation e context state operation ≡ ok (executed, new)
      → (balance_of (some owner) state ≤ balance_of (some owner) executed.state)
        ⊎ (context.authenticated_signer ≡ some owner)
  unfolding execute_operation balance_of
  execute_operation-owner context state (SystemOperation.transfer from to amount d) executed new
        owner h =
      let (s, p, b, q) =
        (execute_transfer_iff context state from to amount executed).0
          (transfer-ok e context state from to amount d executed new h) in
      rw (sym q) (
        spends-own context.authenticated_signer state from owner (balance_of from state - amount) s)
  execute_operation-owner context state (SystemOperation.claim from target to amount d) executed new
        owner h =
      ground arith
  execute_operation-owner context state (SystemOperation.open_chain o a p c) executed new owner h =
      ground arith
  execute_operation-owner context state SystemOperation.close_chain executed new owner h =
      ground arith
  execute_operation-owner context state (SystemOperation.change_owner k) executed new owner h =
      ground arith
  execute_operation-owner context state (SystemOperation.change_multiple_owners k r) executed new
        owner h =
      ground arith
  execute_operation-owner context state (SystemOperation.subscribe c n) executed new owner h =
      ground arith
  execute_operation-owner context state (SystemOperation.unsubscribe c n) executed new owner h =
      ground arith
  execute_operation-owner context state (SystemOperation.publish_bytecode c s) executed new owner
        h =
      ground arith
  execute_operation-owner context state (SystemOperation.create_application b p a r) executed new
        owner h =
      ground arith
  execute_operation-owner context state (SystemOperation.request_application c a) executed new owner
        h =
      ground arith
  execute_operation-owner context state (SystemOperation.admin_operation (create_committee p c))
        executed new owner h =
      ground arith
  execute_operation-owner context state (SystemOperation.admin_operation (remove_committee p))
        executed new owner h =
      ground arith

  balance_of_kept :
      (owner : Option Owner) (new old : SystemExecutionState)
      → new.balance ≡ old.balance
      → new.balances ≡ old.balances
      → balance_of owner new ≡ balance_of owner old
  unfolding balance_of
  balance_of_kept none new old p q = p
  balance_of_kept (some owner) new old p q = ap (λ b. default 0 (find nat_key owner b)) q

  receive_credit-owner :
      (state : SystemExecutionState) (to : Option Owner) (amount : Amount) (owner : Option Owner)
      → balance_of to state ≤ u128_max
      → balance_of owner state ≤ balance_of owner (receive_credit state to amount)
  unfolding receive_credit saturating_add
  receive_credit-owner state to amount owner fits =
      let v = saturating_add u128_max (balance_of to state) amount in
      elim (Option-Owner-discrete to owner) [
        | yes p ↦
            subst (λ o. balance_of o state ≤ balance_of o (set_balance to v state)) p
              (rw (balance_of-set_balance_self to v state) (ground arith))
        | no n ↦ omega (arith, balance_of-set_balance_ne to owner v state n)
      ]

  receive_withdraw-owner :
      (state : SystemExecutionState) (from : Owner) (amount : Amount) (to : Recipient)
      (owner : Option Owner)
      → some from ≢ owner
      → balance_of owner (receive_withdraw state from amount to).state ≡ balance_of owner state
  receive_withdraw-owner state from amount to owner n =
      let balance = balance_of (some from) state in
      elim (Bool-cases (leb amount balance)) [
        | inl b ↦
            rw (receive_withdraw-enough state from amount to b)
              (balance_of-set_balance_ne (some from) owner (balance - amount) state n)
        | inr b ↦
            rw (receive_withdraw-short state from amount to b)
              (balance_of-set_balance_ne (some from) owner balance state n)
      ]

  -- A message lowers the balance of an owner only if it comes from an operation that this owner has
  -- signed, and never lowers the balance of the chain, in a state whose balances fit their type.
  pub execute_message-owner :
      (context : MessageContext) (state : SystemExecutionState) (message : SystemMessage)
      (executed : Executed) (owner : Option Owner)
      → ((other : Option Owner) → balance_of other state ≤ u128_max)
      → execute_message e context state message ≡ ok executed
      → (balance_of owner state ≤ balance_of owner executed.state)
        ⊎ ((owner ≢ none) × (context.authenticated_signer ≡ owner))
  unfolding execute_message receive_committees receive_bytecode_published receive_request
  execute_message-owner context state (SystemMessage.credit to amount) executed owner fits h =
      inl (ground (arith, receive_credit-owner state to.owner amount owner (fits to.owner)))
  execute_message-owner context state (SystemMessage.withdraw from amount to d) executed owner fits
        h =
      elim (Option-cases from.owner) [
        | inl p ↦ inl (ground arith)
        | inr (name, p) ↦ elim (Option-Owner-discrete (some name) owner) [
          | yes q ↦ elim (Bool-cases (equals context.authenticated_signer name)) [
            | inl s ↦ inr (λ n. ground arith, equals-some context.authenticated_signer name s ∙ q)
            | inr s ↦ inl (ground arith)
          ]
          | no n ↦ inl (ground (arith, receive_withdraw-owner state name amount to owner n))
        ]
      ]
  execute_message-owner context state (SystemMessage.open_chain o a p c) executed owner fits h =
      inl (ground (arith, balance_of_kept owner executed.state state))
  execute_message-owner context state (SystemMessage.set_committees p c) executed owner fits h =
      inl (ground (arith, balance_of_kept owner executed.state state))
  execute_message-owner context state (SystemMessage.subscribe c n) executed owner fits h =
      inl (ground (arith, balance_of_kept owner executed.state state))
  execute_message-owner context state (SystemMessage.unsubscribe c n) executed owner fits h =
      inl (ground (arith, balance_of_kept owner executed.state state))
  execute_message-owner context state (SystemMessage.bytecode_published i) executed owner fits h =
      inl (ground (arith, balance_of_kept owner executed.state state))
  execute_message-owner context state SystemMessage.application_created executed owner fits h =
      inl (ground (arith, balance_of_kept owner executed.state state))
  execute_message-owner context state (SystemMessage.bytecode_locations l) executed owner fits h =
      inl (ground (arith, balance_of_kept owner executed.state state))
  execute_message-owner context state (SystemMessage.register_applications a) executed owner fits
        h =
      inl (ground (arith, balance_of_kept owner executed.state state))
  execute_message-owner context state (SystemMessage.notify i) executed owner fits h =
      inl (ground (arith, balance_of_kept owner executed.state state))
  execute_message-owner context state (SystemMessage.request_application a) executed owner fits h =
      inl (ground (arith, balance_of_kept owner executed.state state))
