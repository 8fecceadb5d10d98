-- ===== src/Execution/System/Incoming.antt =====
-- linera-execution/src/system.rs: `execute_message`, the recipient's side of an operation, and
-- `open_chain`, which a chain executes when the message of its parent arrives.
use linera_protocol.Prelude.{
  ℕ, leb, ◌==◌, ◌&&◌, not, if◌then◌else◌, Bool, true, false, List, [], ◌∷◌, Option, none, some, ok,
  err, ◌>>=◌, ◌>>◌, ensure,
}
use linera_protocol.Base.Arithmetic.{saturating_add, try_sub_assign, u128_max}
use linera_protocol.Base.Amount.{Amount}
use linera_protocol.Base.Timestamp.{Timestamp}
use linera_protocol.Base.Identifiers.{
  ApplicationId, BytecodeId, ChainId, MessageId, Owner, child, recipient, subscribers,
}
use linera_protocol.Base.Maps.{is_found, put}
use linera_protocol.Execution.Committee.{Epoch}
use linera_protocol.Execution.Messages.{
  BytecodeLocation, ChainOwnership, Committees, Recipient, SystemMessage,
  UserApplicationDescription, application_created, bytecode_locations, bytecode_published, credit,
  notify, open_chain, published_bytecodes, register_applications, request_application,
  set_committees, subscribe, unsubscribe, withdraw,
}
use linera_protocol.Execution.Ownership.{is_active as ownership_is_active}
use linera_protocol.Execution.Errors.{
  SystemResult, cannot_rewind_epoch, error, panic, unknown_application_id,
}
use linera_protocol.Execution.Registry.{
  ApplicationRegistry, describe_applications_with_dependencies, register_application,
  register_published_bytecode,
}
use linera_protocol.Execution.System.{
  Encoding, Executed, MessageContext, SystemExecutionState, balance_of, equals, sends, set_balance,
}
use linera_protocol.Execution.System.Operations.{
  Sent, admin_subscription, credits, expect_epoch, plain,
}

abbrev unchanged : SystemExecutionState → Executed
unchanged state = record { state = state; result = sends [] }

unfoldable pub receive_credit : SystemExecutionState → Option Owner → Amount → SystemExecutionState
unfolding balance_of set_balance saturating_add
receive_credit state owner amount =
    set_balance owner (saturating_add u128_max (balance_of owner state) amount) state

unfoldable pub receive_withdraw : SystemExecutionState → Owner → Amount → Recipient → Executed
unfolding balance_of set_balance try_sub_assign credits
receive_withdraw state owner amount to =
    let assigned = try_sub_assign (balance_of (some owner) state) amount in
    record {
      state = set_balance (some owner) assigned.value state;
      result = elim assigned.result [ ok _ ↦ sends (credits to amount) | err _ ↦ sends [] ];
    }

unfoldable pub receive_committees :
    SystemExecutionState → Epoch → Committees → SystemResult Executed
receive_committees state epoch committees = expect_epoch state.epoch >>= λ current.
    ensure (leb current epoch) (error cannot_rewind_epoch)
    >> ok (record {
      state = record state { epoch = some epoch; committees = committees };
      result = sends [];
    })

-- The `Notify` to a chain that subscribes or unsubscribes.
abbrev notice : ChainId → List Sent
notice id = plain (recipient id) (notify id) ∷ []

unfoldable pub register_locations :
    Encoding → List (BytecodeId × BytecodeLocation) → ApplicationRegistry → ApplicationRegistry
unfolding register_published_bytecode
register_locations e [] registry = registry
register_locations e ((id, location) ∷ rest) registry =
    register_locations e rest (register_published_bytecode e.bytecodes id location registry)

unfoldable pub register_all :
    Encoding
    → List UserApplicationDescription
    → ApplicationRegistry
    → SystemResult ApplicationRegistry
unfolding register_application
register_all e [] registry = ok registry
register_all e (application ∷ rest) registry =
    register_application e.applications application registry >>= λ registered.
    register_all e rest registered.0

module _ (e : Encoding) where
  unfoldable pub receive_bytecode_published : MessageContext → SystemExecutionState → ℕ → Executed
  unfolding register_published_bytecode
  receive_bytecode_published context state index =
      let registry =
        register_published_bytecode e.bytecodes (record { message_id = context.message_id })
          (record { certificate_hash = context.certificate_hash; operation_index = index })
          state.registry in
      record {
        state = record state { registry = registry };
        result = sends (
            plain (subscribers (e.name published_bytecodes))
              (bytecode_locations registry.published_bytecodes)
            ∷ []);
      }

  -- The answer to a request, or nothing if an application is unknown.
  abbrev answer :
      MessageContext
      → SystemExecutionState
      → SystemResult (List UserApplicationDescription)
      → SystemResult Executed
  answer context state (err (error (unknown_application_id id))) = ok (unchanged state)
  answer context state (err failure) = err failure
  answer context state (ok applications) = ok (record {
    state = state;
    result = sends (
        record {
          destination = recipient context.message_id.chain_id;
          authenticated = false;
          is_skippable = true;
          message = register_applications applications;
        }
        ∷ []);
  })

  unfoldable pub receive_request :
      MessageContext → SystemExecutionState → ApplicationId → SystemResult Executed
  unfolding describe_applications_with_dependencies
  receive_request context state id =
      answer context state
        (describe_applications_with_dependencies e.applications (id ∷ []) [] state.registry)

  unfoldable pub execute_message :
      MessageContext → SystemExecutionState → SystemMessage → SystemResult Executed
  unfolding receive_credit receive_withdraw receive_committees register_locations register_all
      receive_bytecode_published receive_request
  execute_message context state (credit account amount) = ok (
      if context.chain_id == account.chain_id
      then record { state = receive_credit state account.owner amount; result = sends [] }
      else unchanged state)
  execute_message context state (withdraw account amount to user_data) = ok (elim account.owner [
    | none ↦ unchanged state
    | some owner ↦
        if account.chain_id == context.chain_id && equals context.authenticated_signer owner
        then receive_withdraw state owner amount to
        else unchanged state
  ])
  execute_message context state (set_committees epoch committees) =
      receive_committees state epoch committees
  execute_message context state (subscribe id subscription) = ok (
      if subscription.chain_id == context.chain_id
      then record {
        state = state;
        result = record (sends (notice id)) { subscribe = (subscription.name, id) ∷ [] };
      }
      else unchanged state)
  execute_message context state (unsubscribe id subscription) = ok (
      if subscription.chain_id == context.chain_id
      then record {
        state = state;
        result = record (sends (notice id)) { unsubscribe = (subscription.name, id) ∷ [] };
      }
      else unchanged state)
  execute_message context state (bytecode_published index) =
      ok (receive_bytecode_published context state index)
  execute_message context state (bytecode_locations locations) = ok (record {
    state = record state { registry = register_locations e locations state.registry };
    result = sends [];
  })
  execute_message context state application_created = ok (unchanged state)
  execute_message context state (notify id) = ok (unchanged state)
  execute_message context state (open_chain ownership admin_id epoch committees) =
      ok (unchanged state)
  execute_message context state (register_applications applications) =
      register_all e applications state.registry >>= λ registry.
      ok (record { state = record state { registry = registry }; result = sends [] })
  execute_message context state (request_application id) = receive_request context state id

  abbrev is_empty : Committees → Bool
  is_empty [] = true
  is_empty (_ ∷ _) = false

  -- `open_chain`: what it sets.
  unfoldable pub opened :
      SystemExecutionState
      → MessageId
      → ChainOwnership
      → Epoch
      → Committees
      → ChainId
      → Timestamp
      → SystemExecutionState
  unfolding put
  opened state message_id ownership epoch committees admin_id timestamp = record state {
    description = some (child message_id);
    epoch = some epoch;
    committees = committees;
    admin_id = some admin_id;
    subscriptions = put e.subscriptions (admin_subscription e admin_id) tt state.subscriptions;
    ownership = ownership;
    timestamp = timestamp;
  }

  -- `open_chain`. Its three assertions panic where they fail.
  unfoldable pub open_child :
      SystemExecutionState
      → MessageId
      → ChainOwnership
      → Epoch
      → Committees
      → ChainId
      → Timestamp
      → SystemResult SystemExecutionState
  unfolding opened
  open_child state message_id ownership epoch committees admin_id timestamp =
      ensure (not (is_found state.description)) panic
      >> (ensure (not (ownership_is_active state.ownership)) panic
          >> (ensure (is_empty state.committees) panic
              >> ok (opened state message_id ownership epoch committees admin_id timestamp)))

  -- `execute_immediate_message` of linera-chain/src/chain.rs, on the system state: `OpenChain` is executed
  -- ahead of the first block; nothing is done for other messages.
  unfoldable pub execute_immediate_message :
      SystemExecutionState
      → MessageId
      → SystemMessage
      → Timestamp
      → SystemResult SystemExecutionState
  unfolding open_child
  execute_immediate_message state message_id
        (SystemMessage.open_chain ownership admin_id epoch committees) timestamp =
      open_child state message_id ownership epoch committees admin_id timestamp
  execute_immediate_message state message_id _ timestamp = ok state

-- `handle_query`: the balance of the chain.
pub record SystemResponse : Type 0 where
  pub chain_id : ChainId
  pub balance : Amount

unfoldable pub handle_query : ChainId → SystemExecutionState → SystemResponse
handle_query chain_id state = record { chain_id = chain_id; balance = state.balance }
