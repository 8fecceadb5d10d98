-- ===== src/Execution/System/Operations.antt =====
-- linera-execution/src/system.rs: `execute_operation`, the sender's side of an operation. Each of its
-- cases is a function.
use linera_protocol.Prelude.{
  ltb, leb, ◌==◌, not, if◌then◌else◌, is_eq, Bool, true, false, List, [], ◌∷◌, map, Option, none,
  some, ok, err, ◌>>=◌, ◌>>◌, ensure, map_err,
}
use linera_protocol.Base.Arithmetic.{try_sub_assign}
use linera_protocol.Base.Amount.{Amount}
use linera_protocol.Base.Identifiers.{
  ApplicationId, BytecodeId, Bytes, ChainId, Destination, Owner, recipient, subscribers,
}
use linera_protocol.Base.Maps.{nat_key, delete, has, put}
use linera_protocol.Execution.Committee.{Epoch, Committee, try_add_one}
use linera_protocol.Execution.Messages.{
  AdminOperation, ChainOwnership, ChannelSubscription, Committees, Recipient, SystemChannel,
  SystemMessage, SystemOperation, UserData, account, admin, burn, create_committee,
  published_bytecodes, remove_committee, transfer, claim, open_chain, close_chain, change_owner,
  change_multiple_owners, subscribe, unsubscribe, publish_bytecode, create_application,
  request_application, admin_operation,
}
use linera_protocol.Execution.Ownership.{multiple, single_owner}
use linera_protocol.Execution.Errors.{
  SystemResult, admin_operation_on_non_admin_chain, arithmetic_error, error, incorrect_claim_amount,
  incorrect_transfer_amount, insufficient_funding, invalid_admin_subscription,
  invalid_committee_creation, invalid_committee_removal, invalid_committees, invalid_epoch,
  invalid_new_chain_admin_id, invalid_unsubscription, no_such_channel, panic, self_subscription,
  unauthenticated_claim_owner, unauthenticated_transfer_owner,
}
use linera_protocol.Execution.Registry.{register_new_application}
use linera_protocol.Execution.System.{
  Committees-discrete, Encoding, Executed, OperationContext, RawOutgoingMessage,
  SystemExecutionState, balance_of, equals, next_message_id, sends, set_balance,
}

abbrev pub Sent : Type 0
Sent = RawOutgoingMessage SystemMessage

-- A message that is neither authenticated nor skippable.
abbrev pub plain : Destination → SystemMessage → Sent
plain destination message = record {
  destination = destination;
  authenticated = false;
  is_skippable = false;
  message = message;
}

-- `expect("chain is active")`.
abbrev pub expect_epoch : Option Epoch → SystemResult Epoch
expect_epoch none = err panic
expect_epoch (some epoch) = ok epoch

-- The `Credit` that a transfer or a withdrawal sends, if its recipient is an account.
unfoldable pub credits : Recipient → Amount → List Sent
credits burn amount = []
credits (account a) amount = plain (recipient a.chain_id) (SystemMessage.credit a amount) ∷ []

-- `if owner.is_some()`: the signer is the owner.
unfoldable pub signs_for : Option Owner → Option Owner → Bool
signs_for signer none = true
signs_for signer (some owner) = equals signer owner

unfoldable pub execute_transfer :
    OperationContext
    → SystemExecutionState
    → Option Owner
    → Recipient
    → Amount
    → SystemResult Executed
unfolding credits signs_for balance_of set_balance try_sub_assign
execute_transfer context state owner to amount =
    let balance = balance_of owner state in
    let assigned = try_sub_assign balance amount in
    ensure (signs_for context.authenticated_signer owner) (error unauthenticated_transfer_owner)
    >> (ensure (ltb 0 amount) (error incorrect_transfer_amount)
        >> (ensure (leb amount balance) (error (insufficient_funding balance))
            >> (map_err (λ e. error (arithmetic_error e)) assigned.result
                >> ok (record {
                  state = set_balance owner assigned.value state;
                  result = sends (credits to amount);
                }))))

unfoldable pub execute_claim :
    OperationContext
    → SystemExecutionState
    → Owner
    → ChainId
    → Recipient
    → Amount
    → UserData
    → SystemResult Executed
execute_claim context state owner target to amount user_data =
    ensure (equals context.authenticated_signer owner) (error unauthenticated_claim_owner)
    >> (ensure (ltb 0 amount) (error incorrect_claim_amount)
        >> ok (record {
          state = state;
          result = sends (
              record {
                destination = recipient target;
                authenticated = true;
                is_skippable = false;
                message =
                    SystemMessage.withdraw (record { chain_id = target; owner = some owner }) amount
                      to user_data;
              }
              ∷ []);
        }))

-- The new application, if any, comes with its argument.
abbrev pub without :
    SystemResult Executed → SystemResult (Executed × Option (ApplicationId × Bytes))
without (ok executed) = ok (executed, none)
without (err failure) = err failure

module _ (e : Encoding) where
  abbrev pub admin_subscription : ChainId → ChannelSubscription
  admin_subscription chain = record { chain_id = chain; name = e.name admin }

  unfoldable pub execute_open_chain :
      OperationContext
      → SystemExecutionState
      → ChainOwnership
      → ChainId
      → Epoch
      → Committees
      → SystemResult Executed
  unfolding next_message_id
  execute_open_chain context state ownership admin_id epoch committees =
      let child = e.child (next_message_id context) in
      ensure (equals state.admin_id admin_id) (error (invalid_new_chain_admin_id child))
      >> (ensure (is_eq Committees-discrete state.committees committees) (error invalid_committees)
          >> (ensure (equals state.epoch epoch) (error (invalid_epoch child epoch))
              >> ok (record {
                state = state;
                result = sends (
                    plain (recipient child)
                      (SystemMessage.open_chain ownership admin_id epoch committees)
                    ∷ plain (recipient admin_id)
                        (SystemMessage.subscribe child (admin_subscription admin_id))
                    ∷ []);
              })))

  unfoldable pub execute_close_chain : OperationContext → SystemExecutionState → Executed
  execute_close_chain context state = record {
    state = record state { ownership = ChainOwnership.inactive; subscriptions = [] };
    result = sends (
        map (λ s. plain (recipient s.0.chain_id) (SystemMessage.unsubscribe context.chain_id s.0))
          state.subscriptions);
  }

  unfoldable pub execute_create_committee :
      SystemExecutionState → Epoch → Committee → SystemResult Executed
  unfolding put try_add_one
  execute_create_committee state epoch committee =
      let committees = put nat_key epoch committee state.committees in
      expect_epoch state.epoch >>= λ current.
      map_err (λ e. error (arithmetic_error e)) (try_add_one current) >>= λ next.
      ensure (epoch == next) (error invalid_committee_creation)
      >> ok (record {
        state = record state { committees = committees; epoch = some epoch };
        result = sends (
            plain (subscribers (e.name admin)) (SystemMessage.set_committees epoch committees)
            ∷ []);
      })

  unfoldable pub execute_remove_committee : SystemExecutionState → Epoch → SystemResult Executed
  unfolding delete has
  execute_remove_committee state epoch =
      let committees = delete nat_key epoch state.committees in
      ensure (has nat_key epoch state.committees) (error invalid_committee_removal)
      >> (expect_epoch state.epoch >>= λ current. ok (record {
        state = record state { committees = committees };
        result = sends (
            plain (subscribers (e.name admin)) (SystemMessage.set_committees current committees)
            ∷ []);
      }))

  unfoldable pub execute_admin :
      OperationContext → SystemExecutionState → AdminOperation → SystemResult Executed
  unfolding execute_create_committee execute_remove_committee
  execute_admin context state operation =
      ensure (equals state.admin_id context.chain_id) (error admin_operation_on_non_admin_chain)
      >> elim operation [
        | create_committee epoch committee ↦ execute_create_committee state epoch committee
        | remove_committee epoch ↦ execute_remove_committee state epoch
      ]

  abbrev is_admin : SystemChannel → Bool
  is_admin admin = true
  is_admin published_bytecodes = false

  unfoldable pub execute_subscribe :
      OperationContext → SystemExecutionState → ChainId → SystemChannel → SystemResult Executed
  unfolding has put
  execute_subscribe context state chain_id channel =
      let subscription : ChannelSubscription = record {
        chain_id = chain_id;
        name = e.name channel;
      } in
      ensure (not (context.chain_id == chain_id))
        (error (self_subscription context.chain_id channel))
      >> (ensure (if is_admin channel then equals state.admin_id chain_id else true)
            (error (invalid_admin_subscription context.chain_id channel))
          >> (ensure (not (has e.subscriptions subscription state.subscriptions))
                (error (no_such_channel context.chain_id channel))
              >> ok (record {
                state = record state {
                  subscriptions = put e.subscriptions subscription tt state.subscriptions;
                };
                result = sends (
                    plain (recipient chain_id)
                      (SystemMessage.subscribe context.chain_id subscription)
                    ∷ []);
              })))

  unfoldable pub execute_unsubscribe :
      OperationContext → SystemExecutionState → ChainId → SystemChannel → SystemResult Executed
  unfolding has delete
  execute_unsubscribe context state chain_id channel =
      let subscription : ChannelSubscription = record {
        chain_id = chain_id;
        name = e.name channel;
      } in
      ensure (has e.subscriptions subscription state.subscriptions)
        (error (invalid_unsubscription context.chain_id channel))
      >> ok (record {
        state = record state {
          subscriptions = delete e.subscriptions subscription state.subscriptions;
        };
        result = sends (
            plain (recipient chain_id) (SystemMessage.unsubscribe context.chain_id subscription)
            ∷ []);
      })

  unfoldable pub execute_create_application :
      OperationContext
      → SystemExecutionState
      → BytecodeId
      → Bytes
      → List ApplicationId
      → SystemResult (Executed × ApplicationId)
  unfolding next_message_id register_new_application
  execute_create_application context state bytecode_id parameters required =
      let id : ApplicationId = record {
        bytecode_id = bytecode_id;
        creation = next_message_id context;
      } in
      register_new_application e.bytecodes e.applications id parameters required state.registry
      >>= λ registry. ok (
        record {
          state = record state { registry = registry };
          result =
              sends (plain (recipient context.chain_id) SystemMessage.application_created ∷ []);
        },
        id,
      )

  unfoldable pub execute_operation :
      OperationContext
      → SystemExecutionState
      → SystemOperation
      → SystemResult (Executed × Option (ApplicationId × Bytes))
  unfolding execute_transfer execute_claim execute_open_chain execute_close_chain execute_admin
      execute_subscribe execute_unsubscribe execute_create_application single_owner multiple
  execute_operation context state (transfer owner to amount user_data) =
      without (execute_transfer context state owner to amount)
  execute_operation context state (claim owner target to amount user_data) =
      without (execute_claim context state owner target to amount user_data)
  execute_operation context state (open_chain ownership admin_id epoch committees) =
      without (execute_open_chain context state ownership admin_id epoch committees)
  execute_operation context state close_chain = without (ok (execute_close_chain context state))
  execute_operation context state (change_owner key) = without (
      ok (record {
        state = record state { ownership = single_owner e.owner_of key };
        result = sends [];
      }))
  execute_operation context state (change_multiple_owners keys rounds) = without (
      ok (record {
        state = record state { ownership = multiple e.owner_of keys rounds };
        result = sends [];
      }))
  execute_operation context state (subscribe chain_id channel) =
      without (execute_subscribe context state chain_id channel)
  execute_operation context state (unsubscribe chain_id channel) =
      without (execute_unsubscribe context state chain_id channel)
  execute_operation context state (publish_bytecode contract service) = without (
      ok (record {
        state = state;
        result = sends (
            plain (recipient context.chain_id) (SystemMessage.bytecode_published context.index)
            ∷ []);
      }))
  execute_operation context state (create_application bytecode_id parameters argument required) =
      execute_create_application context state bytecode_id parameters required >>= λ created.
      ok (created.0, some (created.1, argument))
  execute_operation context state (request_application chain_id application_id) = without (
      ok (record {
        state = state;
        result =
            sends
              (plain (recipient chain_id) (SystemMessage.request_application application_id) ∷ []);
      }))
  execute_operation context state (admin_operation operation) =
      without (execute_admin context state operation)
