-- ===== src/Examples/Accounts.antt =====
-- Two chains, their balances and subscriptions, and the applications that one of them knows.
use linera_protocol.Prelude.{
  ◌+◌, ◌<◌, ◌≤◌, ◌↔◌, ◌≡◌, ◌≢◌, ◌⊎◌, refl, ltb, true, [], ◌∷◌, List, none, some, ok, Option,
  ℕ_discrete, arith,
}
use linera_protocol.Base.Arithmetic.{saturating_add, try_sub_assign, u128_max}
use linera_protocol.Base.Identifiers.{
  child, ApplicationId, BytecodeId, MessageId, recipient, Owner, root,
}
use linera_protocol.Base.Maps.{Key, find, put, has}
use linera_protocol.Execution.Messages.{
  Account, ChannelSubscription, SystemMessage, SystemOperation, account, credit, admin, inactive,
  published_bytecodes, single,
}
use linera_protocol.Execution.Ownership.{is_active as ownership_is_active}
use linera_protocol.Execution.System.{
  Encoding, Executed, MessageContext, OperationContext, SystemExecutionState, balance_of, equals,
  is_active, sends, set_balance,
}
use linera_protocol.Execution.System.Operations.{
  credits, execute_operation, execute_subscribe, execute_transfer, execute_unsubscribe, signs_for,
  plain,
}
use linera_protocol.Execution.System.Incoming.{execute_message, receive_withdraw, receive_credit}
use linera_protocol.Execution.System.Transfers.{execute_transfer_iff, transferred}
use linera_protocol.Execution.System.Authority.{execute_message-owner, execute_operation-owner}
use linera_protocol.Execution.System.Epochs.{advances, execute_operation-committees}
use linera_protocol.Execution.System.History.{
  SystemCall, destroyed, message, operation, received, run, run-epoch, run-tokens,
}
use linera_protocol.Execution.System.Subscriptions.{execute_unsubscribe-subscribe}
use linera_protocol.Execution.System.Delivery.{transfer-credit}
use linera_protocol.Execution.System.Tokens.{carried_all, tokens}
use linera_protocol.Examples.Committees.{committee}

abbrev subscription_key : Key ChannelSubscription
subscription_key = record { same = hlevel ℕ_discrete; before = λ a b. ltb a.chain_id b.chain_id }

abbrev bytecode_key : Key BytecodeId
bytecode_key = record {
  same = hlevel ℕ_discrete;
  before = λ a b. ltb a.message_id.index b.message_id.index;
}

abbrev pub application_key : Key ApplicationId
application_key = record {
  same = hlevel ℕ_discrete;
  before = λ a b. ltb a.creation.index b.creation.index;
}

abbrev encoding : Encoding
encoding = record {
  owner_of = λ key. key;
  child = λ id. 100 + id.index;
  name = λ channel. elim channel [ admin ↦ 0 ∷ [] | published_bytecodes ↦ 1 ∷ [] ];
  subscriptions = subscription_key;
  bytecodes = bytecode_key;
  applications = application_key;
}

-- Chain 5, of which chain 0 is the admin. Its owner 7 has 30 tokens of its own.
abbrev initial : SystemExecutionState
initial = record {
  description = some (root 5);
  epoch = some 0;
  admin_id = some 0;
  subscriptions = [];
  committees = (0, committee) ∷ [];
  ownership = single 7 7;
  balance = 100;
  balances = (7, 30) ∷ [];
  timestamp = 0;
  registry = record { published_bytecodes = []; known_applications = [] };
}

abbrev context : OperationContext
context = record {
  chain_id = 5;
  authenticated_signer = some 7;
  height = 0;
  index = 0;
  next_message_index = 0;
}

abbrev incoming : MessageContext
incoming = record {
  chain_id = 5;
  authenticated_signer = some 7;
  height = 1;
  certificate_hash = 11;
  message_id = record { chain_id = 6; height = 0; index = 0 };
}

abbrev other_account : Account
other_account = record { chain_id = 6; owner = some 8 }

abbrev paid : Executed
paid = transferred initial (some 7) (account other_account) 20

transfer_runs : execute_transfer context initial (some 7) (account other_account) 20 ≡ ok paid
unfolding execute_transfer set_balance balance_of find put signs_for try_sub_assign credits
    ℕ_discrete
transfer_runs = refl

execute_transfer_iff_example :
    (execute_transfer context initial (some 7) (account other_account) 20 ≡ ok paid) ↔ (
      (signs_for context.authenticated_signer (some 7) ≡ true)
      × (0 < 20)
      × (20 ≤ balance_of (some 7) initial)
      × (transferred initial (some 7) (account other_account) 20 ≡ paid))
execute_transfer_iff_example =
    execute_transfer_iff context initial (some 7) (account other_account) 20 paid

abbrev transfer_20 : SystemOperation
transfer_20 = SystemOperation.transfer (some 7) (account other_account) 20 none

operation_runs : execute_operation encoding context initial transfer_20 ≡ ok (paid, none)
unfolding execute_operation execute_transfer set_balance balance_of find put signs_for
    try_sub_assign credits ℕ_discrete
operation_runs = refl

execute_operation-owner_example :
    (balance_of (some 7) initial ≤ balance_of (some 7) paid.state)
    ⊎ (context.authenticated_signer ≡ some 7)
execute_operation-owner_example =
    execute_operation-owner encoding context initial transfer_20 paid none 7 operation_runs

execute_operation-committees_example :
    ((paid.state.epoch ≡ initial.epoch) × (paid.state.committees ≡ initial.committees))
    ⊎ (equals initial.admin_id context.chain_id ≡ true)
execute_operation-committees_example =
    execute_operation-committees encoding context initial transfer_20 paid none operation_runs

initial_fits : (other : Option Owner) → balance_of other initial ≤ u128_max
unfolding balance_of find ℕ_discrete
initial_fits none = omega arith
initial_fits (some owner) = ground arith

abbrev withdraw_10 : SystemMessage
withdraw_10 =
    SystemMessage.withdraw (record { chain_id = 5; owner = some 7 }) 10 (account other_account) none

abbrev withdrawn : Executed
withdrawn = transferred initial (some 7) (account other_account) 10

withdraw_runs : execute_message encoding incoming initial withdraw_10 ≡ ok withdrawn
unfolding execute_message receive_withdraw set_balance balance_of find put try_sub_assign credits
    ℕ_discrete
withdraw_runs = refl

execute_message-owner_example :
    (balance_of (some 7) initial ≤ balance_of (some 7) withdrawn.state)
    ⊎ ((◌≢◌ {A = Option Owner} (some 7) none) × (incoming.authenticated_signer ≡ some 7))
execute_message-owner_example =
    execute_message-owner encoding incoming initial withdraw_10 withdrawn (some 7) initial_fits
      withdraw_runs

abbrev calls : List SystemCall
calls =
    operation context transfer_20
    ∷ message incoming (credit (record { chain_id = 5; owner = none }) 3)
    ∷ []

abbrev finish : SystemExecutionState
finish = record paid.state { balance = 103 }

run-calls : run encoding calls initial ≡ ok (finish, paid.result.messages)
unfolding run execute_operation execute_transfer execute_message receive_credit set_balance
    balance_of find put signs_for try_sub_assign saturating_add credits ℕ_discrete
run-calls = refl

run-tokens_example :
    tokens finish + carried_all paid.result.messages + destroyed calls
    ≤ tokens initial + received calls
run-tokens_example = run-tokens encoding calls initial finish paid.result.messages run-calls

run-epoch_example : advances initial.epoch finish.epoch ≡ true
run-epoch_example = run-epoch encoding calls initial finish paid.result.messages run-calls

-- A chain of which nothing is known.
abbrev unknown : SystemExecutionState
unknown = record {
  description = none;
  epoch = none;
  admin_id = none;
  subscriptions = [];
  committees = [];
  ownership = inactive;
  balance = 0;
  balances = [];
  timestamp = 0;
  registry = record { published_bytecodes = []; known_applications = [] };
}

abbrev child_id : MessageId
child_id = record { chain_id = 5; height = 0; index = 0 }

abbrev opening : Executed
opening = record {
  state = initial;
  result = sends (
      plain (recipient 100) (SystemMessage.open_chain (single 9 9) 0 0 ((0, committee) ∷ []))
      ∷ plain (recipient 0) (SystemMessage.subscribe 100 (record { chain_id = 0; name = 0 ∷ [] }))
      ∷ []);
}

abbrev followed : Executed
followed = record {
  state = record initial { subscriptions = (record { chain_id = 6; name = 1 ∷ [] }, tt) ∷ [] };
  result = sends (
      plain (recipient 6) (SystemMessage.subscribe 5 (record { chain_id = 6; name = 1 ∷ [] }))
      ∷ []);
}

subscribe_runs : execute_subscribe encoding context initial 6 published_bytecodes ≡ ok followed
unfolding execute_subscribe has find put ℕ_discrete
subscribe_runs = refl

execute_unsubscribe-subscribe_example :
    (back : Executed) × (execute_unsubscribe encoding context followed.state 6 published_bytecodes
      ≡ ok back)
    × ((s : ChannelSubscription)
        → has subscription_key s back.state.subscriptions
          ≡ has subscription_key s initial.subscriptions)
execute_unsubscribe-subscribe_example =
    execute_unsubscribe-subscribe encoding context initial 6 published_bytecodes followed
      subscribe_runs

unknown_fits : balance_of (some 8) unknown + 20 ≤ u128_max
unfolding balance_of find ℕ_discrete
unknown_fits = omega arith

transfer-credit_example :
    (balance_of (some 7) paid.state + 20 ≡ balance_of (some 7) initial)
    × (paid.result.messages ≡ plain (recipient 6) (credit other_account 20) ∷ [])
    × ((received : Executed) × (execute_message encoding
            (record incoming { chain_id = 6 })
            unknown
            (credit other_account 20)
          ≡ ok received)
        × (balance_of (some 8) received.state ≡ balance_of (some 8) unknown + 20))
transfer-credit_example =
    transfer-credit encoding context initial (some 7) other_account 20 paid
      (record incoming { chain_id = 6 }) unknown transfer_runs refl unknown_fits
