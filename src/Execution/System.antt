-- ===== src/Execution/System.antt =====
-- linera-execution/src/system.rs and lib.rs: the execution state of the system application of a
-- chain, the contexts of its calls and their results. A view is the value that it holds; the state
-- that a failed call leaves behind is dropped, as the callers roll the chain back.
pub mod Operations
pub mod Incoming
pub mod Transfers
pub mod Tokens
pub mod Authority
pub mod Epochs
pub mod History
pub mod Opening
pub mod Subscriptions
pub mod Delivery
use linera_protocol.Prelude.{
  ℕ, ◌==◌, ◌&&◌, Bool, true, false, List, [], ◌∷◌, Option, none, some, ℕ_discrete,
}
use linera_protocol.Base.Amount.{Amount}
use linera_protocol.Base.Timestamp.{Timestamp}
use linera_protocol.Base.Identifiers.{
  ChainId, MessageId, ChainDescription, Owner, Bytes, BytecodeId, ApplicationId, ChannelName,
  Destination, BlockHeight, CryptoHash, PublicKey,
}
use linera_protocol.Base.Maps.{Key, Entries, nat_key, default, is_found, find, put}
use linera_protocol.Execution.Committee.{Epoch, Committee, Committee-discrete}
use linera_protocol.Execution.Messages.{
  ChainOwnership, ChannelSubscription, Committees, SystemChannel, SystemMessage,
}
use linera_protocol.Execution.Ownership.{is_active as ownership_is_active}
use linera_protocol.Execution.Registry.{ApplicationRegistry}

-- What the code takes from hashing and from the serialization of BCS.
pub record Encoding : Type 0 where
  -- `Owner::from(public_key)`.
  pub owner_of : PublicKey → Owner
  -- `ChainId::child`.
  pub child : MessageId → ChainId
  -- `SystemChannel::name`.
  pub name : SystemChannel → ChannelName
  -- The keys of the views, whose order is that of their serialized bytes.
  pub subscriptions : Key ChannelSubscription
  pub bytecodes : Key BytecodeId
  pub applications : Key ApplicationId

pub record OperationContext : Type 0 where
  pub chain_id : ChainId
  pub authenticated_signer : Option Owner
  pub height : BlockHeight
  pub index : ℕ
  pub next_message_index : ℕ

pub record MessageContext : Type 0 where
  pub chain_id : ChainId
  pub authenticated_signer : Option Owner
  pub height : BlockHeight
  pub certificate_hash : CryptoHash
  pub message_id : MessageId

unfoldable pub next_message_id : OperationContext → MessageId
next_message_id context = record {
  chain_id = context.chain_id;
  height = context.height;
  index = context.next_message_index;
}

pub record RawOutgoingMessage (M : Type 0) : Type 0 where
  pub destination : Destination
  pub authenticated : Bool
  pub is_skippable : Bool
  pub message : M

pub record RawExecutionResult (M : Type 0) : Type 0 where
  pub authenticated_signer : Option Owner
  pub messages : List (RawOutgoingMessage M)
  pub subscribe : List (ChannelName × ChainId)
  pub unsubscribe : List (ChannelName × ChainId)

-- `RawExecutionResult::default`, with messages.
abbrev pub sends : List (RawOutgoingMessage SystemMessage) → RawExecutionResult SystemMessage
sends messages = record {
  authenticated_signer = none;
  messages = messages;
  subscribe = [];
  unsubscribe = [];
}

pub record SystemExecutionState : Type 0 where
  pub description : Option ChainDescription
  pub epoch : Option Epoch
  pub admin_id : Option ChainId
  pub subscriptions : Entries ChannelSubscription (Unit {0})
  pub committees : Committees
  pub ownership : ChainOwnership
  pub balance : Amount
  pub balances : Entries Owner Amount
  pub timestamp : Timestamp
  pub registry : ApplicationRegistry

-- The state after a call, and the call's result.
pub record Executed : Type 0 where
  pub state : SystemExecutionState
  pub result : RawExecutionResult SystemMessage

-- `== Some(x)`, of numbers.
abbrev pub equals : Option ℕ → ℕ → Bool
equals none b = false
equals (some a) b = a == b

unfoldable pub current_committee : SystemExecutionState → Option (Epoch × Committee)
unfolding find
current_committee state = elim state.epoch [
  | none ↦ none
  | some epoch ↦ elim (find nat_key epoch state.committees) [
    | none ↦ none
    | some committee ↦ some (epoch, committee)
  ]
]

unfoldable pub is_active : SystemExecutionState → Bool
unfolding current_committee
is_active state =
    is_found state.description
    && ownership_is_active state.ownership
    && is_found (current_committee state)
    && is_found state.admin_id

-- The balance of the chain, or of an owner: `get_mut_or_default`.
unfoldable pub balance_of : Option Owner → SystemExecutionState → Amount
unfolding find
balance_of none state = state.balance
balance_of (some owner) state = default 0 (find nat_key owner state.balances)

unfoldable pub set_balance : Option Owner → Amount → SystemExecutionState → SystemExecutionState
unfolding put
set_balance none amount state = record state { balance = amount }
set_balance (some owner) amount state = record state {
  balances = put nat_key owner amount state.balances;
}

pub Committees-discrete : Discrete Committees
Committees-discrete = hlevel (ℕ_discrete, Committee-discrete)
