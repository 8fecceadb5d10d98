-- ===== src/Execution/Messages.antt =====
-- linera-execution/src/system.rs, lib.rs, ownership.rs and applications.rs: the operations and the
-- messages of a block, with all that they carry.
use linera_protocol.Prelude.{ℕ, List, Option, [], ◌∷◌, map, ℕ_discrete}
use linera_protocol.Base.Amount.{Amount}
use linera_protocol.Base.Identifiers.{
  CryptoHash, PublicKey, Owner, ChainId, RoundNumber, Bytes, MessageId, BytecodeId, ApplicationId,
  ChannelName,
}
use linera_protocol.Execution.Committee.{Epoch, Committee, Committee-discrete}

-- The entries of the `BTreeMap` stand by increasing owner.
pub data ChainOwnership : Type 0 where
  inactive : ChainOwnership
  single : Owner → PublicKey → ChainOwnership
  multi : List (Owner × PublicKey × ℕ) → RoundNumber → ChainOwnership

pub record Account : Type 0 where
  pub chain_id : ChainId
  pub owner : Option Owner

pub data Recipient : Type 0 where
  burn : Recipient
  account : Account → Recipient

abbrev pub UserData : Type 0
UserData = Option Bytes

pub data SystemChannel : Type 0 where
  admin published_bytecodes : SystemChannel

pub record ChannelSubscription : Type 0 where
  pub chain_id : ChainId
  pub name : ChannelName

pub record BytecodeLocation : Type 0 where
  pub certificate_hash : CryptoHash
  pub operation_index : ℕ

pub record UserApplicationDescription : Type 0 where
  pub bytecode_id : BytecodeId
  pub bytecode_location : BytecodeLocation
  pub creation : MessageId
  pub parameters : Bytes
  pub required_application_ids : List ApplicationId

-- `BTreeMap<Epoch, Committee>`.
abbrev pub Committees : Type 0
Committees = List (Epoch × Committee)

pub data AdminOperation : Type 0 where
  create_committee : Epoch → Committee → AdminOperation
  remove_committee : Epoch → AdminOperation

pub data SystemOperation : Type 0 where
  transfer : Option Owner → Recipient → Amount → UserData → SystemOperation
  claim : Owner → ChainId → Recipient → Amount → UserData → SystemOperation
  open_chain : ChainOwnership → ChainId → Epoch → Committees → SystemOperation
  close_chain : SystemOperation
  change_owner : PublicKey → SystemOperation
  change_multiple_owners : List (PublicKey × ℕ) → RoundNumber → SystemOperation
  subscribe : ChainId → SystemChannel → SystemOperation
  unsubscribe : ChainId → SystemChannel → SystemOperation
  publish_bytecode : Bytes → Bytes → SystemOperation
  create_application : BytecodeId → Bytes → Bytes → List ApplicationId → SystemOperation
  request_application : ChainId → ApplicationId → SystemOperation
  admin_operation : AdminOperation → SystemOperation

pub data SystemMessage : Type 0 where
  credit : Account → Amount → SystemMessage
  withdraw : Account → Amount → Recipient → UserData → SystemMessage
  open_chain : ChainOwnership → ChainId → Epoch → Committees → SystemMessage
  set_committees : Epoch → Committees → SystemMessage
  subscribe : ChainId → ChannelSubscription → SystemMessage
  unsubscribe : ChainId → ChannelSubscription → SystemMessage
  bytecode_published : ℕ → SystemMessage
  application_created : SystemMessage
  bytecode_locations : List (BytecodeId × BytecodeLocation) → SystemMessage
  register_applications : List UserApplicationDescription → SystemMessage
  notify : ChainId → SystemMessage
  request_application : ApplicationId → SystemMessage

pub data Operation : Type 0 where
  system : SystemOperation → Operation
  user : ApplicationId → Bytes → Operation

pub data Message : Type 0 where
  system : SystemMessage → Message
  user : ApplicationId → Bytes → Message

pub Operation-discrete : Discrete Operation
Operation-discrete = hlevel (ℕ_discrete, Committee-discrete)

pub Message-discrete : Discrete Message
Message-discrete = hlevel (ℕ_discrete, Committee-discrete)

-- `SystemMessage::bytecode_locations`.
unfoldable pub locations : SystemMessage → CryptoHash → List BytecodeLocation
locations (bytecode_published index) hash =
    record { certificate_hash = hash; operation_index = index } ∷ []
locations (bytecode_locations new_locations) hash = map (λ l. l.1) new_locations
locations (register_applications applications) hash =
    map (λ app. app.bytecode_location) applications
locations _ hash = []
