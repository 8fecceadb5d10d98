-- ===== src/Chain/DataTypes.antt =====
-- linera-chain/src/data_types.rs: blocks, proposals, votes and certificates, with their accessors.
use linera_protocol.Prelude.{
  ℕ, Bool, true, false, ◌&&◌, ltb, ◌==◌, length, List, Option, none, some, ℕ_discrete,
}
use linera_protocol.Base.Identifiers.{
  CryptoHash, Signature, Owner, ChainId, BlockHeight, RoundNumber, ChannelName, MessageId,
  ApplicationId, Destination,
}
use linera_protocol.Base.Timestamp.{Timestamp}
use linera_protocol.Execution.Committee.{Epoch, ValidatorName}
use linera_protocol.Execution.Messages.{Message, Operation, Message-discrete, Operation-discrete}

-- linera-base/src/identifiers.rs.
pub data GenericApplicationId : Type 0 where
  system : GenericApplicationId
  user : ApplicationId → GenericApplicationId

pub record ChannelFullName : Type 0 where
  pub application_id : GenericApplicationId
  pub name : ChannelName

pub data Medium : Type 0 where
  direct : Medium
  channel : ChannelFullName → Medium

pub record Origin : Type 0 where
  pub sender : ChainId
  pub medium : Medium

pub record Target : Type 0 where
  pub recipient : ChainId
  pub medium : Medium

pub record Event : Type 0 where
  pub certificate_hash : CryptoHash
  pub height : BlockHeight
  pub index : ℕ
  pub authenticated_signer : Option Owner
  pub is_skippable : Bool
  pub timestamp : Timestamp
  pub message : Message

pub record IncomingMessage : Type 0 where
  pub origin : Origin
  pub event : Event

pub record Block : Type 0 where
  pub chain_id : ChainId
  pub epoch : Epoch
  pub incoming_messages : List IncomingMessage
  pub operations : List Operation
  pub height : BlockHeight
  pub timestamp : Timestamp
  pub authenticated_signer : Option Owner
  pub previous_block_hash : Option CryptoHash

pub record BlockAndRound : Type 0 where
  pub block : Block
  pub round : RoundNumber

pub record OutgoingMessage : Type 0 where
  pub destination : Destination
  pub authenticated_signer : Option Owner
  pub is_skippable : Bool
  pub message : Message

pub record ExecutedBlock : Type 0 where
  pub block : Block
  pub messages : List OutgoingMessage
  pub message_counts : List ℕ
  pub state_hash : CryptoHash

pub record BlockExecutionOutcome : Type 0 where
  pub messages : List OutgoingMessage
  pub message_counts : List ℕ
  pub state_hash : CryptoHash

pub data CertificateValue : Type 0 where
  validated_block : ExecutedBlock → CertificateValue
  confirmed_block : ExecutedBlock → CertificateValue
  leader_timeout : ChainId → BlockHeight → Epoch → CertificateValue

-- The source keeps both fields private: a value read from outside has its hash computed anew.
pub record HashedValue : Type 0 where
  pub value : CertificateValue
  pub hash : CryptoHash

pub record LiteValue : Type 0 where
  pub value_hash : CryptoHash
  pub chain_id : ChainId

pub record Vote : Type 0 where
  pub value : HashedValue
  pub round : RoundNumber
  pub validator : ValidatorName
  pub signature : Signature

pub record LiteVote : Type 0 where
  pub value : LiteValue
  pub round : RoundNumber
  pub validator : ValidatorName
  pub signature : Signature

abbrev pub Signatures : Type 0
Signatures = List (ValidatorName × Signature)

pub record LiteCertificate : Type 0 where
  pub value : LiteValue
  pub round : RoundNumber
  pub signatures : Signatures

pub record Certificate : Type 0 where
  pub value : HashedValue
  pub round : RoundNumber
  pub signatures : Signatures

pub record BlockProposal : Type 0 where
  pub content : BlockAndRound
  pub owner : Owner
  pub signature : Signature
  pub blobs : List HashedValue
  pub validated : Option Certificate

pub Origin-discrete : Discrete Origin
Origin-discrete = hlevel ℕ_discrete

pub Event-discrete : Discrete Event
Event-discrete = hlevel (ℕ_discrete, Message-discrete)

pub Block-discrete : Discrete Block
Block-discrete = hlevel (ℕ_discrete, Message-discrete, Operation-discrete)

pub BlockAndRound-discrete : Discrete BlockAndRound
BlockAndRound-discrete = hlevel (ℕ_discrete, Block-discrete)

pub LiteValue-discrete : Discrete LiteValue
LiteValue-discrete = hlevel ℕ_discrete

unfoldable pub chain_id : CertificateValue → ChainId
chain_id (validated_block b) = b.block.chain_id
chain_id (confirmed_block b) = b.block.chain_id
chain_id (leader_timeout id _ _) = id

pub height : CertificateValue → BlockHeight
height (validated_block b) = b.block.height
height (confirmed_block b) = b.block.height
height (leader_timeout _ h _) = h

unfoldable pub epoch : CertificateValue → Epoch
epoch (validated_block b) = b.block.epoch
epoch (confirmed_block b) = b.block.epoch
epoch (leader_timeout _ _ e) = e

unfoldable pub is_confirmed : CertificateValue → Bool
is_confirmed (confirmed_block _) = true
is_confirmed _ = false

unfoldable pub is_validated : CertificateValue → Bool
is_validated (validated_block _) = true
is_validated _ = false

unfoldable pub is_timeout : CertificateValue → Bool
is_timeout (leader_timeout _ _ _) = true
is_timeout _ = false

unfoldable pub executed_block : CertificateValue → Option ExecutedBlock
executed_block (validated_block b) = some b
executed_block (confirmed_block b) = some b
executed_block (leader_timeout _ _ _) = none

abbrev block_of : Option ExecutedBlock → Option Block
block_of none = none
block_of (some b) = some b.block

-- `CertificateValue::block`.
unfoldable pub block : CertificateValue → Option Block
unfolding executed_block
block v = block_of (executed_block v)

abbrev has_message_at : CertificateValue → MessageId → Option ExecutedBlock → Bool
has_message_at v id none = false
has_message_at v id (some b) =
    height v == id.height && chain_id v == id.chain_id && ltb id.index (length b.messages)

-- A `u32` index always fits a `usize`.
unfoldable pub has_message : CertificateValue → MessageId → Bool
unfolding executed_block height chain_id
has_message v id = has_message_at v id (executed_block v)

-- `BlockExecutionOutcome::with`.
unfoldable pub executed_with : BlockExecutionOutcome → Block → ExecutedBlock
executed_with outcome b = record {
  block = b;
  messages = outcome.messages;
  message_counts = outcome.message_counts;
  state_hash = outcome.state_hash;
}

-- `HashedValue::lite`.
unfoldable pub lite_value : HashedValue → LiteValue
unfolding chain_id
lite_value v = record { value_hash = v.hash; chain_id = chain_id v.value }

-- `Vote::lite`.
unfoldable pub lite_vote : Vote → LiteVote
unfolding lite_value
lite_vote v = record {
  value = lite_value v.value;
  round = v.round;
  validator = v.validator;
  signature = v.signature;
}
