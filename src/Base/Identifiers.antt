-- ===== src/Base/Identifiers.antt =====
-- linera-base/src/identifiers.rs and crypto.rs: identifiers. A hash, a public key, a signature and
-- a key pair are fixed strings of bytes; each is the number that its bytes write, most significant
-- byte first, whose order is the derived order of the bytes.
use linera_protocol.Prelude.{ℕ, List, Bool, true, false, ℕ_discrete}

abbrev pub CryptoHash : Type 0
CryptoHash = ℕ

abbrev pub PublicKey : Type 0
PublicKey = ℕ

abbrev pub Signature : Type 0
Signature = ℕ

abbrev pub Owner : Type 0
Owner = CryptoHash

abbrev pub ChainId : Type 0
ChainId = CryptoHash

abbrev pub BlockHeight : Type 0
BlockHeight = ℕ

abbrev pub RoundNumber : Type 0
RoundNumber = ℕ

abbrev pub Bytes : Type 0
Bytes = List ℕ

pub record MessageId : Type 0 where
  pub chain_id : ChainId
  pub height : BlockHeight
  pub index : ℕ

pub data ChainDescription : Type 0 where
  root : ℕ → ChainDescription
  child : MessageId → ChainDescription

-- `BytecodeId` and `ApplicationId` without their phantom type argument.
pub record BytecodeId : Type 0 where
  pub message_id : MessageId

pub record ApplicationId : Type 0 where
  pub bytecode_id : BytecodeId
  pub creation : MessageId

abbrev pub ChannelName : Type 0
ChannelName = Bytes

pub data Destination : Type 0 where
  recipient : ChainId → Destination
  subscribers : ChannelName → Destination

unfoldable pub is_channel : Destination → Bool
is_channel (recipient _) = false
is_channel (subscribers _) = true

pub ApplicationId-discrete : Discrete ApplicationId
ApplicationId-discrete = hlevel ℕ_discrete

pub Destination-discrete : Discrete Destination
Destination-discrete = hlevel ℕ_discrete
