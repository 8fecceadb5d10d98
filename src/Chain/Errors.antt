-- ===== src/Chain/Errors.antt =====
-- linera-chain/src/lib.rs: `ChainError`. What an error of another crate carries is left out, but for
-- arithmetic; so is the text of `CertificateSignatureVerificationFailed`.
use Prim.Native.String.{String}
use linera_protocol.Prelude.{ℕ}
use linera_protocol.Base.Arithmetic.{ArithmeticError}
use linera_protocol.Base.Identifiers.{ChainId, BlockHeight, RoundNumber}
use linera_protocol.Base.Timestamp.{Timestamp}
use linera_protocol.Chain.DataTypes.{Event, Origin}

pub data ChainError : Type 0 where
  crypto_error : ChainError
  arithmetic_error : ArithmeticError → ChainError
  view_error : ChainError
  execution_error : ChainError
  pricing_error : ChainError
  inactive_chain : ChainId → ChainError
  missing_cross_chain_update : ChainId → Origin → BlockHeight → ChainError
  unexpected_message : ChainId → Origin → Event → Event → ChainError
  incorrect_message_order : ChainId → Origin → Event → BlockHeight → ℕ → ChainError
  unskippable_message : ChainId → Origin → Event → ChainError
  incorrect_event_timestamp : ChainId → Timestamp → Timestamp → ChainError
  invalid_signer : ChainError
  unexpected_block_height : BlockHeight → BlockHeight → ChainError
  unexpected_previous_block_hash : ChainError
  invalid_block_height : ChainError
  invalid_block_timestamp : ChainError
  previous_block_must_be_confirmed_first : ChainError
  invalid_block_proposal : ChainError
  insufficient_round : RoundNumber → ChainError
  wrong_round : RoundNumber → ChainError
  has_locked_block : BlockHeight → RoundNumber → ChainError
  missing_earlier_blocks : BlockHeight → ChainError
  certificate_validator_reuse : ChainError
  certificate_requires_quorum : ChainError
  certificate_signature_verification_failed : ChainError
  internal_error : String → ChainError
  insufficient_balance : ChainError
  owner_weight_error : ChainError
