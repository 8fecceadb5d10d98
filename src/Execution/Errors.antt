-- ===== src/Execution/Errors.antt =====
-- linera-execution/src/system.rs: `SystemExecutionError`. What the error of a view carries is left
-- out, since the views are not part of the model.
use linera_protocol.Prelude.{Result}
use linera_protocol.Base.Arithmetic.{ArithmeticError}
use linera_protocol.Base.Amount.{Amount}
use linera_protocol.Base.Identifiers.{ChainId, BytecodeId, ApplicationId}
use linera_protocol.Execution.Committee.{Epoch}
use linera_protocol.Execution.Messages.{SystemChannel}

pub data SystemExecutionError : Type 0 where
  arithmetic_error : ArithmeticError → SystemExecutionError
  view_error : SystemExecutionError
  invalid_new_chain_id : ChainId → SystemExecutionError
  invalid_new_chain_admin_id : ChainId → SystemExecutionError
  invalid_committees : SystemExecutionError
  invalid_epoch : ChainId → Epoch → SystemExecutionError
  incorrect_transfer_amount : SystemExecutionError
  unauthenticated_transfer_owner : SystemExecutionError
  insufficient_funding : Amount → SystemExecutionError
  incorrect_claim_amount : SystemExecutionError
  unauthenticated_claim_owner : SystemExecutionError
  admin_operation_on_non_admin_chain : SystemExecutionError
  invalid_committee_creation : SystemExecutionError
  invalid_committee_removal : SystemExecutionError
  invalid_admin_subscription : ChainId → SystemChannel → SystemExecutionError
  self_subscription : ChainId → SystemChannel → SystemExecutionError
  no_such_channel : ChainId → SystemChannel → SystemExecutionError
  invalid_unsubscription : ChainId → SystemChannel → SystemExecutionError
  amount_overflow : SystemExecutionError
  amount_underflow : SystemExecutionError
  balance_overflow : SystemExecutionError
  balance_underflow : SystemExecutionError
  cannot_rewind_epoch : SystemExecutionError
  ticks_out_of_order : SystemExecutionError
  unknown_bytecode_id : BytecodeId → SystemExecutionError
  unknown_application_id : ApplicationId → SystemExecutionError

-- How a call ends without a result: with an error, by a failed `expect` or `assert!`, or, in the
-- model alone, because the fuel of a loop has run out.
pub data Failure : Type 0 where
  error : SystemExecutionError → Failure
  panic out_of_fuel : Failure

abbrev pub SystemResult : Type 0 → Type 0
SystemResult A = Result Failure A
