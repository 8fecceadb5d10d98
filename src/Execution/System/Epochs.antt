-- ===== src/Execution/System/Epochs.antt =====
-- The epochs and the committees of a chain: who changes them, and how.
use linera_protocol.Prelude.{
  ◌≡◌, ◌≢◌, ◌⊎◌, refl, true, false, Bool, leb, Option, none, some, ok, arith,
}
use linera_protocol.Base.Identifiers.{ApplicationId, Bytes}
use linera_protocol.Base.Maps.{nat_key}
use linera_protocol.Base.Maps.Laws.{find-put_self}
use linera_protocol.Execution.Committee.{Committee, Epoch, try_add_one}
use linera_protocol.Execution.Messages.{
  Committees, SystemMessage, SystemOperation, create_committee, remove_committee,
}
use linera_protocol.Execution.System.{
  Encoding, Executed, MessageContext, OperationContext, SystemExecutionState, current_committee,
  equals,
}
use linera_protocol.Execution.System.Incoming.{execute_message, receive_committees}
use linera_protocol.Execution.System.Operations.{execute_create_committee, execute_operation}

-- The second epoch is not below the first.
unfoldable pub advances : Option Epoch → Option Epoch → Bool
advances none _ = true
advances (some epoch) none = false
advances (some epoch) (some next) = leb epoch next

pub advances_refl : (epoch : Option Epoch) → advances epoch epoch ≡ true
unfolding advances
advances_refl none = refl
advances_refl (some epoch) = ground arith

pub advances_trans :
    (a b c : Option Epoch) → advances a b ≡ true → advances b c ≡ true → advances a c ≡ true
unfolding advances
advances_trans none b c p q = refl
advances_trans (some a) none c p q = cc
advances_trans (some a) (some b) none p q = cc
advances_trans (some a) (some b) (some c) p q = ground arith

module _ (e : Encoding) where
  -- An operation that succeeds leaves the epoch and the committees as they were, unless the chain is
  -- the admin chain.
  pub execute_operation-committees :
      (context : OperationContext) (state : SystemExecutionState) (operation : SystemOperation)
      (executed : Executed) (new : Option (ApplicationId × Bytes))
      → execute_operation e context state operation ≡ ok (executed, new)
      → ((executed.state.epoch ≡ state.epoch) × (executed.state.committees ≡ state.committees))
        ⊎ (equals state.admin_id context.chain_id ≡ true)
  unfolding execute_operation
  execute_operation-committees context state (SystemOperation.transfer f t m d) executed new h =
      ground arith
  execute_operation-committees context state (SystemOperation.claim from target to amount d)
        executed new h =
      ground arith
  execute_operation-committees context state (SystemOperation.open_chain o a p c) executed new h =
      ground arith
  execute_operation-committees context state SystemOperation.close_chain executed new h =
      ground arith
  execute_operation-committees context state (SystemOperation.change_owner k) executed new h =
      ground arith
  execute_operation-committees context state (SystemOperation.change_multiple_owners k r) executed
        new h =
      ground arith
  execute_operation-committees context state (SystemOperation.subscribe c n) executed new h =
      ground arith
  execute_operation-committees context state (SystemOperation.unsubscribe c n) executed new h =
      ground arith
  execute_operation-committees context state (SystemOperation.publish_bytecode c s) executed new h =
      ground arith
  execute_operation-committees context state (SystemOperation.create_application b p a r) executed
        new h =
      ground arith
  execute_operation-committees context state (SystemOperation.request_application c a) executed new
        h =
      ground arith
  execute_operation-committees context state
        (SystemOperation.admin_operation (create_committee p c)) executed new h =
      ground arith
  execute_operation-committees context state (SystemOperation.admin_operation (remove_committee p))
        executed new h =
      ground arith

  -- A new committee is the one of the next epoch, and becomes the current one.
  pub execute_create_committee-current :
      (state : SystemExecutionState) (epoch : Epoch) (committee : Committee) (executed : Executed)
      → execute_create_committee e state epoch committee ≡ ok executed
      → (executed.state.epoch ≡ some epoch)
        × (advances state.epoch (some epoch) ≡ true)
        × (state.epoch ≢ some epoch)
        × (current_committee executed.state ≡ some (epoch, committee))
  unfolding execute_create_committee current_committee advances try_add_one
  execute_create_committee-current state epoch committee executed h =
      ground (arith, find-put_self nat_key epoch committee state.committees)

  receive_committees-epoch :
      (state : SystemExecutionState) (epoch : Epoch) (committees : Committees) (executed : Executed)
      → receive_committees state epoch committees ≡ ok executed
      → advances state.epoch executed.state.epoch ≡ true
  unfolding receive_committees advances
  receive_committees-epoch state epoch committees executed h = ground arith

  pub execute_operation-epoch :
      (context : OperationContext) (state : SystemExecutionState) (operation : SystemOperation)
      (executed : Executed) (new : Option (ApplicationId × Bytes))
      → execute_operation e context state operation ≡ ok (executed, new)
      → advances state.epoch executed.state.epoch ≡ true
  unfolding execute_operation
  execute_operation-epoch context state (SystemOperation.transfer f t m d) executed new h =
      ground (arith, advances_refl state.epoch)
  execute_operation-epoch context state (SystemOperation.claim from target to amount d) executed new
        h =
      ground (arith, advances_refl state.epoch)
  execute_operation-epoch context state (SystemOperation.open_chain o a p c) executed new h =
      ground (arith, advances_refl state.epoch)
  execute_operation-epoch context state SystemOperation.close_chain executed new h =
      ground (arith, advances_refl state.epoch)
  execute_operation-epoch context state (SystemOperation.change_owner k) executed new h =
      ground (arith, advances_refl state.epoch)
  execute_operation-epoch context state (SystemOperation.change_multiple_owners k r) executed new
        h =
      ground (arith, advances_refl state.epoch)
  execute_operation-epoch context state (SystemOperation.subscribe c n) executed new h =
      ground (arith, advances_refl state.epoch)
  execute_operation-epoch context state (SystemOperation.unsubscribe c n) executed new h =
      ground (arith, advances_refl state.epoch)
  execute_operation-epoch context state (SystemOperation.publish_bytecode c s) executed new h =
      ground (arith, advances_refl state.epoch)
  execute_operation-epoch context state (SystemOperation.create_application b p a r) executed new
        h =
      ground (arith, advances_refl state.epoch)
  execute_operation-epoch context state (SystemOperation.request_application c a) executed new h =
      ground (arith, advances_refl state.epoch)
  execute_operation-epoch context state (SystemOperation.admin_operation (create_committee p c))
        executed new h =
      ground (arith, advances_refl state.epoch, execute_create_committee-current state p c executed)
  execute_operation-epoch context state (SystemOperation.admin_operation (remove_committee p))
        executed new h =
      ground (arith, advances_refl state.epoch)

  pub execute_message-epoch :
      (context : MessageContext) (state : SystemExecutionState) (message : SystemMessage)
      (executed : Executed)
      → execute_message e context state message ≡ ok executed
      → advances state.epoch executed.state.epoch ≡ true
  unfolding execute_message
  execute_message-epoch context state (SystemMessage.credit t m) executed h =
      ground (arith, advances_refl state.epoch)
  execute_message-epoch context state (SystemMessage.withdraw f m t d) executed h =
      ground (arith, advances_refl state.epoch)
  execute_message-epoch context state (SystemMessage.open_chain o a p c) executed h =
      ground (arith, advances_refl state.epoch)
  execute_message-epoch context state (SystemMessage.set_committees p c) executed h =
      receive_committees-epoch state p c executed h
  execute_message-epoch context state (SystemMessage.subscribe c n) executed h =
      ground (arith, advances_refl state.epoch)
  execute_message-epoch context state (SystemMessage.unsubscribe c n) executed h =
      ground (arith, advances_refl state.epoch)
  execute_message-epoch context state (SystemMessage.bytecode_published i) executed h =
      ground (arith, advances_refl state.epoch)
  execute_message-epoch context state SystemMessage.application_created executed h =
      ground (arith, advances_refl state.epoch)
  execute_message-epoch context state (SystemMessage.bytecode_locations l) executed h =
      ground (arith, advances_refl state.epoch)
  execute_message-epoch context state (SystemMessage.register_applications a) executed h =
      ground (arith, advances_refl state.epoch)
  execute_message-epoch context state (SystemMessage.notify i) executed h =
      ground (arith, advances_refl state.epoch)
  execute_message-epoch context state (SystemMessage.request_application a) executed h =
      ground (arith, advances_refl state.epoch)
