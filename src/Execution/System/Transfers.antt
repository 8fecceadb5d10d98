-- ===== src/Execution/System/Transfers.antt =====
-- `Transfer`: when it succeeds, and what it then does.
use linera_protocol.Prelude.{
  ◌-◌, ◌≤◌, ◌<◌, ◌≡◌, ◌↔◌, refl, sym, ap, ◌∙◌, ltb, leb, leb→le, true, false, [], Option, some, ok,
  err, ensure-ok, ok_inj, arith,
}
use linera_protocol.Base.Arithmetic.{try_sub_assign}
use linera_protocol.Base.Amount.{Amount}
use linera_protocol.Base.Identifiers.{ApplicationId, Bytes, Owner}
use linera_protocol.Execution.Messages.{Recipient, SystemOperation, UserData}
use linera_protocol.Execution.Errors.{SystemResult}
use linera_protocol.Execution.System.{
  Encoding, Executed, OperationContext, SystemExecutionState, balance_of, sends, set_balance,
}
use linera_protocol.Execution.System.Incoming.{receive_withdraw}
use linera_protocol.Execution.System.Operations.{
  credits, execute_operation, execute_transfer, signs_for, without,
}

-- The amount leaves the balance, and a credit is sent to the recipient if it is an account.
abbrev pub transferred : SystemExecutionState → Option Owner → Recipient → Amount → Executed
transferred state owner to amount = record {
  state = set_balance owner (balance_of owner state - amount) state;
  result = sends (credits to amount);
}

execute_transfer-enough :
    (context : OperationContext) (state : SystemExecutionState) (owner : Option Owner)
    (to : Recipient) (amount : Amount)
    → signs_for context.authenticated_signer owner ≡ true
    → ltb 0 amount ≡ true
    → leb amount (balance_of owner state) ≡ true
    → execute_transfer context state owner to amount ≡ ok (transferred state owner to amount)
unfolding execute_transfer try_sub_assign
execute_transfer-enough context state owner to amount s p b = rw (s, p, b) refl

-- A transfer succeeds exactly if the owner has signed, where there is one, and the amount is positive
-- and within the balance. It then takes the amount from this balance and credits the recipient.
pub execute_transfer_iff :
    (context : OperationContext) (state : SystemExecutionState) (owner : Option Owner)
    (to : Recipient) (amount : Amount) (executed : Executed)
    → (execute_transfer context state owner to amount ≡ ok executed) ↔ (
        (signs_for context.authenticated_signer owner ≡ true)
        × (0 < amount)
        × (amount ≤ balance_of owner state)
        × (transferred state owner to amount ≡ executed))
unfolding execute_transfer
execute_transfer_iff context state owner to amount executed = (
  λ h.
      let (s, h1) = ensure-ok _ _ _ h in
      let (p, h2) = ensure-ok _ _ _ h1 in
      let (b, h3) = ensure-ok _ _ _ h2 in
      (
        s,
        ground arith,
        leb→le amount (balance_of owner state) b,
        ok_inj (sym (execute_transfer-enough context state owner to amount s p b) ∙ h),
      ),
  λ (s, p, b, q).
      execute_transfer-enough context state owner to amount s (ground arith) (ground arith)
      ∙ ap ok q,
)

without-ok :
    (m : SystemResult Executed) (executed : Executed) (new : Option (ApplicationId × Bytes))
    → without m ≡ ok (executed, new)
    → m ≡ ok executed
without-ok (ok x) executed new h = cc
without-ok (err f) executed new h = cc

pub transfer-ok :
    (e : Encoding) (context : OperationContext) (state : SystemExecutionState)
    (owner : Option Owner) (to : Recipient) (amount : Amount) (user_data : UserData)
    (executed : Executed) (new : Option (ApplicationId × Bytes))
    → execute_operation e context state (SystemOperation.transfer owner to amount user_data)
      ≡ ok (executed, new)
    → execute_transfer context state owner to amount ≡ ok executed
unfolding execute_operation
transfer-ok e context state owner to amount user_data executed new h = without-ok _ executed new h

-- A withdrawal transfers the amount if the balance covers it, and changes nothing else.
pub receive_withdraw-enough :
    (state : SystemExecutionState) (owner : Owner) (amount : Amount) (to : Recipient)
    → leb amount (balance_of (some owner) state) ≡ true
    → receive_withdraw state owner amount to ≡ transferred state (some owner) to amount
unfolding receive_withdraw try_sub_assign
receive_withdraw-enough state owner amount to b = rw b refl

pub receive_withdraw-short :
    (state : SystemExecutionState) (owner : Owner) (amount : Amount) (to : Recipient)
    → leb amount (balance_of (some owner) state) ≡ false
    → receive_withdraw state owner amount to ≡ record {
      state = set_balance (some owner) (balance_of (some owner) state) state;
      result = sends [];
    }
unfolding receive_withdraw try_sub_assign
receive_withdraw-short state owner amount to b = rw b refl
