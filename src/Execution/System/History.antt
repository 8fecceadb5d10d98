-- ===== src/Execution/System/History.antt =====
-- The calls of a chain, one after the other: operations that it executes and messages that it
-- receives. A run stops at the first call that fails.
use linera_protocol.Prelude.{
  ℕ, ◌+◌, ◌≤◌, ◌≡◌, sym, ap, subst, true, List, [], ◌∷◌, ◌++◌, ok, ◌>>=◌, >>=-ok, ok_inj, arith,
}
use linera_protocol.Execution.Errors.{SystemResult}
use linera_protocol.Execution.Messages.{SystemMessage, SystemOperation}
use linera_protocol.Execution.System.{
  Encoding, Executed, MessageContext, OperationContext, SystemExecutionState,
}
use linera_protocol.Execution.System.Operations.{Sent, execute_operation}
use linera_protocol.Execution.System.Incoming.{execute_message}
use linera_protocol.Execution.System.Tokens.{
  burned, carried, carried_all, execute_message-tokens, execute_operation-tokens, tokens,
}
use linera_protocol.Execution.System.Epochs.{
  advances, advances_refl, advances_trans, execute_message-epoch, execute_operation-epoch,
}

pub data SystemCall : Type 0 where
  operation : OperationContext → SystemOperation → SystemCall
  message : MessageContext → SystemMessage → SystemCall

-- The tokens that come with the messages of a run, and the tokens that it destroys on purpose.
unfoldable pub received : List SystemCall → ℕ
received [] = 0
received (operation _ _ ∷ calls) = received calls
received (message _ m ∷ calls) = carried m + received calls

unfoldable pub destroyed : List SystemCall → ℕ
destroyed [] = 0
destroyed (operation _ o ∷ calls) = burned o + destroyed calls
destroyed (message _ _ ∷ calls) = destroyed calls

received-cons :
    (c : SystemCall) (calls : List SystemCall)
    → received (c ∷ calls) ≡ received (c ∷ []) + received calls
unfolding received
received-cons (operation _ _) calls = omega arith
received-cons (message _ m) calls = omega arith

destroyed-cons :
    (c : SystemCall) (calls : List SystemCall)
    → destroyed (c ∷ calls) ≡ destroyed (c ∷ []) + destroyed calls
unfolding destroyed
destroyed-cons (operation _ o) calls = omega arith
destroyed-cons (message _ _) calls = omega arith

carried_all-append : (a b : List Sent) → carried_all (a ++ b) ≡ carried_all a + carried_all b
unfolding carried_all
carried_all-append [] b = omega arith
carried_all-append (m ∷ a) b = omega (arith, carried_all-append a b)

module _ (e : Encoding) where
  unfoldable pub call : SystemCall → SystemExecutionState → SystemResult Executed
  unfolding execute_operation execute_message
  call (operation context o) state =
      execute_operation e context state o >>= λ executed. ok executed.0
  call (message context m) state = execute_message e context state m

  -- The state at the end of the calls, and all that they have sent.
  unfoldable pub run :
      List SystemCall → SystemExecutionState → SystemResult (SystemExecutionState × List Sent)
  unfolding call
  run [] state = ok (state, [])
  run (c ∷ calls) state = call c state >>= λ executed.
      run calls executed.state >>= λ rest. ok (rest.0, executed.result.messages ++ rest.1)

  call-tokens :
      (c : SystemCall) (state : SystemExecutionState) (executed : Executed)
      → call c state ≡ ok executed
      → tokens executed.state + carried_all executed.result.messages + destroyed (c ∷ [])
        ≤ tokens state + received (c ∷ [])
  unfolding call received destroyed
  call-tokens (operation context o) state executed h =
      let ((x, new), p, q) = >>=-ok (execute_operation e context state o) _ h in
      let t = execute_operation-tokens e context state o x new p in
      rw (sym (ok_inj q)) (omega (arith, t))
  call-tokens (message context m) state executed h =
      omega (arith, execute_message-tokens e context state m executed h)

  call-epoch :
      (c : SystemCall) (state : SystemExecutionState) (executed : Executed)
      → call c state ≡ ok executed
      → advances state.epoch executed.state.epoch ≡ true
  unfolding call
  call-epoch (operation context o) state executed h =
      let ((x, new), p, q) = >>=-ok (execute_operation e context state o) _ h in
      rw (sym (ok_inj q)) (execute_operation-epoch e context state o x new p)
  call-epoch (message context m) state executed h =
      execute_message-epoch e context state m executed h

  -- No run makes tokens: those that the chain has at the end, those that it has sent and those that it
  -- has burned come from those that it had and those that it has received.
  pub run-tokens :
      (calls : List SystemCall) (state end : SystemExecutionState) (sent : List Sent)
      → run calls state ≡ ok (end, sent)
      → tokens end + carried_all sent + destroyed calls ≤ tokens state + received calls
  unfolding run received destroyed carried_all
  run-tokens [] state end sent h =
      subst (λ r. tokens r.0 + carried_all r.1 + 0 ≤ tokens state + 0) (ok_inj h) (omega arith)
  run-tokens (c ∷ calls) state end sent h =
      let (x, p, q) = >>=-ok (call c state) _ h in
      let ((end', sent'), p', q') = >>=-ok (run calls x.state) _ q in
      let ih = run-tokens calls x.state end' sent' p' in
      let t = call-tokens c state x p in
      subst
        (λ r.
          tokens r.0 + carried_all r.1 + destroyed (c ∷ calls)
          ≤ tokens state + received (c ∷ calls))
        (ok_inj q')
        (omega (
          arith,
          ih,
          t,
          received-cons c calls,
          destroyed-cons c calls,
          carried_all-append x.result.messages sent',
        ))

  -- No run takes a chain back to an earlier epoch.
  pub run-epoch :
      (calls : List SystemCall) (state end : SystemExecutionState) (sent : List Sent)
      → run calls state ≡ ok (end, sent)
      → advances state.epoch end.epoch ≡ true
  unfolding run
  run-epoch [] state end sent h = rw (sym (ap (λ r. r.0) (ok_inj h))) (advances_refl state.epoch)
  run-epoch (c ∷ calls) state end sent h =
      let (x, p, q) = >>=-ok (call c state) _ h in
      let ((end', sent'), p', q') = >>=-ok (run calls x.state) _ q in
      rw (sym (ap (λ r. r.0) (ok_inj q'))) (
        advances_trans state.epoch x.state.epoch end'.epoch (call-epoch c state x p)
          (run-epoch calls x.state end' sent' p'))
