-- ===== src/Execution/System/Opening.antt =====
-- `OpenChain` on the parent and `open_chain` on its child, together.
use linera_protocol.Prelude.{◌≡◌, [], none}
use linera_protocol.Base.Timestamp.{Timestamp}
use linera_protocol.Execution.Messages.{inactive}
use linera_protocol.Execution.Ownership.{is_active as ownership_is_active}
use linera_protocol.Execution.System.{SystemExecutionState, is_active}

-- A chain of which nothing is known yet.
pub record IsFresh (state : SystemExecutionState) : Type 0 where
  pub no_description : state.description ≡ none
  pub no_owner : state.ownership ≡ inactive
  pub no_committee : state.committees ≡ []
