-- ===== src/Chain/State.antt =====
-- linera-chain/src/chain.rs: `ChainTipState`, and of `ChainStateView` the outboxes, the counters of the
-- messages in flight and the channels.
pub mod Results
pub mod Counters
pub mod Scheduling
pub mod Delivered
pub mod Processing
pub mod Recipients
pub mod Sending
pub mod Dispatch
use linera_protocol.Prelude.{
  ℕ, ◌+◌, ◌%◌, ◌^◌, suc, zero, ltb, leb, ◌==◌, not, is_eq, if◌then◌else◌, Bool, true, false, List,
  [], ◌∷◌, Option, none, some, Result, ok, err, ◌>>=◌, ◌>>◌, ensure, map_err, ℕ_discrete,
}
use linera_protocol.Base.Arithmetic.{ArithmeticError}
use linera_protocol.Base.Identifiers.{BlockHeight, ChainId, CryptoHash}
use linera_protocol.Base.Maps.{Key, Entries, nat_key, default, delete, find, put}
use linera_protocol.Chain.DataTypes.{Block, ChannelFullName, Target}
use linera_protocol.Chain.Errors.{
  ChainError, arithmetic_error, missing_earlier_blocks, unexpected_block_height,
  unexpected_previous_block_hash,
}
use linera_protocol.Chain.Outbox
use linera_protocol.Chain.Outbox.{Outbox, mark_messages_as_received, schedule_message}
use linera_protocol.Chain.Manager.Kinds.{Call, panics, returns}

pub record ChainTipState : Type 0 where
  pub block_hash : Option CryptoHash
  pub next_block_height : BlockHeight

pub Hash-discrete : Discrete (Option CryptoHash)
Hash-discrete = hlevel ℕ_discrete

unfoldable pub verify_block_chaining : ChainTipState → Block → Result ChainError (Unit {0})
verify_block_chaining tip new_block =
    ensure (new_block.height == tip.next_block_height)
      (unexpected_block_height tip.next_block_height new_block.height)
    >> ensure (is_eq Hash-discrete new_block.previous_block_hash tip.block_hash)
        unexpected_previous_block_hash

unfoldable pub already_validated_block : ChainTipState → BlockHeight → Result ChainError Bool
already_validated_block tip height =
    ensure (leb height tip.next_block_height) (missing_earlier_blocks tip.next_block_height)
    >> ok (ltb height tip.next_block_height)

pub record ChannelState : Type 0 where
  pub subscribers : Entries ChainId (Unit {0})
  pub block_height : Option BlockHeight

-- The part of `ChainStateView` that is about outgoing messages.
pub record Deliveries : Type 0 where
  pub outboxes : Entries Target Outbox
  pub outbox_counters : Entries BlockHeight ℕ
  pub channels : Entries ChannelFullName ChannelState

-- `*entry(height).or_default() += 1`, of a `u32`.
unfoldable pub increment : BlockHeight → Entries BlockHeight ℕ → Entries BlockHeight ℕ
increment height counters =
    put nat_key height ((default 0 (find nat_key height counters) + 1) % 2 ^ 32) counters

abbrev pub next : {A B : Type 0} → Call A → (A → Call B) → Call B
next (returns a) f = f a
next panics f = panics

-- The counter of an acknowledged height, less one; it is removed at zero.
abbrev pub decremented :
    BlockHeight → Entries BlockHeight ℕ → Option ℕ → Call (Entries BlockHeight ℕ)
decremented height counters none = panics
decremented height counters (some zero) = panics
decremented height counters (some (suc zero)) = returns (delete nat_key height counters)
decremented height counters (some (suc (suc n))) = returns (put nat_key height (suc n) counters)

-- The loop over the acknowledged heights.
unfoldable pub decrement_all :
    List BlockHeight → Entries BlockHeight ℕ → Call (Entries BlockHeight ℕ)
decrement_all [] counters = returns counters
decrement_all (height ∷ rest) counters =
    next (decremented height counters (find nat_key height counters)) (decrement_all rest)

unfoldable pub first_key : Entries BlockHeight ℕ → Option BlockHeight
first_key [] = none
first_key ((height, _) ∷ _) = some height

-- `first_key_value` of the counters.
unfoldable pub all_messages_delivered_up_to : Deliveries → BlockHeight → Bool
unfolding first_key
all_messages_delivered_up_to s height = elim (first_key s.outbox_counters) [
  | none ↦ true
  | some first ↦ ltb height first
]

module _ (targets : Key Target) where
  abbrev pub or_empty : Option Outbox → Outbox
  or_empty none = Outbox.empty
  or_empty (some outbox) = outbox

  -- `try_load_entry_mut`.
  unfoldable pub outbox_of : Target → Deliveries → Outbox
  outbox_of target s = or_empty (find targets target s.outboxes)

  unfoldable pub set_outbox : Target → Outbox → Deliveries → Deliveries
  set_outbox target outbox s = record s { outboxes = put targets target outbox s.outboxes }

  -- `if outbox.schedule_message(height)? { counter += 1 }`.
  abbrev pub store_scheduled :
      Target
      → BlockHeight
      → Deliveries
      → Outbox × Result ArithmeticError Bool
      → Result ChainError Deliveries
  store_scheduled target height s (outbox, err e) = err (arithmetic_error e)
  store_scheduled target height s (outbox, ok false) = ok (set_outbox target outbox s)
  store_scheduled target height s (outbox, ok true) =
      ok (record (set_outbox target outbox s) {
        outbox_counters = increment height s.outbox_counters;
      })

  unfoldable pub schedule : Target → BlockHeight → Deliveries → Result ChainError Deliveries
  schedule target height s =
      store_scheduled target height s (schedule_message (outbox_of target s) height)

  unfoldable pub schedule_all :
      List (Target × BlockHeight) → Deliveries → Result ChainError Deliveries
  unfolding schedule
  schedule_all [] s = ok s
  schedule_all ((target, height) ∷ rest) s = schedule target height s >>= schedule_all rest

  -- `mark_messages_as_received`: an outbox whose queue is empty is removed.
  abbrev pub settle : Target → Outbox → Deliveries → List BlockHeight → Deliveries
  settle target outbox s [] = record s { outboxes = delete targets target s.outboxes }
  settle target outbox s (_ ∷ _) = set_outbox target outbox s

  abbrev pub acknowledge :
      Target → Deliveries → Outbox → List BlockHeight → Call (Deliveries × Bool)
  acknowledge target s outbox [] = returns (set_outbox target outbox s, false)
  acknowledge target s outbox (height ∷ rest) =
      next (decrement_all (height ∷ rest) s.outbox_counters) λ counters.
        returns (settle target outbox (record s { outbox_counters = counters }) outbox.queue, true)

  unfoldable pub receive_acknowledgment :
      Target → BlockHeight → Deliveries → Call (Deliveries × Bool)
  receive_acknowledgment target height s =
      let (outbox, updates) = mark_messages_as_received (outbox_of target s) height in
      acknowledge target s outbox updates
