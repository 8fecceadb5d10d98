-- ===== src/Chain/Manager/Multi/Leaders.antt =====
-- linera-chain/src/manager/multi.rs: who may propose a block in a round.
use linera_protocol.Prelude.{
  ℕ, ◌+◌, ◌*◌, ◌/◌, ◌%◌, ◌^◌, ltb, ◌==◌, if◌then◌else◌, Option, none, some, get_elem?,
}
use linera_protocol.Base.Identifiers.{Owner, PublicKey, RoundNumber}
use linera_protocol.Execution.Ownership.{key_of}
use linera_protocol.Chain.DataTypes.{BlockProposal}
use linera_protocol.Chain.Manager.Sampling.{Sampling}
use linera_protocol.Chain.Manager.Multi.{MultiOwnerManager, weights}

-- `u64::rotate_left(32)`.
rotate_left_32 : ℕ → ℕ
rotate_left_32 x = x * 2 ^ 32 % 2 ^ 64 + x / 2 ^ 32

abbrev pub leader_key : Owner → Option (Owner × PublicKey × ℕ) → Option PublicKey
leader_key owner none = none
leader_key owner (some (leader, key, _)) = if leader == owner then some key else none

abbrev pub leader_name : Option (Owner × PublicKey × ℕ) → Option Owner
leader_name none = none
leader_name (some (leader, _, _)) = some leader

module _ (sampling : Sampling) where
  unfoldable pub round_leader_index : MultiOwnerManager → RoundNumber → ℕ
  unfolding rotate_left_32
  round_leader_index m round =
      sampling.sample (weights m.public_keys) ((rotate_left_32 round + m.seed) % 2 ^ 64)

  unfoldable pub verify_owner : MultiOwnerManager → BlockProposal → Option PublicKey
  unfolding key_of
  verify_owner m proposal =
      if ltb proposal.content.round m.multi_leader_rounds
      then key_of proposal.owner m.public_keys
      else leader_key proposal.owner
          (get_elem? m.public_keys (round_leader_index m proposal.content.round))

  unfoldable pub round_leader : MultiOwnerManager → RoundNumber → Option Owner
  round_leader m round =
      if ltb round m.multi_leader_rounds
      then none
      else leader_name (get_elem? m.public_keys (round_leader_index m round))
