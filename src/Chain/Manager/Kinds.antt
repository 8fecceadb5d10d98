-- ===== src/Chain/Manager/Kinds.antt =====
-- linera-chain/src/manager/mod.rs: `ChainManager` and `ChainManagerInfo`, for a chain without owner,
-- with one owner or with several. A `panic!` is a result of its own.
use linera_protocol.Prelude.{
  ℕ, ltb, if◌then◌else◌, Bool, true, false, Option, none, some, Result, ok, err, ◌>>=◌, ◌>>◌,
  ensure,
}
use linera_protocol.Base.Arithmetic.{u64_max}
use linera_protocol.Base.Identifiers.{BlockHeight, ChainId, PublicKey, RoundNumber}
use linera_protocol.Base.Timestamp.{Timestamp}
use linera_protocol.Execution.Committee.{Epoch}
use linera_protocol.Execution.Messages.{ChainOwnership}
use linera_protocol.Chain.DataTypes.{
  BlockExecutionOutcome, BlockProposal, Certificate, LiteVote, Vote,
}
use linera_protocol.Chain.Crypto.{Crypto, KeyPair}
use linera_protocol.Chain.Errors.{ChainError, invalid_block_height}
use linera_protocol.Chain.Manager.Sampling.{Outcome, Sampling}
use linera_protocol.Chain.Manager.Single
use linera_protocol.Chain.Manager.Single.{SingleOwnerManager}
use linera_protocol.Chain.Manager.Multi
use linera_protocol.Chain.Manager.Multi.{MultiOwnerManager}
use linera_protocol.Chain.Manager.Multi.Votes
use linera_protocol.Chain.Manager.Multi.Leaders
use linera_protocol.Chain.Manager.Info
use linera_protocol.Chain.Manager.Info.{MultiOwnerManagerInfo, SingleOwnerManagerInfo}
pub mod Voting

pub data ChainManager : Type 0 where
  inactive : ChainManager
  single : SingleOwnerManager → ChainManager
  multi : MultiOwnerManager → ChainManager

-- A call that may panic.
pub data Call {ℓ} (A : Type ℓ) : Type ℓ where
  returns : A → Call A
  panics : Call A

-- `reset`: the new manager, or the error that leaves the manager as it is.
unfoldable pub reset :
    Sampling → ChainOwnership → BlockHeight → Timestamp → Result ChainError ChainManager
reset sampling ChainOwnership.inactive height now = ok inactive
reset sampling (ChainOwnership.single owner public_key) height now =
    ok (single (Single.new owner public_key))
reset sampling (ChainOwnership.multi public_keys multi_leader_rounds) height now = do
  manager ← Multi.new sampling public_keys multi_leader_rounds height now
  ok (multi manager)

pub is_active : ChainManager → Bool
is_active inactive = false
is_active _ = true

pub verify_owner : Sampling → ChainManager → BlockProposal → Option PublicKey
verify_owner sampling (single manager) proposal = Single.verify_owner manager proposal
verify_owner sampling (multi manager) proposal = Leaders.verify_owner sampling manager proposal
verify_owner sampling inactive proposal = none

unfoldable pub current_round : ChainManager → RoundNumber
current_round (multi manager) = Multi.current_round manager
current_round _ = 0

pub pending : ChainManager → Option Vote
pending (single manager) = manager.pending
pending (multi manager) = manager.pending
pending inactive = none

abbrev pub check_kind : ChainManager → BlockProposal → Call (Result ChainError Outcome)
check_kind (single manager) proposal = returns (Single.check_proposed_block manager proposal)
check_kind (multi manager) proposal = returns (Multi.check_proposed_block manager proposal)
check_kind inactive proposal = panics

unfoldable pub check_proposed_block :
    ChainManager → BlockProposal → Call (Result ChainError Outcome)
check_proposed_block manager proposal =
    if ltb proposal.content.block.height u64_max
    then check_kind manager proposal
    else returns (err invalid_block_height)

unfoldable pub check_validated_block : ChainManager → Certificate → Call (Result ChainError Outcome)
check_validated_block (multi manager) certificate =
    returns (Votes.check_validated_block manager certificate)
check_validated_block _ certificate = panics

module _ (crypto : Crypto) where
  unfoldable pub vote_leader_timeout :
      ChainManager
      → ChainId
      → BlockHeight
      → Epoch
      → Option KeyPair
      → Timestamp
      → ChainManager × Bool
  vote_leader_timeout (multi manager) chain_id height epoch key_pair now =
      let (manager', voted) =
        Votes.vote_leader_timeout crypto manager chain_id height epoch key_pair now in
      (multi manager', voted)
  vote_leader_timeout manager chain_id height epoch key_pair now = (manager, false)

  unfoldable pub create_vote :
      ChainManager
      → BlockProposal
      → BlockExecutionOutcome
      → Option KeyPair
      → Timestamp
      → Call ChainManager
  create_vote (single manager) proposal outcome key_pair now =
      returns (single (Single.create_vote crypto manager proposal outcome key_pair))
  create_vote (multi manager) proposal outcome key_pair now =
      returns (multi (Votes.create_vote crypto manager proposal outcome key_pair now))
  create_vote inactive proposal outcome key_pair now = panics

  unfoldable pub create_final_vote :
      ChainManager → Certificate → Option KeyPair → Timestamp → Call ChainManager
  create_final_vote (multi manager) certificate key_pair now =
      returns (multi (Votes.create_final_vote crypto manager certificate key_pair now))
  create_final_vote _ certificate key_pair now = panics

unfoldable pub handle_timeout_certificate :
    ChainManager → Certificate → Timestamp → Call ChainManager
handle_timeout_certificate (multi manager) certificate now =
    returns (multi (Votes.handle_timeout_certificate manager certificate now))
handle_timeout_certificate _ certificate now = panics

pub data ChainManagerInfo : Type 0 where
  inactive : ChainManagerInfo
  single : SingleOwnerManagerInfo → ChainManagerInfo
  multi : MultiOwnerManagerInfo → ChainManagerInfo

-- `From<&ChainManager>`.
unfoldable pub info_of : Sampling → ChainManager → ChainManagerInfo
info_of sampling (single manager) = single (Info.single_info manager)
info_of sampling (multi manager) = multi (Info.multi_info sampling manager)
info_of sampling inactive = inactive

-- Values of a manager of another kind are not added.
unfoldable pub add_values : ChainManagerInfo → ChainManager → ChainManagerInfo
add_values (single info) (single manager) = single (Info.add_single_values info manager)
add_values (multi info) (multi manager) = multi (Info.add_multi_values info manager)
add_values info manager = info

unfoldable pub info_pending : ChainManagerInfo → Option LiteVote
info_pending (single info) = info.pending
info_pending (multi info) = info.pending
info_pending inactive = none

unfoldable pub info_timeout_vote : ChainManagerInfo → Option LiteVote
info_timeout_vote (multi info) = info.timeout_vote
info_timeout_vote _ = none

unfoldable pub info_highest_validated : ChainManagerInfo → Option Certificate
info_highest_validated (multi info) = Info.highest_validated info
info_highest_validated _ = none

unfoldable pub info_current_round : ChainManagerInfo → RoundNumber
info_current_round (multi info) = info.current_round
info_current_round _ = 0

unfoldable pub info_next_round : ChainManagerInfo → Option RoundNumber
info_next_round (multi info) = Info.next_round info
info_next_round (single info) = some 0
info_next_round inactive = none
