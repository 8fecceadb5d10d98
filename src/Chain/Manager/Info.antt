-- ===== src/Chain/Manager/Info.antt =====
-- linera-chain/src/manager/multi.rs and single.rs: what a validator tells its clients of a manager
-- (`MultiOwnerManagerInfo`, `SingleOwnerManagerInfo`).
pub mod Carried
pub mod FreeRound
pub mod NextRound
use linera_protocol.Prelude.{
  ◌==◌, not, ◌&&◌, ltb, if◌then◌else◌, Bool, false, Option, none, some, Result, ok, err,
}
use linera_protocol.Base.Arithmetic.{ArithmeticError, u32_max, try_add_one}
use linera_protocol.Base.Identifiers.{Owner, PublicKey, RoundNumber}
use linera_protocol.Base.Timestamp.{Timestamp}
use linera_protocol.Chain.DataTypes.{
  BlockProposal, Certificate, HashedValue, LiteVote, Vote, lite_vote,
}
use linera_protocol.Chain.Manager.Sampling.{Sampling}
use linera_protocol.Chain.Manager.Single.{SingleOwnerManager}
use linera_protocol.Chain.Manager.Multi.{MultiOwnerManager, Owners, current_round, highest}
use linera_protocol.Chain.Manager.Multi.Leaders.{round_leader}

-- The keys of the `HashMap` are kept by increasing owner, as the manager has them.
pub record MultiOwnerManagerInfo : Type 0 where
  pub public_keys : Owners
  pub multi_leader_rounds : RoundNumber
  pub requested_proposed : Option BlockProposal
  pub requested_locked : Option Certificate
  pub leader_timeout : Option Certificate
  pub pending : Option LiteVote
  pub timeout_vote : Option LiteVote
  pub requested_pending_value : Option HashedValue
  pub current_round : RoundNumber
  pub leader : Option Owner
  pub round_timeout : Timestamp

pub record SingleOwnerManagerInfo : Type 0 where
  pub owner : Owner
  pub public_key : PublicKey
  pub pending : Option LiteVote
  pub requested_pending_value : Option HashedValue

abbrev pub lite_of : Option Vote → Option LiteVote
unfolding lite_vote
lite_of none = none
lite_of (some vote) = some (lite_vote vote)

abbrev pub value_of : Option Vote → Option HashedValue
value_of none = none
value_of (some vote) = some vote.value

-- `From<&MultiOwnerManager>`.
unfoldable pub multi_info : Sampling → MultiOwnerManager → MultiOwnerManagerInfo
multi_info sampling m =
    let round = current_round m in
    record {
      public_keys = m.public_keys;
      multi_leader_rounds = m.multi_leader_rounds;
      requested_proposed = none;
      requested_locked = none;
      leader_timeout = m.leader_timeout;
      pending = lite_of m.pending;
      timeout_vote = lite_of m.timeout_vote;
      requested_pending_value = none;
      current_round = round;
      leader = round_leader sampling m round;
      round_timeout = m.round_timeout;
    }

-- `From<&SingleOwnerManager>`.
unfoldable pub single_info : SingleOwnerManager → SingleOwnerManagerInfo
single_info m = record {
  owner = m.owner;
  public_key = m.public_key;
  pending = lite_of m.pending;
  requested_pending_value = none;
}

-- `MultiOwnerManagerInfo::add_values`.
unfoldable pub add_multi_values : MultiOwnerManagerInfo → MultiOwnerManager → MultiOwnerManagerInfo
add_multi_values info m = record info {
  requested_proposed = m.proposed;
  requested_locked = m.locked;
  requested_pending_value = value_of m.pending;
}

-- `SingleOwnerManagerInfo::add_values`.
unfoldable pub add_single_values :
    SingleOwnerManagerInfo → SingleOwnerManager → SingleOwnerManagerInfo
add_single_values info m = record info { requested_pending_value = value_of m.pending }

abbrev pub validated_of : Option BlockProposal → Option Certificate
validated_of none = none
validated_of (some proposal) = proposal.validated

-- `max_by_key` over the locked certificate and then the proposal's: the later of two equal rounds.
unfoldable pub highest_validated : MultiOwnerManagerInfo → Option Certificate
highest_validated info = highest info.requested_locked (validated_of info.requested_proposed)

abbrev pub proposed_in : Option BlockProposal → RoundNumber → Bool
proposed_in none round = false
proposed_in (some proposal) round = proposal.content.round == round

abbrev pub locked_in : Option Certificate → RoundNumber → Bool
locked_in none round = false
locked_in (some certificate) round = certificate.round == round

-- `Result::ok`.
abbrev pub ok_of : Result ArithmeticError RoundNumber → Option RoundNumber
ok_of (ok round) = some round
ok_of (err _) = none

unfoldable pub next_round : MultiOwnerManagerInfo → Option RoundNumber
unfolding try_add_one
next_round info =
    if not (proposed_in info.requested_proposed info.current_round)
      && not (locked_in info.requested_locked info.current_round)
    then some info.current_round
    else if ltb info.current_round info.multi_leader_rounds
    then ok_of (try_add_one u32_max info.current_round)
    else none
