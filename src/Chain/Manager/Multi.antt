-- ===== src/Chain/Manager/Multi.antt =====
-- linera-chain/src/manager/multi.rs: `MultiOwnerManager`. Times are microseconds, as `Timestamp`s.
pub mod Votes
pub mod Effects
pub mod Rounds
pub mod Steps
pub mod History
pub mod Casting
pub mod Ballots
pub mod Repeats
pub mod Locking
pub mod Proposing
pub mod Confirming
pub mod Safety
pub mod Leaders
pub mod Turns
use linera_protocol.Prelude.{
  ℕ, ◌+◌, ◌*◌, ◌-◌, ◌/◌, ◌%◌, ◌^◌, max, ltb, leb, ◌==◌, not, ◌&&◌, ◌||◌, is_eq, if◌then◌else◌, Bool,
  true, false, List, [], ◌∷◌, map, Option, none, some, Result, ok, err, ◌>>=◌, ◌>>◌, ensure,
  map_err, get_elem?,
}
use linera_protocol.Base.Arithmetic.{
  ArithmeticError, u32_max, u64_max, try_add_one, try_sub_one, saturating_add, saturating_mul,
}
use linera_protocol.Base.Identifiers.{BlockHeight, ChainId, Owner, PublicKey, RoundNumber}
use linera_protocol.Base.Timestamp.{Timestamp, add_duration}
use linera_protocol.Execution.Committee.{Epoch}
use linera_protocol.Chain.DataTypes.{
  Block, Block-discrete, BlockAndRound-discrete, BlockExecutionOutcome, BlockProposal, Certificate,
  CertificateValue, HashedValue, Vote, block, executed_with, is_timeout, is_validated,
  validated_block, confirmed_block, leader_timeout,
}
use linera_protocol.Chain.Crypto.{
  Crypto, KeyPair, into_confirmed, new_leader_timeout, new_validated, new_vote,
}
use linera_protocol.Chain.Errors.{
  ChainError, arithmetic_error, has_locked_block, insufficient_round, internal_error,
  invalid_block_proposal, owner_weight_error, wrong_round,
}
use linera_protocol.Chain.Manager.Sampling.{Outcome, Sampling, accept, skip}

-- `TIMEOUT`, in microseconds.
abbrev pub timeout : ℕ
timeout = 10000000

-- `BTreeMap<Owner, (PublicKey, u64)>`: its entries, by increasing owner.
abbrev pub Owners : Type 0
Owners = List (Owner × PublicKey × ℕ)

-- The source also keeps the distribution, which the weights of `public_keys` determine.
pub record MultiOwnerManager : Type 0 where
  pub public_keys : Owners
  pub multi_leader_rounds : RoundNumber
  pub seed : ℕ
  pub proposed : Option BlockProposal
  pub locked : Option Certificate
  pub leader_timeout : Option Certificate
  pub pending : Option Vote
  pub timeout_vote : Option Vote
  pub round_timeout : Timestamp

abbrev pub weights : Owners → List ℕ
weights = map (λ o. o.2)

-- `MultiOwnerManager::new`. The owners are the entries of the map that the source collects.
unfoldable pub new :
    Sampling → Owners → RoundNumber → ℕ → Timestamp → Result ChainError MultiOwnerManager
new sampling public_keys multi_leader_rounds seed now = do
  map_err (λ _. owner_weight_error) (sampling.accepts (weights public_keys))
  ok (record {
    public_keys = public_keys;
    multi_leader_rounds = multi_leader_rounds;
    seed = seed;
    proposed = none;
    locked = none;
    leader_timeout = none;
    pending = none;
    timeout_vote = none;
    round_timeout = add_duration now timeout;
  })

-- The round after that of a timeout certificate, or the largest one; 0 where there is none.
unfoldable pub timeout_round : Option Certificate → RoundNumber
unfolding try_add_one
timeout_round none = 0
timeout_round (some certificate) = elim (try_add_one u32_max certificate.round) [
  | ok round ↦ round
  | err _ ↦ u32_max
]

unfoldable pub locked_round : Option Certificate → RoundNumber
locked_round none = 0
locked_round (some certificate) = certificate.round

unfoldable pub proposed_round : Option BlockProposal → RoundNumber
proposed_round none = 0
proposed_round (some proposal) = proposal.content.round

-- `current_round`: the maximum of the rounds that there are, and 0 where there is none.
unfoldable pub current_round : MultiOwnerManager → RoundNumber
unfolding timeout_round locked_round proposed_round
current_round m =
    max (timeout_round m.leader_timeout) (max (locked_round m.locked) (proposed_round m.proposed))

-- `proposal.validated` may only be a certificate for a validated block.
unfoldable pub check_validated_value : Option Certificate → Result ChainError (Unit {0})
unfolding is_validated
check_validated_value none = ok tt
check_validated_value (some certificate) =
    ensure (is_validated certificate.value.value) invalid_block_proposal

unfoldable pub expected_round :
    MultiOwnerManager → Option Certificate → Result ChainError RoundNumber
unfolding current_round try_add_one
expected_round m none = ok (current_round m)
expected_round m (some certificate) = do
  next ← map_err arithmetic_error (try_add_one u32_max certificate.round)
  ok (max next (current_round m))

unfoldable pub check_round :
    MultiOwnerManager → RoundNumber → RoundNumber → Result ChainError (Unit {0})
check_round m expected new_round =
    if ltb m.multi_leader_rounds new_round
    then ensure (expected == new_round) (wrong_round expected)
    else ensure (leb expected new_round) (insufficient_round expected)

-- Against the last proposal: whether it is the same one, in which case the check ends with a skip.
unfoldable pub check_old_proposal : Option BlockProposal → BlockProposal → Result ChainError Outcome
check_old_proposal none proposal = ok accept
check_old_proposal (some old) proposal =
    if is_eq BlockAndRound-discrete old.content proposal.content
    then ok skip
    else if leb proposal.content.round old.content.round
    then err (insufficient_round old.content.round)
    else ok accept

-- `max_by_key` over the proposal's certificate and the locked one: the later of two equal rounds.
unfoldable pub highest : Option Certificate → Option Certificate → Option Certificate
highest none locked = locked
highest (some validated) none = some validated
highest (some validated) (some locked) =
    if ltb locked.round validated.round then some validated else some locked

abbrev pub check_block :
    RoundNumber → Block → RoundNumber → Option Block → Result ChainError Outcome
check_block new_round new_block round none =
    err (internal_error "locked certificate must contain block")
check_block new_round new_block round (some b) =
    if ltb round new_round && is_eq Block-discrete b new_block
    then ok accept
    else err (has_locked_block b.height round)

unfoldable pub check_locked : RoundNumber → Block → Option Certificate → Result ChainError Outcome
unfolding block
check_locked new_round new_block none = ok accept
check_locked new_round new_block (some locked) =
    check_block new_round new_block locked.round (block locked.value.value)

abbrev pub after_old_proposal : Outcome → Result ChainError Outcome → Result ChainError Outcome
after_old_proposal skip rest = ok skip
after_old_proposal accept rest = rest

unfoldable pub check_proposed_block : MultiOwnerManager → BlockProposal → Result ChainError Outcome
check_proposed_block m proposal = do
  check_validated_value proposal.validated
  expected ← expected_round m proposal.validated
  check_round m expected proposal.content.round
  outcome ← check_old_proposal m.proposed proposal
  after_old_proposal outcome (
      check_locked proposal.content.round proposal.content.block
        (highest proposal.validated m.locked))
