-- ===== src/Chain/Manager/Multi/Votes.antt =====
-- linera-chain/src/manager/multi.rs: how a manager votes and how it learns of certificates.
use linera_protocol.Prelude.{
  ◌*◌, ltb, leb, ◌==◌, not, ◌&&◌, is_eq, if◌then◌else◌, Bool, true, false, Option, none, some,
  Result, ok, err, ◌>>=◌, ◌>>◌, ensure,
}
use linera_protocol.Base.Arithmetic.{ArithmeticError, u32_max, try_sub_one, saturating_add}
use linera_protocol.Base.Identifiers.{BlockHeight, ChainId, RoundNumber}
use linera_protocol.Base.Timestamp.{Timestamp, add_duration}
use linera_protocol.Execution.Committee.{Epoch}
use linera_protocol.Chain.DataTypes.{
  Block, Block-discrete, BlockExecutionOutcome, BlockProposal, Certificate, CertificateValue,
  HashedValue, Vote, block, executed_with, is_timeout, validated_block, confirmed_block,
  leader_timeout,
}
use linera_protocol.Chain.Crypto.{
  Crypto, KeyPair, into_confirmed, new_leader_timeout, new_validated, new_vote,
}
use linera_protocol.Chain.Errors.{ChainError, insufficient_round, internal_error}
use linera_protocol.Chain.Manager.Sampling.{Outcome, accept, skip}
use linera_protocol.Chain.Manager.Multi.{MultiOwnerManager, current_round, timeout}

-- Against the last vote: whether it confirms the same block in the same round already.
check_pending_value :
    CertificateValue → RoundNumber → Option Block → RoundNumber → Result ChainError Outcome
check_pending_value (confirmed_block b) round none new_round = ok accept
check_pending_value (confirmed_block b) round (some new_block) new_round =
    if is_eq Block-discrete b.block new_block && round == new_round then ok skip else ok accept
check_pending_value (validated_block b) round new_block new_round = do
  ensure (leb round new_round) (insufficient_round round)
  ok accept
check_pending_value (leader_timeout _ _ _) round new_block new_round =
    err (internal_error "pending can only be validated or confirmed block")

unfoldable pub check_pending : Option Vote → Certificate → Result ChainError Outcome
unfolding check_pending_value block
check_pending none certificate = ok accept
check_pending (some vote) certificate =
    check_pending_value vote.value.value vote.round (block certificate.value.value)
      certificate.round

unfoldable pub check_above_locked : Option Certificate → RoundNumber → Result ChainError Outcome
check_above_locked none new_round = ok accept
check_above_locked (some locked) new_round = do
  ensure (ltb locked.round new_round) (insufficient_round locked.round)
  ok accept

abbrev pub after_pending : Outcome → Result ChainError Outcome → Result ChainError Outcome
after_pending skip rest = ok skip
after_pending accept rest = rest

unfoldable pub check_validated_block : MultiOwnerManager → Certificate → Result ChainError Outcome
check_validated_block m certificate = do
  outcome ← check_pending m.pending certificate
  after_pending outcome (check_above_locked m.locked certificate.round)

-- `update_timeout`. The duration is `TIMEOUT * (round + 2)`, the factor saturating at a `u32`; the
-- product is far below the largest `Duration`.
unfoldable pub update_timeout : MultiOwnerManager → RoundNumber → Timestamp → MultiOwnerManager
unfolding saturating_add
update_timeout m round now =
    if leb (current_round m) round
    then record m { round_timeout = add_duration now (timeout * saturating_add u32_max round 2) }
    else m

unfoldable pub later_locked : Option Certificate → Option Certificate → Option Certificate
later_locked locked none = locked
later_locked none (some validated) = some validated
later_locked (some locked) (some validated) =
    if ltb locked.round validated.round then some validated else some locked

-- `update_timeout` for the round before a proposal's, if there is one.
abbrev pub timeout_after :
    MultiOwnerManager → Timestamp → Result ArithmeticError RoundNumber → MultiOwnerManager
timeout_after m now (ok previous) = update_timeout m previous now
timeout_after m now (err _) = m

abbrev pub timeout_before : MultiOwnerManager → RoundNumber → Timestamp → MultiOwnerManager
timeout_before m round now = timeout_after m now (try_sub_one round)

abbrev pub voted_in : Option Vote → RoundNumber → Bool
voted_in none round = false
voted_in (some vote) round = vote.round == round

-- A validator holds a key.
abbrev pub is_some : Option KeyPair → Bool
is_some none = false
is_some (some _) = true

module _ (crypto : Crypto) where
  abbrev pub validation_vote :
      BlockProposal → BlockExecutionOutcome → Option KeyPair → Option Vote → Option Vote
  validation_vote proposal outcome none pending = pending
  validation_vote proposal outcome (some key_pair) pending = some (
      new_vote crypto (new_validated crypto (executed_with outcome proposal.content.block))
        proposal.content.round key_pair)

  unfoldable pub create_vote :
      MultiOwnerManager
      → BlockProposal
      → BlockExecutionOutcome
      → Option KeyPair
      → Timestamp
      → MultiOwnerManager
  create_vote m proposal outcome key_pair now =
      let timed = timeout_before m proposal.content.round now in
      record timed {
        proposed = some proposal;
        locked = later_locked timed.locked proposal.validated;
        pending = validation_vote proposal outcome key_pair timed.pending;
      }

  abbrev pub confirmation_vote :
      HashedValue → RoundNumber → Option KeyPair → Option Vote → Option Vote
  confirmation_vote value round none pending = pending
  confirmation_vote value round (some key_pair) pending =
      some (new_vote crypto value round key_pair)

  abbrev pub confirm :
      MultiOwnerManager
      → Certificate
      → Option KeyPair
      → Timestamp
      → Option HashedValue
      → MultiOwnerManager
  confirm m certificate key_pair now none = m
  confirm m certificate key_pair now (some value) =
      let timed = update_timeout m certificate.round now in
      record timed {
        locked = some certificate;
        pending = confirmation_vote value certificate.round key_pair timed.pending;
      }

  unfoldable pub create_final_vote :
      MultiOwnerManager → Certificate → Option KeyPair → Timestamp → MultiOwnerManager
  create_final_vote m certificate key_pair now =
      if is_some key_pair && ltb certificate.round (current_round m)
      then m
      else confirm m certificate key_pair now (into_confirmed crypto certificate.value)

  unfoldable pub vote_leader_timeout :
      MultiOwnerManager
      → ChainId
      → BlockHeight
      → Epoch
      → Option KeyPair
      → Timestamp
      → MultiOwnerManager × Bool
  vote_leader_timeout m chain_id height epoch none now = (m, false)
  vote_leader_timeout m chain_id height epoch (some key_pair) now =
      if ltb now m.round_timeout
      then (m, false)
      else if voted_in m.timeout_vote (current_round m)
      then (m, false)
      else (
        record m {
          timeout_vote = some (
              new_vote crypto (new_leader_timeout crypto chain_id height epoch) (current_round m)
                key_pair);
        },
        true,
      )

abbrev pub known_from : Option Certificate → RoundNumber → Bool
known_from none round = false
known_from (some known) round = leb round known.round

unfoldable pub handle_timeout_certificate :
    MultiOwnerManager → Certificate → Timestamp → MultiOwnerManager
handle_timeout_certificate m certificate now =
    if not (is_timeout certificate.value.value)
    then m
    else if known_from m.leader_timeout certificate.round
    then m
    else record (update_timeout m certificate.round now) { leader_timeout = some certificate }
