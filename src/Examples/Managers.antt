-- ===== src/Examples/Managers.antt =====
-- A manager of one owner, and managers that are reset.
use linera_protocol.Prelude.{◌≡◌, ◌≢◌, ◌↔◌, refl, arith, [], ◌∷◌, none, some, ok}
use linera_protocol.Base.Arithmetic.{try_add_one, u64_max}
use linera_protocol.Base.Timestamp.{add_duration}
use linera_protocol.Execution.Messages.{ChainOwnership}
use linera_protocol.Chain.Manager.Sampling.{Sampling, accept, skip}
use linera_protocol.Chain.Manager.Single
use linera_protocol.Chain.Manager.Single.{SingleOwnerManager, create_vote-signs_once}
use linera_protocol.Chain.Manager.Multi
use linera_protocol.Chain.Manager.Multi.Leaders.{round_leader, round_leader_index, verify_owner}
use linera_protocol.Chain.Manager.Multi.Turns.{verify_owner-round_leader}
use linera_protocol.Chain.Manager.Kinds
use linera_protocol.Chain.Manager.Kinds.{ChainManager, panics, returns}
use linera_protocol.Chain.Manager.Kinds.Voting.{create_vote-repeats}
use linera_protocol.Examples.{crypto, key_pair, outcome_of, proposal_in}

abbrev owned : SingleOwnerManager
owned = record { owner = 5; public_key = 5; pending = none }

abbrev voted : SingleOwnerManager
voted = Single.create_vote crypto owned (proposal_in 0) (outcome_of 20) (some key_pair)

create_vote-signs_once_example :
    (Single.check_proposed_block voted (proposal_in 1) ≢ ok accept)
    × ((Single.check_proposed_block voted (proposal_in 1) ≡ ok skip) ↔ (
        ((proposal_in 1).validated ≡ none)
        × ((proposal_in 1).content.round ≡ 0)
        × ((proposal_in 1).content.block ≡ (proposal_in 0).content.block)))
unfolding Single.check_proposed_block
create_vote-signs_once_example =
    create_vote-signs_once crypto owned (proposal_in 0) (proposal_in 1) (outcome_of 20) key_pair
      refl

abbrev sampling : Sampling
sampling = record { accepts = λ weights. ok tt; sample = λ weights seed. 0 }

abbrev two_owners : ChainOwnership
two_owners = ChainOwnership.multi ((5, 5, 1) ∷ (6, 6, 2) ∷ []) 4

abbrev fresh : ChainManager
fresh = Kinds.multi (record {
  public_keys = (5, 5, 1) ∷ (6, 6, 2) ∷ [];
  multi_leader_rounds = 4;
  seed = 3;
  proposed = none;
  locked = none;
  leader_timeout = none;
  pending = none;
  timeout_vote = none;
  round_timeout = 10000100;
})

resets : Kinds.reset sampling two_owners 3 100 ≡ ok fresh
unfolding Kinds.reset Multi.new add_duration
resets = refl

create_vote-repeats_example :
    (try_add_one u64_max 3 ≡ ok 4)
    × ((m' : ChainManager) × (Kinds.create_vote crypto
            (Kinds.single owned)
            (proposal_in 0)
            (outcome_of 20)
            (some key_pair)
            10
          ≡ returns m')
        × (Kinds.check_proposed_block m' (proposal_in 0) ≡ returns (ok skip)))
unfolding Kinds.check_proposed_block Single.check_proposed_block
create_vote-repeats_example =
    create_vote-repeats crypto key_pair (Kinds.single owned) (proposal_in 0) (outcome_of 20) 10 refl

abbrev two_owner_manager : Multi.MultiOwnerManager
two_owner_manager = record {
  public_keys = (5, 15, 1) ∷ (6, 16, 2) ∷ [];
  multi_leader_rounds = 4;
  seed = 3;
  proposed = none;
  locked = none;
  leader_timeout = none;
  pending = none;
  timeout_vote = none;
  round_timeout = 100;
}

verify_owner-round_leader_example : round_leader sampling two_owner_manager 9 ≡ some 5
unfolding verify_owner round_leader_index
verify_owner-round_leader_example =
    verify_owner-round_leader sampling two_owner_manager (proposal_in 9) 15 (omega arith) refl
