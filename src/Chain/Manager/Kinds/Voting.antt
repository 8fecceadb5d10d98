-- ===== src/Chain/Manager/Kinds/Voting.antt =====
-- linera-chain/src/manager/mod.rs: a new manager, and what happens to a proposal that a manager accepts.
use linera_protocol.Prelude.{
  ℕ, ◌+◌, ◌<◌, ◌≡◌, subst, refl, sym, arith, ap, ◌∙◌, ltb, if◌then◌else◌, true, false, none, some,
  Result, ok, err, map_err, >>=-ok,
}
use linera_protocol.Base.Arithmetic.{u64_max, try_add_one}
use linera_protocol.Base.Identifiers.{BlockHeight, RoundNumber}
use linera_protocol.Base.Timestamp.{Timestamp, add_duration}
use linera_protocol.Execution.Messages.{ChainOwnership}
use linera_protocol.Execution.Ownership
use linera_protocol.Execution.Ownership.{key_of}
use linera_protocol.Chain.Manager.Multi.Leaders
use linera_protocol.Chain.Manager.Kinds
use linera_protocol.Chain.DataTypes.{BlockExecutionOutcome, BlockProposal}
use linera_protocol.Chain.Crypto.{Crypto, KeyPair}
use linera_protocol.Chain.Errors.{ChainError, invalid_block_height, owner_weight_error}
use linera_protocol.Chain.Manager.Sampling.{Outcome, Sampling, accept, skip}
use linera_protocol.Chain.Manager.Single
use linera_protocol.Chain.Manager.Multi
use linera_protocol.Chain.Manager.Multi.{timeout_round, locked_round, proposed_round}
use linera_protocol.Chain.Manager.Multi.Votes
use linera_protocol.Chain.Manager.Multi.Repeats.{create_vote-skips}
use linera_protocol.Chain.Manager.Kinds.{
  Call, ChainManager, check_kind, check_proposed_block, create_vote, current_round, inactive, multi,
  panics, pending, reset, returns, single,
}

returns_inj {ℓ} : {A : Type ℓ} {a b : A} → returns a ≡ returns b → a ≡ b
returns_inj h = cc

accepts_below :
    (m : ChainManager) (p : BlockProposal) (outcome : Outcome)
    → check_proposed_block m p ≡ returns (ok outcome)
    → (ltb p.content.block.height u64_max ≡ true) × (check_kind m p ≡ returns (ok outcome))
unfolding check_proposed_block
accepts_below m p outcome h =
    let low : ltb p.content.block.height u64_max ≡ true = ground arith in
    (low, sym (ap (λ b. if b then check_kind m p else returns (err invalid_block_height)) low) ∙ h)

below_height :
    (m : ChainManager) (p : BlockProposal) (outcome : Outcome)
    → ltb p.content.block.height u64_max ≡ true
    → check_kind m p ≡ returns (ok outcome)
    → check_proposed_block m p ≡ returns (ok outcome)
unfolding check_proposed_block
below_height m p outcome low h = rw low h

ok_inj {ℓ} : {A : Type ℓ} {a b : A} → ◌≡◌ {A = Result ChainError A} (ok a) (ok b) → a ≡ b
ok_inj h = cc

new_manager : Multi.Owners → RoundNumber → ℕ → Timestamp → Multi.MultiOwnerManager
new_manager keys rounds seed now = record {
  public_keys = keys;
  multi_leader_rounds = rounds;
  seed = seed;
  proposed = none;
  locked = none;
  leader_timeout = none;
  pending = none;
  timeout_vote = none;
  round_timeout = add_duration now Multi.timeout;
}

new-fields :
    (sampling : Sampling) (keys : Multi.Owners) (rounds : RoundNumber) (seed : ℕ) (now : Timestamp)
    {m : Multi.MultiOwnerManager}
    → Multi.new sampling keys rounds seed now ≡ ok m
    → new_manager keys rounds seed now ≡ m
unfolding Multi.new new_manager
new-fields sampling keys rounds seed now h =
    let (_, _, is) =
      >>=-ok (map_err (λ _. owner_weight_error) (sampling.accepts (Multi.weights keys))) _ h in
    ok_inj is

-- The rounds in which all owners may propose: those before the first one with a leader.
abbrev pub AllMayPropose : ChainOwnership → RoundNumber → Type 0
AllMayPropose (ChainOwnership.multi _ multi_leader_rounds) round = round < multi_leader_rounds
AllMayPropose _ round = Unit {0}

abbrev Owned : ChainManager → Type 0
Owned x = (pending x ≡ none) × (current_round x ≡ 0) × (Kinds.is_active x ≡ true)

-- The manager that `reset` makes for an ownership has no vote, is in round 0, and is active if and
-- only if the ownership is.
pub reset-fresh :
    (sampling : Sampling) (ownership : ChainOwnership) (height : BlockHeight) (now : Timestamp)
    (m : ChainManager)
    → reset sampling ownership height now ≡ ok m
    → (pending m ≡ none)
      × (current_round m ≡ 0)
      × (Kinds.is_active m ≡ Ownership.is_active ownership)
unfolding Single.new new_manager reset pending current_round Kinds.is_active Ownership.is_active
    Multi.new Multi.current_round timeout_round locked_round proposed_round
reset-fresh sampling ChainOwnership.inactive height now m h =
    subst (λ x. (pending x ≡ none) × (current_round x ≡ 0) × (Kinds.is_active x ≡ false)) (ok_inj h)
      (refl, refl, refl)
reset-fresh sampling (ChainOwnership.single owner key) height now m h =
    subst Owned (ok_inj h) (refl, refl, refl)
reset-fresh sampling (ChainOwnership.multi keys rounds) height now m h =
    let (n, creates, is) = >>=-ok (Multi.new sampling keys rounds height now) _ h in
    subst Owned (ok_inj is) (
      subst (λ x. Owned (multi x)) (new-fields sampling keys rounds height now creates)
        (refl, refl, refl))

early :
    (sampling : Sampling) (keys : Multi.Owners) (rounds : RoundNumber) (seed : ℕ) (now : Timestamp)
    (p : BlockProposal)
    → p.content.round < rounds
    → Leaders.verify_owner sampling (new_manager keys rounds seed now) p ≡ key_of p.owner keys
unfolding new_manager Leaders.verify_owner
early sampling keys rounds seed now p lt = ground arith

-- In a round in which all owners may propose, the new manager of an ownership accepts as the author of
-- a proposal exactly the owners of that ownership, with their keys.
pub reset-verify_owner :
    (sampling : Sampling) (ownership : ChainOwnership) (height : BlockHeight) (now : Timestamp)
    (m : ChainManager) (p : BlockProposal)
    → reset sampling ownership height now ≡ ok m
    → AllMayPropose ownership p.content.round
    → Kinds.verify_owner sampling m p ≡ Ownership.verify_owner ownership p.owner
unfolding new_manager reset Kinds.verify_owner Ownership.verify_owner Single.verify_owner Single.new
    Leaders.verify_owner key_of
reset-verify_owner sampling ChainOwnership.inactive height now m p h all =
    ap (λ x. Kinds.verify_owner sampling x p) (sym (ok_inj h))
reset-verify_owner sampling (ChainOwnership.single owner key) height now m p h all =
    ap (λ x. Kinds.verify_owner sampling x p) (sym (ok_inj h))
reset-verify_owner sampling (ChainOwnership.multi keys rounds) height now m p h all =
    let (n, creates, is) = >>=-ok (Multi.new sampling keys rounds height now) _ h in
    ap (λ x. Kinds.verify_owner sampling x p) (sym (ok_inj is))
    ∙ ap (λ x. Kinds.verify_owner sampling (multi x) p)
        (sym (new-fields sampling keys rounds height now creates))
    ∙ early sampling keys rounds height now p all

module _ (crypto : Crypto) (key_pair : KeyPair) where
  skips :
      (m : ChainManager) (p : BlockProposal) (outcome : BlockExecutionOutcome) (now : Timestamp)
      → ltb p.content.block.height u64_max ≡ true
      → check_kind m p ≡ returns (ok accept)
      → (m' : ChainManager) × (create_vote crypto m p outcome (some key_pair) now ≡ returns m')
        × (check_proposed_block m' p ≡ returns (ok skip))
  unfolding create_vote
  skips inactive p outcome now low h = cc
  skips (single m) p outcome now low h =
      let m' : ChainManager = single (Single.create_vote crypto m p outcome (some key_pair)) in
      (
        m',
        refl,
        below_height m' p skip low
            (ap returns (Single.create_vote-skips crypto m p outcome key_pair (returns_inj h))),
      )
  skips (multi m) p outcome now low h =
      let m' : ChainManager = multi (Votes.create_vote crypto m p outcome (some key_pair) now) in
      (
        m',
        refl,
        below_height m' p skip low
            (ap returns (create_vote-skips crypto key_pair m p outcome now (returns_inj h))),
      )

  -- A proposal that a manager accepts has a block whose next height is a `u64`; then the vote on it does
  -- not panic, and afterwards the manager skips the same proposal.
  pub create_vote-repeats :
      (m : ChainManager) (p : BlockProposal) (outcome : BlockExecutionOutcome) (now : Timestamp)
      → check_proposed_block m p ≡ returns (ok accept)
      → (try_add_one u64_max p.content.block.height ≡ ok (p.content.block.height + 1))
        × ((m' : ChainManager) × (create_vote crypto m p outcome (some key_pair) now ≡ returns m')
            × (check_proposed_block m' p ≡ returns (ok skip)))
  unfolding create_vote try_add_one
  create_vote-repeats m p outcome now h =
      let (low, accepts) = accepts_below m p accept h in
      (ground arith, skips m p outcome now low accepts)
