-- ===== src/Chain/Manager/Multi/Steps.antt =====
-- linera-chain/src/manager/multi.rs: what a manager has established when it accepts a proposal or a
-- certificate, and the steps that a validator takes with it, as linera-core/src/worker.rs composes
-- them: a check, and then the vote.
use linera_protocol.Prelude.{
  ℕ, ◌≤◌, ◌<◌, ◌≡◌, refl, subst, arith, ap, ◌∙◌, is_eq→eq, true, Option, some_inj, none, some,
  Result, ok, >>=-ok, >>-ok,
}
use linera_protocol.Base.Arithmetic.{try_add_one}
use linera_protocol.Base.Identifiers.{BlockHeight, ChainId, RoundNumber}
use linera_protocol.Base.Timestamp.{Timestamp}
use linera_protocol.Execution.Committee.{Epoch}
use linera_protocol.Chain.DataTypes.{
  Block, Block-discrete, BlockExecutionOutcome, BlockProposal, Certificate, block, is_timeout,
  is_validated,
}
use linera_protocol.Chain.Crypto.{Crypto, KeyPair}
use linera_protocol.Chain.Errors.{ChainError}
use linera_protocol.Chain.Manager.Sampling.{Outcome, accept, skip}
use linera_protocol.Chain.Manager.Multi.{
  MultiOwnerManager, check_locked, check_old_proposal, check_proposed_block, check_round,
  check_block, after_old_proposal, check_validated_value, current_round, expected_round, highest,
}
use linera_protocol.Chain.Manager.Multi.Votes.{
  check_above_locked, check_pending, check_validated_block, create_final_vote, create_vote,
  handle_timeout_certificate, vote_leader_timeout, after_pending,
}

-- What an accepted proposal satisfies.
pub record Accepted (m : MultiOwnerManager) (p : BlockProposal) : Type 0 where
  -- Its round is not below the current one.
  pub in_round : current_round m ≤ p.content.round
  -- Its certificate is for a validated block and from an earlier round.
  pub validated :
      (c : Certificate)
      → p.validated ≡ some c
      → (is_validated c.value.value ≡ true) × (c.round < p.content.round)
  -- It is from a later round than the last proposal.
  pub newer : (old : BlockProposal) → m.proposed ≡ some old → old.content.round < p.content.round
  -- The highest certificate that is known is for its block.
  pub unlocked :
      (c : Certificate)
      → highest p.validated m.locked ≡ some c
      → (c.round < p.content.round) × (block c.value.value ≡ some p.content.block)

pub check_round-ok :
    (m : MultiOwnerManager) (expected new_round : RoundNumber)
    → check_round m expected new_round ≡ ok tt
    → expected ≤ new_round
unfolding check_round
check_round-ok m expected new_round h = ground arith

check_old_proposal-ok :
    (o : Option BlockProposal) (p old : BlockProposal)
    → check_old_proposal o p ≡ ok accept
    → o ≡ some old
    → old.content.round < p.content.round
unfolding check_old_proposal
check_old_proposal-ok none p old h e = cc
check_old_proposal-ok (some o) p old h e =
    let same : o ≡ old = cc in subst (λ x. x.content.round < p.content.round) same later
  where
    later : o.content.round < p.content.round
    later = ground arith

check_block-ok :
    (new_round round : RoundNumber) (new_block : Block) (o : Option Block)
    → check_block new_round new_block round o ≡ ok accept
    → (round < new_round) × (o ≡ some new_block)
check_block-ok new_round round new_block none h = cc
check_block-ok new_round round new_block (some b) h =
    (ground arith, ap some (is_eq→eq Block-discrete b new_block (ground arith)))

expected_round-ok :
    (m : MultiOwnerManager) (o : Option Certificate) {expected : RoundNumber}
    → expected_round m o ≡ ok expected
    → (current_round m ≤ expected) × ((c : Certificate) → o ≡ some c → c.round < expected)
unfolding expected_round try_add_one
expected_round-ok m none h = (ground arith, λ c e. cc)
expected_round-ok m (some c) {expected} h =
    (ground arith, λ d e. subst (λ x. x.round < expected) (some_inj e) (ground arith))

lt_le : {a b c : ℕ} → a < b → b ≤ c → a < c
lt_le h k = omega arith

check_validated_value-ok :
    (o : Option Certificate) (c : Certificate)
    → check_validated_value o ≡ ok tt
    → o ≡ some c
    → is_validated c.value.value ≡ true
unfolding check_validated_value
check_validated_value-ok none c h e = cc
check_validated_value-ok (some d) c h e =
    subst (λ x. is_validated x.value.value ≡ true) (some_inj e) (ground arith)

check_locked-ok :
    (round : RoundNumber) (b : Block) (o : Option Certificate) (c : Certificate)
    → check_locked round b o ≡ ok accept
    → o ≡ some c
    → (c.round < round) × (block c.value.value ≡ some b)
unfolding check_locked
check_locked-ok round b none c h e = cc
check_locked-ok round b (some d) c h e =
    subst (λ x. (x.round < round) × (block x.value.value ≡ some b)) (some_inj e)
      (check_block-ok round d.round b (block d.value.value) h)

after_old_proposal-ok :
    (outcome : Outcome) (rest : Result ChainError Outcome)
    → after_old_proposal outcome rest ≡ ok accept
    → (outcome ≡ accept) × (rest ≡ ok accept)
after_old_proposal-ok accept rest h = (refl, h)
after_old_proposal-ok skip rest h = cc

pub check_proposed_block-Accepted :
    (m : MultiOwnerManager) (p : BlockProposal)
    → check_proposed_block m p ≡ ok accept
    → Accepted m p
unfolding check_proposed_block
check_proposed_block-Accepted m p h =
    let (value_ok, h₁) = >>-ok (check_validated_value p.validated) _ h in
    let (expected, expects, h₂) = >>=-ok (expected_round m p.validated) _ h₁ in
    let (round_ok, h₃) = >>-ok (check_round m expected p.content.round) _ h₂ in
    let (outcome, old, h₄) = >>=-ok (check_old_proposal m.proposed p) _ h₃ in
    let (accepts, unlocked) = after_old_proposal-ok outcome _ h₄ in
    let (above, later) = expected_round-ok m p.validated expects in
    let fits = check_round-ok m expected p.content.round round_ok in
    record {
      in_round = omega arith;
      validated =
          λ c e. (check_validated_value-ok p.validated c value_ok e, lt_le (later c e) fits);
      newer = λ o e. check_old_proposal-ok m.proposed p o (old ∙ ap ok accepts) e;
      unlocked = λ c e. check_locked-ok p.content.round p.content.block _ c unlocked e;
    }

-- What an accepted certificate for a validated block satisfies: it is above the locked one.
pub check_validated_block-above :
    (m : MultiOwnerManager) (certificate locked : Certificate)
    → check_validated_block m certificate ≡ ok accept
    → m.locked ≡ some locked
    → locked.round < certificate.round
unfolding check_validated_block check_above_locked
check_validated_block-above m certificate locked h e =
    let (outcome, checks, h') = >>=-ok (check_pending m.pending certificate) _ h in
    above m.locked (after_pending-ok outcome _ h') e
  where
    after_pending-ok :
        (outcome : Outcome) (rest : Result ChainError Outcome)
        → after_pending outcome rest ≡ ok accept
        → rest ≡ ok accept
    after_pending-ok accept rest h' = h'
    after_pending-ok skip rest h' = cc

    above :
        (o : Option Certificate)
        → check_above_locked o certificate.round ≡ ok accept
        → o ≡ some locked
        → locked.round < certificate.round
    above none h' e' = cc
    above (some d) h' e' = subst (λ x. x.round < certificate.round) (some_inj e') (ground arith)

-- The steps of a validator that holds a key, on the manager of one height. `G` says which certificates
-- it can be shown.
pub data Step (crypto : Crypto) (key_pair : KeyPair) (G : Certificate → Type 0)
    : MultiOwnerManager → MultiOwnerManager → Type 0 where
  proposal :
      {m : MultiOwnerManager} (p : BlockProposal) (outcome : BlockExecutionOutcome)
      (now : Timestamp)
      → ((c : Certificate) → p.validated ≡ some c → G c)
      → check_proposed_block m p ≡ ok accept
      → Step crypto key_pair G m (create_vote crypto m p outcome (some key_pair) now)
  validated_certificate :
      {m : MultiOwnerManager} (c : Certificate) (now : Timestamp)
      → G c
      → is_validated c.value.value ≡ true
      → check_validated_block m c ≡ ok accept
      → Step crypto key_pair G m (create_final_vote crypto m c (some key_pair) now)
  timeout_vote :
      {m : MultiOwnerManager} (id : ChainId) (height : BlockHeight) (epoch : Epoch)
      (now : Timestamp)
      → Step crypto key_pair G m
          (vote_leader_timeout crypto m id height epoch (some key_pair) now).0
  timeout_certificate :
      {m : MultiOwnerManager} (c : Certificate) (now : Timestamp)
      → G c
      → is_timeout c.value.value ≡ true
      → Step crypto key_pair G m (handle_timeout_certificate m c now)
