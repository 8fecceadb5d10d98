-- ===== src/Chain/Manager/Multi/Repeats.antt =====
-- linera-chain/src/manager/multi.rs: the stages of `check_proposed_block`, and repeated proposals.
use linera_protocol.Prelude.{
  ◌≤◌, ◌<◌, ◌≡◌, refl, arith, ap, ◌∙◌, is_eq_refl, Option, none, some, ok, >>=-ok, >>-ok,
}
use linera_protocol.Base.Arithmetic.{try_add_one}
use linera_protocol.Base.Identifiers.{RoundNumber}
use linera_protocol.Base.Timestamp.{Timestamp}
use linera_protocol.Chain.DataTypes.{
  BlockAndRound-discrete, BlockExecutionOutcome, BlockProposal, Certificate,
}
use linera_protocol.Chain.Crypto.{Crypto, KeyPair}
use linera_protocol.Chain.Manager.Sampling.{accept, skip}
use linera_protocol.Chain.Manager.Multi.{
  MultiOwnerManager, check_locked, check_old_proposal, check_proposed_block, check_round,
  check_validated_value, current_round, expected_round, highest, locked_round, proposed_round,
  timeout_round,
}
use linera_protocol.Chain.Manager.Multi.Votes.{create_vote, later_locked}
use linera_protocol.Chain.Manager.Multi.Steps.{
  Accepted, check_proposed_block-Accepted, check_round-ok,
}
use linera_protocol.Chain.Manager.Multi.Effects.{create_vote-effect}

pub check_proposed_block-stages :
    (m : MultiOwnerManager) (p : BlockProposal) (expected : RoundNumber)
    → check_validated_value p.validated ≡ ok tt
    → expected_round m p.validated ≡ ok expected
    → check_round m expected p.content.round ≡ ok tt
    → (check_old_proposal m.proposed p ≡ ok skip → check_proposed_block m p ≡ ok skip)
      × (check_old_proposal m.proposed p ≡ ok accept
          → check_locked p.content.round p.content.block (highest p.validated m.locked) ≡ ok accept
          → check_proposed_block m p ≡ ok accept)
unfolding check_proposed_block
check_proposed_block-stages m p expected value expects round = (
  λ old. rw (value, expects, round, old) refl,
  λ old unlocked. rw (value, expects, round, old, unlocked) refl,
)

expected_round-again :
    (m m' : MultiOwnerManager) (o : Option Certificate) (expected r : RoundNumber)
    → expected_round m o ≡ ok expected
    → expected ≤ r
    → current_round m' ≡ r
    → expected_round m' o ≡ ok r
unfolding expected_round try_add_one
expected_round-again m m' none expected r h le e = ap ok e
expected_round-again m m' (some c) expected r h le e = ground (arith, e)

pub check_round-same : (m : MultiOwnerManager) (r : RoundNumber) → check_round m r r ≡ ok tt
unfolding check_round
check_round-same m r = ground arith

-- The lock after a vote is no later than the certificate that decides.
later_locked-highest :
    (locked validated : Option Certificate)
    → locked_round (later_locked locked validated) ≤ locked_round (highest validated locked)
unfolding later_locked highest locked_round
later_locked-highest none none = omega arith
later_locked-highest none (some v) = omega arith
later_locked-highest (some l) none = omega arith
later_locked-highest (some l) (some v) = ground arith

bounded_round :
    (o : Option Certificate) (r : RoundNumber)
    → ((c : Certificate) → o ≡ some c → c.round < r)
    → locked_round o ≤ r
unfolding locked_round
bounded_round none r h = omega arith
bounded_round (some c) r h = omega (arith, h c refl)

module _ (crypto : Crypto) (key_pair : KeyPair) where
  -- After a vote the current round is that of the proposal.
  pub create_vote-round :
      (m : MultiOwnerManager) (p : BlockProposal) (outcome : BlockExecutionOutcome)
      (now : Timestamp)
      → Accepted m p
      → current_round (create_vote crypto m p outcome (some key_pair) now) ≡ p.content.round
  unfolding current_round proposed_round
  create_vote-round m p outcome now a =
      let (proposed, locked, _, timeout) = create_vote-effect crypto key_pair m p outcome now in
      omega (
        arith,
        ap timeout_round timeout,
        ap locked_round locked,
        ap proposed_round proposed,
        a.in_round,
        later_locked-highest m.locked p.validated,
        bounded_round (highest p.validated m.locked) p.content.round (λ c e. (a.unlocked c e).0),
      )

  -- A proposal that is accepted and voted on is skipped when it comes again.
  pub create_vote-skips :
      (m : MultiOwnerManager) (p : BlockProposal) (outcome : BlockExecutionOutcome)
      (now : Timestamp)
      → check_proposed_block m p ≡ ok accept
      → check_proposed_block (create_vote crypto m p outcome (some key_pair) now) p ≡ ok skip
  unfolding check_proposed_block check_old_proposal
  create_vote-skips m p outcome now h =
      let m' = create_vote crypto m p outcome (some key_pair) now in
      let a = check_proposed_block-Accepted m p h in
      let (value, h₁) = >>-ok (check_validated_value p.validated) _ h in
      let (expected, expects, h₂) = >>=-ok (expected_round m p.validated) _ h₁ in
      let (round, _) = >>-ok (check_round m expected p.content.round) _ h₂ in
      let fits = check_round-ok m expected p.content.round round in
      let (proposed, _, _, _) = create_vote-effect crypto key_pair m p outcome now in
      (check_proposed_block-stages m' p p.content.round value
          (expected_round-again m m' p.validated expected p.content.round expects fits
            (create_vote-round m p outcome now a))
          (check_round-same m' p.content.round)).0
        (ap (λ o. check_old_proposal o p) proposed
          ∙ rw (is_eq_refl BlockAndRound-discrete p.content) refl)
