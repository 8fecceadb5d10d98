-- ===== src/Examples/Rounds.antt =====
-- A run of one validator through two rounds of the manager of several owners.
use linera_protocol.Prelude.{
  ◌≡◌, ◌⊎◌, inl, inr, refl, sym, ap, subst, arith, false, List, [], ◌∷◌, none, some, ok, is_eq,
  is_eq_refl, is_eq→eq, Bool-cases,
}
use linera_protocol.Base.Timestamp.{add_duration}
use linera_protocol.Base.Arithmetic.{saturating_add, try_add_one, try_sub_one}
use linera_protocol.Execution.Committee.{new, weight, get}
use linera_protocol.Chain.DataTypes.{
  Block-discrete, BlockAndRound, BlockAndRound-discrete, Certificate, Vote, block, executed_block,
  lite_value, executed_with, is_timeout, is_validated,
}
use linera_protocol.Chain.Crypto.{
  new_leader_timeout, hashed, into_confirmed, new_validated, new_vote,
}
use linera_protocol.Chain.Certificates.{check, check_signatures, check_signers, contains}
use linera_protocol.Chain.Manager.Sampling.{accept}
use linera_protocol.Chain.Manager.Multi.{
  MultiOwnerManager, check_locked, check_old_proposal, check_proposed_block, check_round,
  check_validated_value, current_round, expected_round, highest, locked_round, proposed_round,
  timeout_round,
}
use linera_protocol.Chain.Manager.Multi.Votes.{
  vote_leader_timeout, handle_timeout_certificate, check_above_locked, check_pending,
  check_validated_block, create_final_vote, create_vote, later_locked, update_timeout,
}
use linera_protocol.Chain.Manager.Multi.Steps.{
  proposal, timeout_certificate, timeout_vote, validated_certificate,
}
use linera_protocol.Chain.Manager.Multi.History.{Run, begin, show, then_step}
use linera_protocol.Chain.Manager.Multi.Ballots.{ballots}
use linera_protocol.Chain.Manager.Multi.Casting.{cast}
use linera_protocol.Chain.Consensus.{Admitted}
use linera_protocol.Examples.{
  block_one, committee, confirmed_in, crypto, key_pair, outcome_of, proposal_in, timed_out,
  validated_in,
}

-- Two rounds, with different execution outcomes, of which the second one ends.
abbrev pub Seen : Certificate → Type 0
Seen c =
    (c ≡ validated_in 0 20)
    ⊎ (c ≡ confirmed_in 0 20)
    ⊎ (c ≡ validated_in 1 21)
    ⊎ (c ≡ confirmed_in 1 21)
    ⊎ (c ≡ timed_out)

abbrev pub first : MultiOwnerManager
first = record {
  public_keys = (5, 5, 1) ∷ [];
  multi_leader_rounds = 4;
  seed = 3;
  proposed = none;
  locked = none;
  leader_timeout = none;
  pending = none;
  timeout_vote = none;
  round_timeout = 100;
}

abbrev pub after_proposal : MultiOwnerManager
after_proposal = create_vote crypto first (proposal_in 0) (outcome_of 20) (some key_pair) 10

abbrev pub after_certificate : MultiOwnerManager
after_certificate = create_final_vote crypto after_proposal (validated_in 0 20) (some key_pair) 20

abbrev pub after_second_proposal : MultiOwnerManager
after_second_proposal =
    create_vote crypto after_certificate (proposal_in 1) (outcome_of 21) (some key_pair) 30

abbrev pub after_second_certificate : MultiOwnerManager
after_second_certificate =
    create_final_vote crypto after_second_proposal (validated_in 1 21) (some key_pair) 40

pub accepts_first : check_proposed_block first (proposal_in 0) ≡ ok accept
unfolding check_proposed_block check_validated_value expected_round check_round check_old_proposal
    check_locked highest check_validated_block check_pending check_above_locked create_vote
    create_final_vote later_locked update_timeout current_round timeout_round locked_round
    proposed_round try_sub_one try_add_one saturating_add into_confirmed hashed new_vote
    new_validated executed_with block executed_block
accepts_first = refl

pub accepts_certificate : check_validated_block after_proposal (validated_in 0 20) ≡ ok accept
unfolding check_proposed_block check_validated_value expected_round check_round check_old_proposal
    check_locked highest check_validated_block check_pending check_above_locked create_vote
    create_final_vote later_locked update_timeout current_round timeout_round locked_round
    proposed_round try_sub_one try_add_one saturating_add into_confirmed hashed new_vote
    new_validated executed_with block executed_block
accepts_certificate = refl

pub other_round :
    is_eq BlockAndRound-discrete (proposal_in 0).content (proposal_in 1).content ≡ false
other_round =
    elim (Bool-cases
      (is_eq BlockAndRound-discrete (proposal_in 0).content (proposal_in 1).content)) [
        | inl same ↦
            let eq =
              is_eq→eq BlockAndRound-discrete (proposal_in 0).content (proposal_in 1).content
                same in
            absurd (omega (arith, ap (λ (x : BlockAndRound). x.round) eq))
        | inr other ↦ other
      ]

pub accepts_second : check_proposed_block after_certificate (proposal_in 1) ≡ ok accept
unfolding check_proposed_block check_validated_value expected_round check_round check_old_proposal
    check_locked highest check_validated_block check_pending check_above_locked create_vote
    create_final_vote later_locked update_timeout current_round timeout_round locked_round
    proposed_round try_sub_one try_add_one saturating_add into_confirmed hashed new_vote
    new_validated executed_with block executed_block
accepts_second = rw (other_round, is_eq_refl Block-discrete block_one) refl

pub accepts_second_certificate :
    check_validated_block after_second_proposal (validated_in 1 21) ≡ ok accept
unfolding check_proposed_block check_validated_value expected_round check_round check_old_proposal
    check_locked highest check_validated_block check_pending check_above_locked create_vote
    create_final_vote later_locked update_timeout current_round timeout_round locked_round
    proposed_round try_sub_one try_add_one saturating_add into_confirmed hashed new_vote
    new_validated executed_with block executed_block
accepts_second_certificate = refl

abbrev pub votes : List Vote
votes = show after_second_certificate.pending (
    show after_second_proposal.pending
      (show after_certificate.pending (show after_proposal.pending [])))

pub votes-are :
    votes
    ≡ new_vote crypto (confirmed_in 1 21).value 1 7
      ∷ new_vote crypto (validated_in 1 21).value 1 7
      ∷ new_vote crypto (confirmed_in 0 20).value 0 7
      ∷ new_vote crypto (validated_in 0 20).value 0 7
      ∷ []
unfolding check_proposed_block check_validated_value expected_round check_round check_old_proposal
    check_locked highest check_validated_block check_pending check_above_locked create_vote
    create_final_vote later_locked update_timeout current_round timeout_round locked_round
    proposed_round try_sub_one try_add_one saturating_add into_confirmed hashed new_vote
    new_validated executed_with block executed_block
votes-are = refl

pub admits : (c : Certificate) → Seen c → Admitted crypto committee Seen c
unfolding check check_signatures check_signers new weight get contains lite_value
admits c seen = (seen, checks c seen)
  where
    checks : (c : Certificate) → Seen c → check crypto c committee ≡ ok c.value
    checks c (inl e) = subst (λ x. check crypto x committee ≡ ok x.value) (sym e) refl
    checks c (inr (inl e)) = subst (λ x. check crypto x committee ≡ ok x.value) (sym e) refl
    checks c (inr (inr (inl e))) = subst (λ x. check crypto x committee ≡ ok x.value) (sym e) refl
    checks c (inr (inr (inr (inl e)))) =
        subst (λ x. check crypto x committee ≡ ok x.value) (sym e) refl
    checks c (inr (inr (inr (inr e)))) =
        subst (λ x. check crypto x committee ≡ ok x.value) (sym e) refl

pub run : Run crypto key_pair (Admitted crypto committee Seen) votes after_second_certificate
unfolding is_validated create_vote create_final_vote
run =
    then_step
      (then_step
        (then_step
          (then_step (begin (record { proposed = refl; locked = refl; pending = refl }))
            (proposal (proposal_in 0) (outcome_of 20) 10 (λ c e. cc) accepts_first))
          (validated_certificate (validated_in 0 20) 20 (admits (validated_in 0 20) (inl refl)) refl
            accepts_certificate))
        (proposal (proposal_in 1) (outcome_of 21) 30 (λ c e. cc) accepts_second))
      (validated_certificate (validated_in 1 21) 40
        (admits (validated_in 1 21) (inr (inr (inl refl)))) refl accepts_second_certificate)

abbrev pub first_validation : Vote
first_validation = new_vote crypto (validated_in 0 20).value 0 7

abbrev pub first_confirmation : Vote
first_confirmation = new_vote crypto (confirmed_in 0 20).value 0 7

abbrev pub second_validation : Vote
second_validation = new_vote crypto (validated_in 1 21).value 1 7

abbrev pub second_confirmation : Vote
second_confirmation = new_vote crypto (confirmed_in 1 21).value 1 7

-- The second round ends: the validator votes for this, and sees the certificate.
abbrev pub after_vote : MultiOwnerManager
after_vote =
    (vote_leader_timeout crypto after_second_certificate 1 3 0 (some key_pair) 100000000000).0

abbrev pub after_timeout : MultiOwnerManager
after_timeout = handle_timeout_certificate after_vote timed_out 100000000000

abbrev pub all_votes : List Vote
all_votes = show after_timeout.pending (show after_vote.pending votes)

pub long_run : Run crypto key_pair (Admitted crypto committee Seen) all_votes after_timeout
unfolding is_timeout
long_run = then_step (then_step run (timeout_vote 1 3 0 100000000000)) (
    timeout_certificate timed_out 100000000000 (admits timed_out (inr (inr (inr (inr refl))))) refl)

abbrev pub end_of_round : Vote
end_of_round = new_vote crypto timed_out.value 1 7

pub long_run-ballots :
    ballots long_run
    ≡ end_of_round ∷ second_confirmation ∷ second_validation ∷ first_confirmation ∷ first_validation
      ∷ []
unfolding ballots cast run long_run check_proposed_block check_validated_value expected_round
    check_round check_old_proposal check_locked highest check_validated_block check_pending
    check_above_locked create_vote create_final_vote later_locked update_timeout current_round
    timeout_round locked_round proposed_round try_sub_one try_add_one saturating_add into_confirmed
    hashed new_vote new_validated executed_with block executed_block vote_leader_timeout
    handle_timeout_certificate new_leader_timeout is_timeout add_duration
long_run-ballots = refl
