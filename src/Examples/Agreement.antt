-- ===== src/Examples/Agreement.antt =====
-- What the run of one validator through two rounds shows of its votes and of agreement.
use linera_protocol.Prelude.{
  ◌<◌, ◌≤◌, ◌≡◌, ◌⊎◌, inl, inr, refl, sym, ap, subst, arith, true, false, [], ◌∷◌, some, some_inj,
  ok, All,
}
use linera_protocol.Base.Arithmetic.{saturating_add, try_add_one, try_sub_one}
use linera_protocol.Base.Identifiers.{RoundNumber}
use linera_protocol.Execution.Committee.{ValidatorName, votes_from, new}
use linera_protocol.Execution.Committee.Quorum.{IsValid, new-IsValid, weight_in}
use linera_protocol.Chain.DataTypes.{
  BlockProposal, Certificate, Vote, block, executed_block, executed_with, is_timeout, is_validated,
}
use linera_protocol.Chain.Crypto.{hashed, into_confirmed, new_validated, new_vote}
use linera_protocol.Chain.Certificates.{is_signer}
use linera_protocol.Chain.Manager.Sampling.{Sampling, accept}
use linera_protocol.Chain.Manager.Multi.{
  check_proposed_block, current_round, highest, locked_round, proposed_round, timeout_round,
}
use linera_protocol.Chain.Manager.Multi.Votes.{
  create_final_vote, create_vote, later_locked, update_timeout,
}
use linera_protocol.Chain.Manager.Multi.Steps.{proposal, validated_certificate}
use linera_protocol.Chain.Manager.Multi.History.{
  Confirms, In, Run, Validates, begin, show, then_step,
}
use linera_protocol.Chain.Manager.Multi.Ballots.{NeverBack, Run-NeverBack, ballots}
use linera_protocol.Chain.Manager.Multi.Safety.{Run-certified, Run-locking, Run-one_block}
use linera_protocol.Chain.Manager.Multi.Locking.{Certifies}
use linera_protocol.Chain.Manager.Info.{add_multi_values, highest_validated, multi_info, next_round}
use linera_protocol.Chain.Manager.Info.NextRound.{next_round-accepted}
use linera_protocol.Chain.Consensus.{Admitted, Network, agreement}
use linera_protocol.Examples.{
  block_one, committee, confirmed_in, crypto, executed_of, key_pair, one_validator, outcome_of,
  policy, proposal_in, validated_in,
}
use linera_protocol.Examples.Rounds.{
  Seen, after_proposal, after_certificate, accepts_first, accepts_certificate, votes, votes-are,
  admits, run, first_validation, first_confirmation, second_validation, second_confirmation,
  after_timeout, all_votes, end_of_round, long_run, long_run-ballots,
}

cast :
    (v : Vote)
    → In v (second_confirmation ∷ second_validation ∷ first_confirmation ∷ first_validation ∷ [])
    → In v votes
cast v inn = subst (In v) (sym votes-are) inn

cast_in :
    (v : Vote)
    → In v (
        end_of_round ∷ second_confirmation ∷ second_validation ∷ first_confirmation
        ∷ first_validation ∷ [])
    → In v (ballots long_run)
cast_in v inn = subst (In v) (sym long_run-ballots) inn

signed :
    (c : Certificate) (n : ValidatorName)
    → Seen c
    → is_signer c n ≡ true
    → (v : Vote) × In v (ballots long_run) × (v.value.value ≡ c.value.value) × (v.round ≡ c.round)
unfolding new_vote
signed c n (inl e) by = (
  first_validation,
  cast_in first_validation (inr (inr (inr (inr (inl refl))))),
  ap (λ x. x.value.value) (sym e),
  ap (λ x. x.round) (sym e),
)
signed c n (inr (inl e)) by = (
  first_confirmation,
  cast_in first_confirmation (inr (inr (inr (inl refl)))),
  ap (λ x. x.value.value) (sym e),
  ap (λ x. x.round) (sym e),
)
signed c n (inr (inr (inl e))) by = (
  second_validation,
  cast_in second_validation (inr (inr (inl refl))),
  ap (λ x. x.value.value) (sym e),
  ap (λ x. x.round) (sym e),
)
signed c n (inr (inr (inr (inl e)))) by = (
  second_confirmation,
  cast_in second_confirmation (inr (inl refl)),
  ap (λ x. x.value.value) (sym e),
  ap (λ x. x.round) (sym e),
)
signed c n (inr (inr (inr (inr e)))) by = (
  end_of_round,
  cast_in end_of_round (inl refl),
  ap (λ x. x.value.value) (sym e),
  ap (λ x. x.round) (sym e),
)

network : Network crypto committee Seen
unfolding weight_in new
network = record {
  honest = λ _. true;
  key = λ _. key_pair;
  votes = λ _. all_votes;
  manager = λ _. after_timeout;
  few_faulty = omega arith;
  runs = λ _ _. long_run;
  unforged = λ c n h admitted by. signed c n admitted.0 by;
}

committee-IsValid : IsValid committee
unfolding votes_from committee new
committee-IsValid = new-IsValid one_validator policy tt (omega arith)

agreement_example : (executed_of 20).block ≡ (executed_of 21).block
agreement_example =
    agreement crypto committee Seen committee-IsValid network (confirmed_in 0 20)
      (confirmed_in 1 21) (executed_of 20) (executed_of 21)
      (admits (confirmed_in 0 20) (inr (inl refl)))
      (admits (confirmed_in 1 21) (inr (inr (inr (inl refl))))) refl refl

Validates-second : Validates second_validation block_one 1
unfolding new_vote
Validates-second = (executed_of 21, refl, refl, refl)

Confirms-first : Confirms first_confirmation block_one 0
unfolding new_vote
Confirms-first = (executed_of 20, refl, refl, refl)

Run-locking_example :
    (block_one ≡ block_one)
    ⊎ ((t : RoundNumber) × (0 < t)
        × (t < 1)
        × Certifies (Admitted crypto committee Seen) block_one t)
Run-locking_example =
    Run-locking run second_validation first_confirmation block_one block_one 1 0
      (cast second_validation (inr (inl refl))) (cast first_confirmation (inr (inr (inl refl))))
      Validates-second Confirms-first (omega arith)

Run-one_block_example : block_one ≡ block_one
Run-one_block_example =
    Run-one_block run second_validation second_validation block_one block_one 1
      (cast second_validation (inr (inl refl))) (cast second_validation (inr (inl refl)))
      Validates-second Validates-second

Run-certified_example : Certifies (Admitted crypto committee Seen) block_one 0
Run-certified_example =
    Run-certified run first_confirmation block_one 0
      (cast first_confirmation (inr (inr (inl refl)))) Confirms-first

Run-NeverBack_example :
    NeverBack (ballots long_run)
    × All (λ v. v.round ≤ current_round after_timeout) (ballots long_run)
    × ((v : Vote) → In v all_votes → In v (ballots long_run))
    × ((v : Vote) → In v (ballots long_run) → is_timeout v.value.value ≡ false → In v all_votes)
Run-NeverBack_example = Run-NeverBack long_run

abbrev sampling : Sampling
sampling = record { accepts = λ weights. ok tt; sample = λ weights seed. 0 }

abbrev follow_up : BlockProposal
follow_up = record (proposal_in 1) { validated = some (validated_in 0 20) }

until_locked :
    Run crypto key_pair
      (Admitted crypto committee Seen)
      (show after_certificate.pending (show after_proposal.pending []))
      after_certificate
unfolding is_validated create_vote create_final_vote
until_locked =
    then_step
      (then_step (begin (record { proposed = refl; locked = refl; pending = refl }))
        (proposal (proposal_in 0) (outcome_of 20) 10 (λ c e. cc) accepts_first))
      (validated_certificate (validated_in 0 20) 20 (admits (validated_in 0 20) (inl refl)) refl
        accepts_certificate)

locked_first :
    (c : Certificate)
    → highest follow_up.validated after_certificate.locked ≡ some c
    → block c.value.value ≡ some block_one
unfolding highest check_proposed_block create_vote create_final_vote later_locked update_timeout
    current_round timeout_round locked_round proposed_round try_sub_one into_confirmed hashed
    new_vote new_validated executed_with block executed_block
locked_first c e = subst (λ x. block x.value.value ≡ some block_one) (some_inj e) refl

next_round-accepted_example : check_proposed_block after_certificate follow_up ≡ ok accept
unfolding next_round add_multi_values multi_info highest_validated highest create_vote
    create_final_vote later_locked update_timeout current_round timeout_round locked_round
    proposed_round try_sub_one try_add_one saturating_add into_confirmed hashed new_vote
    new_validated executed_with
next_round-accepted_example =
    next_round-accepted until_locked sampling follow_up (omega arith) refl refl locked_first
