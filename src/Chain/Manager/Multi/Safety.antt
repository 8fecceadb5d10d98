-- ===== src/Chain/Manager/Multi/Safety.antt =====
-- linera-chain/src/manager/multi.rs: what the votes of one validator say of each other and of the
-- certificates it was shown, after any run.
use linera_protocol.Prelude.{◌<◌, ◌≡◌, ◌⊎◌, inl, inr, refl, sym, subst, some, List}
use linera_protocol.Base.Identifiers.{RoundNumber}
use linera_protocol.Chain.DataTypes.{Block, Certificate, Vote, executed_with}
use linera_protocol.Chain.Crypto.{Crypto, KeyPair, new_validated, new_vote, hashed}
use linera_protocol.Chain.Manager.Multi.{MultiOwnerManager}
use linera_protocol.Chain.Manager.Multi.Votes.{create_final_vote, create_vote}
use linera_protocol.Chain.Manager.Multi.Steps.{
  Step, check_proposed_block-Accepted, check_validated_block-above, proposal, timeout_certificate,
  timeout_vote, validated_certificate,
}
use linera_protocol.Chain.Manager.Multi.Effects.{
  create_final_vote-effect, create_vote-effect, handle_timeout_certificate-same, validating,
  vote_leader_timeout-same,
}
use linera_protocol.Chain.Manager.Multi.History.{
  Confirms, In, Run, Validates, begin, show, then_step,
}
use linera_protocol.Chain.Manager.Multi.Locking.{Certifies, Inv, begin-Inv, silent-Inv}
use linera_protocol.Chain.Manager.Multi.Proposing.{propose-Inv}
use linera_protocol.Chain.Manager.Multi.Confirming.{confirm-Inv, into_confirmed-validated}

module _ {crypto : Crypto} {key_pair : KeyPair} {G : Certificate → Type 0} where
  Step-Inv :
      {votes : List Vote} {m m' : MultiOwnerManager}
      → Inv G votes m
      → Step crypto key_pair G m m'
      → Inv G (show m'.pending votes) m'
  unfolding new_vote new_validated hashed executed_with
  Step-Inv {votes} i (proposal {m = m} p outcome now genuine accepts) =
      let m' = create_vote crypto m p outcome (some key_pair) now in
      let w = validating crypto key_pair p outcome in
      let a = check_proposed_block-Accepted m p accepts in
      let (proposed, locked, pending, _) = create_vote-effect crypto key_pair m p outcome now in
      subst (λ x. Inv G (show x votes) m') (sym pending)
        (propose-Inv G votes m i p a genuine m' w proposed locked pending
          (executed_with outcome p.content.block, refl, refl, refl))
  Step-Inv {votes} i (validated_certificate {m = m} c now genuine validated accepts) =
      let m' = create_final_vote crypto m c (some key_pair) now in
      elim (create_final_vote-effect crypto key_pair m c now) [
        | inl same ↦
            subst (λ x. Inv G (show x.pending votes) x) (sym same)
              (silent-Inv G votes m m i (record { proposed = refl; locked = refl; pending = refl }))
        | inr (value, effect) ↦
            let (in_round, confirms, proposed, locked, pending, _) = effect in
            let (e, for_block, value_eq) =
              into_confirmed-validated crypto c.value validated confirms in
            subst (λ x. Inv G (show x votes) m') (sym pending)
              (confirm-Inv G votes m i c genuine validated
                (λ l. check_validated_block-above m c l accepts) in_round m'
                (new_vote crypto value c.round key_pair) proposed locked pending e for_block
                value_eq refl)
      ]
  Step-Inv {votes} i (timeout_vote {m = m} id height epoch now) =
      silent-Inv G votes m _ i (vote_leader_timeout-same crypto key_pair m id height epoch now).0
  Step-Inv {votes} i (timeout_certificate {m = m} c now _ _) =
      silent-Inv G votes m _ i (handle_timeout_certificate-same m c now).0

  pub Run-Inv :
      {votes : List Vote} {m : MultiOwnerManager} → Run crypto key_pair G votes m → Inv G votes m
  Run-Inv (begin {m = m} n) = begin-Inv G m n
  Run-Inv (then_step run step) = Step-Inv (Run-Inv run) step

  -- After any run, two votes of the validator to validate in one round are for one block.
  pub Run-one_block :
      {votes : List Vote} {m : MultiOwnerManager}
      → Run crypto key_pair G votes m
      → (v w : Vote) (a b : Block) (r : RoundNumber) → In v votes
      → In w votes
      → Validates v a r
      → Validates w b r
      → a ≡ b
  Run-one_block run = (Run-Inv run).one_block

  -- After any run, a vote of the validator to confirm a block is backed by a certificate it was shown, which
  -- validates the block in the round of the vote.
  pub Run-certified :
      {votes : List Vote} {m : MultiOwnerManager}
      → Run crypto key_pair G votes m
      → (w : Vote) (b : Block) (s : RoundNumber) → In w votes
      → Confirms w b s
      → Certifies G b s
  Run-certified run w b s inn con = ((Run-Inv run).confirmations w b s inn con).1

  -- After any run, a vote of the validator to validate a block in a round after a vote to confirm one is for
  -- the same block, or for one that a certificate it was shown validates in a round between the two.
  pub Run-locking :
      {votes : List Vote} {m : MultiOwnerManager}
      → Run crypto key_pair G votes m
      → (v w : Vote) (a b : Block) (r s : RoundNumber) → In v votes
      → In w votes
      → Validates v a r
      → Confirms w b s
      → s < r
      → (a ≡ b) ⊎ ((t : RoundNumber) × (s < t) × (t < r) × Certifies G a t)
  Run-locking run = (Run-Inv run).unlocked
