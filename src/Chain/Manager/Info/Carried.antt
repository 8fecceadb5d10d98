-- ===== src/Chain/Manager/Info/Carried.antt =====
-- linera-chain/src/manager/multi.rs: the certificate that the last proposal of a manager carries.
use linera_protocol.Prelude.{
  ◌<◌, ◌≡◌, inl, inr, sym, subst, ap, ◌∙◌, true, Option, some, some_inj, List,
}
use linera_protocol.Chain.DataTypes.{BlockProposal, Certificate, Vote, is_validated}
use linera_protocol.Chain.Crypto.{Crypto, KeyPair}
use linera_protocol.Chain.Manager.Multi.{MultiOwnerManager}
use linera_protocol.Chain.Manager.Multi.Steps.{
  Step, check_proposed_block-Accepted, proposal, timeout_certificate, timeout_vote,
  validated_certificate,
}
use linera_protocol.Chain.Manager.Multi.Effects.{
  create_final_vote-effect, create_vote-effect, handle_timeout_certificate-same,
  vote_leader_timeout-same,
}
use linera_protocol.Chain.Manager.Multi.History.{Run, begin, then_step}

-- The certificate of the last proposal is for a validated block of an earlier round.
abbrev pub Carries : Option BlockProposal → Type 0
Carries o =
    (q : BlockProposal) (c : Certificate)
    → o ≡ some q
    → q.validated ≡ some c
    → (is_validated c.value.value ≡ true) × (c.round < q.content.round)

module _ {crypto : Crypto} {key_pair : KeyPair} {G : Certificate → Type 0} where
  Step-Carries :
      {m m' : MultiOwnerManager}
      → Carries m.proposed
      → Step crypto key_pair G m m'
      → Carries m'.proposed
  Step-Carries i (proposal {m = m} p outcome now _ accepts) =
      let a = check_proposed_block-Accepted m p accepts in
      let (proposed, _, _, _) = create_vote-effect crypto key_pair m p outcome now in
      subst Carries (sym proposed) (λ q c e e'.
        let same = some_inj e in
        subst (λ x. (is_validated c.value.value ≡ true) × (c.round < x.content.round)) same
          (a.validated c (ap (λ (x : BlockProposal). x.validated) same ∙ e')))
  Step-Carries i (validated_certificate {m = m} c now _ _ _) =
      elim (create_final_vote-effect crypto key_pair m c now) [
        | inl same ↦ subst (λ x. Carries x.proposed) (sym same) i
        | inr (value, effect) ↦
            let (_, _, proposed, _, _, _) = effect in subst Carries (sym proposed) i
      ]
  Step-Carries i (timeout_vote {m = m} id height epoch now) =
      subst Carries
        (sym (vote_leader_timeout-same crypto key_pair m id height epoch now).0.proposed) i
  Step-Carries i (timeout_certificate {m = m} c now _ _) =
      subst Carries (sym (handle_timeout_certificate-same m c now).0.proposed) i

  pub Run-Carries :
      {votes : List Vote} {m : MultiOwnerManager}
      → Run crypto key_pair G votes m
      → Carries m.proposed
  Run-Carries (begin {m = m} n) = λ q c e _. cc (n.proposed, e)
  Run-Carries (then_step run step) = Step-Carries (Run-Carries run) step
