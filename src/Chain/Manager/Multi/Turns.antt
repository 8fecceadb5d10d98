-- ===== src/Chain/Manager/Multi/Turns.antt =====
-- linera-chain/src/manager/multi.rs: the authors of proposals in rounds with a leader.
use linera_protocol.Prelude.{
  ℕ, ◌≤◌, ◌≡◌, sym, ap, ◌∙◌, arith, ltb, Bool-cases, inl, inr, if◌then◌else◌, Option, none, some,
  get_elem?,
}
use linera_protocol.Base.Identifiers.{Owner, PublicKey}
use linera_protocol.Execution.Ownership.{key_of}
use linera_protocol.Chain.DataTypes.{BlockProposal}
use linera_protocol.Chain.Manager.Sampling.{Sampling}
use linera_protocol.Chain.Manager.Multi.{MultiOwnerManager}
use linera_protocol.Chain.Manager.Multi.Leaders.{
  leader_key, leader_name, round_leader, round_leader_index, verify_owner,
}

leader_key-leader_name :
    (owner : Owner) (o : Option (Owner × PublicKey × ℕ)) (key : PublicKey)
    → leader_key owner o ≡ some key
    → leader_name o ≡ some owner
leader_key-leader_name owner none key h = cc
leader_key-leader_name owner (some (leader, other, weight)) key h = ground arith

-- In a round that is not one of the multi-leader rounds, the author that `verify_owner` accepts is the
-- leader that the clients are told.
pub verify_owner-round_leader :
    (sampling : Sampling) (m : MultiOwnerManager) (p : BlockProposal) (key : PublicKey)
    → m.multi_leader_rounds ≤ p.content.round
    → verify_owner sampling m p ≡ some key
    → round_leader sampling m p.content.round ≡ some p.owner
unfolding verify_owner round_leader
verify_owner-round_leader sampling m p key late h =
    elim (Bool-cases (ltb p.content.round m.multi_leader_rounds)) [
      | inl early ↦ absurd (ground (arith, early))
      | inr single ↦ rw single (
          leader_key-leader_name p.owner _ key (
            sym (
              ap
                (λ b.
                  if b
                  then key_of p.owner m.public_keys
                  else leader_key p.owner
                      (get_elem? m.public_keys (round_leader_index sampling m p.content.round)))
                single)
            ∙ h))
    ]
