-- ===== src/Chain/Manager/Info/FreeRound.antt =====
-- linera-chain/src/manager/multi.rs: the rounds that `next_round` names.
use linera_protocol.Prelude.{
  ◌+◌, ◌≤◌, ◌<◌, ◌≡◌, inl, inr, sym, subst, arith, ap, not, ◌&&◌, Bool-cases, false, Option, none,
  some, some_inj,
}
use linera_protocol.Base.Arithmetic.{u32_max, try_add_one}
use linera_protocol.Base.Identifiers.{RoundNumber}
use linera_protocol.Chain.DataTypes.{BlockProposal, Certificate}
use linera_protocol.Chain.Manager.Sampling.{Sampling}
use linera_protocol.Chain.Manager.Multi.{
  MultiOwnerManager, current_round, locked_round, proposed_round,
}
use linera_protocol.Chain.Manager.Info.{
  add_multi_values, locked_in, multi_info, next_round, proposed_in,
}

-- What a round that `next_round` names is: one for which there is no proposal or lock yet.
pub record Free (m : MultiOwnerManager) (r : RoundNumber) : Type 0 where
  pub from_current : current_round m ≤ r
  pub exact : m.multi_leader_rounds < r → r ≡ current_round m
  pub above_locked : (c : Certificate) → m.locked ≡ some c → c.round < r
  pub above_proposed : (q : BlockProposal) → m.proposed ≡ some q → q.content.round < r
  pub fits : r ≤ u32_max

not_locked :
    (o : Option Certificate) (r : RoundNumber) (c : Certificate)
    → locked_in o r ≡ false
    → o ≡ some c
    → c.round ≡ r
    → ⊥
not_locked none r c h e = cc
not_locked (some l) r c h e =
    subst (λ (x : Certificate). x.round ≡ r → ⊥) (some_inj e) (λ same. absurd (ground arith))

not_proposed :
    (o : Option BlockProposal) (r : RoundNumber) (q : BlockProposal)
    → proposed_in o r ≡ false
    → o ≡ some q
    → q.content.round ≡ r
    → ⊥
not_proposed none r q h e = cc
not_proposed (some l) r q h e =
    subst (λ (x : BlockProposal). x.content.round ≡ r → ⊥) (some_inj e)
      (λ same. absurd (ground arith))

locked-current :
    (m : MultiOwnerManager) (c : Certificate) → m.locked ≡ some c → c.round ≤ current_round m
unfolding current_round locked_round
locked-current m c e = omega (arith, ap locked_round e)

proposed-current :
    (m : MultiOwnerManager) (q : BlockProposal)
    → m.proposed ≡ some q
    → q.content.round ≤ current_round m
unfolding current_round proposed_round
proposed-current m q e = omega (arith, ap proposed_round e)

pub next_round-Free :
    (sampling : Sampling) (m : MultiOwnerManager) (r : RoundNumber)
    → current_round m ≤ u32_max
    → next_round (add_multi_values (multi_info sampling m) m) ≡ some r
    → Free m r
unfolding next_round add_multi_values multi_info try_add_one
next_round-Free sampling m r small h =
    let round = current_round m in
    elim (Bool-cases (not (proposed_in m.proposed round) && not (locked_in m.locked round))) [
      | inl fresh ↦
          let same : round ≡ r = ground (arith, fresh) in
          record {
            from_current = omega arith;
            exact = λ _. sym same;
            above_locked = λ c e.
                let le = locked-current m c e in
                let other = not_locked m.locked round c (ground arith) e in ground (arith, other);
            above_proposed = λ q e.
                let le = proposed-current m q e in
                let other = not_proposed m.proposed round q (ground arith) e in
                ground (arith, other);
            fits = omega arith;
          }
      | inr taken ↦
          let next : (r ≡ round + 1) × (round < m.multi_leader_rounds) × (r ≤ u32_max) =
            ground (arith, taken) in
          record {
            from_current = omega arith;
            exact = λ late. absurd (omega arith);
            above_locked = λ c e. omega (arith, locked-current m c e);
            above_proposed = λ q e. omega (arith, proposed-current m q e);
            fits = next.2;
          }
    ]
