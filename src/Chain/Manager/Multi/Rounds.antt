-- ===== src/Chain/Manager/Multi/Rounds.antt =====
-- linera-chain/src/manager/multi.rs: the current round of a manager and the rounds of its votes.
use linera_protocol.Prelude.{
  ◌≤◌, ◌<◌, ◌≡◌, inl, inr, refl, sym, subst, arith, ap, ◌∙◌, Option, some_inj, none, some,
}
use linera_protocol.Base.Timestamp.{Timestamp}
use linera_protocol.Chain.DataTypes.{
  BlockExecutionOutcome, BlockProposal, Certificate, HashedValue, Vote,
}
use linera_protocol.Chain.Crypto.{Crypto, KeyPair, new_vote}
use linera_protocol.Chain.Manager.Multi.{
  MultiOwnerManager, current_round, locked_round, proposed_round, timeout_round,
}
use linera_protocol.Chain.Manager.Multi.Votes.{create_final_vote, create_vote, later_locked}
use linera_protocol.Chain.Manager.Multi.Steps.{
  Accepted, Step, check_proposed_block-Accepted, check_validated_block-above, proposal,
  timeout_certificate, timeout_vote, validated_certificate,
}
use linera_protocol.Chain.Manager.Multi.Effects.{
  SameVotes, validating, create_vote-effect, Confirmed, create_final_vote-effect,
  vote_leader_timeout-same, handle_timeout_certificate-same,
}

-- The current round is a maximum of three, so it does not fall where none of them does.
current_round_mono :
    (m m' : MultiOwnerManager)
    → timeout_round m.leader_timeout ≤ timeout_round m'.leader_timeout
    → locked_round m.locked ≤ locked_round m'.locked
    → proposed_round m.proposed ≤ proposed_round m'.proposed
    → current_round m ≤ current_round m'
unfolding current_round
current_round_mono m m' h k l = omega arith

pub same-current_round :
    (m m' : MultiOwnerManager)
    → SameVotes m m'
    → timeout_round m.leader_timeout ≤ timeout_round m'.leader_timeout
    → current_round m ≤ current_round m'
same-current_round m m' same h =
    current_round_mono m m' h (omega (arith, ap locked_round same.locked))
      (omega (arith, ap proposed_round same.proposed))

later_locked-round :
    (locked validated : Option Certificate)
    → locked_round locked ≤ locked_round (later_locked locked validated)
unfolding locked_round later_locked
later_locked-round none none = omega arith
later_locked-round (some l) none = omega arith
later_locked-round none (some v) = omega arith
later_locked-round (some l) (some v) = ground arith

newer-round :
    (o : Option BlockProposal) (p : BlockProposal)
    → ((old : BlockProposal) → o ≡ some old → old.content.round < p.content.round)
    → proposed_round o ≤ proposed_round (some p)
unfolding proposed_round
newer-round none p h = omega arith
newer-round (some old) p h = omega (arith, h old refl)

above-round :
    (o : Option Certificate) (c : Certificate)
    → ((l : Certificate) → o ≡ some l → l.round < c.round)
    → locked_round o ≤ locked_round (some c)
unfolding locked_round
above-round none c h = omega arith
above-round (some l) c h = omega (arith, h l refl)

module _ (crypto : Crypto) (key_pair : KeyPair) where
  pub create_vote-current_round :
      (m : MultiOwnerManager) (p : BlockProposal) (outcome : BlockExecutionOutcome)
      (now : Timestamp)
      → Accepted m p
      → let m' = create_vote crypto m p outcome (some key_pair) now in
        (current_round m ≤ current_round m') × (p.content.round ≤ current_round m')
  unfolding current_round proposed_round
  create_vote-current_round m p outcome now a =
      let (proposed, locked, _, timeout) = create_vote-effect crypto key_pair m p outcome now in
      let newer = newer-round m.proposed p a.newer in
      let later = later_locked-round m.locked p.validated in
      (
        omega (arith, ap timeout_round timeout, ap locked_round locked, ap proposed_round proposed),
        omega (arith, ap proposed_round proposed),
      )

  pub create_final_vote-current_round :
      (m : MultiOwnerManager) (c : Certificate) (value : HashedValue) (m' : MultiOwnerManager)
      → ((l : Certificate) → m.locked ≡ some l → l.round < c.round)
      → Confirmed crypto key_pair m c value m'
      → (current_round m ≤ current_round m') × (c.round ≤ current_round m')
  unfolding current_round locked_round
  create_final_vote-current_round m c value m' above (in_round, _, proposed, locked, _, timeout) =
      let higher = above-round m.locked c above in
      (
        omega (arith, ap timeout_round timeout, ap locked_round locked, ap proposed_round proposed),
        omega (arith, ap locked_round locked),
      )

-- The last vote is not for a round above the current one.
abbrev pub InOrder : MultiOwnerManager → Type 0
InOrder m = (v : Vote) → m.pending ≡ some v → v.round ≤ current_round m

-- What one step keeps: the current round does not fall, the last vote stays in order, there is one if
-- there was one, and it is not for an earlier round.
pub record Advances (m m' : MultiOwnerManager) : Type 0 where
  pub round : current_round m ≤ current_round m'
  pub order : InOrder m → InOrder m'
  pub vote : InOrder m → (v w : Vote) → m.pending ≡ some v → m'.pending ≡ some w → v.round ≤ w.round
  pub kept : (v : Vote) → m.pending ≡ some v → (w : Vote) × (m'.pending ≡ some w)

same-Advances :
    (m m' : MultiOwnerManager)
    → m'.pending ≡ m.pending
    → current_round m ≤ current_round m'
    → Advances m m'
same-Advances m m' same le = record {
  round = le;
  order = λ o v e. let h = o v (sym same ∙ e) in omega arith;
  vote = λ o v w e e'.
      let eq : v ≡ w = some_inj (sym e ∙ sym same ∙ e') in
      omega (arith, ap (λ (x : Vote). x.round) eq);
  kept = λ v e. (v, same ∙ e);
}

-- A step that casts a vote in a round that is not below the current one.
casts-Advances :
    (m m' : MultiOwnerManager) (cast : Vote)
    → m'.pending ≡ some cast
    → current_round m ≤ current_round m'
    → current_round m ≤ cast.round
    → cast.round ≤ current_round m'
    → Advances m m'
casts-Advances m m' cast casts le above below = record {
  round = le;
  order = λ o v e.
      let eq : cast ≡ v = some_inj (sym casts ∙ e) in omega (arith, ap (λ (x : Vote). x.round) eq);
  vote = λ o v w e e'.
      let eq : cast ≡ w = some_inj (sym casts ∙ e') in
      let h = o v e in omega (arith, ap (λ (x : Vote). x.round) eq);
  kept = λ v e. (cast, casts);
}

module _ {crypto : Crypto} {key_pair : KeyPair} {G : Certificate → Type 0} where
  pub Step-Advances : {m m' : MultiOwnerManager} → Step crypto key_pair G m m' → Advances m m'
  unfolding new_vote
  Step-Advances (proposal {m = m} p outcome now _ accepts) =
      let a = check_proposed_block-Accepted m p accepts in
      let (_, _, pending, _) = create_vote-effect crypto key_pair m p outcome now in
      let (le, below) = create_vote-current_round crypto key_pair m p outcome now a in
      casts-Advances m _ (validating crypto key_pair p outcome) pending le a.in_round below
  Step-Advances (validated_certificate {m = m} c now _ _ accepts) =
      elim (create_final_vote-effect crypto key_pair m c now) [
        | inl same ↦ subst (Advances m) (sym same) (same-Advances m m refl (omega arith))
        | inr (value, confirmed) ↦
            let m' = create_final_vote crypto m c (some key_pair) now in
            let (le, below) =
              create_final_vote-current_round crypto key_pair m c value m'
                (λ l. check_validated_block-above m c l accepts) confirmed in
            casts-Advances m m' (new_vote crypto value c.round key_pair) confirmed.4 le confirmed.0
              below
      ]
  Step-Advances (timeout_vote {m = m} id height epoch now) =
      let (same, timeout) = vote_leader_timeout-same crypto key_pair m id height epoch now in
      same-Advances m _ same.pending
        (same-current_round m _ same (omega (arith, ap timeout_round timeout)))
  Step-Advances (timeout_certificate {m = m} c now _ _) =
      let (same, timeout) = handle_timeout_certificate-same m c now in
      same-Advances m _ same.pending (same-current_round m _ same timeout)
