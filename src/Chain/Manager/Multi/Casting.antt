-- ===== src/Chain/Manager/Multi/Casting.antt =====
-- linera-chain/src/manager/multi.rs: the vote that a step of a validator casts, to validate or to confirm
-- a block or to end a round.
use linera_protocol.Prelude.{
  ◌≤◌, ◌≡◌, ◌⊎◌, inl, inr, refl, sym, subst, arith, ap, ◌∙◌, ltb, if◌then◌else◌, Bool-cases, true,
  false, Option, Option-cases, none, some, some_inj,
}
use linera_protocol.Base.Identifiers.{BlockHeight, ChainId}
use linera_protocol.Base.Timestamp.{Timestamp}
use linera_protocol.Execution.Committee.{Epoch}
use linera_protocol.Chain.DataTypes.{Certificate, HashedValue, Vote, is_timeout}
use linera_protocol.Chain.Crypto.{
  Crypto, KeyPair, hashed, into_confirmed, new_leader_timeout, new_vote,
}
use linera_protocol.Chain.Manager.Multi.{MultiOwnerManager, current_round, timeout_round}
use linera_protocol.Chain.Manager.Multi.Votes.{
  create_final_vote, create_vote, vote_leader_timeout, voted_in,
}
use linera_protocol.Chain.Manager.Multi.Steps.{
  Step, check_proposed_block-Accepted, check_validated_block-above, proposal, timeout_certificate,
  timeout_vote, validated_certificate,
}
use linera_protocol.Chain.Manager.Multi.Effects.{
  Confirmed, validating, update_timeout-same, create_vote-effect, vote_leader_timeout-same,
  handle_timeout_certificate-same,
}
use linera_protocol.Chain.Manager.Multi.Rounds.{
  same-current_round, create_vote-current_round, create_final_vote-current_round,
}

-- `create_final_vote` votes if its certificate has a value to confirm.
abbrev pub if_confirmed : Option HashedValue → Option Vote → Option Vote
if_confirmed none vote = none
if_confirmed (some _) vote = vote

module _ {crypto : Crypto} {key_pair : KeyPair} {G : Certificate → Type 0} where
  -- The vote that a step casts, if any.
  unfoldable pub cast : {m m' : MultiOwnerManager} → Step crypto key_pair G m m' → Option Vote
  cast (proposal {m = m} p outcome now _ _) =
      (create_vote crypto m p outcome (some key_pair) now).pending
  cast (validated_certificate {m = m} c now _ _ _) =
      if ltb c.round (current_round m)
      then none
      else if_confirmed (into_confirmed crypto c.value)
          (create_final_vote crypto m c (some key_pair) now).pending
  cast (timeout_vote {m = m} id height epoch now) =
      let voted = vote_leader_timeout crypto m id height epoch (some key_pair) now in
      if voted.1 then voted.0.timeout_vote else none
  cast (timeout_certificate c now _ _) = none

-- What a step that casts a vote, or none, keeps: the vote is for a round from the current one to the
-- current one afterwards, a new pending vote is cast, and a vote for a block is the pending one.
pub record IsCast (m m' : MultiOwnerManager) (o : Option Vote) : Type 0 where
  pub above : (v : Vote) → o ≡ some v → current_round m ≤ v.round
  pub below : (v : Vote) → o ≡ some v → v.round ≤ current_round m'
  pub shown : (v : Vote) → m'.pending ≡ some v → (m.pending ≡ some v) ⊎ (o ≡ some v)
  pub blocks : (v : Vote) → o ≡ some v → is_timeout v.value.value ≡ false → m'.pending ≡ some v

silent-IsCast : (m m' : MultiOwnerManager) → m'.pending ≡ m.pending → IsCast m m' none
silent-IsCast m m' same = record {
  above = λ v e. cc;
  below = λ v e. cc;
  shown = λ v e. inl (sym same ∙ e);
  blocks = λ v e. cc;
}

round_same : {v w : Vote} → some v ≡ some w → v.round ≡ w.round
round_same h = ap (λ (x : Vote). x.round) (some_inj h)

pending-IsCast :
    (m m' : MultiOwnerManager) (w : Vote)
    → m'.pending ≡ some w
    → current_round m ≤ w.round
    → w.round ≤ current_round m'
    → IsCast m m' (some w)
pending-IsCast m m' w e a b = record {
  above = λ v h. omega (arith, round_same h);
  below = λ v h. omega (arith, round_same h);
  shown = λ v h. inr (sym e ∙ h);
  blocks = λ v h t. e ∙ h;
}

timeout-IsCast :
    (m m' : MultiOwnerManager) (w : Vote)
    → m'.pending ≡ m.pending
    → is_timeout w.value.value ≡ true
    → w.round ≡ current_round m
    → current_round m ≤ current_round m'
    → IsCast m m' (some w)
timeout-IsCast m m' w same t r le = record {
  above = λ v h. omega (arith, round_same h);
  below = λ v h. omega (arith, round_same h);
  shown = λ v h. inl (sym same ∙ h);
  blocks =
      λ v h f. absurd (ground (arith, ap (λ (x : Vote). is_timeout x.value.value) (some_inj h)));
}

module _ (crypto : Crypto) (key_pair : KeyPair) where
  final_ballot :
      (m : MultiOwnerManager) (c : Certificate) (now : Timestamp)
      → let m' = create_final_vote crypto m c (some key_pair) now in
        let o =
          if ltb c.round (current_round m)
          then none
          else if_confirmed (into_confirmed crypto c.value) m'.pending in
        ((o ≡ none) × (m'.pending ≡ m.pending))
        ⊎ ((value : HashedValue) × (o ≡ some (new_vote crypto value c.round key_pair))
            × Confirmed crypto key_pair m c value m')
  unfolding create_final_vote
  final_ballot m c now = elim (Bool-cases (ltb c.round (current_round m))) [
    | inl early ↦ inl (rw early (refl, refl))
    | inr in_round ↦ elim (Option-cases (into_confirmed crypto c.value)) [
      | inl e ↦ inl (rw (in_round, e) (refl, refl))
      | inr (value, e) ↦
          let (same, timeout) = update_timeout-same m c.round now in
          inr (
            value,
            rw (in_round, e) refl,
            rw (in_round, e) (ground arith, refl, same.proposed, refl, refl, timeout),
          )
    ]
  ]

  timeout_ballot :
      (m : MultiOwnerManager) (id : ChainId) (height : BlockHeight) (epoch : Epoch)
      (now : Timestamp)
      → let voted = vote_leader_timeout crypto m id height epoch (some key_pair) now in
        let o = if voted.1 then voted.0.timeout_vote else none in
        (o ≡ none)
        ⊎ ((w : Vote) × (o ≡ some w)
            × (is_timeout w.value.value ≡ true)
            × (w.round ≡ current_round m))
  unfolding vote_leader_timeout new_vote new_leader_timeout hashed is_timeout
  timeout_ballot m id height epoch now = elim (Bool-cases (ltb now m.round_timeout)) [
    | inl early ↦ rw early (inl refl)
    | inr due ↦ elim (Bool-cases (voted_in m.timeout_vote (current_round m))) [
      | inl again ↦ rw (due, again) (inl refl)
      | inr fresh ↦ rw (due, fresh) (inr (_, refl, refl, refl))
    ]
  ]

module _ {crypto : Crypto} {key_pair : KeyPair} {G : Certificate → Type 0} where
  pub Step-IsCast :
      {m m' : MultiOwnerManager} (step : Step crypto key_pair G m m') → IsCast m m' (cast step)
  unfolding cast new_vote
  Step-IsCast (proposal {m = m} p outcome now g accepts) =
      let m' = create_vote crypto m p outcome (some key_pair) now in
      let a = check_proposed_block-Accepted m p accepts in
      let (_, _, pending, _) = create_vote-effect crypto key_pair m p outcome now in
      let (le, below) = create_vote-current_round crypto key_pair m p outcome now a in
      subst (IsCast m m') (sym pending)
        (pending-IsCast m m' (validating crypto key_pair p outcome) pending a.in_round below)
  Step-IsCast (validated_certificate {m = m} c now g is accepts) =
      let m' = create_final_vote crypto m c (some key_pair) now in
      elim (final_ballot crypto key_pair m c now) [
        | inl (e, same) ↦ subst (IsCast m m') (sym e) (silent-IsCast m m' same)
        | inr (value, e, confirmed) ↦
            let (le, below) =
              create_final_vote-current_round crypto key_pair m c value m'
                (λ l. check_validated_block-above m c l accepts) confirmed in
            subst (IsCast m m') (sym e) (
              pending-IsCast m m' (new_vote crypto value c.round key_pair) confirmed.4 confirmed.0
                below)
      ]
  Step-IsCast (timeout_vote {m = m} id height epoch now) =
      let m' = (vote_leader_timeout crypto m id height epoch (some key_pair) now).0 in
      let (same, timeout) = vote_leader_timeout-same crypto key_pair m id height epoch now in
      let le = same-current_round m m' same (omega (arith, ap timeout_round timeout)) in
      elim (timeout_ballot crypto key_pair m id height epoch now) [
        | inl e ↦ subst (IsCast m m') (sym e) (silent-IsCast m m' same.pending)
        | inr (w, e, t, r) ↦ subst (IsCast m m') (sym e) (timeout-IsCast m m' w same.pending t r le)
      ]
  Step-IsCast (timeout_certificate {m = m} c now g is) =
      let (same, timeout) = handle_timeout_certificate-same m c now in
      silent-IsCast m _ same.pending
