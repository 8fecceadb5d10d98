-- ===== src/Chain/Manager/Multi/Effects.antt =====
-- linera-chain/src/manager/multi.rs: what each operation changes of a manager, and what it keeps.
use linera_protocol.Prelude.{
  ◌≤◌, ◌≡◌, ◌⊎◌, inl, inr, refl, arith, ap, ltb, leb, Bool-cases, false, Option, Option-cases, none,
  some, Result, ok, err,
}
use linera_protocol.Base.Arithmetic.{ArithmeticError, try_add_one, try_sub_one}
use linera_protocol.Base.Identifiers.{BlockHeight, ChainId, RoundNumber}
use linera_protocol.Base.Timestamp.{Timestamp}
use linera_protocol.Execution.Committee.{Epoch}
use linera_protocol.Chain.DataTypes.{
  BlockExecutionOutcome, BlockProposal, Certificate, HashedValue, Vote, executed_with, is_timeout,
}
use linera_protocol.Chain.Crypto.{Crypto, KeyPair, into_confirmed, new_validated, new_vote}
use linera_protocol.Chain.Manager.Multi.{MultiOwnerManager, current_round, timeout_round}
use linera_protocol.Chain.Manager.Multi.Votes.{
  create_final_vote, create_vote, handle_timeout_certificate, later_locked, update_timeout,
  vote_leader_timeout, timeout_after, voted_in, known_from,
}

-- Two managers that agree on what decides over blocks.
pub record SameVotes (m m' : MultiOwnerManager) : Type 0 where
  pub proposed : m'.proposed ≡ m.proposed
  pub locked : m'.locked ≡ m.locked
  pub pending : m'.pending ≡ m.pending

pub update_timeout-same :
    (m : MultiOwnerManager) (round : RoundNumber) (now : Timestamp)
    → SameVotes m (update_timeout m round now)
      × ((update_timeout m round now).leader_timeout ≡ m.leader_timeout)
unfolding update_timeout
update_timeout-same m round now = elim (Bool-cases (leb (current_round m) round)) [
  | inl ends ↦ rw ends (record { proposed = refl; locked = refl; pending = refl }, refl)
  | inr goes_on ↦ rw goes_on (record { proposed = refl; locked = refl; pending = refl }, refl)
]

timeout_after-same :
    (m : MultiOwnerManager) (now : Timestamp) (previous : Result ArithmeticError RoundNumber)
    → SameVotes m (timeout_after m now previous)
      × ((timeout_after m now previous).leader_timeout ≡ m.leader_timeout)
timeout_after-same m now (ok round) = update_timeout-same m round now
timeout_after-same m now (err _) = (record { proposed = refl; locked = refl; pending = refl }, refl)

module _ (crypto : Crypto) (key_pair : KeyPair) where
  -- The vote that `create_vote` casts.
  abbrev pub validating : BlockProposal → BlockExecutionOutcome → Vote
  validating p outcome =
      new_vote crypto (new_validated crypto (executed_with outcome p.content.block)) p.content.round
        key_pair

  pub create_vote-effect :
      (m : MultiOwnerManager) (p : BlockProposal) (outcome : BlockExecutionOutcome)
      (now : Timestamp)
      → let m' = create_vote crypto m p outcome (some key_pair) now in
        (m'.proposed ≡ some p)
        × (m'.locked ≡ later_locked m.locked p.validated)
        × (m'.pending ≡ some (validating p outcome))
        × (m'.leader_timeout ≡ m.leader_timeout)
  unfolding create_vote
  create_vote-effect m p outcome now =
      let (same, timeout) = timeout_after-same m now (try_sub_one p.content.round) in
      (refl, ap (λ l. later_locked l p.validated) same.locked, refl, timeout)

  -- `create_final_vote` either leaves the manager as it is, or it locks the certificate and votes to
  -- confirm what it validates, in a round that is not below the current one.
  abbrev pub Confirmed : MultiOwnerManager → Certificate → HashedValue → MultiOwnerManager → Type 0
  Confirmed m c value m' =
      (current_round m ≤ c.round)
      × (into_confirmed crypto c.value ≡ some value)
      × (m'.proposed ≡ m.proposed)
      × (m'.locked ≡ some c)
      × (m'.pending ≡ some (new_vote crypto value c.round key_pair))
      × (m'.leader_timeout ≡ m.leader_timeout)

  pub create_final_vote-effect :
      (m : MultiOwnerManager) (c : Certificate) (now : Timestamp)
      → (create_final_vote crypto m c (some key_pair) now ≡ m)
        ⊎ ((value : HashedValue) × Confirmed m c value
              (create_final_vote crypto m c (some key_pair) now))
  unfolding create_final_vote
  create_final_vote-effect m c now = elim (Bool-cases (ltb c.round (current_round m))) [
    | inl early ↦ inl (rw early refl)
    | inr in_round ↦ elim (Option-cases (into_confirmed crypto c.value)) [
      | inl e ↦ inl (rw (in_round, e) refl)
      | inr (value, e) ↦
          let (same, timeout) = update_timeout-same m c.round now in
          inr (value, rw (in_round, e) (ground arith, refl, same.proposed, refl, refl, timeout))
    ]
  ]

  pub vote_leader_timeout-same :
      (m : MultiOwnerManager) (id : ChainId) (height : BlockHeight) (epoch : Epoch)
      (now : Timestamp)
      → let m' = (vote_leader_timeout crypto m id height epoch (some key_pair) now).0 in
        SameVotes m m' × (m'.leader_timeout ≡ m.leader_timeout)
  unfolding vote_leader_timeout
  vote_leader_timeout-same m id height epoch now = elim (Bool-cases (ltb now m.round_timeout)) [
    | inl early ↦ rw early (record { proposed = refl; locked = refl; pending = refl }, refl)
    | inr due ↦ elim (Bool-cases (voted_in m.timeout_vote (current_round m))) [
      | inl again ↦
          rw (due, again) (record { proposed = refl; locked = refl; pending = refl }, refl)
      | inr fresh ↦
          rw (due, fresh) (record { proposed = refl; locked = refl; pending = refl }, refl)
    ]
  ]

timeout_round-known :
    (known : Option Certificate) (c : Certificate)
    → known_from known c.round ≡ false
    → timeout_round known ≤ timeout_round (some c)
unfolding timeout_round try_add_one
timeout_round-known none c h = ground arith
timeout_round-known (some k) c h = ground arith

pub handle_timeout_certificate-same :
    (m : MultiOwnerManager) (c : Certificate) (now : Timestamp)
    → let m' = handle_timeout_certificate m c now in
      SameVotes m m' × (timeout_round m.leader_timeout ≤ timeout_round m'.leader_timeout)
unfolding handle_timeout_certificate
handle_timeout_certificate-same m c now =
    let unchanged : SameVotes m m
        × (timeout_round m.leader_timeout ≤ timeout_round m.leader_timeout) =
      (record { proposed = refl; locked = refl; pending = refl }, omega arith) in
    elim (Bool-cases (is_timeout c.value.value)) [
      | inr other ↦ rw other unchanged
      | inl is ↦ elim (Bool-cases (known_from m.leader_timeout c.round)) [
        | inl known ↦ rw (is, known) unchanged
        | inr news ↦
            let (same, _) = update_timeout-same m c.round now in
            rw (is, news)
              (
                record { proposed = same.proposed; locked = same.locked; pending = same.pending },
                timeout_round-known m.leader_timeout c news,
              )
      ]
    ]
