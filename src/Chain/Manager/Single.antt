-- ===== src/Chain/Manager/Single.antt =====
-- linera-chain/src/manager/single.rs: `SingleOwnerManager`, and what it lets its validator sign.
use linera_protocol.Prelude.{
  ◌≡◌, ◌≢◌, ◌↔◌, refl, sym, arith, ◌∙◌, ◌==◌, not, is_eq, is_eq→eq, is_eq_refl, if◌then◌else◌, ◌&&◌,
  Bool, true, false, Option, none, some, Result, ok, err, ◌>>◌, ensure, ensure-ok, Bool-cases, inl,
  inr, ap,
}
use linera_protocol.Base.Identifiers.{Owner, PublicKey}
use linera_protocol.Chain.DataTypes.{
  Block, Block-discrete, BlockExecutionOutcome, BlockProposal, Certificate, CertificateValue,
  ExecutedBlock, Vote, executed_with, confirmed_block,
}
use linera_protocol.Chain.Crypto.{Crypto, KeyPair, hashed, new_vote}
use linera_protocol.Chain.Errors.{
  ChainError, internal_error, invalid_block_proposal, previous_block_must_be_confirmed_first,
}
use linera_protocol.Chain.Manager.Sampling.{Outcome, accept, skip}

pub record SingleOwnerManager : Type 0 where
  pub owner : Owner
  pub public_key : PublicKey
  pub pending : Option Vote

unfoldable pub new : Owner → PublicKey → SingleOwnerManager
new owner public_key = record { owner = owner; public_key = public_key; pending = none }

abbrev pub is_none : Option Certificate → Bool
is_none none = true
is_none (some _) = false

abbrev pub check_signed : CertificateValue → Block → Result ChainError Outcome
check_signed (confirmed_block b) new_block =
    if is_eq Block-discrete b.block new_block
    then ok skip
    else err previous_block_must_be_confirmed_first
check_signed _ new_block = err (internal_error "Unexpected value")

abbrev pub check_last_vote : Option Vote → Block → Result ChainError Outcome
check_last_vote none new_block = ok accept
check_last_vote (some vote) new_block = check_signed vote.value.value new_block

unfoldable pub check_proposed_block : SingleOwnerManager → BlockProposal → Result ChainError Outcome
check_proposed_block m proposal = do
  ensure (is_none proposal.validated) invalid_block_proposal
  ensure (proposal.content.round == 0 && is_none proposal.validated) invalid_block_proposal
  check_last_vote m.pending proposal.content.block

unfoldable pub create_vote :
    Crypto
    → SingleOwnerManager
    → BlockProposal
    → BlockExecutionOutcome
    → Option KeyPair
    → SingleOwnerManager
unfolding hashed executed_with
create_vote crypto m proposal outcome none = m
create_vote crypto m proposal outcome (some key_pair) =
    if not (proposal.content.round == 0) then m else record m {
      pending = some (
          new_vote crypto
            (hashed crypto (confirmed_block (executed_with outcome proposal.content.block)))
            proposal.content.round key_pair);
    }

unfoldable pub verify_owner : SingleOwnerManager → BlockProposal → Option PublicKey
verify_owner m proposal = if m.owner == proposal.owner then some m.public_key else none

is_none→eq : (o : Option Certificate) → is_none o ≡ true → o ≡ none
is_none→eq none h = refl
is_none→eq (some c) h = cc

accepted_round :
    (m : SingleOwnerManager) (p : BlockProposal)
    → check_proposed_block m p ≡ ok accept
    → (p.content.round == 0) ≡ true
unfolding check_proposed_block
accepted_round m p h =
    let (_, h₁) = ensure-ok (is_none p.validated) invalid_block_proposal _ h in
    let (round, _) =
      ensure-ok (p.content.round == 0 && is_none p.validated) invalid_block_proposal _ h₁ in
    ground arith

accepted_zeroth :
    (m : SingleOwnerManager) (p : BlockProposal)
    → check_proposed_block m p ≡ ok accept
    → p.content.round ≡ 0
accepted_zeroth m p h = let round = accepted_round m p h in ground arith

accepted_uncertified :
    (m : SingleOwnerManager) (p : BlockProposal)
    → check_proposed_block m p ≡ ok accept
    → p.validated ≡ none
unfolding check_proposed_block
accepted_uncertified m p h =
    is_none→eq p.validated (ensure-ok (is_none p.validated) invalid_block_proposal _ h).0

-- The checks of a manager that has voted to confirm a block.
check_signed-cases :
    (b new_block : Block) (outcome : Outcome)
    → (if is_eq Block-discrete b new_block
        then ok skip
        else err previous_block_must_be_confirmed_first)
      ≡ ok outcome
    → (outcome ≡ skip) × (new_block ≡ b)
check_signed-cases b new_block outcome h = elim (Bool-cases (is_eq Block-discrete b new_block)) [
  | inl same ↦ (ground (arith, same), sym (is_eq→eq Block-discrete b new_block same))
  | inr other ↦ absurd (ground (arith, other))
]

after_vote :
    (m : SingleOwnerManager) (v : Vote) (e : ExecutedBlock) (q : BlockProposal) (outcome : Outcome)
    → m.pending ≡ some v
    → v.value.value ≡ confirmed_block e
    → check_proposed_block m q ≡ ok outcome
    → (outcome ≡ skip) × (q.validated ≡ none) × (q.content.round ≡ 0) × (q.content.block ≡ e.block)
unfolding check_proposed_block
after_vote m v e q outcome pending value h =
    let (no_cert, h₁) = ensure-ok (is_none q.validated) invalid_block_proposal _ h in
    let (round, h₂) =
      ensure-ok (q.content.round == 0 && is_none q.validated) invalid_block_proposal _ h₁ in
    let last : check_last_vote (some v) q.content.block ≡ ok outcome =
      ap (λ o. check_last_vote o q.content.block) (sym pending) ∙ h₂ in
    let signed : check_signed (confirmed_block e) q.content.block ≡ ok outcome =
      ap (λ x. check_signed x q.content.block) (sym value) ∙ last in
    let (skips, same) = check_signed-cases e.block q.content.block outcome signed in
    (skips, is_none→eq q.validated no_cert, ground arith, same)

accept≢skip : accept ≢ skip
accept≢skip h = cc

repeated :
    (m : SingleOwnerManager) (v : Vote) (e : ExecutedBlock) (q : BlockProposal)
    → m.pending ≡ some v
    → v.value.value ≡ confirmed_block e
    → q.validated ≡ none
    → q.content.round ≡ 0
    → q.content.block ≡ e.block
    → check_proposed_block m q ≡ ok skip
unfolding check_proposed_block
repeated m v e q pending value no_cert round same =
    rw (pending, value, no_cert, round, same, is_eq_refl Block-discrete e.block) refl

-- A manager that accepts a proposal and votes on it with its key accepts no proposal from then on, and
-- takes for a repetition exactly those of the same block in round 0 without a certificate.
pub create_vote-signs_once :
    (crypto : Crypto) (m : SingleOwnerManager) (p q : BlockProposal)
    (outcome : BlockExecutionOutcome) (key_pair : KeyPair)
    → check_proposed_block m p ≡ ok accept
    → let m' = create_vote crypto m p outcome (some key_pair) in
      (check_proposed_block m' q ≢ ok accept)
      × ((check_proposed_block m' q ≡ ok skip)
          ↔ ((q.validated ≡ none) × (q.content.round ≡ 0) × (q.content.block ≡ p.content.block)))
unfolding check_proposed_block create_vote hashed executed_with new_vote
create_vote-signs_once crypto m p q outcome key_pair h =
    let m' = create_vote crypto m p outcome (some key_pair) in
    let e = executed_with outcome p.content.block in
    let v = new_vote crypto (hashed crypto (confirmed_block e)) p.content.round key_pair in
    let round = accepted_round m p h in
    let pending : m'.pending ≡ some v = rw round refl in
    (
      λ accepts. let r = after_vote m' v e q accept pending refl accepts in accept≢skip r.0,
      (
        λ skips. let (_, a, b, c) = after_vote m' v e q skip pending refl skips in (a, b, c),
        λ (no_cert, zeroth, same). repeated m' v e q pending refl no_cert zeroth same,
      ),
    )

-- And it skips the proposal itself.
pub create_vote-skips :
    (crypto : Crypto) (m : SingleOwnerManager) (p : BlockProposal) (outcome : BlockExecutionOutcome)
    (key_pair : KeyPair)
    → check_proposed_block m p ≡ ok accept
    → check_proposed_block (create_vote crypto m p outcome (some key_pair)) p ≡ ok skip
create_vote-skips crypto m p outcome key_pair h =
    let (_, repeats) = create_vote-signs_once crypto m p p outcome key_pair h in
    repeats.1 (accepted_uncertified m p h, accepted_zeroth m p h, refl)
