-- ===== src/Chain/Manager/Multi/Locking.antt =====
-- linera-chain/src/manager/multi.rs: what the locked certificate says of the votes that were cast.
use linera_protocol.Prelude.{
  ◌≤◌, ◌<◌, ◌≡◌, ◌⊎◌, inl, inr, refl, sym, subst, arith, ◌∙◌, ◌==◌, Bool-cases, true, Option,
  Option-cases, none, some, some_inj, List, [], ◌∷◌,
}
use linera_protocol.Base.Identifiers.{RoundNumber}
use linera_protocol.Chain.DataTypes.{Block, BlockProposal, Certificate, Vote, block, is_validated}
use linera_protocol.Chain.Manager.Multi.{MultiOwnerManager, proposed_round}
use linera_protocol.Chain.Manager.Multi.Effects.{SameVotes}
use linera_protocol.Chain.Manager.Multi.History.{Confirms, In, IsNew, Validates, show}

-- A certificate for a validated block in the round.
pub record Certifies (G : Certificate → Type 0) (b : Block) (round : RoundNumber) : Type 0 where
  pub certificate : Certificate
  pub genuine : G certificate
  pub validated : is_validated certificate.value.value ≡ true
  pub for_block : block certificate.value.value ≡ some b
  pub in_round : certificate.round ≡ round

-- The lock of a manager after it voted to confirm a block: a certificate from that round on, and the
-- block's own if it is from that round.
pub record Holds (m : MultiOwnerManager) (b : Block) (round : RoundNumber) : Type 0 where
  pub certificate : Certificate
  pub locked : m.locked ≡ some certificate
  pub from_round : round ≤ certificate.round
  pub same_round : round ≡ certificate.round → block certificate.value.value ≡ some b

abbrev pub proposed_block : Option BlockProposal → Option Block
proposed_block none = none
proposed_block (some p) = some p.content.block

moved :
    (m m' : MultiOwnerManager) (b : Block) (s : RoundNumber)
    → m'.locked ≡ m.locked
    → Holds m b s
    → Holds m' b s
moved m m' b s same h = record {
  certificate = h.certificate;
  locked = same ∙ h.locked;
  from_round = h.from_round;
  same_round = h.same_round;
}

module _ (G : Certificate → Type 0) where
  -- What holds of a manager and of all the votes that it has cast.
  pub record Inv (votes : List Vote) (m : MultiOwnerManager) : Type 0 where
    -- The last vote is one of them.
    pub shown : (v : Vote) → m.pending ≡ some v → In v votes
    -- A vote to validate is not above the last proposal, and for its block if in its round.
    pub validations :
        (v : Vote) (b : Block) (r : RoundNumber)
        → In v votes
        → Validates v b r
        → (r ≤ proposed_round m.proposed)
          × (r ≡ proposed_round m.proposed → proposed_block m.proposed ≡ some b)
    -- A vote to confirm is behind the lock, and a certificate validates its block in its round.
    pub confirmations :
        (v : Vote) (b : Block) (s : RoundNumber)
        → In v votes
        → Confirms v b s
        → Holds m b s × Certifies G b s
    -- What is locked is a certificate for a validated block.
    pub lock : (c : Certificate) → m.locked ≡ some c → G c × (is_validated c.value.value ≡ true)
    -- In one round it validates one block only.
    pub one_block :
        (v w : Vote) (a b : Block) (r : RoundNumber)
        → In v votes
        → In w votes
        → Validates v a r
        → Validates w b r
        → a ≡ b
    -- After a vote to confirm, it validates another block only if a certificate from between did.
    pub unlocked :
        (v w : Vote) (a b : Block) (r s : RoundNumber)
        → In v votes
        → In w votes
        → Validates v a r
        → Confirms w b s
        → s < r
        → (a ≡ b) ⊎ ((t : RoundNumber) × (s < t) × (t < r) × Certifies G a t)

  pub begin-Inv : (m : MultiOwnerManager) → IsNew m → Inv [] m
  begin-Inv m n = record {
    shown = λ v e. cc (n.pending, e);
    validations = λ v b r i. absurd i;
    confirmations = λ v b s i. absurd i;
    lock = λ c e. cc (n.locked, e);
    one_block = λ v w a b r i. absurd i;
    unlocked = λ v w a b r s i. absurd i;
  }

  -- The step cast no new vote and kept what decides over blocks.
  same-Inv :
      (votes : List Vote) (m m' : MultiOwnerManager) → Inv votes m → SameVotes m m' → Inv votes m'
  same-Inv votes m m' i same = record {
    shown = λ v e. i.shown v (sym same.pending ∙ e);
    validations = λ v b r inn val.
        subst (λ p. (r ≤ proposed_round p) × (r ≡ proposed_round p → proposed_block p ≡ some b))
          (sym same.proposed) (i.validations v b r inn val);
    confirmations = λ v b s inn con.
        let (h, c) = i.confirmations v b s inn con in (moved m m' b s same.locked h, c);
    lock = λ c e. i.lock c (sym same.locked ∙ e);
    one_block = i.one_block;
    unlocked = i.unlocked;
  }

  -- The invariant reads the votes as a set.
  same_votes-Inv :
      (votes votes' : List Vote) (m : MultiOwnerManager)
      → ((v : Vote) → In v votes' → In v votes)
      → ((v : Vote) → In v votes → In v votes')
      → Inv votes m
      → Inv votes' m
  same_votes-Inv votes votes' m back forth i = record {
    shown = λ v e. forth v (i.shown v e);
    validations = λ v b r inn. i.validations v b r (back v inn);
    confirmations = λ v b s inn. i.confirmations v b s (back v inn);
    lock = i.lock;
    one_block = λ v w a b r inn inn'. i.one_block v w a b r (back v inn) (back w inn');
    unlocked = λ v w a b r s inn inn'. i.unlocked v w a b r s (back v inn) (back w inn');
  }

  again : (v w : Vote) (votes : List Vote) → In v votes → In w (v ∷ votes) → In w votes
  again v w votes inn (inl e) = subst (λ x. In x votes) (sym e) inn
  again v w votes inn (inr inn') = inn'

  -- A step that changes neither proposal, lock nor vote: the vote that is shown again is an old one.
  pub silent-Inv :
      (votes : List Vote) (m m' : MultiOwnerManager)
      → Inv votes m
      → SameVotes m m'
      → Inv (show m'.pending votes) m'
  silent-Inv votes m m' i same =
      let i' = same-Inv votes m m' i same in
      elim (Option-cases m'.pending) [
        | inl e ↦ subst (λ x. Inv (show x votes) m') (sym e) i'
        | inr (v, e) ↦
            subst (λ x. Inv (show x votes) m') (sym e)
              (same_votes-Inv votes (v ∷ votes) m' (λ w. again v w votes (i'.shown v e))
                (λ w inn. inr inn) i')
      ]

  -- A certificate that is at or above the round of a confirmation, and that decides over the next
  -- proposal: it is for the confirmed block, or it lies above.
  pub deciding :
      (c : Certificate) (a b : Block) (r s : RoundNumber)
      → G c
      → is_validated c.value.value ≡ true
      → s ≤ c.round
      → (s ≡ c.round → block c.value.value ≡ some b)
      → c.round < r
      → block c.value.value ≡ some a
      → (a ≡ b) ⊎ ((t : RoundNumber) × (s < t) × (t < r) × Certifies G a t)
  deciding c a b r s genuine validated from same below for_block =
      elim (Bool-cases (s == c.round)) [
        | inl equal ↦ inl (some_inj (sym for_block ∙ same (ground arith)))
        | inr other ↦ inr (
          c.round,
          ground arith,
          below,
          record {
            certificate = c;
            genuine = genuine;
            validated = validated;
            for_block = for_block;
            in_round = refl;
          },
        )
      ]
