-- ===== src/Chain/Manager/Multi/Confirming.antt =====
-- linera-chain/src/manager/multi.rs: what the locked certificate says after a vote to confirm.
use linera_protocol.Prelude.{
  ◌≤◌, ◌<◌, ◌≡◌, ◌⊎◌, inl, inr, refl, sym, subst, arith, ap, ◌∙◌, true, some, some_inj, List, ◌∷◌,
}
use linera_protocol.Base.Identifiers.{RoundNumber}
use linera_protocol.Chain.DataTypes.{
  Block, Certificate, CertificateValue, ExecutedBlock, HashedValue, Vote, block, executed_block,
  is_validated, validated_block, confirmed_block, leader_timeout,
}
use linera_protocol.Chain.Crypto.{Crypto, into_confirmed, hashed}
use linera_protocol.Chain.Manager.Multi.{MultiOwnerManager, current_round, proposed_round}
use linera_protocol.Chain.Manager.Multi.History.{Confirms, In, Validates}
use linera_protocol.Chain.Manager.Multi.Locking.{Certifies, Holds, Inv, proposed_block}

-- A vote for a confirmed block is not one to validate, and confirms its own block in its own round.
confirmed_only :
    (w : Vote) (e : ExecutedBlock) (b : Block) (s : RoundNumber)
    → w.value.value ≡ confirmed_block e
    → Confirms w b s
    → (e.block ≡ b) × (w.round ≡ s)
confirmed_only w e b s value (e', value', block_eq, round_eq) = (cc, round_eq)

not-Validates :
    (w : Vote) (e : ExecutedBlock) (b : Block) (s : RoundNumber)
    → w.value.value ≡ confirmed_block e
    → Validates w b s
    → ⊥
not-Validates w e b s value (e', value', _, _) = cc

-- A validated block is confirmed as the same executed block.
pub into_confirmed-validated :
    (crypto : Crypto) (v : HashedValue) {value : HashedValue}
    → is_validated v.value ≡ true
    → into_confirmed crypto v ≡ some value
    → (e : ExecutedBlock) × (block v.value ≡ some e.block) × (value.value ≡ confirmed_block e)
unfolding into_confirmed hashed is_validated block executed_block
into_confirmed-validated crypto v {value} is confirms = from v.value refl
  where
    from :
        (cv : CertificateValue)
        → v.value ≡ cv
        → (e : ExecutedBlock) × (block v.value ≡ some e.block) × (value.value ≡ confirmed_block e)
    from (validated_block e) eq =
        let same : some (hashed crypto (confirmed_block e)) ≡ some value = ground (arith, eq) in
        (e, ap block eq, ap (λ (x : HashedValue). x.value) (sym (some_inj same)))
    from (confirmed_block e) eq = ground (arith, eq)
    from (leader_timeout _ _ _) eq = ground (arith, eq)

module _ (G : Certificate → Type 0) (votes : List Vote) (m : MultiOwnerManager) (i : Inv G votes m)
    (c : Certificate) (genuine : G c) (validated : is_validated c.value.value ≡ true)
    (above : (l : Certificate) → m.locked ≡ some l → l.round < c.round)
    (in_round : current_round m ≤ c.round) (m' : MultiOwnerManager) (w : Vote)
    (proposed : m'.proposed ≡ m.proposed) (locked : m'.locked ≡ some c)
    (pending : m'.pending ≡ some w) (e : ExecutedBlock)
    (for_block : block c.value.value ≡ some e.block) (value : w.value.value ≡ confirmed_block e)
    (round : w.round ≡ c.round) where
  held : (b : Block) (s : RoundNumber) → Holds m b s → Holds m' b s
  held b s h = record {
    certificate = c;
    locked = locked;
    from_round = omega (arith, above h.certificate h.locked, h.from_round);
    same_round = λ same. absurd (omega (arith, above h.certificate h.locked, h.from_round));
  }

  own : (b : Block) (s : RoundNumber) → Confirms w b s → Holds m' b s × Certifies G b s
  own b s con =
      let (block_eq, round_eq) = confirmed_only w e b s value con in
      (
        record {
          certificate = c;
          locked = locked;
          from_round = omega arith;
          same_round = λ _. for_block ∙ ap some block_eq;
        },
        record {
          certificate = c;
          genuine = genuine;
          validated = validated;
          for_block = for_block ∙ ap some block_eq;
          in_round = sym round ∙ round_eq;
        },
      )

  confirmations' :
      (v : Vote) (b : Block) (s : RoundNumber)
      → In v (w ∷ votes)
      → Confirms v b s
      → Holds m' b s × Certifies G b s
  confirmations' v b s (inl eq) con = own b s (subst (λ x. Confirms x b s) eq con)
  confirmations' v b s (inr inn) con =
      let (h, certified) = i.confirmations v b s inn con in (held b s h, certified)

  -- A vote to validate is an old one.
  old : (v : Vote) (b : Block) (r : RoundNumber) → In v (w ∷ votes) → Validates v b r → In v votes
  old v b r (inl eq) val =
      absurd (not-Validates w e b r value (subst (λ x. Validates x b r) eq val))
  old v b r (inr inn) val = inn

  validations' :
      (v : Vote) (b : Block) (r : RoundNumber)
      → In v (w ∷ votes)
      → Validates v b r
      → (r ≤ proposed_round m'.proposed)
        × (r ≡ proposed_round m'.proposed → proposed_block m'.proposed ≡ some b)
  validations' v b r inn val =
      subst (λ p. (r ≤ proposed_round p) × (r ≡ proposed_round p → proposed_block p ≡ some b))
        (sym proposed) (i.validations v b r (old v b r inn val) val)

  -- No vote to validate is above the confirmation.
  below : (v : Vote) (a : Block) (r : RoundNumber) → In v votes → Validates v a r → r ≤ c.round
  unfolding current_round
  below v a r inn val = omega (arith, (i.validations v a r inn val).0)

  unlocked' :
      (v x : Vote) (a b : Block) (r s : RoundNumber)
      → In v (w ∷ votes)
      → In x (w ∷ votes)
      → Validates v a r
      → Confirms x b s
      → s < r
      → (a ≡ b) ⊎ ((t : RoundNumber) × (s < t) × (t < r) × Certifies G a t)
  unlocked' v x a b r s inn (inr inn') val con lt =
      i.unlocked v x a b r s (old v a r inn val) inn' val con lt
  unlocked' v x a b r s inn (inl eq) val con lt =
      let (_, round_eq) = confirmed_only w e b s value (subst (λ y. Confirms y b s) eq con) in
      absurd (omega (arith, below v a r (old v a r inn val) val))

  pub confirm-Inv : Inv G (w ∷ votes) m'
  confirm-Inv = record {
    shown = λ v eq. inl (some_inj (sym eq ∙ pending));
    validations = validations';
    confirmations = confirmations';
    lock = λ l eq.
        subst (λ x. G x × (is_validated x.value.value ≡ true)) (some_inj (sym locked ∙ eq))
          (genuine, validated);
    one_block = λ v x a b r inn inn' val val'.
        i.one_block v x a b r (old v a r inn val) (old x b r inn' val') val val';
    unlocked = unlocked';
  }
