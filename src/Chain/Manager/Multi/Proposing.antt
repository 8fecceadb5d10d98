-- ===== src/Chain/Manager/Multi/Proposing.antt =====
-- linera-chain/src/manager/multi.rs: what the locked certificate says after a vote to validate.
use linera_protocol.Prelude.{
  ◌≤◌, ◌<◌, ◌≡◌, ◌⊎◌, inl, inr, refl, sym, subst, arith, ap, ◌∙◌, ltb, Bool-cases, true, Option,
  Option-cases, none, some, some_inj, List, ◌∷◌,
}
use linera_protocol.Base.Identifiers.{RoundNumber}
use linera_protocol.Chain.DataTypes.{Block, BlockProposal, Certificate, Vote, is_validated}
use linera_protocol.Chain.Manager.Multi.{MultiOwnerManager, highest, proposed_round}
use linera_protocol.Chain.Manager.Multi.Votes.{later_locked}
use linera_protocol.Chain.Manager.Multi.Steps.{Accepted}
use linera_protocol.Chain.Manager.Multi.Locking.{Certifies, Holds, proposed_block, Inv, deciding}
use linera_protocol.Chain.Manager.Multi.History.{Confirms, In, Validates}

Validates-unique :
    (v : Vote) (a b : Block) (r s : RoundNumber)
    → Validates v a r
    → Validates v b s
    → (a ≡ b) × (r ≡ s)
Validates-unique v a b r s (e, value, block_eq, round_eq) (e', value', block_eq', round_eq') =
    (cc, cc)

-- `later_locked` keeps the lock or takes a certificate from a later round.
later_locked-cases :
    (l : Certificate) (o : Option Certificate)
    → (later_locked (some l) o ≡ some l)
      ⊎ ((c : Certificate) × (o ≡ some c)
          × (l.round < c.round)
          × (later_locked (some l) o ≡ some c))
unfolding later_locked
later_locked-cases l none = inl refl
later_locked-cases l (some c) = elim (Bool-cases (ltb l.round c.round)) [
  | inl later ↦ inr (c, refl, ground arith, rw later refl)
  | inr kept ↦ inl (rw kept refl)
]

-- The highest certificate is at least the locked one, and the proposal's only if above it.
highest-cases :
    (o : Option Certificate) (l : Certificate)
    → (highest o (some l) ≡ some l)
      ⊎ ((c : Certificate) × (o ≡ some c) × (l.round < c.round) × (highest o (some l) ≡ some c))
unfolding highest
highest-cases none l = inl refl
highest-cases (some c) l = elim (Bool-cases (ltb l.round c.round)) [
  | inl later ↦ inr (c, refl, ground arith, rw later refl)
  | inr kept ↦ inl (rw kept refl)
]

later_locked-from :
    (l o : Option Certificate) (c : Certificate)
    → later_locked l o ≡ some c
    → (l ≡ some c) ⊎ (o ≡ some c)
unfolding later_locked
later_locked-from l none c h = inl h
later_locked-from none (some v) c h = inr h
later_locked-from (some l) (some v) c h = elim (Bool-cases (ltb l.round v.round)) [
  | inl later ↦ inr (ground arith)
  | inr kept ↦ inl (ground arith)
]

module _ (G : Certificate → Type 0) where
  module _ (votes : List Vote) (m : MultiOwnerManager) (i : Inv G votes m) (p : BlockProposal)
      (a : Accepted m p) (genuine : (c : Certificate) → p.validated ≡ some c → G c)
      (m' : MultiOwnerManager) (w : Vote) (proposed : m'.proposed ≡ some p)
      (locked : m'.locked ≡ later_locked m.locked p.validated) (pending : m'.pending ≡ some w)
      (cast : Validates w p.content.block p.content.round) where
    -- A vote to validate that was cast before is from an earlier round.
    earlier :
        (v : Vote) (b : Block) (r : RoundNumber)
        → In v votes
        → Validates v b r
        → r < p.content.round
    unfolding proposed_round
    earlier v b r inn val =
        let (le, same) = i.validations v b r inn val in
        elim (Option-cases m.proposed) [
          | inl e ↦
              let le' = subst (λ x. r ≤ proposed_round x) e le in
              let same' = subst (λ x. r ≡ proposed_round x → proposed_block x ≡ some b) e same in
              cc (same' (omega arith))
          | inr (old, e) ↦
              let le' = subst (λ x. r ≤ proposed_round x) e le in omega (arith, a.newer old e)
        ]

    validations' :
        (v : Vote) (b : Block) (r : RoundNumber)
        → In v (w ∷ votes)
        → Validates v b r
        → (r ≤ p.content.round) × (r ≡ p.content.round → some p.content.block ≡ some b)
    validations' v b r (inl e) val =
        let (block_eq, round_eq) =
          Validates-unique w b p.content.block r p.content.round
            (subst (λ x. Validates x b r) e val) cast in
        (omega arith, λ _. ap some (sym block_eq))
    validations' v b r (inr inn) val =
        let before = earlier v b r inn val in (omega arith, λ same. absurd (omega arith))

    -- The lock of an old vote to confirm is kept, or a later certificate takes its place.
    held : (b : Block) (s : RoundNumber) → Holds m b s → Holds m' b s
    held b s h =
        let now_locked = locked ∙ ap (λ l. later_locked l p.validated) h.locked in
        elim (later_locked-cases h.certificate p.validated) [
          | inl kept ↦ record {
            certificate = h.certificate;
            locked = now_locked ∙ kept;
            from_round = h.from_round;
            same_round = h.same_round;
          }
          | inr (c, _, later, taken) ↦ record {
            certificate = c;
            locked = now_locked ∙ taken;
            from_round = omega (arith, h.from_round);
            same_round = λ same. absurd (omega (arith, h.from_round));
          }
        ]

    -- Against an old vote to confirm: the proposal's block is the same, or a certificate is between.
    unlocked' :
        (x : Vote) (b : Block) (s : RoundNumber)
        → In x votes
        → Confirms x b s
        → (p.content.block ≡ b)
          ⊎ ((t : RoundNumber) × (s < t) × (t < p.content.round) × Certifies G p.content.block t)
    unlocked' x b s inn con =
        let (h, _) = i.confirmations x b s inn con in
        let l = h.certificate in
        elim (highest-cases p.validated l) [
          | inl kept ↦
              let (below, for_block) = a.unlocked l (ap (highest p.validated) h.locked ∙ kept) in
              let (g, is) = i.lock l h.locked in
              deciding G l p.content.block b p.content.round s g is h.from_round h.same_round below
                for_block
          | inr (c, e, later, taken) ↦
              let (below, for_block) = a.unlocked c (ap (highest p.validated) h.locked ∙ taken) in
              deciding G c p.content.block b p.content.round s (genuine c e) (a.validated c e).0
                (omega (arith, h.from_round)) (λ same. absurd (omega (arith, h.from_round))) below
                for_block
        ]

    Confirms-not : (b : Block) (s : RoundNumber) → Confirms w b s → ⊥
    Confirms-not b s (e, value, _, _) = let (e', value', _, _) = cast in cc

    lock' : (c : Certificate) → m'.locked ≡ some c → G c × (is_validated c.value.value ≡ true)
    unfolding later_locked
    lock' c e = elim (later_locked-from m.locked p.validated c (sym locked ∙ e)) [
      | inl old ↦ i.lock c old
      | inr new ↦ (genuine c new, (a.validated c new).0)
    ]

    confirmations' :
        (v : Vote) (b : Block) (s : RoundNumber)
        → In v (w ∷ votes)
        → Confirms v b s
        → Holds m' b s × Certifies G b s
    confirmations' v b s (inl e) con = absurd (Confirms-not b s (subst (λ x. Confirms x b s) e con))
    confirmations' v b s (inr inn) con =
        let (h, c) = i.confirmations v b s inn con in (held b s h, c)

    one_block' :
        (v x : Vote) (a b : Block) (r : RoundNumber)
        → In v (w ∷ votes)
        → In x (w ∷ votes)
        → Validates v a r
        → Validates x b r
        → a ≡ b
    one_block' v x a b r (inl e) (inl e') val val' =
        (Validates-unique v a b r r val (subst (λ y. Validates y b r) (e' ∙ sym e) val')).0
    one_block' v x a b r (inl e) (inr inn) val val' =
        let (_, round) =
          Validates-unique w a p.content.block r p.content.round
            (subst (λ y. Validates y a r) e val) cast in
        absurd (omega (arith, earlier x b r inn val'))
    one_block' v x a b r (inr inn) (inl e) val val' =
        let (_, round) =
          Validates-unique w b p.content.block r p.content.round
            (subst (λ y. Validates y b r) e val') cast in
        absurd (omega (arith, earlier v a r inn val))
    one_block' v x a b r (inr inn) (inr inn') val val' = i.one_block v x a b r inn inn' val val'

    unlocked'' :
        (v x : Vote) (a b : Block) (r s : RoundNumber)
        → In v (w ∷ votes)
        → In x (w ∷ votes)
        → Validates v a r
        → Confirms x b s
        → s < r
        → (a ≡ b) ⊎ ((t : RoundNumber) × (s < t) × (t < r) × Certifies G a t)
    unlocked'' v x a b r s inn (inl e) val con lt =
        absurd (Confirms-not b s (subst (λ y. Confirms y b s) e con))
    unlocked'' v x a b r s (inr inn) (inr inn') val con lt =
        i.unlocked v x a b r s inn inn' val con lt
    unlocked'' v x a b r s (inl e) (inr inn) val con lt =
        let (block_eq, round_eq) =
          Validates-unique w a p.content.block r p.content.round
            (subst (λ y. Validates y a r) e val) cast in
        subst (λ y. (y ≡ b) ⊎ ((t : RoundNumber) × (s < t) × (t < r) × Certifies G y t))
          (sym block_eq)
          (subst
            (λ y.
              (p.content.block ≡ b)
              ⊎ ((t : RoundNumber) × (s < t) × (t < y) × Certifies G p.content.block t))
            (sym round_eq) (unlocked' x b s inn con))

    pub propose-Inv : Inv G (w ∷ votes) m'
    unfolding proposed_round
    propose-Inv = record {
      shown = λ v e. inl (some_inj (sym e ∙ pending));
      validations = λ v b r inn val.
          subst (λ x. (r ≤ proposed_round x) × (r ≡ proposed_round x → proposed_block x ≡ some b))
            (sym proposed) (validations' v b r inn val);
      confirmations = confirmations';
      lock = lock';
      one_block = one_block';
      unlocked = unlocked'';
    }
