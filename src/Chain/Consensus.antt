-- ===== src/Chain/Consensus.antt =====
-- Agreement on the block of one height, from linera-chain/src/manager/multi.rs (the votes),
-- linera-chain/src/data_types.rs (the certificates) and linera-execution/src/committee.rs (the
-- quorums), as linera-core/src/worker.rs puts them together: a certificate is checked against the
-- committee before a manager sees it.
use linera_protocol.Prelude.{
  ℕ, zero, suc, ◌≤◌, ◌<◌, ◌≡◌, inl, inr, refl, sym, subst, arith, ◌∙◌, leb, ◌==◌, not, ◌&&◌, Bool,
  Bool-cases, true, false, some, some_inj, List, [], ◌∷◌, ok,
}
use linera_protocol.Base.Identifiers.{RoundNumber}
use linera_protocol.Execution.Committee.{Committee, ValidatorName, Validators}
use linera_protocol.Execution.Committee.Quorum.{IsValid, weight_in}
use linera_protocol.Chain.DataTypes.{
  Block, Certificate, CertificateValue, ExecutedBlock, Vote, block, executed_block, is_timeout,
  is_validated, validated_block, confirmed_block, leader_timeout,
}
use linera_protocol.Chain.Crypto.{Crypto, KeyPair}
use linera_protocol.Chain.Certificates.{check, is_signer}
use linera_protocol.Chain.Certificates.Check.{check-intersection}
use linera_protocol.Chain.Manager.Multi.{MultiOwnerManager}
use linera_protocol.Chain.Manager.Multi.History.{In, Run}
use linera_protocol.Chain.Manager.Multi.Ballots.{ballots, ballots-shown}
use linera_protocol.Chain.Manager.Multi.Locking.{Certifies}
use linera_protocol.Chain.Manager.Multi.Safety.{Run-certified, Run-locking, Run-one_block}

-- A set that outweighs the faulty validators has an honest member.
honest_member :
    (p honest : ValidatorName → Bool) (vs : Validators)
    → weight_in (λ n. not (honest n)) vs < weight_in p vs
    → (n : ValidatorName) × (p n ≡ true) × (honest n ≡ true)
unfolding weight_in
honest_member p honest [] h = absurd (omega arith)
honest_member p honest ((name, state) ∷ rest) h = elim (Bool-cases (p name && honest name)) [
  | inl both ↦ (name, ground arith, ground arith)
  | inr other ↦ honest_member p honest rest (ground arith)
]

validated_as :
    (v : CertificateValue) (b : Block)
    → is_validated v ≡ true
    → block v ≡ some b
    → (e : ExecutedBlock) × (v ≡ validated_block e) × (e.block ≡ b)
unfolding is_validated block executed_block
validated_as (validated_block e) b is h = (e, refl, some_inj h)
validated_as (confirmed_block e) b is h = cc
validated_as (leader_timeout _ _ _) b is h = cc

for_block :
    {v : CertificateValue} {e : ExecutedBlock} → v ≡ validated_block e → is_timeout v ≡ false
unfolding is_timeout
for_block h = subst (λ v. is_timeout v ≡ false) (sym h) refl

for_block_confirmed :
    {v : CertificateValue} {e : ExecutedBlock} → v ≡ confirmed_block e → is_timeout v ≡ false
unfolding is_timeout
for_block_confirmed h = subst (λ v. is_timeout v ≡ false) (sym h) refl

-- A certificate that a validator acts upon: it has been seen, and it passes the check.
abbrev pub Admitted : Crypto → Committee → (Certificate → Type 0) → Certificate → Type 0
Admitted crypto c Seen a = Seen a × (check crypto a c ≡ ok a.value)

-- The validators of a committee at one height of a chain. What is assumed of them: the honest ones run
-- the code, and the others hold less than the validity threshold. What is assumed of signatures and
-- hashes: where a certificate that is seen has an honest validator's signature, that validator has
-- cast this vote, be it for a block or to end a round.
pub record Network (crypto : Crypto) (c : Committee) (Seen : Certificate → Type 0) : Type 0 where
  pub honest : ValidatorName → Bool
  pub key : ValidatorName → KeyPair
  pub votes : ValidatorName → List Vote
  pub manager : ValidatorName → MultiOwnerManager
  pub few_faulty : weight_in (λ n. not (honest n)) c.validators < c.validity_threshold
  pub runs :
      (n : ValidatorName)
      → honest n ≡ true
      → Run crypto (key n) (Admitted crypto c Seen) (votes n) (manager n)
  pub unforged :
      (a : Certificate) (n : ValidatorName) (h : honest n ≡ true)
      → Admitted crypto c Seen a
      → is_signer a n ≡ true
      → (v : Vote) × In v (ballots (runs n h))
        × (v.value.value ≡ a.value.value)
        × (v.round ≡ a.round)

module _ (crypto : Crypto) (c : Committee) (Seen : Certificate → Type 0) (valid : IsValid c)
    (net : Network crypto c Seen) where
  -- An honest signer of a certificate for a block has shown its vote.
  shown_vote :
      (a : Certificate) (n : ValidatorName) (h : net.honest n ≡ true)
      → Admitted crypto c Seen a
      → is_timeout a.value.value ≡ false
      → is_signer a n ≡ true
      → (v : Vote) × In v (net.votes n) × (v.value.value ≡ a.value.value) × (v.round ≡ a.round)
  shown_vote a n h ha ta by =
      let (v, inn, value, round) = net.unforged a n h ha by in
      let block_vote = subst (λ x. is_timeout x ≡ false) (sym value) ta in
      (v, ballots-shown (net.runs n h) v inn block_vote, value, round)

  -- Two admitted certificates for blocks have an honest signer in common, with a vote for each.
  common_signer :
      (a b : Certificate)
      → Admitted crypto c Seen a
      → Admitted crypto c Seen b
      → is_timeout a.value.value ≡ false
      → is_timeout b.value.value ≡ false
      → (n : ValidatorName) × (net.honest n ≡ true)
        × ((v : Vote) × In v (net.votes n) × (v.value.value ≡ a.value.value) × (v.round ≡ a.round))
        × ((w : Vote) × In w (net.votes n) × (w.value.value ≡ b.value.value) × (w.round ≡ b.round))
  common_signer a b ha hb ta tb =
      let share = check-intersection crypto c a b valid ha.1 hb.1 in
      let (n, both, honest) =
        honest_member (λ n. is_signer a n && is_signer b n) net.honest c.validators
          (omega (arith, net.few_faulty)) in
      (
        n,
        honest,
        shown_vote a n honest ha ta (ground arith),
        shown_vote b n honest hb tb (ground arith),
      )

  -- Two blocks that are validated in one round are the same.
  one_validated :
      (a b : Block) (r : RoundNumber)
      → Certifies (Admitted crypto c Seen) a r
      → Certifies (Admitted crypto c Seen) b r
      → a ≡ b
  one_validated a b r x y =
      let (e, x_value, x_block) =
        validated_as x.certificate.value.value a x.validated x.for_block in
      let (f, y_value, y_block) =
        validated_as y.certificate.value.value b y.validated y.for_block in
      let (n, honest, (v, inn, v_value, v_round), (w, inn', w_value, w_round)) =
        common_signer x.certificate y.certificate x.genuine y.genuine (for_block x_value)
          (for_block y_value) in
      Run-one_block (net.runs n honest) v w a b r inn inn'
        (e, v_value ∙ x_value, x_block, v_round ∙ x.in_round)
        (f, w_value ∙ y_value, y_block, w_round ∙ y.in_round)

  -- What is confirmed in a round is validated in it.
  confirmed-Certifies :
      (x : Certificate) (e : ExecutedBlock)
      → Admitted crypto c Seen x
      → x.value.value ≡ confirmed_block e
      → Certifies (Admitted crypto c Seen) e.block x.round
  confirmed-Certifies x e hx value =
      let (n, honest, (v, inn, v_value, v_round), _) =
        common_signer x x hx hx (for_block_confirmed value) (for_block_confirmed value) in
      Run-certified (net.runs n honest) v e.block x.round inn (e, v_value ∙ value, refl, v_round)

  -- From the round of a confirmation on, only its block is validated.
  stays :
      (bound : ℕ) (x : Certificate) (e : ExecutedBlock) (a : Block) (r : RoundNumber)
      → r < bound
      → Admitted crypto c Seen x
      → x.value.value ≡ confirmed_block e
      → x.round ≤ r
      → Certifies (Admitted crypto c Seen) a r
      → a ≡ e.block
  stays zero x e a r lt hx value le y = absurd (omega arith)
  stays (suc bound) x e a r lt hx value le y = elim (Bool-cases (x.round == r)) [
    | inl equal ↦ one_validated a e.block r y (
        subst (λ s. Certifies (Admitted crypto c Seen) e.block s) (ground arith)
          (confirmed-Certifies x e hx value))
    | inr later ↦
        let (f, y_value, y_block) =
          validated_as y.certificate.value.value a y.validated y.for_block in
        let (n, honest, (v, inn, v_value, v_round), (w, inn', w_value, w_round)) =
          common_signer y.certificate x y.genuine hx (for_block y_value)
            (for_block_confirmed value) in
        elim (Run-locking (net.runs n honest) v w a e.block r x.round inn inn'
          (f, v_value ∙ y_value, y_block, v_round ∙ y.in_round) (e, w_value ∙ value, refl, w_round)
          (ground arith)) [
            | inl same ↦ same
            | inr (t, above, below, z) ↦ stays bound x e a t (omega arith) hx value (omega arith) z
          ]
  ]

  -- The committee is valid, its faulty validators hold less than the validity threshold, and
  -- the honest ones run the code and have cast the votes, for blocks and to end rounds, of which the
  -- certificates that are seen carry their signatures: then any two seen certificates for a confirmed block at this height, in whatever rounds, that pass the check
  -- are for the same block.
  pub agreement :
      (x y : Certificate) (e f : ExecutedBlock)
      → Admitted crypto c Seen x
      → Admitted crypto c Seen y
      → x.value.value ≡ confirmed_block e
      → y.value.value ≡ confirmed_block f
      → e.block ≡ f.block
  agreement x y e f hx hy x_value y_value = elim (Bool-cases (leb x.round y.round)) [
    | inl first ↦ sym (
        stays (suc y.round) x e f.block y.round (omega arith) hx x_value (ground arith)
          (confirmed-Certifies y f hy y_value))
    | inr second ↦
        stays (suc x.round) y f e.block x.round (omega arith) hy y_value (ground arith)
          (confirmed-Certifies x e hx x_value)
  ]
