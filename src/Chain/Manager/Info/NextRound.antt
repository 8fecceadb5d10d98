-- ===== src/Chain/Manager/Info/NextRound.antt =====
-- linera-chain/src/manager/multi.rs: proposals that follow what a validator tells its clients.
use linera_protocol.Prelude.{
  ◌+◌, ◌≤◌, ◌<◌, ◌≡◌, ◌⊎◌, inl, inr, refl, sym, arith, ap, ◌∙◌, max, ltb, leb, is_eq, is_eq→eq,
  is_eq_refl, Bool-cases, true, Option, none, some, ok, List,
}
use linera_protocol.Base.Arithmetic.{u32_max, try_add_one}
use linera_protocol.Base.Identifiers.{RoundNumber}
use linera_protocol.Chain.DataTypes.{
  Block, BlockAndRound, Block-discrete, BlockAndRound-discrete, BlockProposal, Certificate, Vote,
  block, is_validated,
}
use linera_protocol.Chain.Crypto.{Crypto, KeyPair}
use linera_protocol.Chain.Manager.Sampling.{Sampling, accept}
use linera_protocol.Chain.Manager.Multi.{
  MultiOwnerManager, check_locked, check_old_proposal, check_proposed_block, check_round,
  check_validated_value, current_round, expected_round, highest,
}
use linera_protocol.Chain.Manager.Multi.Repeats.{check_proposed_block-stages}
use linera_protocol.Chain.Manager.Multi.History.{Run}
use linera_protocol.Chain.Manager.Multi.Safety.{Run-Inv}
use linera_protocol.Chain.Manager.Info.{
  add_multi_values, highest_validated, multi_info, next_round, validated_of,
}
use linera_protocol.Chain.Manager.Info.Carried.{Run-Carries}
use linera_protocol.Chain.Manager.Info.FreeRound.{Free, next_round-Free}

-- The highest certificate is one of the two.
highest-from :
    (a b : Option Certificate) (c : Certificate)
    → highest a b ≡ some c
    → (a ≡ some c) ⊎ (b ≡ some c)
unfolding highest
highest-from none b c h = inr h
highest-from (some a) none c h = inl h
highest-from (some a) (some b) c h = elim (Bool-cases (ltb b.round a.round)) [
  | inl later ↦ inl (ground arith)
  | inr kept ↦ inr (ground arith)
]

validated_of-carried :
    (o : Option BlockProposal) (c : Certificate)
    → validated_of o ≡ some c
    → (q : BlockProposal) × (o ≡ some q) × (q.validated ≡ some c)
validated_of-carried none c h = cc
validated_of-carried (some q) c h = (q, refl, h)

accepts_value :
    (o : Option Certificate)
    → ((c : Certificate) → o ≡ some c → is_validated c.value.value ≡ true)
    → check_validated_value o ≡ ok tt
unfolding check_validated_value
accepts_value none h = refl
accepts_value (some c) h = rw (h c refl) refl

fits_round :
    (m : MultiOwnerManager) (e r : RoundNumber)
    → e ≤ r
    → (m.multi_leader_rounds < r → e ≡ r)
    → check_round m e r ≡ ok tt
unfolding check_round
fits_round m e r le exact = elim (Bool-cases (ltb m.multi_leader_rounds r)) [
  | inl late ↦ let same = exact (ground arith) in ground (arith, late, same)
  | inr early ↦ ground (arith, early)
]

expects :
    (m : MultiOwnerManager) (o : Option Certificate) (r : RoundNumber)
    → Free m r
    → ((c : Certificate) → o ≡ some c → c.round < r)
    → (e : RoundNumber) × (expected_round m o ≡ ok e) × (check_round m e r ≡ ok tt)
unfolding expected_round try_add_one
expects m none r f h = (
  current_round m,
  refl,
  fits_round m (current_round m) r f.from_current (λ late. sym (f.exact late)),
)
expects m (some c) r f h =
    let lt = h c refl in
    let small : leb (c.round + 1) u32_max ≡ true = ground (arith, f.fits) in
    (
      max (c.round + 1) (current_round m),
      rw small refl,
      fits_round m _ r (omega (arith, f.from_current)) (λ late. omega (arith, f.exact late)),
    )

accepts_old :
    (o : Option BlockProposal) (p : BlockProposal)
    → ((q : BlockProposal) → o ≡ some q → q.content.round < p.content.round)
    → check_old_proposal o p ≡ ok accept
unfolding check_old_proposal
accepts_old none p h = refl
accepts_old (some q) p h =
    let lt = h q refl in
    elim (Bool-cases (is_eq BlockAndRound-discrete q.content p.content)) [
      | inl same ↦
          let eq = is_eq→eq BlockAndRound-discrete q.content p.content same in
          absurd (omega (arith, ap (λ (x : BlockAndRound). x.round) eq))
      | inr other ↦ ground (arith, other)
    ]

accepts_block :
    (r : RoundNumber) (b : Block) (o : Option Certificate)
    → ((c : Certificate) → o ≡ some c → (c.round < r) × (block c.value.value ≡ some b))
    → check_locked r b o ≡ ok accept
unfolding check_locked
accepts_block r b none h = refl
accepts_block r b (some c) h =
    let (lt, for_block) = h c refl in
    let earlier : ltb c.round r ≡ true = ground arith in
    rw (for_block, earlier, is_eq_refl Block-discrete b) refl

module _ {crypto : Crypto} {key_pair : KeyPair} {G : Certificate → Type 0} where
  certified :
      {votes : List Vote} {m : MultiOwnerManager}
      → Run crypto key_pair G votes m
      → (r : RoundNumber) → Free m r
      → (c : Certificate) → highest m.locked (validated_of m.proposed) ≡ some c
      → (is_validated c.value.value ≡ true) × (c.round < r)
  certified {m = m} run r f c e = elim (highest-from m.locked (validated_of m.proposed) c e) [
    | inl locked ↦ (((Run-Inv run).lock c locked).1, f.above_locked c locked)
    | inr carried ↦
        let (q, proposed, validated) = validated_of-carried m.proposed c carried in
        let (is, lt) = Run-Carries run q c proposed validated in
        let above = f.above_proposed q proposed in (is, omega arith)
  ]

  -- After any run of a manager whose current round is a `u32`, whose information with values names a
  -- next round: a proposal in that round, with the highest validated certificate of the information, and
  -- with the block of the highest certificate that it or the manager has, if there is one, is accepted.
  pub next_round-accepted :
      {votes : List Vote} {m : MultiOwnerManager}
      → Run crypto key_pair G votes m
      → (sampling : Sampling) (p : BlockProposal) → current_round m ≤ u32_max
      → next_round (add_multi_values (multi_info sampling m) m) ≡ some p.content.round
      → p.validated ≡ highest_validated (add_multi_values (multi_info sampling m) m)
      → ((c : Certificate)
          → highest p.validated m.locked ≡ some c
          → block c.value.value ≡ some p.content.block)
      → check_proposed_block m p ≡ ok accept
  unfolding highest_validated add_multi_values
  next_round-accepted {m = m} run sampling p small next highest_known for_block =
      let r = p.content.round in
      let f = next_round-Free sampling m r small next in
      let known = λ (c : Certificate) (eq : p.validated ≡ some c).
        certified run r f c (sym highest_known ∙ eq) in
      let (e, expects_e, round) = expects m p.validated r f (λ c eq. (known c eq).1) in
      (check_proposed_block-stages m p e (accepts_value p.validated (λ c eq. (known c eq).0))
          expects_e round).1
        (accepts_old m.proposed p f.above_proposed)
        (accepts_block r p.content.block (highest p.validated m.locked) (λ c eq. (
          elim (highest-from p.validated m.locked c eq) [
            | inl carried ↦ (known c carried).1
            | inr locked ↦ f.above_locked c locked
          ],
          for_block c eq,
        )))
