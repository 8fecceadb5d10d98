-- ===== src/Execution/Committee/Quorum.antt =====
-- The thresholds of `Committee::new` (linera-execution/src/committee.rs) and the weight of a set of
-- validators, given by a test on names.
use linera_protocol.Prelude.{
  ℕ, ◌+◌, ◌-◌, ◌*◌, ◌/◌, ◌^◌, ◌≤◌, ◌<◌, ◌≡◌, arith, Bool, true, not, ◌&&◌, if◌then◌else◌, [], ◌∷◌,
}
use linera_protocol.Execution.Committee.{
  ValidatorName, Validators, ResourceControlPolicy, Committee, votes_from, new,
}

-- The names that follow in a `BTreeMap` lie above those before them.
abbrev pub Above : ValidatorName → Validators → Type 0
Above name [] = Unit {0}
Above name ((other, _) ∷ rest) = (name < other) × Above other rest

abbrev pub IsSorted : Validators → Type 0
IsSorted [] = Unit {0}
IsSorted ((name, _) ∷ rest) = Above name rest

-- The voting rights of the validators that pass a test.
unfoldable pub weight_in : (ValidatorName → Bool) → Validators → ℕ
weight_in p [] = 0
weight_in p ((name, state) ∷ rest) = (if p name then state.votes else 0) + weight_in p rest

-- A committee as `new` makes it from voting rights whose double fits a `u64`.
pub record IsValid (c : Committee) : Type 0 where
  pub sorted : IsSorted c.validators
  pub total : c.total_votes ≡ weight_in (λ _. true) c.validators
  pub fits : 2 * c.total_votes + 2 < 2 ^ 64
  pub quorum : c.quorum_threshold ≡ 2 * c.total_votes / 3 + 1
  pub validity : c.validity_threshold ≡ (c.total_votes + 2) / 3

pub votes_from-weight_in :
    (acc : ℕ) (vs : Validators) → votes_from acc vs ≡ acc + weight_in (λ _. true) vs
unfolding votes_from weight_in
votes_from-weight_in acc [] = omega arith
votes_from-weight_in acc ((name, state) ∷ rest) =
    omega (arith, votes_from-weight_in (acc + state.votes) rest)

pub new-IsValid :
    (vs : Validators) (policy : ResourceControlPolicy)
    → IsSorted vs
    → 2 * votes_from 0 vs + 2 < 2 ^ 64
    → IsValid (new vs policy)
unfolding new
new-IsValid vs policy sorted fits = record {
  sorted = sorted;
  total = omega (arith, votes_from-weight_in 0 vs);
  fits = omega arith;
  quorum = omega arith;
  validity = omega arith;
}

-- With voting rights N = 3f + 1 + k, where k is at most 2 and 2N + 2 fits a `u64`: a quorum is
-- N - f, and validity takes f + 1, so that the f that may be faulty cannot prevent the one and
-- cannot reach the other.
pub new-thresholds :
    (vs : Validators) (policy : ResourceControlPolicy) (f k : ℕ)
    → votes_from 0 vs ≡ 3 * f + 1 + k
    → k ≤ 2
    → 2 * votes_from 0 vs + 2 < 2 ^ 64
    → ((new vs policy).total_votes ≡ 3 * f + 1 + k)
      × ((new vs policy).quorum_threshold ≡ (3 * f + 1 + k) - f)
      × ((new vs policy).validity_threshold ≡ f + 1)
unfolding new
new-thresholds vs policy f k total small fits = omega arith

module _ (p q : ValidatorName → Bool) where
  weight_in-inclusion :
      (vs : Validators)
      → weight_in p vs + weight_in q vs ≤ weight_in (λ _. true) vs + weight_in (λ n. p n && q n) vs
  unfolding weight_in
  weight_in-inclusion [] = omega arith
  weight_in-inclusion ((name, state) ∷ rest) = ground (arith, weight_in-inclusion rest)

pub IsValid-intersection :
    (c : Committee) (p q : ValidatorName → Bool)
    → IsValid c
    → c.quorum_threshold ≤ weight_in p c.validators
    → c.quorum_threshold ≤ weight_in q c.validators
    → c.validity_threshold ≤ weight_in (λ n. p n && q n) c.validators
IsValid-intersection c p q v hp hq = omega (arith, weight_in-inclusion p q c.validators)

weight_in-remaining :
    (p : ValidatorName → Bool) (vs : Validators)
    → weight_in p vs + weight_in (λ n. not (p n)) vs ≡ weight_in (λ _. true) vs
unfolding weight_in
weight_in-remaining p [] = omega arith
weight_in-remaining p ((name, state) ∷ rest) = ground (arith, weight_in-remaining p rest)

module _ (vs : Validators) (policy : ResourceControlPolicy) where
  -- In a committee that `new` makes of voting rights whose double fits a `u64`, two sets of validators
  -- that each hold a quorum share the voting rights that validity takes.
  pub quorum-intersection :
      (p q : ValidatorName → Bool)
      → 2 * votes_from 0 vs + 2 < 2 ^ 64
      → (new vs policy).quorum_threshold ≤ weight_in p vs
      → (new vs policy).quorum_threshold ≤ weight_in q vs
      → (new vs policy).validity_threshold ≤ weight_in (λ n. p n && q n) vs
  unfolding new
  quorum-intersection p q fits hp hq =
      omega (arith, weight_in-inclusion p q vs, votes_from-weight_in 0 vs)

  -- In a committee that `new` makes of some voting rights N whose double fits a `u64`, a set of
  -- validators that holds at most (N - 1) / 3 is below what validity takes, and the others hold a
  -- quorum, which is above two thirds of N.
  pub quorum-availability :
      (faulty : ValidatorName → Bool)
      → 2 * votes_from 0 vs + 2 < 2 ^ 64
      → 0 < votes_from 0 vs
      → weight_in faulty vs ≤ (votes_from 0 vs - 1) / 3
      → (weight_in faulty vs < (new vs policy).validity_threshold)
        × ((new vs policy).quorum_threshold ≤ weight_in (λ n. not (faulty n)) vs)
        × (2 * votes_from 0 vs < 3 * (new vs policy).quorum_threshold)
  unfolding new
  quorum-availability faulty fits positive few =
      omega (arith, weight_in-remaining faulty vs, votes_from-weight_in 0 vs)
