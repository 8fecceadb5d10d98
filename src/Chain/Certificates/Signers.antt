-- ===== src/Chain/Certificates/Signers.antt =====
-- linera-chain/src/data_types.rs: the names in a list of signatures and the voting rights that they
-- hold together.
use linera_protocol.Prelude.{
  ℕ, ◌+◌, ◌≤◌, ◌<◌, ◌≡◌, ◌≢◌, refl, sym, arith, none, some, Bool, true, false, ◌&&◌, ◌||◌, ◌==◌, [],
  ◌∷◌, All,
}
use linera_protocol.Execution.Committee.{Committee, Validators, ValidatorName, weight, get}
use linera_protocol.Execution.Committee.Quorum.{Above, IsSorted, weight_in}
use linera_protocol.Chain.DataTypes.{Signatures}
use linera_protocol.Chain.Certificates.{has_signature}

-- A name that signs none of the entries.
abbrev pub Fresh : ValidatorName → Signatures → Type 0
Fresh name sigs = All (λ s. s.0 ≢ name) sigs

-- No name signs twice.
abbrev pub Distinct : Signatures → Type 0
Distinct [] = Unit {0}
Distinct (s ∷ rest) = Fresh s.0 rest × Distinct rest

-- Every name has voting rights in the committee.
abbrev pub HaveRights : Committee → Signatures → Type 0
HaveRights c sigs = All (λ s. 0 < weight c s.0) sigs

-- The sum of the voting rights, entry by entry.
unfoldable pub signed_weight : Committee → Signatures → ℕ
signed_weight c [] = 0
signed_weight c (s ∷ rest) = weight c s.0 + signed_weight c rest

pub Fresh-has_signature :
    (name : ValidatorName) (sigs : Signatures) → Fresh name sigs → has_signature sigs name ≡ false
unfolding has_signature
Fresh-has_signature name [] fresh = refl
Fresh-has_signature name ((other, s) ∷ rest) fresh =
    ground (arith, Fresh-has_signature name rest fresh.1)

module _ (p q : ValidatorName → Bool) (disjoint : (n : ValidatorName) → (p n && q n) ≡ false) where
  pub weight_in-disjoint :
      (vs : Validators) → weight_in (λ n. p n || q n) vs ≡ weight_in p vs + weight_in q vs
  unfolding weight_in
  weight_in-disjoint [] = omega arith
  weight_in-disjoint ((name, state) ∷ rest) = ground (arith, disjoint name, weight_in-disjoint rest)

pub weight_in-le-all :
    (p : ValidatorName → Bool) (vs : Validators) → weight_in p vs ≤ weight_in (λ _. true) vs
unfolding weight_in
weight_in-le-all p [] = omega arith
weight_in-le-all p ((name, state) ∷ rest) = ground (arith, weight_in-le-all p rest)

weight_in-Above :
    (x name : ValidatorName) (vs : Validators)
    → x ≤ name
    → Above name vs
    → weight_in (λ n. x == n) vs ≡ 0
unfolding weight_in
weight_in-Above x name [] le above = refl
weight_in-Above x name ((other, state) ∷ rest) le above =
    ground (arith, weight_in-Above x other rest (omega arith) above.1)

Above-IsSorted : (name : ValidatorName) (vs : Validators) → Above name vs → IsSorted vs
Above-IsSorted name [] above = tt
Above-IsSorted name ((other, _) ∷ rest) above = above.1

votes_in : ValidatorName → Validators → ℕ
unfolding get
votes_in x vs = elim (get x vs) [ none ↦ 0 | some state ↦ state.votes ]

weight-votes_in : (c : Committee) (x : ValidatorName) → weight c x ≡ votes_in x c.validators
unfolding weight votes_in
weight-votes_in c x = ground arith

weight_in-empty : (vs : Validators) → weight_in (has_signature []) vs ≡ 0
unfolding weight_in has_signature
weight_in-empty [] = refl
weight_in-empty ((name, state) ∷ rest) = omega (arith, weight_in-empty rest)

-- A name's weight is the weight of the set that holds it alone.
weight_in_self :
    (x : ValidatorName) (vs : Validators) → IsSorted vs → weight_in (λ n. x == n) vs ≡ votes_in x vs
unfolding weight_in votes_in
weight_in_self x [] sorted = refl
weight_in_self x ((name, state) ∷ rest) sorted =
    ground
      (arith, weight_in-Above x name rest, weight_in_self x rest (Above-IsSorted name rest sorted))

at_most_one :
    (x : ValidatorName) (rest : Signatures) (n : ValidatorName)
    → has_signature rest x ≡ false
    → (x == n && has_signature rest n) ≡ false
at_most_one x rest n fresh = ground arith

-- With distinct names, the sum over the entries is the weight of the set of signers.
pub signed_weight-eq-weight_in :
    (c : Committee) (sigs : Signatures)
    → IsSorted c.validators
    → Distinct sigs
    → signed_weight c sigs ≡ weight_in (has_signature sigs) c.validators
unfolding signed_weight has_signature
signed_weight-eq-weight_in c [] sorted d = sym (weight_in-empty c.validators)
signed_weight-eq-weight_in c ((x, s) ∷ rest) sorted d = omega (
  arith,
  weight_in-disjoint (λ n. x == n) (has_signature rest)
      (λ n. at_most_one x rest n (Fresh-has_signature x rest d.0)) c.validators,
  weight_in_self x c.validators sorted,
  weight-votes_in c x,
  signed_weight-eq-weight_in c rest sorted d.1,
)
