-- ===== src/Base/Arithmetic/Laws.antt =====
-- The wrapped numbers' operations against the arithmetic of ℕ.
use linera_protocol.Prelude.{
  ℕ, ◌+◌, ◌-◌, ◌≤◌, ◌<◌, ◌≡◌, ◌⊎◌, arith, leb, Bool-cases, inl, inr, ok, err,
}
use linera_protocol.Base.Arithmetic.{
  ArithmeticError, overflow, underflow, try_add, try_add_one, saturating_add, try_sub,
  saturating_sub,
}

pub try_add_one-ok : (top a : ℕ) {b : ℕ} → try_add_one top a ≡ ok b → (b ≡ a + 1) × (b ≤ top)
unfolding try_add_one
try_add_one-ok top a h = ground arith

pub try_add_one-err :
    (top a : ℕ) {e : ArithmeticError} → try_add_one top a ≡ err e → (e ≡ overflow) × (top ≤ a)
unfolding try_add_one
try_add_one-err top a h = ground arith

-- Up to the largest value `top`: addition succeeds exactly on a sum that fits, and a subtraction of
-- either operand from it then gives back the other one; otherwise it reports an overflow, and only
-- then does the saturating sum stop at `top`.
pub try_add-try_sub :
    (top a b : ℕ)
    → (((c : ℕ) × (try_add top a b ≡ ok c)
          × (c ≤ top)
          × (try_sub c b ≡ ok a)
          × (try_sub c a ≡ ok b)
          × (saturating_add top a b ≡ c))
        ⊎ ((try_add top a b ≡ err overflow) × (top < a + b) × (saturating_add top a b ≡ top)))
unfolding try_add try_sub saturating_add
try_add-try_sub top a b = elim (Bool-cases (leb (a + b) top)) [
  | inl fits ↦ inl (a + b, ground arith, ground arith, ground arith, ground arith, ground arith)
  | inr over ↦ inr (ground arith, ground arith, ground arith)
]

-- A subtraction fails exactly when it would fall below zero, and otherwise an addition restores the
-- minuend; the saturating form stops at zero.
pub try_sub-try_add :
    (top a b : ℕ)
    → a ≤ top
    → (((c : ℕ) × (try_sub a b ≡ ok c) × (try_add top c b ≡ ok a) × (saturating_sub a b ≡ c))
        ⊎ ((try_sub a b ≡ err underflow) × (a < b) × (saturating_sub a b ≡ 0)))
unfolding try_add try_sub saturating_sub
try_sub-try_add top a b h = elim (Bool-cases (leb b a)) [
  | inl fits ↦ inl (a - b, ground arith, ground arith, ground arith)
  | inr under ↦ inr (ground arith, ground arith, ground arith)
]
