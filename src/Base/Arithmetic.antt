-- ===== src/Base/Arithmetic.antt =====
-- linera-base/src/data_types.rs: `ArithmeticError` and the macro `impl_wrapped_number`, which gives
-- `Amount`, `BlockHeight` and `RoundNumber` their operations. A wrapped number is its value, a
-- natural number up to the largest value of the machine type, which is the first argument here.
pub mod Laws
use linera_protocol.Prelude.{ℕ, ◌+◌, ◌-◌, ◌*◌, ◌^◌, leb, if◌then◌else◌, Result, ok, err}

pub data ArithmeticError : Type 0 where
  overflow underflow : ArithmeticError

-- The integer types' `MAX`.
abbrev pub u32_max : ℕ
u32_max = 4294967295

abbrev pub u64_max : ℕ
u64_max = 18446744073709551615

abbrev pub u128_max : ℕ
u128_max = 340282366920938463463374607431768211455

-- The primitive operations of the integer types, as the Rust language documents them.
abbrev pub checked_add : ℕ → ℕ → ℕ → Result ArithmeticError ℕ
checked_add top a b = if leb (a + b) top then ok (a + b) else err overflow

abbrev pub checked_sub : ℕ → ℕ → Result ArithmeticError ℕ
checked_sub a b = if leb b a then ok (a - b) else err underflow

abbrev pub checked_mul : ℕ → ℕ → ℕ → Result ArithmeticError ℕ
checked_mul top a b = if leb (a * b) top then ok (a * b) else err overflow

-- `self.0.checked_add(other.0).ok_or(Overflow)`; the `_assign` forms store the same value.
pub try_add : ℕ → ℕ → ℕ → Result ArithmeticError ℕ
try_add top a b = checked_add top a b

unfoldable pub try_add_one : ℕ → ℕ → Result ArithmeticError ℕ
try_add_one top a = checked_add top a 1

unfoldable pub saturating_add : ℕ → ℕ → ℕ → ℕ
saturating_add top a b = if leb (a + b) top then a + b else top

pub try_sub : ℕ → ℕ → Result ArithmeticError ℕ
try_sub a b = checked_sub a b

unfoldable pub try_sub_one : ℕ → Result ArithmeticError ℕ
try_sub_one a = checked_sub a 1

pub saturating_sub : ℕ → ℕ → ℕ
saturating_sub a b = a - b

unfoldable pub saturating_mul : ℕ → ℕ → ℕ → ℕ
saturating_mul top a b = if leb (a * b) top then a * b else top

unfoldable pub try_mul : ℕ → ℕ → ℕ → Result ArithmeticError ℕ
try_mul top a b = checked_mul top a b

-- The forms that update a variable: the new value of the variable, and the result.
pub record Assigned : Type 0 where
  pub value : ℕ
  pub result : Result ArithmeticError (Unit {0})

abbrev assign : ℕ → Result ArithmeticError ℕ → Assigned
assign old (ok v) = record { value = v; result = ok tt }
assign old (err e) = record { value = old; result = err e }

unfoldable pub try_add_assign : ℕ → ℕ → ℕ → Assigned
try_add_assign top a b = assign a (checked_add top a b)

unfoldable pub try_add_assign_one : ℕ → ℕ → Assigned
try_add_assign_one top a = assign a (checked_add top a 1)

unfoldable pub saturating_add_assign : ℕ → ℕ → ℕ → ℕ
saturating_add_assign top a b = if leb (a + b) top then a + b else top

unfoldable pub try_sub_assign : ℕ → ℕ → Assigned
try_sub_assign a b = assign a (checked_sub a b)

unfoldable pub try_mul_assign : ℕ → ℕ → ℕ → Assigned
try_mul_assign top a b = assign a (checked_mul top a b)
