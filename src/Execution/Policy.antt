-- ===== src/Execution/Policy.antt =====
-- linera-execution/src/policy.rs: what a block pays for. The size of serialized data (`bcs`) is an argument,
-- and its failure is left out.
use native.Mathlib.Nat.{div-add-mod, mod-lt, mul-add, mul-le-mul_left}
use linera_protocol.Prelude.{
  refl, sym, subst, ℕ, ◌+◌, ◌*◌, ◌/◌, ◌≤◌, ◌<◌, ◌≡◌, ◌⊎◌, inl, inr, arith, ◌==◌, leb, if◌then◌else◌,
  Result, ok, Bool-cases,
}
use linera_protocol.Base.Amount.{Amount, saturating_div}
use linera_protocol.Base.Arithmetic.{ArithmeticError, try_mul, u64_max, u128_max}
use linera_protocol.Execution.Committee.{ResourceControlPolicy}

-- `Default for ResourceControlPolicy`.
unfoldable pub default_policy : ResourceControlPolicy
default_policy = record {
  certificate = 0;
  fuel = 0;
  storage_num_reads = 0;
  storage_bytes_read = 0;
  storage_bytes_written = 0;
  maximum_bytes_read_per_block = u64_max / 2;
  maximum_bytes_written_per_block = u64_max / 2;
  messages = 0;
}

unfoldable pub certificate_price : ResourceControlPolicy → Amount
certificate_price policy = policy.certificate

unfoldable pub messages_price : ResourceControlPolicy → ℕ → Result ArithmeticError Amount
messages_price policy size = try_mul u128_max policy.messages size

unfoldable pub storage_num_reads_price : ResourceControlPolicy → ℕ → Result ArithmeticError Amount
storage_num_reads_price policy count = try_mul u128_max policy.storage_num_reads count

unfoldable pub storage_bytes_read_price : ResourceControlPolicy → ℕ → Result ArithmeticError Amount
storage_bytes_read_price policy count = try_mul u128_max policy.storage_bytes_read count

unfoldable pub storage_bytes_written_price :
    ResourceControlPolicy → ℕ → Result ArithmeticError Amount
storage_bytes_written_price policy count = try_mul u128_max policy.storage_bytes_written count

unfoldable pub storage_bytes_written_price_raw :
    ResourceControlPolicy → ℕ → Result ArithmeticError Amount
storage_bytes_written_price_raw policy size = try_mul u128_max policy.storage_bytes_written size

unfoldable pub fuel_price : ResourceControlPolicy → ℕ → Result ArithmeticError Amount
fuel_price policy fuel = try_mul u128_max policy.fuel fuel

-- `u64::try_from(..).unwrap_or(u64::MAX)`.
unfoldable pub remaining_fuel : ResourceControlPolicy → Amount → ℕ
unfolding saturating_div
remaining_fuel policy balance =
    let units = saturating_div balance policy.fuel in if leb units u64_max then units else u64_max

-- What a price times the quotient of a balance by it comes to.
units_fit : (balance price : ℕ) → price * (balance / price) ≤ balance
units_fit balance price = let split = div-add-mod balance price in omega (arith, split)

units_exceed : (balance price : ℕ) → 0 < price → balance < price * (balance / price + 1)
units_exceed balance price positive =
    let split = div-add-mod balance price in
    let rest = mod-lt balance positive in
    let step = mul-add price (balance / price) 1 in omega (arith, split, rest, step)

paid :
    (policy : ResourceControlPolicy) (units : ℕ) (balance : Amount)
    → policy.fuel * units ≤ balance
    → balance ≤ u128_max
    → (price : Amount) × (fuel_price policy units ≡ ok price) × (price ≤ balance)
unfolding fuel_price try_mul
paid policy units balance within fits = (policy.fuel * units, ground arith, within)

remaining_fuel-cases :
    (policy : ResourceControlPolicy) (balance : Amount)
    → ((policy.fuel ≡ 0) × (remaining_fuel policy balance ≡ u64_max))
      ⊎ ((0 < policy.fuel)
          × (balance / policy.fuel ≤ u64_max)
          × (remaining_fuel policy balance ≡ balance / policy.fuel))
      ⊎ ((0 < policy.fuel)
          × (u64_max < balance / policy.fuel)
          × (remaining_fuel policy balance ≡ u64_max))
unfolding remaining_fuel saturating_div
remaining_fuel-cases policy balance = elim (Bool-cases (policy.fuel == 0)) [
  | inl free ↦ inl (ground arith, rw free refl)
  | inr priced ↦ elim (Bool-cases (leb (balance / policy.fuel) u64_max)) [
    | inl small ↦ inr (inl (ground arith, ground (arith, small), rw (priced, small) refl))
    | inr large ↦ inr (inr (ground arith, ground (arith, large), rw (priced, large) refl))
  ]
]

-- The remaining fuel of a balance is the most that it pays for: its price does not fail and is within
-- the balance, and one unit more costs more than the balance, unless it is no `u64`.
pub remaining_fuel-fuel_price :
    (policy : ResourceControlPolicy) (balance : Amount)
    → balance ≤ u128_max
    → ((price : Amount) × (fuel_price policy (remaining_fuel policy balance) ≡ ok price)
        × (price ≤ balance))
      × ((remaining_fuel policy balance ≡ u64_max)
          ⊎ (balance < policy.fuel * (remaining_fuel policy balance + 1)))
remaining_fuel-fuel_price policy balance fits =
    let Most = λ (units : ℕ).
      ((price : Amount) × (fuel_price policy units ≡ ok price) × (price ≤ balance))
      × ((units ≡ u64_max) ⊎ (balance < policy.fuel * (units + 1))) in
    elim (remaining_fuel-cases policy balance) [
      | inl (free, is) ↦
          let none_due : policy.fuel * u64_max ≤ balance =
            subst (λ x. x * u64_max ≤ balance) (sym free) (omega arith) in
          subst Most (sym is) (paid policy u64_max balance none_due fits, inl refl)
      | inr (inl (positive, small, is)) ↦ subst Most (sym is) (
        paid policy _ balance (units_fit balance policy.fuel) fits,
        inr (units_exceed balance policy.fuel positive),
      )
      | inr (inr (positive, large, is)) ↦
          let below : policy.fuel * u64_max ≤ policy.fuel * (balance / policy.fuel) =
            mul-le-mul_left policy.fuel (omega arith) in
          let fit = units_fit balance policy.fuel in
          subst Most (sym is) (paid policy u64_max balance (omega arith) fits, inl refl)
    ]
