-- ===== src/Base/Amount/Laws.antt =====
-- linera-base/src/data_types.rs: the halves and the sums of amounts.
use linera_protocol.Prelude.{
  ℕ, ◌+◌, ◌*◌, ◌^◌, ◌≤◌, ◌<◌, ◌≡◌, arith, min, leb, if◌then◌else◌, List, [], ◌∷◌,
}
use linera_protocol.Base.Arithmetic.{saturating_add, u128_max}
use linera_protocol.Base.Amount.{Amount, lower_half, sum, sum_from, upper_half}

-- The two halves of an amount that fits a `u128` are `u64`s, and give the amount back.
pub halves-amount :
    (a : Amount)
    → a ≤ u128_max
    → (upper_half a < 2 ^ 64) × (lower_half a < 2 ^ 64) × (upper_half a * 2 ^ 64 + lower_half a ≡ a)
unfolding upper_half lower_half
halves-amount a fits = omega arith

-- The exact sum.
unfoldable pub total : List Amount → ℕ
total [] = 0
total (a ∷ rest) = a + total rest

sum_from-total :
    (acc : Amount) (amounts : List Amount)
    → acc ≤ u128_max
    → sum_from acc amounts ≡ min u128_max (acc + total amounts)
unfolding sum_from total saturating_add
sum_from-total acc [] fits = omega arith
sum_from-total acc (a ∷ rest) fits =
    let next = if leb (acc + a) u128_max then acc + a else u128_max in
    let capped : next ≤ u128_max = ground arith in
    let ih = sum_from-total next rest capped in ground (arith, ih)

-- The sum of amounts is their exact sum, or the largest amount where that does not fit.
pub sum-total : (amounts : List Amount) → sum amounts ≡ min u128_max (total amounts)
unfolding sum
sum-total amounts = let capped = sum_from-total 0 amounts (omega arith) in omega arith
