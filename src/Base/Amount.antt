-- ===== src/Base/Amount.antt =====
-- linera-base/src/data_types.rs: `Amount`, a number of attotokens that fits a `u128`.
pub mod Laws
use linera_protocol.Prelude.{ℕ, ◌/◌, ◌%◌, ◌^◌, if◌then◌else◌, ◌==◌, List, [], ◌∷◌}
use linera_protocol.Base.Arithmetic.{u128_max, saturating_add, saturating_mul}

abbrev pub Amount : Type 0
Amount = ℕ

abbrev pub decimal_places : ℕ
decimal_places = 18

abbrev pub one : Amount
one = 10 ^ 18

unfoldable pub from_tokens : ℕ → Amount
unfolding saturating_mul
from_tokens tokens = saturating_mul u128_max one tokens

unfoldable pub from_milli : ℕ → Amount
unfolding saturating_mul
from_milli millitokens = saturating_mul u128_max (10 ^ 15) millitokens

-- `(self.0 >> 64) as u64`.
unfoldable pub upper_half : Amount → ℕ
upper_half a = a / 2 ^ 64 % 2 ^ 64

-- `self.0 as u64`.
unfoldable pub lower_half : Amount → ℕ
lower_half a = a % 2 ^ 64

unfoldable pub saturating_div : Amount → Amount → ℕ
saturating_div a b = if b == 0 then u128_max else a / b

-- `Sum for Amount`: a fold by `saturating_add`.
pub sum_from : Amount → List Amount → Amount
unfolding saturating_add
sum_from acc [] = acc
sum_from acc (a ∷ rest) = sum_from (saturating_add u128_max acc a) rest

unfoldable pub sum : List Amount → Amount
unfolding sum_from
sum amounts = sum_from 0 amounts
