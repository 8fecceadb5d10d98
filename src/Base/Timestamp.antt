-- ===== src/Base/Timestamp.antt =====
-- linera-base/src/data_types.rs: `Timestamp`, in microseconds since the Unix epoch, a `u64`.
use linera_protocol.Prelude.{ℕ, ◌-◌, if◌then◌else◌, leb}
use linera_protocol.Base.Arithmetic.{u64_max, saturating_add}

abbrev pub Timestamp : Type 0
Timestamp = ℕ

unfoldable pub saturating_diff_micros : Timestamp → Timestamp → ℕ
saturating_diff_micros self other = self - other

-- The argument is `duration.as_micros()`, a `u128`.
unfoldable pub add_duration : Timestamp → ℕ → Timestamp
unfolding saturating_add
add_duration self micros =
    saturating_add u64_max self (if leb micros u64_max then micros else u64_max)

unfoldable pub saturating_add_micros : Timestamp → ℕ → Timestamp
unfolding saturating_add
saturating_add_micros self micros = saturating_add u64_max self micros

unfoldable pub saturating_sub_micros : Timestamp → ℕ → Timestamp
saturating_sub_micros self micros = self - micros
