-- ===== src/Base/Ints.antt =====
-- `i32` and `i64`, and their conversions.
use deepfry.Base.{ℕ, ◌-◌, ◌^◌, Option, none, some, ltb, max, if◌then◌else◌}

-- `negsuc n` is `-(n + 1)`.
pub data ℤ : Type 0 where
  pos negsuc : ℕ → ℤ

abbrev pub i64_max : ℕ
i64_max = 2 ^ 63 - 1

-- `u64::try_from`
unfoldable pub to_u64 : ℤ → Option ℕ
to_u64 (pos n) = some n
to_u64 (negsuc n) = none

-- `u64 as i64`
unfoldable pub as_i64 : ℕ → ℤ
as_i64 n = if ltb i64_max n then negsuc (2 ^ 64 - 1 - n) else pos n

-- `i64::try_from(n).unwrap_or(i64::MAX)` of an unsigned number.
unfoldable pub saturate_i64 : ℕ → ℤ
saturate_i64 n = if ltb i64_max n then pos i64_max else pos n

-- `n.max(1) as usize`
unfoldable pub at_least_one : ℤ → ℕ
at_least_one (pos n) = max n 1
at_least_one (negsuc n) = 1
