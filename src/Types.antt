-- ===== src/Types.antt =====
-- src/rclone_kit/types.py: byte sizes, byte ranges and the split of an object into parts.
pub mod Parts
pub mod Tiling
pub mod Names
use rclone_kit.Base.{ℕ, Bool, Result, ok, err, value_error, ◌>>=◌, ◌>>◌, raise_if}
use rclone_kit.Base.Int.{ℤ, pos, negsuc, ltb_ℤ, leb_ℤ, pos_part}

-- A range that was built has 0 ≤ start < end, so its ends are naturals.
pub record Range : Type 0 where
  pub start : ℕ
  pub end : ℕ

-- `Range(start, end)`
unfoldable pub make_range : ℤ → ℤ → Result Range
make_range start end = do
  raise_if (ltb_ℤ start (pos 0)) value_error
  raise_if (leb_ℤ end start) value_error
  ok (record { start = pos_part start; end = pos_part end })
