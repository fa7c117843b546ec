-- ===== src/Types/Parts.antt =====
-- `PartInfo`: numbered parts, and how an object of a given size is split into them.
use rclone_kit.Base.{
  ℕ, zero, suc, ◌+◌, ◌-◌, ◌/◌, ◌||◌, not, List, [], ◌∷◌, Result, ok, err, value_error, diverged,
  ◌>>=◌, ◌>>◌, raise_if, ltb, leb, ◌==◌, ◌&&◌, if◌then◌else◌,
}
use rclone_kit.Base.Int.{ℤ, pos, negsuc, ltb_ℤ, leb_ℤ, pos_part}
use rclone_kit.Types.{Range, make_range}

abbrev pub max_part_number : ℕ
max_part_number = 10000

pub record PartInfo : Type 0 where
  pub part_number : ℕ
  pub range : Range

-- `PartInfo(part_number, range)` with the check of `__post_init__`
unfoldable pub make_part_info : ℕ → Range → Result PartInfo
make_part_info n r = do
  raise_if (not (leb 1 n && leb n max_part_number)) value_error
  ok (record { part_number = n; range = r })

-- `_get_chunk_size`: the target, or the least size that needs no more than `max_part_number` parts
unfoldable pub get_chunk_size : ℤ → ℤ → Result ℕ
get_chunk_size src_size target = do
  raise_if (ltb_ℤ src_size (pos 0)) value_error
  raise_if (leb_ℤ target (pos 0)) value_error
  let minimum_bytes = (pos_part src_size + max_part_number - 1) / max_part_number
  ok (if ltb (pos_part target) minimum_bytes then minimum_bytes else pos_part target)

-- The `while True` of `_create_part_infos`. It starts a round only while `curr_offset < src_size`,
-- where `src_size - curr_offset` is the difference of the integers.
unfoldable pub part_loop : ℕ → ℕ → ℕ → ℕ → ℕ → Result (List PartInfo)
part_loop zero src_size chunk_size curr_offset part_number = err diverged
part_loop (suc fuel) src_size chunk_size curr_offset part_number =
    let done = ltb src_size (curr_offset + chunk_size) in
    let chunk = if done then src_size - curr_offset else chunk_size in
    let next = curr_offset + chunk in
    let rest = part_loop fuel src_size chunk next (part_number + 1) in
    do
      part_range ← make_range (pos curr_offset) (pos next)
      part_info ← make_part_info (part_number + 1) part_range
      if leb src_size next || done
          then ok (part_info ∷ [])
          else do infos ← rest; ok (part_info ∷ infos)

-- `_create_part_infos`, with one round of fuel for each byte
unfoldable pub create_part_infos : ℤ → ℤ → Result (List PartInfo)
create_part_infos (negsuc _) target = err value_error
create_part_infos (pos size) target =
    if size == 0
    then ok []
    else do chunk_size ← get_chunk_size (pos size) target; part_loop size size chunk_size 0 0

-- `PartInfo.split_parts`
abbrev pub split_parts : ℤ → ℤ → Result (List PartInfo)
split_parts = create_part_infos
