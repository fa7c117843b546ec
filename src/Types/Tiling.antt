-- ===== src/Types/Tiling.antt =====
-- types.py: the list that `split_parts` returns, as a cover of the object's bytes.
use rclone_kit.Base.{
  ℕ, zero, suc, ◌+◌, ◌-◌, ◌*◌, ◌/◌, ◌≤◌, ◌<◌, ◌≡◌, refl, ◌⊎◌, inl, List, [], ◌∷◌, Result, ok, err,
  value_error, ◌>>=◌, ltb, le→ltb, lt→leb, if◌then◌else◌, length, ne→==, arith, dec_lt,
}
use rclone_kit.Base.Int.{ℤ, pos, ◌≤ℤ◌, ◌<ℤ◌}
use rclone_kit.Types.{Range, make_range}
use rclone_kit.Types.Parts.{
  PartInfo, make_part_info, max_part_number, get_chunk_size, part_loop, create_part_infos,
  split_parts,
}

-- `parts` cover the bytes from `a` to `b` in order, without a gap or an overlap, numbered from
-- `n`; every part has `chunk` bytes, but the last may have fewer, and none is empty.
abbrev pub Tiles : (chunk a b n : ℕ) → List PartInfo → Type 0
Tiles chunk a b n [] = a ≡ b
Tiles chunk a b n (p ∷ ps) =
    (p.part_number ≡ n)
    × (p.range.start ≡ a)
    × (a < p.range.end)
    × ((p.range.end ≡ a + chunk) ⊎ ((p.range.end ≡ b) × (p.range.end < a + chunk)))
    × Tiles chunk p.range.end b (n + 1) ps

make_range_lem : (a b : ℕ) → a < b → make_range (pos a) (pos b) ≡ ok (record { start = a; end = b })
unfolding make_range
make_range_lem a b h = ground arith

make_part_info_lem :
    (n : ℕ) (r : Range)
    → n < max_part_number
    → make_part_info (n + 1) r ≡ ok (record { part_number = n + 1; range = r })
unfolding make_part_info
make_part_info_lem n r h = ground arith

-- Fewer than `max_part_number` parts are done while bytes are left.
round_fits : (n c s : ℕ) → n * c < s → s ≤ max_part_number * c → n < max_part_number
round_fits n c s h k = grind arith

abbrev part_of : (n a b : ℕ) → PartInfo
part_of n a b = record { part_number = n; range = record { start = a; end = b } }

module _ (fuel s c a n : ℕ) (room : n < max_part_number) where
  part_loop-last : a < s → s ≤ a + c → part_loop (suc fuel) s c a n ≡ ok (part_of (n + 1) a s ∷ [])
  unfolding part_loop make_range make_part_info
  part_loop-last lt fits = ground arith

  part_loop-step :
      0 < c
      → a + c < s
      → part_loop (suc fuel) s c a n
        ≡ (do infos ← part_loop fuel s c (a + c) (n + 1); ok (part_of (n + 1) a (a + c) ∷ infos))
  unfolding part_loop
  part_loop-step hc more = rw (
    le→ltb s (a + c) (omega arith),
    make_range_lem a (a + c) (omega arith),
    make_part_info_lem n _ room,
    lt→leb s (a + c) more,
  )

-- With fuel for the bytes that are left, the loop returns, and its parts cover them.
abbrev Covers : (chunk a b n : ℕ) → Result (List PartInfo) → Type 0
Covers chunk a b n r =
    (ps : List PartInfo) × (r ≡ ok ps)
    × Tiles chunk a b (n + 1) ps
    × (length ps + n ≤ max_part_number)

Covers-step :
    (c a s n : ℕ) (r : Result (List PartInfo))
    → 0 < c
    → Covers c (a + c) s (n + 1) r
    → Covers c a s n (do infos ← r; ok (part_of (n + 1) a (a + c) ∷ infos))
Covers-step c a s n r hc (ps, e, tiles, count) = (
  part_of (n + 1) a (a + c) ∷ ps,
  rw e refl,
  (refl, refl, omega arith, inl refl, tiles),
  omega arith,
)

part_loop-Covers :
    (fuel s c a n : ℕ)
    → 0 < c
    → s ≤ max_part_number * c
    → a ≡ n * c
    → a < s
    → s ≤ a + fuel
    → Covers c a s n (part_loop fuel s c a n)
part_loop-Covers zero s c a n hc hs ha lt enough = absurd (omega arith)
part_loop-Covers (suc fuel) s c a n hc hs ha lt enough =
    let room : n < max_part_number = round_fits n c s (omega arith) hs in
    elim (dec_lt (a + c) s) [
      | yes more ↦ rw (part_loop-step fuel s c a n room hc more) (
          Covers-step c a s n _ hc
            (part_loop-Covers fuel s c (a + c) (n + 1) hc hs (omega arith) more (omega arith)))
      | no last ↦
          rw (part_loop-last fuel s c a n room lt (omega arith))
            (part_of (n + 1) a s ∷ [], refl, ground arith, omega arith)
    ]

-- The size that the parts are cut to: the target, or the least one that `max_part_number` parts allow.
abbrev pub chunk_for : (size target : ℕ) → ℕ
chunk_for size target =
    let least = (size + max_part_number - 1) / max_part_number in
    if ltb target least then least else target

get_chunk_size_lem : (s t : ℕ) → 0 < t → get_chunk_size (pos s) (pos t) ≡ ok (chunk_for s t)
unfolding get_chunk_size
get_chunk_size_lem s t h = ground arith

chunk_for-suffices : (s t : ℕ) → 0 < t → (0 < chunk_for s t) × (s ≤ max_part_number * chunk_for s t)
chunk_for-suffices s t h = ground arith

-- For an object of at least one byte and a positive target, `split_parts` returns a list: at most
-- 10000 parts, numbered from 1, which cover the bytes from 0 to the size in order with no gap and
-- no overlap; every part has `chunk_for size target` bytes, but the last may have fewer.
pub split_parts-Tiles :
    (size target : ℕ)
    → 0 < size
    → 0 < target
    → (ps : List PartInfo) × (split_parts (pos size) (pos target) ≡ ok ps)
      × Tiles (chunk_for size target) 0 size 1 ps
      × (length ps ≤ max_part_number)
unfolding create_part_infos
split_parts-Tiles size target hs ht =
    let (hc, room) = chunk_for-suffices size target ht in
    let (ps, e, tiles, count) =
      part_loop-Covers size size (chunk_for size target) 0 0 hc room (omega arith) hs
        (omega arith) in
    (ps, rw (ne→== size 0 (omega arith), get_chunk_size_lem size target ht) e, tiles, omega arith)

-- No bytes make no parts, whatever the target is.
split_parts-zero : (target : ℤ) → split_parts (pos 0) target ≡ ok []
unfolding create_part_infos
split_parts-zero target = refl

-- A negative size is refused, and so is a target that is not positive, unless there are no bytes.
pub split_parts_refusal :
    (size target : ℤ)
    → (size <ℤ pos 0) ⊎ ((pos 0 <ℤ size) × (target ≤ℤ pos 0))
    → split_parts size target ≡ err value_error
unfolding create_part_infos get_chunk_size
split_parts_refusal size target h = ground arith
