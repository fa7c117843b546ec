-- ===== src/Multipart/InfoJson/Coverage.antt =====
-- s3/multipart/info_json.py: which parts `fetch_is_done` asks for.
use Prim.Native.Nat.{min}
use rclone_kit.Base.{
  ℕ, zero, suc, ◌+◌, ◌-◌, ◌<◌, ◌≡◌, ◌↔◌, refl, ap, ◌∙◌, true, false, not, List, [], ◌∷◌, map,
  member, keep, take, drop, length, All, Result, ok, Bool-cases, inl, inr, arith,
}
use rclone_kit.Base.Int.{pos}
use rclone_kit.Types.Parts.{PartInfo, split_parts}
use rclone_kit.Types.Tiling.{Tiles, split_parts-Tiles}
use rclone_kit.Multipart.Chunker.Fetches.{range}
use rclone_kit.Multipart.InfoJson.{
  InfoData, set_chunksize, set_first_part, set_last_part, slice, compute_all_parts,
  compute_all_part_numbers, fetch_all_finished_part_numbers, insert_new, sorted_set,
  fetch_remaining_part_numbers, none_remaining, fetch_is_done,
}

abbrev number_of : PartInfo → ℕ
number_of p = p.part_number

Tiles-range :
    (chunk a b n : ℕ) (ps : List PartInfo)
    → Tiles chunk a b n ps
    → map number_of ps ≡ range n (length ps)
Tiles-range chunk a b n [] h = refl
Tiles-range chunk a b n (p ∷ ps) (e, _, _, _, rest) =
    rw (e, Tiles-range chunk p.range.end b (n + 1) ps rest)

map-take : (n : ℕ) (ps : List PartInfo) → map number_of (take n ps) ≡ take n (map number_of ps)
map-take zero ps = refl
map-take (suc n) [] = refl
map-take (suc n) (p ∷ ps) = ap (◌∷◌ p.part_number) (map-take n ps)

map-drop : (n : ℕ) (ps : List PartInfo) → map number_of (drop n ps) ≡ drop n (map number_of ps)
map-drop zero ps = refl
map-drop (suc n) [] = refl
map-drop (suc n) (p ∷ ps) = map-drop n ps

take-range : (n c k : ℕ) → take n (range c k) ≡ range c (min n k)
take-range zero c k = let e : min zero k ≡ 0 = omega arith in rw e refl
take-range (suc n) c zero = let e : min (suc n) zero ≡ 0 = omega arith in rw e refl
take-range (suc n) c (suc k) =
    let e : min (suc n) (suc k) ≡ suc (min n k) = omega arith in rw (e, take-range n (c + 1) k) refl

drop-range : (n c k : ℕ) → drop n (range c k) ≡ range (c + n) (k - n)
drop-range zero c k =
    let e : c + 0 ≡ c = omega arith in let f : k - 0 ≡ k = omega arith in rw (e, f) refl
drop-range (suc n) c zero = let e : 0 - suc n ≡ 0 = omega arith in rw e refl
drop-range (suc n) c (suc k) =
    let e : c + suc n ≡ (c + 1) + n = omega arith in
    let f : suc k - suc n ≡ k - n = omega arith in rw (e, f) (drop-range n (c + 1) k)

slice-range :
    (start stop c k : ℕ) → slice start stop (range c k) ≡ range (c + start) (min stop k - start)
slice-range start stop c k = ap (drop start) (take-range stop c k) ∙ drop-range start c (min stop k)

slice-numbers :
    (start stop : ℕ) (ps : List PartInfo)
    → map number_of (slice start stop ps) ≡ slice start stop (map number_of ps)
slice-numbers start stop ps = map-drop start (take stop ps) ∙ ap (drop start) (map-take stop ps)

-- The info of an upload, as `upload_parts_resumable` sets it.
abbrev pub planned : (chunk first last : ℕ) → InfoData → InfoData
planned chunk first last info =
    set_last_part last (set_first_part first (set_chunksize (pos chunk) info))

-- For an object of at least one byte and a positive chunk size: the part numbers that an upload of
-- the parts `first` to `last` checks are those from `first + 1` to `last + 1`, or to the number of all
-- parts if that is less. The part `first` itself is not among them, since the part
-- numbers, which count from 1, are taken as indices from 0.
pub compute_all_part_numbers_lem :
    (info : InfoData) (size chunk first last : ℕ)
    → info.size ≡ pos size
    → 0 < size
    → 0 < chunk
    → (ps : List PartInfo) × (split_parts (pos size) (pos chunk) ≡ ok ps)
      × (compute_all_part_numbers (planned chunk first last info)
          ≡ ok (range (1 + first) (min (last + 1) (length ps) - first)))
unfolding compute_all_part_numbers compute_all_parts
compute_all_part_numbers_lem info size chunk first last e hs hc =
    let (ps, split, tiles, _) = split_parts-Tiles size chunk hs hc in
    let numbers =
      slice-numbers first (last + 1) ps
      ∙ ap (slice first (last + 1)) (Tiles-range _ 0 size 1 ps tiles)
      ∙ slice-range first (last + 1) 1 (length ps) in
    (ps, split, simp (e, split) (ap ok numbers))

insert_new-remaining : (n : ℕ) (ns : List ℕ) → none_remaining (ok (insert_new n ns)) ≡ false
insert_new-remaining n [] = refl
insert_new-remaining n (m ∷ ms) = ground arith

none_remaining-keep :
    (finished numbers : List ℕ)
    → (none_remaining (ok (sorted_set (keep (λ n. not (member n finished)) numbers))) ≡ true)
      ↔ All (λ n. member n finished ≡ true) numbers
none_remaining-keep finished [] = (λ h. tt, λ h. refl)
none_remaining-keep finished (n ∷ ns) =
    let again = none_remaining-keep finished ns in
    let left = insert_new-remaining n (sorted_set (keep (λ m. not (member m finished)) ns)) in
    elim (Bool-cases (member n finished)) [
      | inl e ↦ rw e (λ h. (refl, again.0 h), λ h. again.1 h.1)
      | inr e ↦ rw e (λ h. cc, λ h. cc)
    ]

-- For an object of at least one byte, a positive chunk size and a listing whose part names can be
-- read: `fetch_is_done` of an upload of the parts `first` to `last` is true exactly if the part numbers
-- from `first + 1` to `last + 1`, or to the number of all parts if that is less, are among the finished
-- ones. The part `first` is not asked for.
pub fetch_is_done_iff :
    (listing : Result (List (List ℕ))) (info : InfoData) (size chunk first last : ℕ)
    (finished : List ℕ)
    → info.size ≡ pos size
    → 0 < size
    → 0 < chunk
    → fetch_all_finished_part_numbers listing ≡ ok finished
    → (ps : List PartInfo) × (split_parts (pos size) (pos chunk) ≡ ok ps)
      × ((fetch_is_done listing (planned chunk first last info) ≡ true)
          ↔ All
              (λ n. member n finished ≡ true)
              (range (1 + first) (min (last + 1) (length ps) - first)))
unfolding fetch_is_done fetch_remaining_part_numbers
fetch_is_done_iff listing info size chunk first last finished e hs hc f =
    let (ps, split, numbers) = compute_all_part_numbers_lem info size chunk first last e hs hc in
    (ps, split, simp (numbers, f) (none_remaining-keep finished _))
