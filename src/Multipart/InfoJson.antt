-- ===== src/Multipart/InfoJson.antt =====
-- s3/multipart/info_json.py: the `info.json` next to the parts of a resumable upload. What it holds is
-- a record here: a JSON null is `none`, and part numbers are not negative. `access.ls` and
-- `access.read_text` are given by what they return.
pub mod Coverage
use rclone_kit.Base.{
  ℕ, suc, ◌+◌, String, Bool, true, false, not, Option, none, some, List, [], ◌∷◌, map, member, keep,
  take, drop, Result, ok, err, Error, assertion_error, type_error, value_error, file_not_found,
  traverse, ◌>>=◌, ltb, ◌==◌, ◌&&◌, if◌then◌else◌,
}
use rclone_kit.Base.Int.{ℤ}
use rclone_kit.Types.Parts.{PartInfo, split_parts}
use rclone_kit.Types.Names.{parse_part_number}

-- `InfoJson.data`
pub record InfoData : Type 0 where
  pub is_new : Bool
  pub src : Option String
  pub src_modtime : Option String
  pub size : ℤ
  pub chunksize_int : Option ℤ
  pub first_part : Option ℕ
  pub last_part : Option ℕ
  pub hash : Option String

-- What `read_text` and `json.loads` make of the file.
pub data Reading : Type 0 where
  unreadable garbled : Reading
  decoded : InfoData → Reading

abbrev new_data : String → String → ℤ → InfoData
new_data src src_modtime size = record {
  is_new = true;
  src = some src;
  src_modtime = some src_modtime;
  size = size;
  chunksize_int = none;
  first_part = none;
  last_part = none;
  hash = none;
}

-- `_get_info_json`; with a source, `stat` has its modification time and size
unfoldable pub get_info_json : (src : Option String) (stat : String × ℤ) → Reading → Result InfoData
get_info_json src stat (decoded info) = ok info
get_info_json none stat unreadable = err file_not_found
get_info_json none stat garbled = err value_error
get_info_json (some src) stat unreadable = ok (new_data src stat.0 stat.1)
get_info_json (some src) stat garbled = ok (new_data src stat.0 stat.1)

-- `_save_info_json`: what is written; `md5` is the digest of the joined fields
unfoldable pub save_info_json :
    (md5 : Option String → Option String → ℤ → Option ℤ → String) → InfoData → InfoData
save_info_json md5 info = record info {
  is_new = false;
  hash = some (md5 info.src info.src_modtime info.size info.chunksize_int);
}

-- The setters.
abbrev pub set_chunksize : ℤ → InfoData → InfoData
set_chunksize value info = record info { chunksize_int = some value }

abbrev pub set_first_part : ℕ → InfoData → InfoData
set_first_part value info = record info { first_part = some value }

abbrev pub set_last_part : ℕ → InfoData → InfoData
set_last_part value info = record info { last_part = some value }

abbrev or_raise {ℓ} : {A : Type ℓ} → Error → Option A → Result A
or_raise e none = err e
or_raise e (some a) = ok a

abbrev or_zero : Option ℕ → ℕ
or_zero none = 0
or_zero (some n) = n

-- `full_part_infos[first_part : last_part + 1]`
abbrev pub slice {ℓ} : {A : Type ℓ} → ℕ → ℕ → List A → List A
slice start stop xs = drop start (take stop xs)

-- `compute_all_parts`
unfoldable pub compute_all_parts : InfoData → Result (List PartInfo)
compute_all_parts info = do
  chunk_size ← or_raise assertion_error info.chunksize_int
  full_part_infos ← split_parts info.size chunk_size
  last_part ← or_raise type_error info.last_part
  ok (slice (or_zero info.first_part) (last_part + 1) full_part_infos)

-- `compute_all_part_numbers`
unfoldable pub compute_all_part_numbers : InfoData → Result (List ℕ)
unfolding compute_all_parts
compute_all_part_numbers info = do
  all_parts ← compute_all_parts info
  ok (map (λ p. p.part_number) all_parts)

-- `name.startswith(prefix)`
abbrev pub starts_with : List ℕ → List ℕ → Bool
starts_with [] name = true
starts_with (c ∷ cs) [] = false
starts_with (c ∷ cs) (x ∷ xs) = (c == x) && starts_with cs xs

-- `fetch_all_finished_part_numbers`
unfoldable pub fetch_all_finished_part_numbers : Result (List (List ℕ)) → Result (List ℕ)
fetch_all_finished_part_numbers listing = do
  files ← listing
  traverse parse_part_number (keep (starts_with (b'p' ∷ b'a' ∷ b'r' ∷ b't' ∷ b'.' ∷ [])) files)

-- `sorted(list(set(numbers)))`
abbrev insert_new : ℕ → List ℕ → List ℕ
insert_new n [] = n ∷ []
insert_new n (m ∷ ms) =
    if ltb n m then n ∷ m ∷ ms else if n == m then m ∷ ms else m ∷ insert_new n ms

abbrev pub sorted_set : List ℕ → List ℕ
sorted_set [] = []
sorted_set (n ∷ ns) = insert_new n (sorted_set ns)

-- `fetch_remaining_part_numbers`
unfoldable pub fetch_remaining_part_numbers : Result (List (List ℕ)) → InfoData → Result (List ℕ)
fetch_remaining_part_numbers listing info = do
  all_part_nums ← compute_all_part_numbers info
  finished_part_nums ← fetch_all_finished_part_numbers listing
  ok (sorted_set (keep (λ n. not (member n finished_part_nums)) all_part_nums))

-- `len(remaining_part_nums) == 0`, where every failure is "not done"
abbrev pub none_remaining : Result (List ℕ) → Bool
none_remaining (err _) = false
none_remaining (ok []) = true
none_remaining (ok (_ ∷ _)) = false

-- `fetch_is_done`
unfoldable pub fetch_is_done : Result (List (List ℕ)) → InfoData → Bool
fetch_is_done listing info = none_remaining (fetch_remaining_part_numbers listing info)
