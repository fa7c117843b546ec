-- ===== src/Multipart/UploadState.antt =====
-- s3/multipart/upload_state.py: the state of a multipart upload, saved after every finished part.
-- `peristant` is the one file of the state, whose path `__post_init__` sets; the operations pass its
-- content along. `sha256` is the digest of a text of digits.
pub mod Saving
use rclone_kit.Base.{
  ℕ, ◌+◌, ◌-◌, String, Bool, true, false, not, Option, none, some, List, [], ◌∷◌, ◌++◌, map, length,
  Result, ok, err, Error, assertion_error, value_error, file_not_found, zero_division, traverse,
  raise_if, ◌>>=◌, ◌>>◌, leb, ◌==◌, str_eq, if◌then◌else◌,
}
use rclone_kit.Base.Decimal.{show}
use rclone_kit.Multipart.Pieces.{
  FinishedPiece, StreamItem, piece, end_of_stream, pieces_of, PieceJson, PieceEntry, to_json_array,
  from_json, entries_of, UploadInfo, UploadInfoJson, path, info_to_json, info_from_json,
  total_chunks,
}

pub record UploadState : Type 0 where
  pub upload_info : UploadInfo
  pub parts : List StreamItem

-- What `to_json` writes, without the texts that are for a reader; the finished parts are as a reader
-- of the file finds them.
pub record StateJson : Type 0 where
  pub upload_info : UploadInfoJson
  pub finished_parts : List (Option PieceEntry)
  pub is_done : Bool
  pub finished_count : ℕ
  pub total_parts : ℕ

-- The file: it does not exist, or it cannot be read as JSON of this shape, or it can.
pub data StateFile : Type 0 where
  absent unreadable : StateFile
  stored : StateJson → StateFile

-- The text that `UploadInfo.fingerprint` hashes
unfoldable pub fingerprint_text : UploadInfo → List ℕ
fingerprint_text info = show info.file_size ++ (show info.chunk_size ++ show (total_chunks info))

-- `finished`, the first part of `count()`
abbrev pub finished : UploadState → ℕ
finished s = length (pieces_of s.parts)

-- `remaining`
unfoldable pub remaining : UploadState → Result ℕ
remaining s =
    let num_chunks = total_chunks s.upload_info in
    if leb (finished s) num_chunks then ok (num_chunks - finished s) else err assertion_error

-- `is_done`
unfoldable pub is_done : UploadState → Result Bool
unfolding remaining
is_done s = do n ← remaining s; ok (n == 0)

-- The fields that `to_json` writes.
abbrev pub state_json : Bool → UploadState → StateJson
state_json all_done s = record {
  upload_info = info_to_json s.upload_info;
  finished_parts = entries_of (to_json_array s.parts);
  is_done = all_done;
  finished_count = finished s;
  total_parts = total_chunks s.upload_info;
}

-- `to_json`, whose percentage divides by the number of parts
unfoldable pub to_json : UploadState → Result StateJson
unfolding is_done
to_json s = do
  all_done ← is_done s
  raise_if (total_chunks s.upload_info == 0) zero_division
  ok (state_json all_done s)

-- `UploadState.from_json` of what was read
unfoldable pub from_file_json : StateJson → Result UploadState
from_file_json j = do
  finished_parts ← traverse from_json j.finished_parts
  ok (record { upload_info = info_from_json j.upload_info; parts = finished_parts })

-- `UploadState.load`
unfoldable pub load : StateFile → Result UploadState
load absent = err file_not_found
load unreadable = err value_error
load (stored j) = from_file_json j

module _ (sha256 : List ℕ → String) where
  -- `fingerprint`
  abbrev pub fingerprint : UploadState → String
  fingerprint s = sha256 (fingerprint_text s.upload_info)

  -- With a state that could be read from the file, its fingerprint must be this one.
  abbrev pub compared : UploadState → Result UploadState → Result (Unit {0})
  compared s (err _) = ok tt
  compared s (ok last_upload_state) =
      raise_if (not (str_eq (fingerprint s) (fingerprint last_upload_state))) value_error

  -- `_check_fingerprint_no_lock`
  unfoldable pub check_fingerprint : UploadState → StateFile → Result (Unit {0})
  check_fingerprint s absent = ok tt
  check_fingerprint s unreadable = ok tt
  check_fingerprint s (stored j) = compared s (from_file_json j)

  abbrev pub written : Result StateJson → StateFile → Result (Unit {0}) × StateFile
  written (err e) file = (err e, file)
  written (ok j) file = (ok tt, stored j)

  abbrev pub guarded :
      Result (Unit {0}) → Result StateJson → StateFile → Result (Unit {0}) × StateFile
  guarded (err e) j file = (err e, file)
  guarded (ok _) j file = written j file

  -- `save`
  unfoldable pub save : UploadState → StateFile → Result (Unit {0}) × StateFile
  save s file = guarded (check_fingerprint s file) (to_json s) file

  -- `add_finished`: the part stays in the list where the save raises
  unfoldable pub add_finished :
      StreamItem → UploadState → StateFile → Result (Unit {0}) × UploadState × StateFile
  unfolding save
  add_finished part s file =
      let s' = record s { parts = s.parts ++ (part ∷ []) } in
      let (r, file') = save s' file in (r, s', file')

  -- `update_source_file` with the text of a path; the size is the one that is known, or that of the file
  unfoldable pub update_source_file :
      (src_file : String) (new_file_size : ℕ)
      → UploadState
      → StateFile
      → Result (Unit {0}) × UploadState × StateFile
  unfolding save
  update_source_file src_file new_file_size s file =
      let s' = record s {
        upload_info = record (s.upload_info) { src_file_path = path src_file };
      } in
      let saved = save s' file in
      if new_file_size == s.upload_info.file_size
      then (saved.0, s', saved.1)
      else (err value_error, s, file)
