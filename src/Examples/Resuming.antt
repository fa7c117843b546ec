-- ===== src/Examples/Resuming.antt =====
-- Uploads that are saved and resumed, at concrete inputs.
use Prim.Native.Nat.{min}
use rclone_kit.Base.{
  ℕ, ◌-◌, ◌<◌, ◌≡◌, ◌↔◌, refl, String, true, false, none, some, List, [], ◌∷◌, length, member, All,
  Result, ok, str_eq, ◌==◌, if◌then◌else◌, arith,
}
use rclone_kit.Base.Int.{pos}
use rclone_kit.Base.Decimal.{show, show_padded, read}
use rclone_kit.Types.Parts.{
  PartInfo, split_parts, create_part_infos, get_chunk_size, part_loop, make_part_info,
}
use rclone_kit.Types.{make_range}
use rclone_kit.Types.Names.{gen_name, parse_part_number}
use rclone_kit.Multipart.Pieces.{
  FinishedPiece, piece, UploadInfo, path, text, src_text, total_chunks, from_json, to_json_array,
}
use rclone_kit.Multipart.Chunker.Fetches.{range}
use rclone_kit.Multipart.InfoJson.{
  InfoData, compute_all_part_numbers, compute_all_parts, fetch_all_finished_part_numbers,
  fetch_remaining_part_numbers, fetch_is_done,
}
use rclone_kit.Multipart.InfoJson.Coverage.{planned, fetch_is_done_iff}
use rclone_kit.Multipart.UploadState.{
  UploadState, StateJson, StateFile, absent, stored, state_json, fingerprint_text, fingerprint,
  finished, load, from_file_json, check_fingerprint, add_finished,
}
use rclone_kit.Multipart.UploadState.Saving.{IsSavable, Resumes, add_finished-Resumes}

abbrev info : InfoData
info = record {
  is_new = true;
  src = some "a:file";
  src_modtime = none;
  size = pos 100;
  chunksize_int = none;
  first_part = none;
  last_part = none;
  hash = none;
}

-- The names of the parts 2, 3 and 4; part 1 is missing.
abbrev listing : Result (List (List ℕ))
listing = ok (gen_name 2 30 60 ∷ gen_name 3 60 90 ∷ gen_name 4 90 100 ∷ [])

listing-numbers : fetch_all_finished_part_numbers listing ≡ ok (2 ∷ 3 ∷ 4 ∷ [])
unfolding fetch_all_finished_part_numbers gen_name parse_part_number show_padded show read
listing-numbers = refl

-- An upload of the four parts 1 to 4 counts as done without its first part.
fetch_is_done_test : fetch_is_done listing (planned 30 1 4 info) ≡ true
unfolding fetch_is_done fetch_remaining_part_numbers compute_all_part_numbers compute_all_parts
    fetch_all_finished_part_numbers gen_name parse_part_number show_padded show read
    create_part_infos get_chunk_size part_loop make_range make_part_info
fetch_is_done_test = refl

fetch_is_done_iff_example :
    (ps : List PartInfo) × (split_parts (pos 100) (pos 30) ≡ ok ps)
    × ((fetch_is_done listing (planned 30 1 4 info) ≡ true)
        ↔ All (λ n. member n (2 ∷ 3 ∷ 4 ∷ []) ≡ true) (range 2 (min 5 (length ps) - 1)))
fetch_is_done_iff_example =
    fetch_is_done_iff listing info 100 30 1 4 _ refl (omega arith) (omega arith) listing-numbers

abbrev upload_info : UploadInfo
upload_info = record {
  bucket_name = "bucket";
  object_name = "file";
  src_file_path = path "/tmp/file";
  upload_id = "u1";
  retries = 3;
  chunk_size = 30;
  file_size = 100;
}

abbrev upload : UploadState
upload = record { upload_info = upload_info; parts = [] }

abbrev first_piece : FinishedPiece
first_piece = record { part_number = 1; etag = "abc" }

-- A digest that tells texts apart by their length.
abbrev digest : List ℕ → String
digest s = if length s == 6 then "six" else "other"

upload-IsSavable : IsSavable upload
unfolding total_chunks
upload-IsSavable = record { etags = tt; fits = omega arith; some_part = omega arith }

upload-room : finished upload < total_chunks upload_info
unfolding total_chunks
upload-room = omega arith

upload-passes : check_fingerprint digest upload absent ≡ ok tt
unfolding check_fingerprint
upload-passes = refl

add_finished-Resumes_example :
    (s' : UploadState) × (file' : StateFile) × (add_finished digest
        (piece first_piece)
        upload
        absent
      ≡ (ok tt, s', file'))
    × (finished s' ≡ 1)
    × IsSavable s'
    × Resumes s' file'
    × (check_fingerprint digest s' file' ≡ ok tt)
add_finished-Resumes_example =
    add_finished-Resumes digest upload first_piece absent upload-IsSavable refl upload-room
      upload-passes

-- Two uploads with the same fingerprint, whatever the digest is.
fingerprint_test :
    fingerprint_text (record upload_info { file_size = 1; chunk_size = 11111 })
    ≡ fingerprint_text (record upload_info { file_size = 111; chunk_size = 1 })
unfolding fingerprint_text total_chunks show
fingerprint_test = refl

abbrev other : UploadState
other = record {
  upload_info = record upload_info { file_size = 1000; src_file_path = text "/tmp/file" };
  parts = [];
}

abbrev other_file : StateJson
other_file = state_json false other

other-loaded : load (stored other_file) ≡ ok other
unfolding load from_file_json from_json to_json_array src_text
other-loaded = refl

other-differs : str_eq (fingerprint digest upload) (fingerprint digest other) ≡ false
unfolding fingerprint_text total_chunks show
other-differs = refl
