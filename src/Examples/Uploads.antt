-- ===== src/Examples/Uploads.antt =====
-- Uploads and merges at concrete inputs.
use rclone_kit.Base.{
  ℕ, ◌≤◌, ◌≡◌, refl, none, List, [], ◌∷◌, map, All, ok, assertion_error, false, arith,
}
use rclone_kit.Multipart.Pieces.{
  FinishedPiece, StreamItem, piece, end_of_stream, pieces_of, UploadInfo, path, total_chunks,
}
use rclone_kit.Multipart.Chunker.{fetch_of, file_chunker, next_part_number, raised}
use rclone_kit.Multipart.Chunker.Fetches.{missing, file_chunker-fetches}
use rclone_kit.Multipart.MergeState.{MergeState, on_finished, remaining_parts, Part, part_numbers}
use rclone_kit.Base.{zero, suc, String, Result, err, s3_merge_error, member}
use rclone_kit.Base.Removal.{Distinct}
use rclone_kit.Multipart.Pieces.{PieceJson}
use rclone_kit.Multipart.Merge.{upload_part_copy_task, do_upload_task, complete_from_parts}
use rclone_kit.Multipart.MergeState.{MergeStateJson}
use rclone_kit.Multipart.Merge.Writer.{Turn, run, get_next, run-unwritten}
use rclone_kit.Base.{some, true}
use rclone_kit.Multipart.Merge.Begin.{begin_parts, begin_or_resume_merge}
use rclone_kit.Multipart.Merge.Remaining.{numbers}
use rclone_kit.Multipart.Merge.Complete.{do_upload_task-completes}

abbrev info : UploadInfo
info = record {
  bucket_name = "bucket";
  object_name = "file";
  src_file_path = path "/tmp/file";
  upload_id = "u1";
  retries = 3;
  chunk_size = 30;
  file_size = 100;
}

abbrev finished_piece : ℕ → FinishedPiece
finished_piece n = record { part_number = n; etag = "\"abc\"" }

abbrev parts : List StreamItem
parts = piece (finished_piece 2) ∷ end_of_stream ∷ []

-- A read completes while the next part is requested.
abbrev fetcher : ℕ → List ℕ
fetcher n = n ∷ []

fetcher_lem : (n : ℕ) → All (λ m. m ≤ n) (fetcher n)
fetcher_lem n = (omega arith, tt)

parts_done : All (λ n. n ≤ total_chunks info) (map (λ p. p.part_number) (pieces_of parts))
unfolding total_chunks
parts_done = (omega arith, tt)

file_chunker-fetches_example : file_chunker info fetcher none parts false ≡ record {
  fetches = map (fetch_of info) (missing (2 ∷ []) 1 (total_chunks info));
  ending = raised assertion_error;
}
file_chunker-fetches_example =
    file_chunker-fetches info parts fetcher (omega arith) parts_done fetcher_lem

file_chunker_test :
    map (λ f. f.part_number) (file_chunker info fetcher none parts false).fetches ≡ 1 ∷ 3 ∷ 4 ∷ []
unfolding file_chunker total_chunks next_part_number
file_chunker_test = refl

file_chunker_sizes :
    map (λ f. f.fetch_size) (file_chunker info fetcher none parts false).fetches ≡ 30 ∷ 30 ∷ 10 ∷ []
unfolding file_chunker total_chunks next_part_number
file_chunker_sizes = refl

abbrev merge : MergeState
merge = record {
  merge_path = "dst/merge.json";
  upload_id = "u1";
  bucket = "bucket";
  dst_key = "file";
  finished = finished_piece 2 ∷ [];
  all_parts =
      record { part_number = 1; s3_key = "a" }
      ∷ record { part_number = 2; s3_key = "b" }
      ∷ record { part_number = 3; s3_key = "c" }
      ∷ [];
}

-- A world that counts the calls; the first copy fails.
abbrev copy_later : MergeState → Part → ℕ → Result String × ℕ
copy_later s p zero = (err s3_merge_error, 1)
copy_later s p (suc w) = (ok "e", suc (suc w))

copies_later :
    (s : MergeState) (p : Part) (w : ℕ)
    → (etag : String) × ((upload_part_copy_task copy_later (λ n w. w) s p w).0
        ≡ ok (record { part_number = p.part_number; etag = etag }))
copies_later s p zero = ("e", refl)
copies_later s p (suc w) = ("e", refl)

abbrev complete_all : MergeState → List PieceJson → ℕ → Result (Unit {0}) × ℕ
complete_all s pieces w = (ok tt, w)

-- Part 3 before part 1
abbrev out_of_order : List Part
out_of_order =
    record { part_number = 3; s3_key = "c" } ∷ record { part_number = 1; s3_key = "a" } ∷ []

left_over : (n : ℕ) → member n (numbers out_of_order) ≡ member n (numbers (remaining_parts merge))
unfolding remaining_parts
left_over n = ground arith

do_upload_task-completes_example :
    (done : MergeState) × (w' : ℕ) × (do_upload_task copy_later
        (λ n w. w)
        complete_all
        out_of_order
        merge
        0
      ≡ complete_from_parts complete_all done w')
    × (done.all_parts ≡ merge.all_parts)
    × Distinct (part_numbers done.finished)
    × ((n : ℕ) → member n (part_numbers done.finished) ≡ member n (numbers merge.all_parts))
do_upload_task-completes_example =
    do_upload_task-completes copy_later (λ n w. w) copies_later complete_all out_of_order merge 0
      (refl, tt) (refl, (refl, (refl, tt))) (λ n h. ground arith) (refl, (refl, tt)) left_over

-- One write of a state is counted; the thread finds a second piece together with the end.
abbrev count_write : MergeStateJson → ℕ → Result (Unit {0}) × ℕ
count_write data_ w = (ok tt, suc w)

abbrev first_turn : Turn
first_turn = record { first = piece (finished_piece 1); queue = []; merge_state = merge }

abbrev last_turn : Turn
last_turn = record {
  first = piece (finished_piece 2);
  queue = end_of_stream ∷ [];
  merge_state = on_finished (finished_piece 2) merge;
}

one_written : run count_write (first_turn ∷ []) 0 ≡ 1
unfolding run get_next
one_written = refl

run-unwritten_example :
    run count_write (first_turn ∷ last_turn ∷ []) 0 ≡ run count_write (first_turn ∷ []) 0
run-unwritten_example = run-unwritten count_write (first_turn ∷ []) last_turn 0 refl

-- Two parts, of which the first has number 1
abbrev listed : List String
listed = "part.00001_0-29" ∷ "part.00002_30-59" ∷ []

-- A new merge of them, in which nothing is finished
begun :
    begin_or_resume_merge true none "u1" "dst/merge.json" "bucket" "d/f-parts" "d" "f"
      (some 1)
      (some 2)
      listed
    ≡ ok (record {
      merge_path = "dst/merge.json";
      upload_id = "u1";
      bucket = "bucket";
      dst_key = "d/f";
      finished = [];
      all_parts =
          record { part_number = 1; s3_key = "d/f-parts/part.00001_0-29" }
          ∷ record { part_number = 2; s3_key = "d/f-parts/part.00002_30-59" }
          ∷ [];
    })
unfolding begin_parts
begun = refl
