-- ===== src/Multipart/Merge.antt =====
-- s3/multipart/upload_parts_server_side_merge.py: the copying of the parts and the completion of the
-- upload. `copy` is `s3_client.upload_part_copy`, which answers an ETag, `complete` is
-- `s3_client.complete_multipart_upload`, and `sleep` is `time.sleep`, on a world that they change.
pub mod Begin
pub mod Complete
pub mod Keys
pub mod Remaining
pub mod Writer
use rclone_kit.Base.{
  ℕ, zero, suc, ◌+◌, ◌^◌, String, Bool, Option, none, some, List, [], ◌∷◌, map, length, Error,
  Result, ok, err, assertion_error, s3_merge_error, traverse, ◌==◌, if◌then◌else◌,
}
use rclone_kit.Multipart.Pieces.{FinishedPiece, piece, PieceJson, to_json_array, sort_pieces}
use rclone_kit.Multipart.MergeState.{Part, MergeState, on_finished, remaining_parts}

abbrev default_part_copy_retries : ℕ
default_part_copy_retries = 9

-- `raise last_error`, after its assertion
abbrev pub raise_last : Option Error → Result FinishedPiece
raise_last none = err assertion_error
raise_last (some e) = err e

-- The result of the task of one part; a task that never ran has none.
abbrev pub result_at : ℕ → List (ℕ × Result FinishedPiece) → Result FinishedPiece
result_at n [] = err assertion_error
result_at n ((m, r) ∷ rest) = let later = result_at n rest in if m == n then r else later

-- `on_finished(out)`, which a task reaches only if its copy returned
abbrev pub recorded : Result FinishedPiece → MergeState → MergeState
recorded (ok finished_piece) s = on_finished finished_piece s
recorded (err e) s = s

abbrev pub completed : Result (Unit {0}) → Result (Unit {0})
completed (ok _) = ok tt
completed (err e) = err s3_merge_error

module _ {W : Type 0} (copy : MergeState → Part → W → Result String × W) (sleep : ℕ → W → W) where
  -- The loop of `_upload_part_copy_task`: so many attempts are left, so many were made. The last one
  -- that fails leaves the loop without a pause.
  abbrev pub copy_loop :
      (left retry : ℕ) → Option Error → MergeState → Part → W → Result FinishedPiece × W
  copy_loop zero retry last_error s part w = (raise_last last_error, w)
  copy_loop (suc left) retry last_error s part w =
      let (answer, w') = copy s part w in
      elim answer [
        | ok etag ↦ (ok (record { part_number = part.part_number; etag = etag }), w')
        | err e ↦ elim left [
          | zero ↦ (raise_last (some e), w')
          | suc _ ↦ copy_loop left (retry + 1) (some e) s part (sleep (2 ^ retry) w')
        ]
      ]

  abbrev pub upload_part_copy_task : MergeState → Part → W → Result FinishedPiece × W
  upload_part_copy_task = copy_loop (default_part_copy_retries + 1) 0 none

  -- The tasks, in the order in which they finish.
  abbrev pub run_tasks :
      List Part → MergeState → W → List (ℕ × Result FinishedPiece) × MergeState × W
  run_tasks [] s w = ([], s, w)
  run_tasks (part ∷ parts) s w =
      let (r, w1) = upload_part_copy_task s part w in
      let (rs, s', w') = run_tasks parts (recorded r s) w1 in ((part.part_number, r) ∷ rs, s', w')

module _ {W : Type 0} (complete : MergeState → List PieceJson → W → Result (Unit {0}) × W) where
  -- `_complete_multipart_upload_from_parts`
  abbrev pub complete_from_parts : MergeState → W → Result (Unit {0}) × W
  complete_from_parts s w =
      let (answer, w') = complete s (to_json_array (map piece (sort_pieces s.finished))) w in
      (completed answer, w')

  -- What `_do_upload_task` does once the results of its futures are in.
  abbrev pub conclude_upload : Result (List FinishedPiece) → MergeState → W → Result (Unit {0}) × W
  conclude_upload (err e) s w = (err e, w)
  conclude_upload (ok _) s w =
      let done = complete_from_parts s w in
      if length s.finished == length s.all_parts then done else (err s3_merge_error, w)

-- `_do_upload_task`, with the order in which the tasks of the remaining parts finish
unfoldable pub do_upload_task :
    {W : Type 0}
    → (copy : MergeState → Part → W → Result String × W) → (sleep : ℕ → W → W)
    → (complete : MergeState → List PieceJson → W → Result (Unit {0}) × W) → List Part
    → MergeState
    → W
    → Result (Unit {0}) × W
do_upload_task copy sleep complete order s w =
    let (results, s', w') = run_tasks copy sleep order s w in
    conclude_upload complete (traverse (λ p. result_at p.part_number results) (remaining_parts s))
      s' w'
