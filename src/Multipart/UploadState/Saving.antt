-- ===== src/Multipart/UploadState/Saving.antt =====
-- s3/multipart/upload_state.py: saving a state, and reading it back.
use rclone_kit.Base.{
  ℕ, suc, ◌+◌, ◌-◌, ◌≤◌, ◌<◌, ◌≡◌, refl, ap, ◌∙◌, String, false, List, [], ◌∷◌, ◌++◌, map, member,
  length, length-append, All, All-append, ok, err, value_error, str_eq, eq_iff, le→leb, ne→==,
  eq→==, ◌==◌, arith,
}
use rclone_kit.Multipart.Pieces.{
  FinishedPiece, StreamItem, piece, pieces_of, text, src_text, to_json_array, total_chunks, HasEtag,
  sort_pieces, reread, traverse-from_json, pieces_of-map, All-sort_pieces, length-sort_pieces,
  member-sort_pieces,
}
use rclone_kit.Multipart.MergeState.{part_numbers, part_numbers-reread}
use rclone_kit.Multipart.UploadState.{
  UploadState, StateJson, StateFile, stored, fingerprint_text, fingerprint, finished, remaining,
  is_done, state_json, to_json, from_file_json, load, check_fingerprint, save, add_finished,
  update_source_file,
}

-- The part numbers that a run which resumes from `s` skips.
abbrev pub done_numbers : UploadState → List ℕ
done_numbers s = part_numbers (pieces_of s.parts)

-- The state that `load` finds in the file.
abbrev pub reloaded : UploadState → UploadState
reloaded s = record {
  upload_info = record (s.upload_info) {
    src_file_path = text (src_text s.upload_info.src_file_path);
  };
  parts = map (λ p. piece (reread p)) (sort_pieces (pieces_of s.parts));
}

-- A state that can be saved: its pieces have etags, and there are no more of them than parts.
pub record IsSavable (s : UploadState) : Type 0 where
  pub etags : All HasEtag (pieces_of s.parts)
  pub fits : finished s ≤ total_chunks s.upload_info
  pub some_part : 0 < total_chunks s.upload_info

to_json-reloaded :
    (s : UploadState)
    → IsSavable s
    → (j : StateJson) × (to_json s ≡ ok j) × (from_file_json j ≡ ok (reloaded s))
unfolding to_json is_done remaining from_file_json to_json_array
to_json-reloaded s h =
    let fits = le→leb (finished s) (total_chunks s.upload_info) h.fits in
    let nonzero = ne→== (total_chunks s.upload_info) 0 (omega (arith, h.some_part)) in
    let read =
      traverse-from_json (sort_pieces (pieces_of s.parts)) (All-sort_pieces HasEtag _ h.etags) in
    let all_done = total_chunks s.upload_info - finished s == 0 in
    (state_json all_done s, rw (fits, nonzero) refl, rw read refl)

length-map : (ps : List FinishedPiece) → length (map reread ps) ≡ length ps
length-map [] = refl
length-map (p ∷ ps) = ap suc (length-map ps)

reloaded-count : (s : UploadState) → finished (reloaded s) ≡ finished s
reloaded-count s =
    ap length (pieces_of-map (sort_pieces (pieces_of s.parts)))
    ∙ length-map (sort_pieces (pieces_of s.parts))
    ∙ length-sort_pieces (pieces_of s.parts)

reloaded-member :
    (n : ℕ) (s : UploadState) → member n (done_numbers (reloaded s)) ≡ member n (done_numbers s)
reloaded-member n s =
    ap (λ ps. member n (part_numbers ps)) (pieces_of-map (sort_pieces (pieces_of s.parts)))
    ∙ ap (member n) (part_numbers-reread (sort_pieces (pieces_of s.parts)))
    ∙ member-sort_pieces n (pieces_of s.parts)

-- What a resumed run finds of `s` in `file`.
pub record Resumes (s : UploadState) (file : StateFile) : Type 0 where
  pub found : UploadState
  pub loaded : load file ≡ ok found
  pub same_info :
      found.upload_info
      ≡ record (s.upload_info) { src_file_path = text (src_text s.upload_info.src_file_path) }
  pub same_count : finished found ≡ finished s
  pub same_numbers : (n : ℕ) → member n (done_numbers found) ≡ member n (done_numbers s)

pieces_of-append :
    (items : List StreamItem) (p : FinishedPiece)
    → pieces_of (items ++ (piece p ∷ [])) ≡ pieces_of items ++ (p ∷ [])
pieces_of-append [] p = refl
pieces_of-append (piece q ∷ items) p = ap (◌∷◌ q) (pieces_of-append items p)
pieces_of-append (StreamItem.end_of_stream ∷ items) p = pieces_of-append items p

module _ (sha256 : List ℕ → String) where
  reloaded-fingerprint : (s : UploadState) → fingerprint sha256 s ≡ fingerprint sha256 (reloaded s)
  unfolding fingerprint_text total_chunks
  reloaded-fingerprint s = refl

  -- Saving a state that can be saved, to a file that the check lets pass.
  save-Resumes :
      (s : UploadState) (file : StateFile)
      → IsSavable s
      → check_fingerprint sha256 s file ≡ ok tt
      → (file' : StateFile) × (save sha256 s file ≡ (ok tt, file'))
        × Resumes s file'
        × (check_fingerprint sha256 s file' ≡ ok tt)
  unfolding save load
  save-Resumes s file h c =
      let (j, e, r) = to_json-reloaded s h in
      let same =
        (eq_iff (fingerprint sha256 s) (fingerprint sha256 (reloaded s))).1
          (reloaded-fingerprint s) in
      (
        stored j,
        rw (c, e) refl,
        record {
          found = reloaded s;
          loaded = r;
          same_info = refl;
          same_count = reloaded-count s;
          same_numbers = λ n. reloaded-member n s;
        },
        unfold check_fingerprint in rw (r, same) refl,
      )

  added-IsSavable :
      (s : UploadState) (p : FinishedPiece)
      → IsSavable s
      → HasEtag p
      → finished s < total_chunks s.upload_info
      → IsSavable (record s { parts = s.parts ++ (piece p ∷ []) })
  added-IsSavable s p h e lt = record {
    etags =
        rw (pieces_of-append s.parts p)
          (All-append HasEtag (pieces_of s.parts) (p ∷ []) h.etags (e, tt));
    fits =
        let grown = ap length (pieces_of-append s.parts p) in
        omega (arith, grown, length-append (pieces_of s.parts) (p ∷ []), lt);
    some_part = h.some_part;
  }

  -- Recording a finished part, with an etag, of an upload that is not complete and whose pieces have
  -- etags, succeeds if the file is not that of another upload: the count of finished parts goes up by
  -- one, the file then holds an upload that a resumed run finds with the same count and the same
  -- part numbers done, and with the same info but for the source path, which comes back as the text
  -- of that path; and the next save passes the check of the fingerprint again.
  pub add_finished-Resumes :
      (s : UploadState) (p : FinishedPiece) (file : StateFile)
      → IsSavable s
      → HasEtag p
      → finished s < total_chunks s.upload_info
      → check_fingerprint sha256 s file ≡ ok tt
      → (s' : UploadState) × (file' : StateFile) × (add_finished sha256 (piece p) s file
          ≡ (ok tt, s', file'))
        × (finished s' ≡ finished s + 1)
        × IsSavable s'
        × Resumes s' file'
        × (check_fingerprint sha256 s' file' ≡ ok tt)
  unfolding add_finished check_fingerprint
  add_finished-Resumes s p file h e lt c =
      let s' : UploadState = record s { parts = s.parts ++ (piece p ∷ []) } in
      let savable = added-IsSavable s p h e lt in
      let (file', saved, resumes, again) = save-Resumes s' file savable c in
      let grown = ap length (pieces_of-append s.parts p) in
      (
        s',
        file',
        rw saved refl,
        omega (arith, grown, length-append (pieces_of s.parts) (p ∷ [])),
        savable,
        resumes,
        again,
      )

  -- The file of another upload is never overwritten: if what `load` finds there has another
  -- fingerprint, then saving, recording a part and changing the source file to one of the same size
  -- all raise `ValueError` and leave the file as it is.
  pub save-other_upload :
      (s last : UploadState) (part : StreamItem) (src : String) (j : StateJson)
      → load (stored j) ≡ ok last
      → str_eq (fingerprint sha256 s) (fingerprint sha256 last) ≡ false
      → (save sha256 s (stored j) ≡ (err value_error, stored j))
        × ((add_finished sha256 part s (stored j)).0 ≡ err value_error)
        × ((add_finished sha256 part s (stored j)).2 ≡ stored j)
        × ((update_source_file sha256 src s.upload_info.file_size s (stored j)).0 ≡ err value_error)
        × ((update_source_file sha256 src s.upload_info.file_size s (stored j)).2 ≡ stored j)
  unfolding save load check_fingerprint add_finished update_source_file fingerprint_text
      total_chunks
  save-other_upload s last part src j l e =
      let same = eq→== s.upload_info.file_size s.upload_info.file_size refl in
      (rw (l, e) refl, rw (l, e) refl, rw (l, e) refl, rw (same, l, e) refl, rw (same, l, e) refl)
