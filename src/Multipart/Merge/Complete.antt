-- ===== src/Multipart/Merge/Complete.antt =====
-- s3/multipart/upload_parts_server_side_merge.py: when every part is copied, the upload is completed
-- with all of them.
use mathlib.Core.Path.{subst}
use rclone_kit.Base.{
  ℕ, ◌≡◌, refl, sym, ap, ◌∙◌, inl, inr, String, true, false, not, ◌||◌, ◌&&◌, List, [], ◌∷◌, member,
  length, Result, ok, ◌==◌, eq→==, Bool-cases, arith,
}
use rclone_kit.Base.Removal.{Distinct, eq_self, member-snoc}
use rclone_kit.Multipart.Pieces.{FinishedPiece, PieceJson}
use rclone_kit.Multipart.MergeState.{Part, MergeState, on_finished, remaining_parts, part_numbers}
use rclone_kit.Multipart.Merge.{
  result_at, recorded, upload_part_copy_task, run_tasks, complete_from_parts, do_upload_task,
}
use rclone_kit.Multipart.Merge.Remaining.{
  numbers, part_numbers-snoc, or_assoc, or_true, member-remaining, finished-Distinct,
  finished-apart, other, later, same_members_length, remaining_complete, length-numbers,
  length-part_numbers, traverse-results, not_done,
}

-- The tasks have run, and each of them returned.
record Ran (order : List Part) (s : MergeState) (out : List (ℕ × Result FinishedPiece) × MergeState)
    : Type 0 where
  numbered :
      (n : ℕ)
      → member n (part_numbers out.1.finished)
        ≡ (member n (part_numbers s.finished) || member n (numbers order))
  distinct : Distinct (part_numbers out.1.finished)
  same_parts : out.1.all_parts ≡ s.all_parts
  returned :
      (n : ℕ) → member n (numbers order) ≡ true → (p : FinishedPiece) × (result_at n out.0 ≡ ok p)

nil-Ran : (s : MergeState) → Distinct (part_numbers s.finished) → Ran [] s ([], s)
nil-Ran s d = record {
  numbered = λ n. ground arith;
  distinct = d;
  same_parts = refl;
  returned = λ n h. absurd cc;
}

cons-Ran :
    (part : Part) (parts : List Part) (p : FinishedPiece) (s : MergeState)
    (out : List (ℕ × Result FinishedPiece) × MergeState)
    → p.part_number ≡ part.part_number
    → Ran parts (on_finished p s) out
    → Ran (part ∷ parts) s ((part.part_number, ok p) ∷ out.0, out.1)
unfolding on_finished
cons-Ran part parts p s out same r = record {
  numbered = λ n.
      r.numbered n
      ∙ ap (λ b. b || member n (numbers parts))
          (ap (member n) (part_numbers-snoc s.finished p)
            ∙ member-snoc n p.part_number (part_numbers s.finished)
            ∙ ap (λ m. member n (part_numbers s.finished) || (n == m)) same)
      ∙ or_assoc (member n (part_numbers s.finished)) (n == part.part_number)
          (member n (numbers parts));
  distinct = r.distinct;
  same_parts = r.same_parts;
  returned = λ n h. elim (Bool-cases (part.part_number == n)) [
    | inl k ↦ rw k (p, refl)
    | inr k ↦ rw k (r.returned n (later part.part_number n (member n (numbers parts)) k h))
  ];
}

module _ {W : Type 0} (copy : MergeState → Part → W → Result String × W) (sleep : ℕ → W → W)
    (copies : (s : MergeState) (p : Part) (w : W)
      → (etag : String) × ((upload_part_copy_task copy sleep s p w).0
          ≡ ok (record { part_number = p.part_number; etag = etag }))) where
  tasks-Ran :
      (order : List Part) (s : MergeState) (w : W)
      → Distinct (part_numbers s.finished)
      → Distinct (numbers order)
      → ((n : ℕ) → member n (numbers order) ≡ true → member n (part_numbers s.finished) ≡ false)
      → Ran order s ((run_tasks copy sleep order s w).0, (run_tasks copy sleep order s w).1)
  tasks-Ran [] s w d o apart = nil-Ran s d
  tasks-Ran (part ∷ parts) s w d o apart =
      let (etag, e) = copies s part w in
      let p : FinishedPiece = record { part_number = part.part_number; etag = etag } in
      let w1 = (upload_part_copy_task copy sleep s part w).1 in
      subst
        (λ (r : Result FinishedPiece).
          let out = run_tasks copy sleep parts (recorded r s) w1 in
          Ran (part ∷ parts) s ((part.part_number, r) ∷ out.0, out.1))
        (sym e)
        (let out = run_tasks copy sleep parts (on_finished p s) w1 in
          let new : member p.part_number (part_numbers s.finished) ≡ false =
            apart p.part_number (rw (eq_self p.part_number) refl) in
          cons-Ran part parts p s (out.0, out.1) refl
            (tasks-Ran parts (on_finished p s) w1 (finished-Distinct p s d new) o.1 (λ n h.
              finished-apart n p s (apart n (rw h (or_true (n == part.part_number))))
                (other n part.part_number (numbers parts) o.0 h))))

  -- The upload is completed once, with one piece for every part.
  module _ (complete : MergeState → List PieceJson → W → Result (Unit {0}) × W) where
    -- If every copy of a part returns in the end, an upload task completes the upload: whatever the order in
    -- which the tasks of the remaining parts finish, what it does last is to complete the upload from a
    -- state with the same parts, in which the finished pieces have the numbers of exactly the parts,
    -- each once. It assumes that the numbers of the parts are distinct, and those of the pieces
    -- finished before too, which are numbers of parts.
    pub do_upload_task-completes :
        (order : List Part) (s : MergeState) (w : W)
        → Distinct (part_numbers s.finished)
        → Distinct (numbers s.all_parts)
        → ((n : ℕ)
            → member n (part_numbers s.finished) ≡ true
            → member n (numbers s.all_parts) ≡ true)
        → Distinct (numbers order)
        → ((n : ℕ) → member n (numbers order) ≡ member n (numbers (remaining_parts s)))
        → (done : MergeState) × (w' : W) × (do_upload_task copy sleep complete order s w
            ≡ complete_from_parts complete done w')
          × (done.all_parts ≡ s.all_parts)
          × Distinct (part_numbers done.finished)
          × ((n : ℕ) → member n (part_numbers done.finished) ≡ member n (numbers s.all_parts))
    unfolding do_upload_task remaining_parts
    do_upload_task-completes order s w d a known o same =
        let out = run_tasks copy sleep order s w in
        let left : (n : ℕ)
            → member n (numbers order)
              ≡ (member n (numbers s.all_parts) && not (member n (part_numbers s.finished))) =
          λ n. same n ∙ member-remaining n (part_numbers s.finished) s.all_parts in
        let ran = tasks-Ran order s w d o (λ n h. not_done _ _ (sym (left n) ∙ h)) in
        let whole : (n : ℕ)
            → member n (part_numbers out.1.finished) ≡ member n (numbers s.all_parts) =
          λ n.
            ran.numbered n
            ∙ ap (λ b. member n (part_numbers s.finished) || b) (left n)
            ∙ remaining_complete _ _ (known n) in
        let counted : (length out.1.finished == length out.1.all_parts) ≡ true = eq→== _ _ (
          sym (length-part_numbers out.1.finished)
          ∙ same_members_length _ _ ran.distinct a whole
          ∙ length-numbers s.all_parts
          ∙ ap length (sym ran.same_parts)) in
        let (pieces, found) =
          traverse-results out.0 (remaining_parts s) (λ n h. ran.returned n (same n ∙ h)) in
        (out.1, out.2, rw (found, counted) refl, ran.same_parts, ran.distinct, whole)
