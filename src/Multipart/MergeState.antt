-- ===== src/Multipart/MergeState.antt =====
-- s3/multipart/merge_state.py: the server-side merge of uploaded parts, as it is saved and resumed.
use rclone_kit.Base.{
  ℕ, ◌==◌, ◌≡◌, refl, ap, ◌∙◌, sym, String, Bool, not, ◌&&◌, Option, none, some, List, [], ◌∷◌,
  ◌++◌, map, member, keep, Result, ok, err, traverse, ◌>>=◌, Bool-cases, inl, inr,
  merge_state_error, arith,
}
use rclone_kit.Multipart.Pieces.{
  FinishedPiece, piece, PieceEntry, to_json_array, from_json_array, entries_of, reread, sort_pieces,
}

pub record Part : Type 0 where
  pub part_number : ℕ
  pub s3_key : String

-- `PartJson`, as it may be read: a key that is absent or null is `none`
pub record PartEntry : Type 0 where
  pub part_number : Option ℕ
  pub s3_key : Option String

-- `Part.to_json`, as the entry that a reader of it finds
abbrev pub part_to_json : Part → PartEntry
part_to_json p = record { part_number = some p.part_number; s3_key = some p.s3_key }

abbrev part_of : Option ℕ → Option String → Result Part
part_of (some n) (some key) = ok (record { part_number = n; s3_key = key })
part_of (some n) none = err merge_state_error
part_of none key = err merge_state_error

-- `Part.from_json`
abbrev pub part_from_json : PartEntry → Result Part
part_from_json entry = part_of entry.part_number entry.s3_key

-- `Part.from_json_array`
abbrev pub parts_from_json : List PartEntry → Result (List Part)
parts_from_json = traverse part_from_json

pub record MergeState : Type 0 where
  pub merge_path : String
  pub upload_id : String
  pub bucket : String
  pub dst_key : String
  pub finished : List FinishedPiece
  pub all_parts : List Part

-- `MergeStateJson`, with the entries of the lists as a reader finds them
pub record MergeStateJson : Type 0 where
  pub merge_path : String
  pub bucket : String
  pub dst_key : String
  pub upload_id : String
  pub finished : List (Option PieceEntry)
  pub all_ : List PartEntry

unfoldable pub on_finished : FinishedPiece → MergeState → MergeState
on_finished finished_piece s = record s { finished = s.finished ++ (finished_piece ∷ []) }

abbrev pub part_numbers : List FinishedPiece → List ℕ
part_numbers = map (λ p. p.part_number)

unfoldable pub remaining_parts : MergeState → List Part
remaining_parts s = keep (λ p. not (member p.part_number (part_numbers s.finished))) s.all_parts

-- `MergeState.to_json`
unfoldable pub to_json : MergeState → MergeStateJson
to_json s = record {
  merge_path = s.merge_path;
  bucket = s.bucket;
  dst_key = s.dst_key;
  upload_id = s.upload_id;
  finished = entries_of (to_json_array (map piece s.finished));
  all_ = map part_to_json s.all_parts;
}

-- `MergeState.from_json`
unfoldable pub from_json : MergeStateJson → Result MergeState
from_json data_ = do
  finished ← from_json_array data_.finished
  all_parts ← parts_from_json data_.all_
  ok (record {
    merge_path = data_.merge_path;
    upload_id = data_.upload_id;
    bucket = data_.bucket;
    dst_key = data_.dst_key;
    finished = finished;
    all_parts = all_parts;
  })

-- The state that a run which resumes from the file works with.
abbrev pub reloaded : MergeState → MergeState
reloaded s = record s { finished = map reread (sort_pieces s.finished) }

pub part_numbers-reread : (ps : List FinishedPiece) → part_numbers (map reread ps) ≡ part_numbers ps
part_numbers-reread [] = refl
part_numbers-reread (p ∷ ps) = ap (◌∷◌ p.part_number) (part_numbers-reread ps)

keep-cong {ℓ} :
    {A : Type ℓ} (f g : A → Bool) → ((x : A) → f x ≡ g x) → (xs : List A) → keep f xs ≡ keep g xs
keep-cong f g h [] = refl
keep-cong f g h (x ∷ xs) = rw (h x, keep-cong f g h xs)

-- Keeping in two passes is keeping what passes both tests.
keep-keep {ℓ} :
    {A : Type ℓ} (f g : A → Bool) (xs : List A) → keep g (keep f xs) ≡ keep (λ x. f x && g x) xs
keep-keep f g [] = refl
keep-keep f g (x ∷ xs) = elim (Bool-cases (f x)) [
  | inl e ↦ rw (e, keep-keep f g xs)
  | inr e ↦ rw (e, keep-keep f g xs)
]

-- `member` in a list with one more element at the end.
not-member-append :
    (n : ℕ) (ps : List FinishedPiece) (p : FinishedPiece)
    → not (member n (part_numbers (ps ++ (p ∷ []))))
      ≡ (not (member n (part_numbers ps)) && not (n == p.part_number))
not-member-append n [] p = ground arith
not-member-append n (q ∷ qs) p = ground (arith, not-member-append n qs p)

-- Recording a finished piece takes exactly the parts with its number from what remains, in any
-- state and for any number, and changes neither the parts of the merge nor the upload it belongs to.
pub remaining_parts-on_finished :
    (p : FinishedPiece) (s : MergeState)
    → (remaining_parts (on_finished p s)
        ≡ keep (λ q. not (q.part_number == p.part_number)) (remaining_parts s))
      × ((on_finished p s).all_parts ≡ s.all_parts)
      × ((on_finished p s).upload_id ≡ s.upload_id)
unfolding remaining_parts on_finished
remaining_parts-on_finished p s = (
  keep-cong _ _ (λ q. not-member-append q.part_number s.finished p) s.all_parts
      ∙ sym (keep-keep _ _ s.all_parts),
  refl,
  refl,
)
