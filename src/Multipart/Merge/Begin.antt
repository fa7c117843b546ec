-- ===== src/Multipart/Merge/Begin.antt =====
-- s3/multipart/upload_parts_server_side_merge.py: the parts of a new merge, and which merge is begun or
-- resumed. The names of the parts are those that the remote lists.
use rclone_kit.Base.{
  ℕ, zero, suc, ◌+◌, ◌≤◌, ◌<◌, ◌≡◌, refl, sym, ap, inl, inr, Bool-cases, String, Bool, true, false,
  Option, none, some, List, [], ◌∷◌, length, member, leb, ◌&&◌, ◌==◌, Result, ok, err,
  assertion_error, key_error, merge_state_error, if◌then◌else◌, ◌>>=◌, arith,
}
use mathlib.Core.Path.{subst}
use mathlib.Core.Logic.{◌⊎◌}
use rclone_kit.Base.Removal.{Distinct}
use rclone_kit.Multipart.Chunker.Fetches.{range}
use rclone_kit.Multipart.MergeState.{Part, MergeState, MergeStateJson, from_json}
use rclone_kit.Multipart.Merge.Keys.{to_s3_key, dst_key_of}
use rclone_kit.Multipart.Merge.Remaining.{numbers}

-- The loop over `source_keys`
abbrev pub number_parts :
    (parts_path : String) (first last part_num : ℕ) → List String → Result (List Part)
number_parts parts_path first last part_num [] = ok []
number_parts parts_path first last part_num (name ∷ names) =
    let rest = number_parts parts_path first last (part_num + 1) names in
    let part : Part = record { part_number = part_num; s3_key = to_s3_key parts_path name } in
    if leb part_num last && leb first part_num
    then (rest >>= (λ parts. ok (part ∷ parts)))
    else err assertion_error

-- The parts of a new merge; `first_part` and `last_part` of the info may be absent.
unfoldable pub begin_parts : String → Option ℕ → Option ℕ → List String → Result (List Part)
begin_parts parts_path none last_part names = err assertion_error
begin_parts parts_path (some first) none names = err assertion_error
begin_parts parts_path (some first) (some last) names =
    number_parts parts_path first last first names

number_parts-numbers :
    (parts_path : String) (first last n : ℕ) (names : List String)
    → first ≤ n
    → n + length names ≤ last + 1
    → (ps : List Part) × (number_parts parts_path first last n names ≡ ok ps)
      × (numbers ps ≡ range n (length names))
number_parts-numbers parts_path first last n [] h k = ([], refl, refl)
number_parts-numbers parts_path first last n (name ∷ names) h k =
    let (ps, e, same) =
      number_parts-numbers parts_path first last (n + 1) names (omega arith) (omega arith) in
    let test : (leb n last && leb first n) ≡ true = ground arith in
    (
      record { part_number = n; s3_key = to_s3_key parts_path name } ∷ ps,
      rw (test, e) refl,
      ap (λ (ns : List ℕ). n ∷ ns) same,
    )

number_parts-raises :
    (parts_path : String) (first last n : ℕ) (names : List String)
    → first ≤ n
    → n ≤ last + 1
    → last + 1 < n + length names
    → number_parts parts_path first last n names ≡ err assertion_error
number_parts-raises parts_path first last n [] h j k = absurd (omega arith)
number_parts-raises parts_path first last n (name ∷ names) h j k = elim (Bool-cases (leb n last)) [
  | inl e ↦
      let test : (leb n last && leb first n) ≡ true = ground arith in
      rw
        (
          test,
          number_parts-raises parts_path first last (n + 1) names (omega arith) (ground arith)
              (omega arith),
        )
        refl
  | inr e ↦ rw e refl
]

below-range : (m n k : ℕ) → m < n → member m (range n k) ≡ false
below-range m n zero h = refl
below-range m n (suc k) h =
    let later = below-range m (n + 1) k (omega arith) in
    let differ : (m == n) ≡ false = ground arith in rw (differ, later) refl

range-Distinct : (n k : ℕ) → Distinct (range n k)
range-Distinct n zero = tt
range-Distinct n (suc k) = (below-range n (n + 1) k (omega arith), range-Distinct (n + 1) k)

-- The parts of a new merge are numbered by position: if there are no more names than numbers from the
-- first part to the last one, there are as many parts as names, numbered from the first part on, none
-- twice; with more names the assertion of the loop is raised. It assumes that the first part is at
-- most one after the last one.
pub begin_parts-numbers :
    (parts_path : String) (first last : ℕ) (names : List String)
    → first ≤ last + 1
    → ((first + length names ≤ last + 1)
        × (ps : List Part) × (begin_parts parts_path (some first) (some last) names ≡ ok ps)
        × (numbers ps ≡ range first (length names))
        × Distinct (numbers ps))
      ⊎ ((last + 1 < first + length names)
          × (begin_parts parts_path (some first) (some last) names ≡ err assertion_error))
unfolding begin_parts
begin_parts-numbers parts_path first last names h =
    elim (Bool-cases (leb (first + length names) (last + 1))) [
      | inl e ↦
          let k : first + length names ≤ last + 1 = ground arith in
          let (ps, f, same) =
            number_parts-numbers parts_path first last first names (omega arith) k in
          inl (k, ps, f, same, subst Distinct (sym same) (range-Distinct first (length names)))
      | inr e ↦
          let k : last + 1 < first + length names = ground arith in
          inr (k, number_parts-raises parts_path first last first names (omega arith) h k)
    ]

-- What `_begin_or_resume_merge` does with the file of the merge, if it can be read.
abbrev resume_or : Option (Result MergeState) → Result MergeState → Result MergeState
resume_or none fresh = fresh
resume_or (some (ok s)) fresh = ok s
resume_or (some (err key_error)) fresh = fresh
resume_or (some (err merge_state_error)) fresh = fresh
resume_or (some (err e)) fresh = err e

-- `_begin_new_merge`, once the upload is created
abbrev begin_new_merge : (upload_id merge_path bucket dst_key : String) → List Part → MergeState
begin_new_merge upload_id merge_path bucket dst_key parts = record {
  merge_path = merge_path;
  upload_id = upload_id;
  bucket = bucket;
  dst_key = dst_key;
  finished = [];
  all_parts = parts;
}

-- `_begin_or_resume_merge`, from `is_done` on: `saved` is what `json.loads` makes of the file at
-- `merge_path`, if it can be read, `upload_id` is what creating the upload returns, and the paths are
-- those that `os.path` and `split` make.
abbrev pub begin_or_resume_merge :
    (is_done : Bool)
    → (saved : Option MergeStateJson)
    → (upload_id merge_path bucket parts_path dst_dir dst_name : String)
    → (first_part last_part : Option ℕ) → (source_keys : List String) → Result MergeState
begin_or_resume_merge false saved upload_id merge_path bucket parts_path dst_dir dst_name first_part
      last_part source_keys =
    err assertion_error
begin_or_resume_merge true saved upload_id merge_path bucket parts_path dst_dir dst_name first_part
      last_part source_keys =
    resume_or (elim saved [ none ↦ none | some data_ ↦ some (from_json data_) ])
      (begin_parts parts_path first_part last_part source_keys >>= (λ parts.
        ok (begin_new_merge upload_id merge_path bucket (dst_key_of dst_dir dst_name) parts)))
