-- ===== src/Multipart/Pieces.antt =====
-- s3/multipart/finished_piece.py and upload_info.py.
use Prim.Native.Char
use rclone_kit.Base.{
  ℕ, suc, ◌+◌, ◌/◌, ◌%◌, ◌≡◌, String, false, ◌||◌, Option, none, some, List, [], ◌∷◌, map, member,
  length, All, refl, ap, ◌∙◌, Bool-cases, inl, inr, arith, Result, ok, err, assertion_error,
  traverse, ◌>>=◌, leb, ◌==◌, str_eq, if◌then◌else◌,
}

-- `FinishedPiece`; part numbers are those of `next_part_number` and of S3, which are not negative
pub record FinishedPiece : Type 0 where
  pub part_number : ℕ
  pub etag : String

-- `FinishedPiece | EndOfStream`
pub data StreamItem : Type 0 where
  piece : FinishedPiece → StreamItem
  end_of_stream : StreamItem

-- `[p for p in parts if not isinstance(p, EndOfStream)]`
abbrev pub pieces_of : List StreamItem → List FinishedPiece
pieces_of [] = []
pieces_of (piece p ∷ items) = p ∷ pieces_of items
pieces_of (end_of_stream ∷ items) = pieces_of items

-- `list.sort(key=lambda x: x.part_number)`, which is stable
abbrev pub insert_piece : FinishedPiece → List FinishedPiece → List FinishedPiece
insert_piece p [] = p ∷ []
insert_piece p (q ∷ qs) =
    if leb p.part_number q.part_number then p ∷ q ∷ qs else q ∷ insert_piece p qs

abbrev pub sort_pieces : List FinishedPiece → List FinishedPiece
sort_pieces [] = []
sort_pieces (p ∷ ps) = insert_piece p (sort_pieces ps)

-- What `FinishedPiece.to_json` writes: an object with the keys `PartNumber` and `ETag`.
pub record PieceJson : Type 0 where
  pub part_number : ℕ
  pub etag : String

abbrev pub to_json : FinishedPiece → PieceJson
to_json p = record { part_number = p.part_number; etag = p.etag }

-- `FinishedPiece.to_json_array`
unfoldable pub to_json_array : List StreamItem → List PieceJson
to_json_array parts = map to_json (sort_pieces (pieces_of parts))

-- An entry of a saved list, which may have been written with other keys, or be `null`; a key that
-- is absent or null is `none`. The keys are `PartNumber`, `part_number`, `ETag` and `etag`.
pub record PieceEntry : Type 0 where
  pub s3_part_number : Option ℕ
  pub part_number : Option ℕ
  pub s3_etag : Option String
  pub etag : Option String

-- `etag.replace('"', "")`
abbrev pub unquoted : String → String
unquoted String.[] = String.[]
unquoted (String.◌∷◌ c s) = if Char.code c == 34 then unquoted s else String.◌∷◌ c (unquoted s)

-- `a or b` for texts
abbrev text_or : Option String → Option String → Option String
text_or none b = b
text_or (some a) b = if str_eq a "" then b else some a

abbrev first_of_two : Option ℕ → Option ℕ → Option ℕ
first_of_two none b = b
first_of_two (some a) b = some a

abbrev built : Option ℕ → Option String → Result StreamItem
built number none = err assertion_error
built none (some etag) = err assertion_error
built (some n) (some etag) = ok (piece (record { part_number = n; etag = unquoted etag }))

-- `FinishedPiece.from_json`
unfoldable pub from_json : Option PieceEntry → Result StreamItem
from_json none = ok end_of_stream
from_json (some d) = built (first_of_two d.s3_part_number d.part_number) (text_or d.s3_etag d.etag)

-- How an object that `to_json` wrote reads.
abbrev pub entry_of : PieceJson → Option PieceEntry
entry_of j = some (record {
  s3_part_number = some j.part_number;
  part_number = none;
  s3_etag = some j.etag;
  etag = none;
})

-- `FinishedPiece.from_json_array`
abbrev pub from_json_array : List (Option PieceEntry) → Result (List FinishedPiece)
from_json_array data_ = do items ← traverse from_json data_; ok (pieces_of items)

-- What `src_file_path` holds: a `Path`, given by its text, or a text.
pub data SourceFile : Type 0 where
  path text : String → SourceFile

-- `str(value)` of a path, and a text as it is
unfoldable pub src_text : SourceFile → String
src_text (path p) = p
src_text (text t) = t

pub record UploadInfo : Type 0 where
  pub bucket_name : String
  pub object_name : String
  pub src_file_path : SourceFile
  pub upload_id : String
  pub retries : ℕ
  pub chunk_size : ℕ
  pub file_size : ℕ

-- What `UploadInfo.to_json` writes: every field but the client, a path as its text.
pub record UploadInfoJson : Type 0 where
  pub bucket_name : String
  pub object_name : String
  pub src_file_path : String
  pub upload_id : String
  pub retries : ℕ
  pub chunk_size : ℕ
  pub file_size : ℕ

-- `UploadInfo.to_json`
abbrev pub info_to_json : UploadInfo → UploadInfoJson
info_to_json info = record {
  bucket_name = info.bucket_name;
  object_name = info.object_name;
  src_file_path = src_text info.src_file_path;
  upload_id = info.upload_id;
  retries = info.retries;
  chunk_size = info.chunk_size;
  file_size = info.file_size;
}

-- `UploadInfo.from_json`, which passes the values on as they were read
abbrev pub info_from_json : UploadInfoJson → UploadInfo
info_from_json j = record {
  bucket_name = j.bucket_name;
  object_name = j.object_name;
  src_file_path = text j.src_file_path;
  upload_id = j.upload_id;
  retries = j.retries;
  chunk_size = j.chunk_size;
  file_size = j.file_size;
}

-- `UploadInfo.total_chunks`, for a chunk size that is not 0 (Python raises there)
unfoldable pub total_chunks : UploadInfo → ℕ
total_chunks info =
    let out = info.file_size / info.chunk_size in
    if info.file_size % info.chunk_size == 0 then out else out + 1

module _ (n : ℕ) where
  abbrev numbers : List FinishedPiece → List ℕ
  numbers = map (λ p. p.part_number)

  member-insert_piece :
      (p : FinishedPiece) (qs : List FinishedPiece)
      → member n (numbers (insert_piece p qs)) ≡ (n == p.part_number || member n (numbers qs))
  member-insert_piece p [] = refl
  member-insert_piece p (q ∷ qs) = ground (arith, member-insert_piece p qs)

  -- Sorting keeps which part numbers there are.
  pub member-sort_pieces :
      (ps : List FinishedPiece)
      → member n (map (λ p. p.part_number) (sort_pieces ps))
        ≡ member n (map (λ p. p.part_number) ps)
  member-sort_pieces [] = refl
  member-sort_pieces (p ∷ ps) =
      member-insert_piece p (sort_pieces ps)
      ∙ ap (λ b. n == p.part_number || b) (member-sort_pieces ps)

length-insert_piece :
    (p : FinishedPiece) (qs : List FinishedPiece) → length (insert_piece p qs) ≡ suc (length qs)
length-insert_piece p [] = refl
length-insert_piece p (q ∷ qs) = ground (arith, length-insert_piece p qs)

pub length-sort_pieces : (ps : List FinishedPiece) → length (sort_pieces ps) ≡ length ps
length-sort_pieces [] = refl
length-sort_pieces (p ∷ ps) =
    omega (arith, length-insert_piece p (sort_pieces ps), length-sort_pieces ps)

abbrev pub HasEtag : FinishedPiece → Type 0
HasEtag p = str_eq p.etag "" ≡ false

All-insert_piece :
    (P : FinishedPiece → Type 0) (p : FinishedPiece) (qs : List FinishedPiece)
    → P p
    → All P qs
    → All P (insert_piece p qs)
All-insert_piece P p [] h k = (h, tt)
All-insert_piece P p (q ∷ qs) h k = elim (Bool-cases (leb p.part_number q.part_number)) [
  | inl e ↦ rw e (h, k)
  | inr e ↦ rw e (k.0, All-insert_piece P p qs h k.1)
]

pub All-sort_pieces :
    (P : FinishedPiece → Type 0) (ps : List FinishedPiece) → All P ps → All P (sort_pieces ps)
All-sort_pieces P [] h = tt
All-sort_pieces P (p ∷ ps) h = All-insert_piece P p (sort_pieces ps) h.0 (All-sort_pieces P ps h.1)

-- A piece as it comes back from a saved file.
abbrev pub reread : FinishedPiece → FinishedPiece
reread p = record p { etag = unquoted p.etag }

abbrev pub entries_of : List PieceJson → List (Option PieceEntry)
entries_of = map entry_of

-- Pieces with an etag that were written are read back one by one, with the etags unquoted.
pub traverse-from_json :
    (ps : List FinishedPiece)
    → All HasEtag ps
    → traverse from_json (entries_of (map to_json ps)) ≡ ok (map (λ p. piece (reread p)) ps)
unfolding from_json
traverse-from_json [] h = refl
traverse-from_json (p ∷ ps) h = rw (h.0, traverse-from_json ps h.1)

pub pieces_of-map :
    (ps : List FinishedPiece) → pieces_of (map (λ p. piece (reread p)) ps) ≡ map reread ps
pieces_of-map [] = refl
pieces_of-map (p ∷ ps) = ap (◌∷◌ (reread p)) (pieces_of-map ps)

-- What was written for pieces with an etag is read back, sorted and with the etags unquoted.
pub from_json_array-written :
    (ps : List FinishedPiece)
    → All HasEtag ps
    → from_json_array (entries_of (map to_json ps)) ≡ ok (map reread ps)
from_json_array-written ps h = rw (traverse-from_json ps h, pieces_of-map ps)
