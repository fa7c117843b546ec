-- ===== src/Paths.antt =====
-- rc/paths.py: splitting a path into the remote and the rest. A text is the list of its character
-- codes; `resolve` is what `str(Path(path).resolve())` makes of a local path.
pub mod Splitting
use rclone_kit.Base.{
  ℕ, Bool, true, false, not, ◌&&◌, ◌||◌, Option, none, some, List, [], ◌∷◌, ◌++◌, Result, ok, err,
  value_error, ◌==◌, ltb, leb, if◌then◌else◌,
}

-- `RcPath`
pub record RcPath : Type 0 where
  pub fs : List ℕ
  pub remote : List ℕ

abbrev pub is_slash : ℕ → Bool
is_slash c = c == b'/'

abbrev pub is_separator : ℕ → Bool
is_separator c = (c == b'/') || (c == b'\\')

abbrev is_drive_letter : ℕ → Bool
is_drive_letter c = (leb b'a' c && leb c b'z') || (leb b'A' c && leb c b'Z')

abbrev pub is_windows_drive_prefix : List ℕ → Bool
is_windows_drive_prefix (letter ∷ colon ∷ _) = is_drive_letter letter && (colon == b':')
is_windows_drive_prefix _ = false

-- `str.lstrip`, `str.rstrip` and `str.strip`, for a set of characters
abbrev pub lstrip : (ℕ → Bool) → List ℕ → List ℕ
lstrip p [] = []
lstrip p (c ∷ cs) = let rest = lstrip p cs in if p c then rest else c ∷ cs

abbrev pub or_nothing : (ℕ → Bool) → ℕ → List ℕ → List ℕ
or_nothing p c [] = if p c then [] else c ∷ []
or_nothing p c (d ∷ ds) = c ∷ d ∷ ds

abbrev pub rstrip : (ℕ → Bool) → List ℕ → List ℕ
rstrip p [] = []
rstrip p (c ∷ cs) = or_nothing p c (rstrip p cs)

abbrev pub strip : (ℕ → Bool) → List ℕ → List ℕ
strip p s = rstrip p (lstrip p s)

abbrev pub onto : ℕ → Option (List ℕ × List ℕ) → Option (List ℕ × List ℕ)
onto c none = none
onto c (some (before, after)) = some (c ∷ before, after)

-- What stands before and after the first colon, if there is one: `str.partition` and `str.find`.
abbrev pub partition_colon : List ℕ → Option (List ℕ × List ℕ)
partition_colon [] = none
partition_colon (c ∷ cs) =
    let rest = partition_colon cs in if c == b':' then some ([], cs) else onto c rest

-- `_resolve_local`
abbrev pub resolve_local : (List ℕ → List ℕ) → List ℕ → List ℕ
resolve_local resolve path = elim (strip is_separator path) [ [] ↦ path | _ ∷ _ ↦ resolve path ]

abbrev pub colon_or_all : List ℕ → Option (List ℕ × List ℕ) → List ℕ × List ℕ
colon_or_all path none = ([], path)
colon_or_all path (some (name, rest)) = (name, strip is_slash rest)

-- After a first colon, where the second one counts.
abbrev pub inline_or_all : List ℕ → Option (List ℕ × List ℕ) → List ℕ × List ℕ
inline_or_all path none = ([], path)
inline_or_all path (some (name, rest)) = (b':' ∷ name, strip is_slash rest)

abbrev pub split_text : List ℕ → List ℕ × List ℕ
split_text [] = ([], [])
split_text (c ∷ cs) =
    if c == b':'
    then inline_or_all (c ∷ cs) (partition_colon cs)
    else colon_or_all (c ∷ cs) (partition_colon (c ∷ cs))

abbrev pub split_remote_and_path : List ℕ → List ℕ × List ℕ
split_remote_and_path path = if is_windows_drive_prefix path then ([], path) else split_text path

abbrev pub local_path : List ℕ → RcPath
local_path fs = record { fs = fs; remote = [] }

abbrev pub at_remote : List ℕ → List ℕ → RcPath
at_remote name rest = record { fs = name ++ (b':' ∷ []); remote = strip is_slash rest }

abbrev pub parse_inline : List ℕ → Option (List ℕ × List ℕ) → RcPath
parse_inline path none = local_path path
parse_inline path (some (name, rest)) = at_remote (b':' ∷ name) rest

abbrev pub parse_named : (List ℕ → List ℕ) → List ℕ → Option (List ℕ × List ℕ) → RcPath
parse_named resolve path none = local_path (resolve_local resolve path)
parse_named resolve path (some (name, rest)) = at_remote name rest

abbrev pub parse_text : (List ℕ → List ℕ) → List ℕ → RcPath
parse_text resolve [] = local_path (resolve_local resolve [])
parse_text resolve (c ∷ cs) =
    if c == b':'
    then parse_inline (c ∷ cs) (partition_colon cs)
    else parse_named resolve (c ∷ cs) (partition_colon (c ∷ cs))

-- `RcPath.parse`
abbrev pub parse : (List ℕ → List ℕ) → List ℕ → RcPath
parse resolve path =
    if is_windows_drive_prefix path then local_path path else parse_text resolve path

abbrev pub onto_last :
    (ℕ → Bool) → ℕ → List ℕ → Option (List ℕ × ℕ × List ℕ) → Option (List ℕ × ℕ × List ℕ)
onto_last p c cs (some (before, sep, after)) = some (c ∷ before, sep, after)
onto_last p c cs none = if p c then some ([], c, cs) else none

-- What stands before the last character of a kind, that character, and what follows it:
-- `str.rpartition`, and `str.rfind` with slices
abbrev pub before_last : (ℕ → Bool) → List ℕ → Option (List ℕ × ℕ × List ℕ)
before_last p [] = none
before_last p (c ∷ cs) = onto_last p c cs (before_last p cs)

abbrev pub ends_in_colon : List ℕ → Bool
ends_in_colon [] = false
ends_in_colon (c ∷ []) = c == b':'
ends_in_colon (c ∷ d ∷ ds) = ends_in_colon (d ∷ ds)

abbrev pub split_remote : RcPath → Option (List ℕ × ℕ × List ℕ) → Result RcPath
split_remote q none = ok q
split_remote q (some (parent, _, name)) = ok (record { fs = q.fs ++ parent; remote = name })

abbrev pub split_local : (List ℕ → List ℕ) → List ℕ → Option (List ℕ × ℕ × List ℕ) → Result RcPath
split_local resolve trimmed none =
    ok (record { fs = resolve_local resolve (b'.' ∷ []); remote = trimmed })
split_local resolve trimmed (some (before, sep, [])) = err value_error
split_local resolve trimmed (some (before, sep, c ∷ cs)) =
    ok (record { fs = before ++ (sep ∷ []); remote = c ∷ cs })

abbrev pub split_trimmed : (List ℕ → List ℕ) → List ℕ → Result RcPath
split_trimmed resolve [] = err value_error
split_trimmed resolve (c ∷ cs) = split_local resolve (c ∷ cs) (before_last is_separator (c ∷ cs))

abbrev pub split_whole : (List ℕ → List ℕ) → RcPath → List ℕ → Result RcPath
split_whole resolve q [] =
    if ends_in_colon q.fs then err value_error else split_trimmed resolve (rstrip is_separator q.fs)
split_whole resolve q (c ∷ cs) = split_remote q (before_last is_slash (c ∷ cs))

-- `RcPath.as_parent_and_name`
abbrev pub as_parent_and_name : (List ℕ → List ℕ) → RcPath → Result RcPath
as_parent_and_name resolve q = split_whole resolve q q.remote
