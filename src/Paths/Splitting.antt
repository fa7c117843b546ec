-- ===== src/Paths/Splitting.antt =====
-- rc/paths.py: how the two ways of splitting a path agree, and that nothing is lost.
use rclone_kit.Base.{
  ℕ, ◌≡◌, refl, ◌≢◌, ◌⊎◌, inl, inr, Bool, true, false, Option, none, some, List, [], ◌∷◌, ◌++◌, All,
  Result, ok, err, ◌==◌, value_error, Bool-cases,
}
use rclone_kit.Paths.{
  RcPath, is_slash, is_separator, is_windows_drive_prefix, strip, rstrip, onto, partition_colon,
  resolve_local, colon_or_all, inline_or_all, split_text, split_remote_and_path, parse_inline,
  parse_named, parse_text, parse, ends_in_colon,
}

-- How `split_remote_and_path` and `RcPath.parse` take the same path: as local, or as a remote.
pub data Agree (resolve : List ℕ → List ℕ) (path : List ℕ) : List ℕ × List ℕ → RcPath → Type 0 where
  is_local :
      (fs : List ℕ)
      → (fs ≡ path) ⊎ (fs ≡ resolve_local resolve path)
      → Agree resolve path ([], path) (record { fs = fs; remote = [] })
  is_remote :
      (name rest : List ℕ)
      → name ≢ []
      → Agree resolve path (name, rest) (record { fs = name ++ (b':' ∷ []); remote = rest })

inline-Agree :
    (resolve : List ℕ → List ℕ) (path : List ℕ) (o : Option (List ℕ × List ℕ))
    → Agree resolve path (inline_or_all path o) (parse_inline path o)
inline-Agree resolve path none = is_local path (inl refl)
inline-Agree resolve path (some (name, rest)) =
    is_remote (b':' ∷ name) (strip is_slash rest) (λ e. cc)

-- A text that does not begin with a colon has something before its first colon.
named-Agree :
    (resolve : List ℕ → List ℕ) (c : ℕ) (cs : List ℕ) (o : Option (List ℕ × List ℕ))
    → Agree resolve
        (c ∷ cs)
        (colon_or_all (c ∷ cs) (onto c o))
        (parse_named resolve (c ∷ cs) (onto c o))
named-Agree resolve c cs none = is_local (resolve_local resolve (c ∷ cs)) (inr refl)
named-Agree resolve c cs (some (name, rest)) = is_remote (c ∷ name) (strip is_slash rest) (λ e. cc)

text-Agree :
    (resolve : List ℕ → List ℕ) (path : List ℕ)
    → Agree resolve path (split_text path) (parse_text resolve path)
text-Agree resolve [] = is_local (resolve_local resolve []) (inr refl)
text-Agree resolve (c ∷ cs) = elim (Bool-cases (c == b':')) [
  | inl h ↦ rw h (inline-Agree resolve (c ∷ cs) (partition_colon cs))
  | inr h ↦ rw h (named-Agree resolve c cs (partition_colon cs))
]

-- `RcPath.parse` and `split_remote_and_path` take every path the same way. Either it is local: then
-- the one answers no name and the path as it is, and the other has no `remote`, and for its `fs` the
-- path as it is or resolved. Or it has a remote: then the one answers a name that is not empty, the
-- other has that name with a colon after it for its `fs`, and both have the same rest.
pub parse-split_remote_and_path :
    (resolve : List ℕ → List ℕ) (path : List ℕ)
    → Agree resolve path (split_remote_and_path path) (parse resolve path)
parse-split_remote_and_path resolve path = elim (Bool-cases (is_windows_drive_prefix path)) [
  | inl h ↦ rw h (is_local path (inl refl))
  | inr h ↦ rw h (text-Agree resolve path)
]

-- No character of a kind.
abbrev pub HasNone : (ℕ → Bool) → List ℕ → Type 0
HasNone p = All (λ (c : ℕ). p c ≡ false)

-- What `before_last` finds.
data Found (p : ℕ → Bool) (s : List ℕ) : Option (List ℕ × ℕ × List ℕ) → Type 0 where
  found :
      (before after : List ℕ) (sep : ℕ)
      → before ++ (sep ∷ after) ≡ s
      → p sep ≡ true
      → HasNone p after
      → Found p s (some (before, sep, after))
  missing : HasNone p s → Found p s none

-- How a path is split into its directory and its name.
pub data Rejoins (resolve : List ℕ → List ℕ) (q : RcPath) : Result RcPath → Type 0 where
  in_remote_root : q.remote ≢ [] → HasNone is_slash q.remote → Rejoins resolve q (ok q)
  in_remote :
      (parent name : List ℕ)
      → parent ++ (b'/' ∷ name) ≡ q.remote
      → HasNone is_slash name
      → Rejoins resolve q (ok (record { fs = q.fs ++ parent; remote = name }))
  in_local :
      (directory name : List ℕ)
      → q.remote ≡ []
      → directory ++ name ≡ rstrip is_separator q.fs
      → name ≢ []
      → HasNone is_separator name
      → Rejoins resolve q (ok (record { fs = directory; remote = name }))
  in_working_directory :
      (name : List ℕ)
      → q.remote ≡ []
      → name ≡ rstrip is_separator q.fs
      → name ≢ []
      → HasNone is_separator name
      → Rejoins resolve q (ok (record { fs = resolve_local resolve (b'.' ∷ []); remote = name }))
  no_name :
      q.remote ≡ []
      → (ends_in_colon q.fs ≡ true) ⊎ (rstrip is_separator q.fs ≡ [])
      → Rejoins resolve q (err value_error)
