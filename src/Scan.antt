-- ===== src/Scan.antt =====
-- scan_missing_folders.py and the paths of dir.py: the folders under a source that the destination
-- lacks. A path is its parts, as `PurePosixPath` has them; `ls` is `Dir.ls`. What is put on the queue
-- is a list, with how the task ended.
pub mod Names
pub mod Below
pub mod Missing
pub mod Members
pub mod Walked
pub mod Loops
pub mod Both
pub mod Finds
use rclone_kit.Base.{
  ℕ, zero, suc, Bool, true, false, not, ◌&&◌, ◌||◌, List, [], ◌∷◌, ◌++◌, map, Option, none, some,
  String, str_eq, Result, ok, err, diverged, value_error, ◌>>=◌, traverse, keep, if◌then◌else◌,
}
use rclone_kit.Base.Int.{ℤ, pos, negsuc}
use rclone_kit.Listing.{DirListing, ListingOption, Order, ordered, all_entries, dirs_only}
use rclone_kit.Walk.{walk_runner_depth_first, with_sentinel, put}

-- `Dir`, with the parts of `self.path.path`
pub record Dir : Type 0 where
  pub remote : String
  pub path : List String

-- `PurePosixPath.relative_to`
abbrev pub relative_path : (other : List String) → List String → Result (List String)
relative_path [] rel = ok rel
relative_path (r ∷ root) [] = err value_error
relative_path (r ∷ root) (s ∷ self) =
    let rest = relative_path root self in if str_eq r s then rest else err value_error

abbrev pub relative_to : (self other : Dir) → Result (List String)
relative_to self other = relative_path other.path self.path

-- `Dir.__truediv__`, for a relative path
infixl 60 ◌/◌
abbrev pub ◌/◌ : Dir → List String → Dir
d / other = record d { path = d.path ++ other }

-- `_relative_names`
abbrev pub relative_names : DirListing Dir → Dir → Result (List (List String))
relative_names listing root = traverse (λ d. relative_to d root) listing.dirs

abbrev pub same_path : List String → List String → Bool
same_path [] [] = true
same_path (s ∷ p) (t ∷ q) = str_eq s t && same_path p q
same_path [] (t ∷ q) = false
same_path (s ∷ p) [] = false

-- `name in dst_dirs`
abbrev pub in_dirs : List String → List (List String) → Bool
in_dirs name [] = false
in_dirs name (d ∷ dirs) = same_path name d || in_dirs name dirs

-- `ls_depth`
abbrev pub ls_depth : ℤ → ℕ
ls_depth (pos (suc (suc n))) = 2
ls_depth (negsuc zero) = 2
ls_depth (pos (suc zero)) = 1
ls_depth (pos zero) = 1
ls_depth (negsuc (suc n)) = 1

-- `next_depth`
abbrev pub next_depth : ℤ → ℤ
next_depth (pos (suc (suc n))) = pos n
next_depth (pos (suc zero)) = pos zero
next_depth (pos zero) = pos zero
next_depth (negsuc n) = negsuc n

-- `next_depth > 0 or next_depth == -1`
abbrev pub goes_on : ℤ → Bool
goes_on (pos zero) = false
goes_on (pos (suc n)) = true
goes_on (negsuc zero) = true
goes_on (negsuc (suc n)) = false

-- What is put on the queue, and how the task ends.
abbrev pub Output : Type 0
Output = List Dir × Result (Unit {0})

abbrev pub nothing : Output
nothing = ([], ok tt)

abbrev pub and_then : Output → Output → Output
and_then (out, err e) next = (out, err e)
and_then (out, ok _) (more, r) = (out ++ more, r)

-- `for name in names`
abbrev pub each : (List String → Output) → List (List String) → Output
each f [] = nothing
each f (name ∷ names) = and_then (f name) (each f names)

-- The directories of the listings before the sentinel
abbrev pub dirs_of : List (Option (DirListing Dir)) → List Dir
dirs_of [] = []
dirs_of (none ∷ items) = []
dirs_of (some l ∷ items) = l.dirs ++ dirs_of items

module _ (shuffle : (A : Type 0) → List A → List A)
    (ls : ListingOption → Order → Option ℤ → Dir → Result (DirListing Dir)) where
  -- `current_dir.ls()` of a walk
  abbrev pub ls_all : Order → Dir → Result (DirListing Dir)
  ls_all order d = ls all_entries order none d

  -- `src.ls` and `dst.ls` of the task
  abbrev pub ls_dirs : Order → ℤ → Dir → Result (DirListing Dir)
  ls_dirs order max_depth d = ls dirs_only order (some (pos (ls_depth max_depth))) d

  unfoldable pub put_missing_subtree : (fuel : ℕ) → Dir → ℤ → Order → Output
  unfolding walk_runner_depth_first
  put_missing_subtree fuel root max_depth order =
      let walked = walk_runner_depth_first (shuffle Dir) ls_all fuel root max_depth order in
      (dirs_of walked.0, walked.1)

  -- `src_dirs` in order, and `dst_dirs`
  unfoldable pub both_names :
      Dir → Dir → ℤ → Order → Result (List (List String) × List (List String))
  both_names src dst max_depth order = do
    src_dir_listing ← ls_dirs order max_depth src
    dst_dir_listing ← ls_dirs order max_depth dst
    dst_dirs ← relative_names dst_dir_listing dst
    src_dirs ← relative_names src_dir_listing src
    ok (ordered (shuffle (List String)) order src_dirs, dst_dirs)

  -- The body of the loop over `src_dirs`, without `matching_dirs`
  unfoldable pub put_if_missing :
      (fuel : ℕ) → Dir → List (List String) → ℤ → Order → List String → Output
  unfolding put_missing_subtree
  put_if_missing fuel src dst_dirs next order name = elim (in_dirs name dst_dirs) [
    | true ↦ nothing
    | false ↦
        put (src / name)
          (if goes_on next then put_missing_subtree fuel (src / name) next order else nothing)
  ]

  -- `_async_diff_dir_walk_task`; `fuel` bounds the depth of the calls and the length of each walk.
  unfoldable pub diff_task : (fuel : ℕ) → Dir → Dir → ℤ → Order → Output
  unfolding both_names put_if_missing
  diff_task zero src dst max_depth order = ([], err diverged)
  diff_task (suc fuel) src dst max_depth order = elim (both_names src dst max_depth order) [
    | err e ↦ ([], err e)
    | ok (src_dirs, dst_dirs) ↦
        and_then (each (put_if_missing fuel src dst_dirs (next_depth max_depth) order) src_dirs)
          (elim (goes_on (next_depth max_depth)) [
            | true ↦
                each (λ name. diff_task fuel (src / name) (dst / name) (next_depth max_depth) order)
                  (keep (λ name. in_dirs name dst_dirs) src_dirs)
            | false ↦ nothing
          ])
  ]

  -- `async_diff_dir_walk_task`
  unfoldable pub async_diff_dir_walk_task :
      (fuel : ℕ) → Dir → Dir → ℤ → Order → List (Option Dir) × Result (Unit {0})
  unfolding diff_task
  async_diff_dir_walk_task fuel src dst max_depth order =
      with_sentinel (diff_task fuel src dst max_depth order)
