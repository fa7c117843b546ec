-- ===== src/Walk/Parallel.antt =====
-- fs/walk.py: the walk of a file system that lists several directories at once. A path is a `D`, a
-- name an `N`; `ls` is what listing a path gives while the walk runs, and `join` is `FSPath.__truediv__`. A future's
-- result is that of `_list_dir` on the path it was submitted with.
pub mod Fifo
pub mod Backlog
use rclone_kit.Base.{
  ℕ, zero, suc, List, [], ◌∷◌, ◌++◌, map, Option, none, some, Result, ok, err, diverged, length,
  ltb, if◌then◌else◌,
}
use rclone_kit.Walk.{put}

-- `_Listing`
pub record FsListing (D N : Type 0) : Type 0 where
  pub path : D
  pub dirnames : List N
  pub filenames : List N

module _ {D : Type 0} (backlog : ℕ) where
  -- `_submit_pending`: what is left in `pending`, and what is in flight
  abbrev pub submit_pending : (pending in_flight : List D) → List D × List D
  submit_pending [] in_flight = ([], in_flight)
  submit_pending (path ∷ pending) in_flight =
      let submitted = submit_pending pending (in_flight ++ (path ∷ [])) in
      if ltb (length in_flight) backlog then submitted else (path ∷ pending, in_flight)

-- `current_dir / dirname for dirname in dirnames`
abbrev pub children : {D N : Type 0} → (join : D → N → D) → FsListing D N → List D
children join l = map (join l.path) l.dirnames

-- `yield`, unless the directory could not be listed
abbrev pub yielded {ℓ} :
    {A : Type ℓ} → Option A → List A × Result (Unit {0}) → List A × Result (Unit {0})
yielded none rest = rest
yielded (some listing) rest = put listing rest

module _ {D N : Type 0} (ls : D → Result (List N × List N)) where
  -- `_list_dir`; `path.ls()` returns the names of the files first.
  abbrev pub list_dir : D → Option (FsListing D N)
  list_dir path = elim (ls path) [
    | err e ↦ none
    | ok (filenames, dirnames) ↦
        some (record { path = path; dirnames = dirnames; filenames = filenames })
  ]

  module _ (join : D → N → D) (backlog : ℕ) where
    -- One round of the `while` loop, for the directory at the head of what is in flight: the listing that
    -- is yielded, if there is one, and what is pending and in flight then.
    unfoldable pub round :
        (pending : List D) (head : D) (in_flight : List D)
        → Option (FsListing D N) × (List D × List D)
    round pending head in_flight = elim (list_dir head) [
      | none ↦ (none, submit_pending backlog pending in_flight)
      | some listing ↦
          let (pending', in_flight') =
            submit_pending backlog (pending ++ children join listing) in_flight in
          (some listing, submit_pending backlog pending' in_flight')
    ]

    -- The loop of `fs_walk_parallel` from the first `_submit_pending` on.
    unfoldable pub walk_loop : ℕ → List D × List D → List (FsListing D N) × Result (Unit {0})
    unfolding round
    walk_loop fuel (pending, []) = ([], ok tt)
    walk_loop zero (pending, _ ∷ _) = ([], err diverged)
    walk_loop (suc fuel) (pending, head ∷ in_flight) =
        let (listing, s) = round pending head in_flight in yielded listing (walk_loop fuel s)

    -- `fs_walk`, which is `fs_walk_parallel`
    unfoldable pub fs_walk : ℕ → D → List (FsListing D N) × Result (Unit {0})
    unfolding walk_loop
    fs_walk fuel self = walk_loop fuel (submit_pending backlog (self ∷ []) [])
