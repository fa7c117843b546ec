-- ===== src/Walk.antt =====
-- operations/walk.py: the two traversals of a remote. A directory is an `E`; `ls` is what listing it
-- gives while the walk runs. The queue to the consumer is the list of what is put on it.
pub mod Tree
pub mod Depth
pub mod Breadth
pub mod Parallel
use rclone_kit.Base.{
  ℕ, zero, suc, Bool, true, false, List, [], ◌∷◌, ◌++◌, map, Option, none, some, Result, ok, err,
  Error, diverged,
}
use rclone_kit.Base.Int.{ℤ, pos, negsuc}
use rclone_kit.Listing.{DirListing, Order, ordered}

-- `next_depth`, and the children that are walked with it if `depth != 0`
abbrev pub descend {ℓ} : {E : Type ℓ} → ℤ → List E → List (E × ℤ)
descend (pos zero) dirs = []
descend (pos (suc depth)) dirs = map (λ child. (child, pos depth)) dirs
descend (negsuc n) dirs = map (λ child. (child, negsuc n)) dirs

-- The `finally` clause: a sentinel is put after everything else.
abbrev pub with_sentinel {ℓ} :
    {L : Type ℓ} → List L × Result (Unit {0}) → List (Option L) × Result (Unit {0})
with_sentinel (out, r) = (map some out ++ (none ∷ []), r)

abbrev pub put {ℓ} : {L : Type ℓ} → L → List L × Result (Unit {0}) → List L × Result (Unit {0})
put l (out, r) = (l ∷ out, r)

module _ {E : Type 0} (ls : E → Result (DirListing E)) where
  -- The loop of `walk_runner_depth_first`; the end of the stack is the head of the list.
  unfoldable pub depth_loop : ℕ → List (E × ℤ) → List (DirListing E) × Result (Unit {0})
  depth_loop fuel [] = ([], ok tt)
  depth_loop zero (_ ∷ _) = ([], err diverged)
  depth_loop (suc fuel) ((current_dir, depth) ∷ stack) = elim (ls current_dir) [
    | err e ↦ ([], err e)
    | ok dirlisting ↦ put dirlisting (depth_loop fuel (descend depth dirlisting.dirs ++ stack))
  ]

  -- The loop of `walk_runner_breadth_first`
  unfoldable pub breadth_loop : ℕ → List (E × ℤ) → List (DirListing E) × Result (Unit {0})
  breadth_loop fuel [] = ([], ok tt)
  breadth_loop zero (_ ∷ _) = ([], err diverged)
  breadth_loop (suc fuel) ((current_dir, depth) ∷ queue) = elim (ls current_dir) [
    | err e ↦ ([], err e)
    | ok dirlisting ↦ put dirlisting (breadth_loop fuel (queue ++ descend depth dirlisting.dirs))
  ]

module _ {E : Type 0} (shuffle : List E → List E) where
  -- `dirlisting.dirs.reverse()` or `random.shuffle(dirlisting.dirs)`
  abbrev pub reordered : Order → Result (DirListing E) → Result (DirListing E)
  reordered order (err e) = err e
  reordered order (ok l) = ok (record l { dirs = ordered shuffle order l.dirs })

  -- `list_dir order` is `Dir.ls` with that order.
  module _ (list_dir : Order → E → Result (DirListing E)) where
    unfoldable pub walk_runner_depth_first :
        (fuel : ℕ) → E → ℤ → Order → List (Option (DirListing E)) × Result (Unit {0})
    unfolding depth_loop
    walk_runner_depth_first fuel dir max_depth order =
        with_sentinel
          (depth_loop (λ d. reordered order (list_dir Order.normal d)) fuel ((dir, max_depth) ∷ []))

    unfoldable pub walk_runner_breadth_first :
        (fuel : ℕ) → E → ℤ → Order → List (Option (DirListing E)) × Result (Unit {0})
    unfolding breadth_loop
    walk_runner_breadth_first fuel dir max_depth order =
        with_sentinel (breadth_loop (list_dir order) fuel ((dir, max_depth) ∷ []))
