-- ===== src/Scan/Both.antt =====
-- scan_missing_folders.py: the names that both listings give.
use rclone_kit.Base.{
  ◌≤◌, List, [], ◌++◌, Option, some, String, Result, ok, All, All-map, length, ◌≡◌, ◌≢◌, refl,
}
use rclone_kit.Base.Int.{ℤ, pos, negsuc}
use rclone_kit.Listing.{DirListing, ListingOption, Order, ordered, dirs_only}
use rclone_kit.Scan.{Dir, ◌/◌, relative_names, ls_dirs, both_names}
use rclone_kit.Scan.Below.{Listed}
use rclone_kit.Scan.Names.{relative_names-Mem, relative_names-All, ordered-All}
use rclone_kit.Scan.Members.{Mem-ordered}
use rclone_kit.Scan.Walked.{Answers}
use rclone_kit.Scan.Loops.{relative_names-ok}
use mathlib.Core.Path.{subst}
use mathlib.Core.List.{Memᴰ}

module _ (shuffle : (A : Type 0) → List A → List A)
    (ls : ListingOption → Order → Option ℤ → Dir → Result (DirListing Dir)) (exists : Dir → Type 0)
    (keeps : (A : Type 0) (P : A → Type 0) (xs : List A) → All P xs → All P (shuffle A xs))
    (keeps_each : (A : Type 0) (x : A) (xs : List A) → Memᴰ x xs → Memᴰ x (shuffle A xs))
    (closed : (d : Dir) (p q : List String) → exists (d / (p ++ q)) → exists (d / p))
    (answers : Answers exists ls) where
  -- The names of a listing of `d`, and that all of up to two levels are there
  listed_names :
      (d : Dir) (order : Order)
      → exists d
      → (l : DirListing Dir) × (names : List (List String)) × (ls_dirs shuffle ls order (negsuc 0) d
          ≡ ok l)
        × (relative_names l d ≡ ok names)
        × All (λ n. (n ≢ []) × exists (d / n)) names
        × ((p : List String) → p ≢ [] → length p ≤ 2 → exists (d / p) → Memᴰ p names)
  listed_names d order known =
      let (l, given, listed, lists) = answers dirs_only order (some (pos 2)) d (λ e. cc) known in
      let (names, named) =
        relative_names-ok (λ x rel. Unit) d l.dirs
          (All-map (Listed exists (some (pos 2)) d)
            (λ x. (rel : List String) × Unit × (x ≡ (d / rel))) l.dirs
            (λ x (rel, some_name, is, there, near). (rel, tt, is)) listed) in
      (
        l,
        names,
        given,
        named,
        relative_names-All (λ n. (n ≢ []) × exists (d / n)) l.dirs d names named
            (All-map (Listed exists (some (pos 2)) d)
              (λ x. (rel : List String) × (x ≡ (d / rel)) × ((rel ≢ []) × exists (d / rel))) l.dirs
              (λ x (rel, some_name, is, there, near). (rel, is, (some_name, subst exists is there)))
              listed),
        λ p some_name near there.
            relative_names-Mem l.dirs d names p named (lists p some_name near there),
      )

  -- What both listings give of two directories that exist
  pub names_of_both :
      (src dst : Dir) (order : Order)
      → exists src
      → exists dst
      → (src_dirs dst_dirs : List (List String)) × (both_names shuffle ls src dst (negsuc 0) order
          ≡ ok (src_dirs, dst_dirs))
        × All (λ n. (n ≢ []) × exists (src / n)) src_dirs
        × All (λ n. (n ≢ []) × exists (dst / n)) dst_dirs
        × ((p : List String) → p ≢ [] → length p ≤ 2 → exists (src / p) → Memᴰ p src_dirs)
  unfolding both_names
  names_of_both src dst order from to =
      let (l, ss, given, named, there, all) = listed_names src order from in
      let (m, ds, given', named', there', all') = listed_names dst order to in
      (
        ordered (shuffle (List String)) order ss,
        ds,
        rw (given, given', named, named') refl,
        ordered-All (shuffle (List String)) (keeps (List String)) (λ n. (n ≢ []) × exists (src / n))
            order ss there,
        there',
        λ p some_name near known.
            Mem-ordered (shuffle (List String)) (keeps_each (List String)) order p ss
              (all p some_name near known),
      )
