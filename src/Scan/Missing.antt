-- ===== src/Scan/Missing.antt =====
-- scan_missing_folders.py: each folder that is put is missing in the destination.
use rclone_kit.Base.{
  ℕ, zero, suc, Bool, true, false, List, [], ◌∷◌, ◌++◌, map, Option, none, some, String, Result, ok,
  err, ◌>>=◌, >>=-eq-ok, All, All-map, length, append-nil, ◌≡◌, ◌≢◌, refl, ap, sym, ◌∙◌, Bool-cases,
  if◌then◌else◌, inl, inr, keep, Result-cases,
}
use rclone_kit.Base.Int.{ℤ, pos}
use rclone_kit.Listing.{DirListing, ListingOption, Order, ordered, dirs_only, all_entries, normal}
use rclone_kit.Walk.{depth_loop, reordered, walk_runner_depth_first}
use rclone_kit.Scan.{
  Dir, ◌/◌, in_dirs, ls_depth, next_depth, goes_on, Output, nothing, each, ls_all, ls_dirs,
  put_missing_subtree, both_names, put_if_missing, diff_task, async_diff_dir_walk_task,
  relative_names,
}
use rclone_kit.Scan.Names.{in_dirs-Mem, relative_names-Mem, relative_names-All, ordered-All}
use rclone_kit.Scan.Below.{
  depth_loop-All, dirs_of-All, Within, Listed, IsMissing, /-assoc, and_then-All, each-All,
}
use mathlib.Core.Path.{subst}
use mathlib.Core.List.{Memᴰ}
use mathlib.Core.Bool.{true≢false}

module _ (shuffle : (A : Type 0) → List A → List A)
    (ls : ListingOption → Order → Option ℤ → Dir → Result (DirListing Dir)) (exists : Dir → Type 0)
    (keeps : (A : Type 0) (P : A → Type 0) (xs : List A) → All P xs → All P (shuffle A xs))
    (listed : (option : ListingOption) (order : Order) (k : Option ℤ) (d : Dir) (l : DirListing Dir)
      → ls option order k d ≡ ok l
      → All (Listed exists k d) l.dirs)
    (lists : (order : Order) (k : Option ℤ) (d : Dir) (l : DirListing Dir) (rel : List String)
      → ls dirs_only order k d ≡ ok l
      → rel ≢ []
      → Within k (length rel)
      → exists (d / rel)
      → Memᴰ (d / rel) l.dirs)
    (closed : (d : Dir) (p q : List String) → exists (d / (p ++ q)) → exists (d / p)) where
  -- A directory under one of `src`
  abbrev Under : Dir → Dir → Type 0
  Under root x = (q : List String) × (x ≡ (root / q)) × exists x

  reordered-Under :
      (root d : Dir) (order : Order) (l : DirListing Dir) (r : Result (DirListing Dir))
      → ls all_entries normal none d ≡ r
      → reordered (shuffle Dir) order r ≡ ok l
      → Under root d
      → All (Under root) l.dirs
  reordered-Under root d order l (err e) given h u = cc
  reordered-Under root d order l (ok l0) given h (q, at, there) =
      let same : ordered (shuffle Dir) order l0.dirs ≡ l.dirs = ap dirs_in h in
      subst (All (Under root)) same (
        ordered-All (shuffle Dir) (keeps Dir) (Under root) order l0.dirs (
          All-map (Listed exists none d) (Under root) l0.dirs
            (λ x (rel, some_name, is, known, near).
              (q ++ rel, is ∙ ap (λ e. e / rel) at ∙ /-assoc root q rel, known))
            (listed all_entries normal none d l0 given)))
    where
      dirs_in : Result (DirListing Dir) → List Dir
      dirs_in (err e) = []
      dirs_in (ok k) = k.dirs

  put_missing_subtree-Under :
      (fuel : ℕ) (root : Dir) (max_depth : ℤ) (order : Order)
      → exists root
      → All (Under root) (put_missing_subtree shuffle ls fuel root max_depth order).0
  unfolding put_missing_subtree walk_runner_depth_first
  put_missing_subtree-Under fuel root max_depth order known =
      dirs_of-All (Under root)
        (depth_loop (λ d. reordered (shuffle Dir) order (ls_all shuffle ls normal d)) fuel
          ((root, max_depth) ∷ [])).0
        (depth_loop-All (λ d. reordered (shuffle Dir) order (ls_all shuffle ls normal d))
          (Under root)
          (λ d l h u. reordered-Under root d order l (ls all_entries normal none d) refl h u) fuel
          ((root, max_depth) ∷ [])
          (([], ap (λ path. record root { path = path }) (sym (append-nil root.path)), known), tt))

  -- What is under a missing directory is missing.
  Under-IsMissing :
      (src dst : Dir) (name : List String)
      → (exists (dst / name) → ⊥)
      → (x : Dir) → Under (src / name) x
      → IsMissing exists src dst x
  Under-IsMissing src dst name lacks x (q, is, known) =
      (name ++ q, is ∙ /-assoc src name q, known, λ there. lacks (closed dst name q there))

  -- A name of a listing of `src` that the names of `dst` have not is that of a missing directory.
  abbrev Named : Dir → Dir → List (List String) → List String → Type 0
  Named src dst dst_dirs name =
      exists (src / name) × (in_dirs name dst_dirs ≡ false → exists (dst / name) → ⊥)

  put_if_missing-IsMissing :
      (fuel : ℕ) (src dst : Dir) (dst_dirs : List (List String)) (next : ℤ) (order : Order)
      (name : List String)
      → Named src dst dst_dirs name
      → All
          (IsMissing exists src dst)
          (put_if_missing shuffle ls fuel src dst_dirs next order name).0
  unfolding put_if_missing
  put_if_missing-IsMissing fuel src dst dst_dirs next order name (known, lacks) =
      elim (Bool-cases (in_dirs name dst_dirs)) [
        | inl found ↦ rw (found, put_if_missing) tt
        | inr missed ↦
            rw (missed, put_if_missing)
              ((name, refl, known, lacks missed), subtree (goes_on next) (lacks missed))
      ]
    where
      subtree :
          (b : Bool)
          → (exists (dst / name) → ⊥)
          → All
              (IsMissing exists src dst)
              (if b then put_missing_subtree shuffle ls fuel (src / name) next order else nothing).0
      subtree true gone =
          All-map (Under (src / name)) (IsMissing exists src dst)
            (put_missing_subtree shuffle ls fuel (src / name) next order).0
            (Under-IsMissing src dst name gone)
            (put_missing_subtree-Under fuel (src / name) next order known)
      subtree false gone = tt

  both_names-Named :
      (src dst : Dir) (max_depth : ℤ) (order : Order) (src_dirs dst_dirs : List (List String))
      → both_names shuffle ls src dst max_depth order ≡ ok (src_dirs, dst_dirs)
      → All (Named src dst dst_dirs) src_dirs
  unfolding both_names
  both_names-Named src dst max_depth order src_dirs dst_dirs h =
      let k = some (pos (ls_depth max_depth)) in
      let (l, from_src, h1) = >>=-eq-ok (ls_dirs shuffle ls order max_depth src) (after_src) h in
      let (m, from_dst, h2) = >>=-eq-ok (ls_dirs shuffle ls order max_depth dst) (after_dst l) h1 in
      let (ds, dst_named, h3) = >>=-eq-ok (relative_names m dst) (after_names l) h2 in
      let (ss, src_named, h4) =
        >>=-eq-ok (relative_names l src)
          (λ names. ok (ordered (shuffle (List String)) order names, ds)) h3 in
      let same_dst : ds ≡ dst_dirs = cc h4 in
      let same_src : ordered (shuffle (List String)) order ss ≡ src_dirs = cc h4 in
      subst (λ ns. All (Named src dst dst_dirs) ns) same_src
        (ordered-All (shuffle (List String)) (keeps (List String)) (Named src dst dst_dirs) order ss
          (relative_names-All (Named src dst dst_dirs) l.dirs src ss src_named (
            All-map (Listed exists k src)
              (λ x. (rel : List String) × (x ≡ (src / rel)) × Named src dst dst_dirs rel) l.dirs
              (λ x (rel, some_name, is, known, near). (
                rel,
                is,
                (
                  subst exists is known,
                  λ missed there. absurd (
                      true≢false (
                        sym (
                          in_dirs-Mem rel dst_dirs (
                            subst (Memᴰ rel) same_dst (
                              relative_names-Mem m.dirs dst ds rel dst_named
                                (lists order k dst m rel from_dst some_name near there))))
                        ∙ missed)),
                ),
              ))
              (listed dirs_only order k src l from_src))))
    where
      after_names :
          DirListing Dir → List (List String) → Result (List (List String) × List (List String))
      after_names l ds = do
        ss ← relative_names l src
        ok (ordered (shuffle (List String)) order ss, ds)

      after_dst : DirListing Dir → DirListing Dir → Result (List (List String) × List (List String))
      after_dst l m = do ds ← relative_names m dst; after_names l ds

      after_src : DirListing Dir → Result (List (List String) × List (List String))
      after_src l = do m ← ls_dirs shuffle ls order max_depth dst; after_dst l m

  -- What is missing between two folders of the same name is missing between `src` and `dst`.
  IsMissing-back :
      (src dst : Dir) (name : List String) (x : Dir)
      → IsMissing exists (src / name) (dst / name) x
      → IsMissing exists src dst x
  IsMissing-back src dst name x (rel, is, known, lacks) = (
    name ++ rel,
    is ∙ /-assoc src name rel,
    known,
    λ there. lacks (subst exists (sym (/-assoc dst name rel)) there),
  )

  diff_task-IsMissing :
      (fuel : ℕ) (src dst : Dir) (max_depth : ℤ) (order : Order)
      → All (IsMissing exists src dst) (diff_task shuffle ls fuel src dst max_depth order).0
  unfolding diff_task
  diff_task-IsMissing zero src dst max_depth order = tt
  diff_task-IsMissing (suc fuel) src dst max_depth order =
      elim (Result-cases (both_names shuffle ls src dst max_depth order)) [
        | inl (e, raised) ↦ rw (raised, diff_task) tt
        | inr ((src_dirs, dst_dirs), both) ↦
            rw (both, diff_task)
              (and_then-All (IsMissing exists src dst)
                (each (put_if_missing shuffle ls fuel src dst_dirs next order) src_dirs)
                (deeper (keep (λ name. in_dirs name dst_dirs) src_dirs) (goes_on next))
                (each-All (IsMissing exists src dst) (Named src dst dst_dirs)
                  (put_if_missing shuffle ls fuel src dst_dirs next order)
                  (put_if_missing-IsMissing fuel src dst dst_dirs next order) src_dirs
                  (both_names-Named src dst max_depth order src_dirs dst_dirs both))
                (below
                  (λ name.
                    All-map (IsMissing exists (src / name) (dst / name)) (IsMissing exists src dst)
                      (diff_task shuffle ls fuel (src / name) (dst / name) next order).0
                      (IsMissing-back src dst name)
                      (diff_task-IsMissing fuel (src / name) (dst / name) next order))
                  (keep (λ name. in_dirs name dst_dirs) src_dirs) (goes_on next)))
      ]
    where
      next : ℤ
      next = next_depth max_depth

      deeper : List (List String) → Bool → Output
      deeper names b = elim b [
        | true ↦ each (λ name. diff_task shuffle ls fuel (src / name) (dst / name) next order) names
        | false ↦ nothing
      ]

      below :
          ((name : List String)
            → All
                (IsMissing exists src dst)
                (diff_task shuffle ls fuel (src / name) (dst / name) next order).0)
          → (names : List (List String)) (b : Bool)
          → All (IsMissing exists src dst) (deeper names b).0
      below ih [] true = tt
      below ih (name ∷ names) true =
          and_then-All (IsMissing exists src dst)
            (diff_task shuffle ls fuel (src / name) (dst / name) next order) (deeper names true)
            (ih name) (below ih names true)
      below ih names false = tt

-- If a listing with a depth has all directories of that depth, in it are only directories below the
-- one listed, those above a directory exist, and a shuffle keeps what is shuffled, then for every
-- depth, order and end, also a failing one, what the task puts is a list of existing directories
-- below `src`, of which none exists in its place below `dst`, and then one sentinel.
pub async_diff_dir_walk_task-IsMissing :
    (shuffle : (A : Type 0) → List A → List A)
    (ls : ListingOption → Order → Option ℤ → Dir → Result (DirListing Dir)) (exists : Dir → Type 0)
    → ((A : Type 0) (P : A → Type 0) (xs : List A) → All P xs → All P (shuffle A xs))
    → ((option : ListingOption) (order : Order) (k : Option ℤ) (d : Dir) (l : DirListing Dir)
        → ls option order k d ≡ ok l
        → All (Listed exists k d) l.dirs)
    → ((order : Order) (k : Option ℤ) (d : Dir) (l : DirListing Dir) (rel : List String)
        → ls dirs_only order k d ≡ ok l
        → rel ≢ []
        → Within k (length rel)
        → exists (d / rel)
        → Memᴰ (d / rel) l.dirs)
    → ((d : Dir) (p q : List String) → exists (d / (p ++ q)) → exists (d / p))
    → (fuel : ℕ) (src dst : Dir) (max_depth : ℤ) (order : Order)
    → (out : List Dir) × ((async_diff_dir_walk_task shuffle ls fuel src dst max_depth order).0
        ≡ map some out ++ (none ∷ []))
      × All (IsMissing exists src dst) out
unfolding async_diff_dir_walk_task
async_diff_dir_walk_task-IsMissing shuffle ls exists keeps listed lists closed fuel src dst
      max_depth order =
    (
      (diff_task shuffle ls fuel src dst max_depth order).0,
      refl,
      diff_task-IsMissing shuffle ls exists keeps listed lists closed fuel src dst max_depth order,
    )
