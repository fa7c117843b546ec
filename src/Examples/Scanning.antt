-- ===== src/Examples/Scanning.antt =====
-- The scan for missing folders at concrete inputs.
use rclone_kit.Base.{
  ◌≤◌, ◌<◌, ℕ, zero, suc, ◌≡◌, ◌≢◌, refl, Bool, true, false, ◌&&◌, List, [], ◌∷◌, ◌++◌, map, Option,
  none, some, String, str_eq, eq_iff, Result, ok, err, All, length, arith, if◌then◌else◌,
  Bool-cases, ◌⊎◌, inl, inr, ltb, sym, ap, ◌∙◌, append_assoc,
}
use rclone_kit.Base.Int.{ℤ, pos, negsuc}
use rclone_kit.Listing.{DirListing, ListingOption, Order, ordered, normal, reversed}
use rclone_kit.Walk.{depth_loop, walk_runner_depth_first}
use rclone_kit.Scan.{
  Dir, ◌/◌, put_missing_subtree, both_names, put_if_missing, diff_task, async_diff_dir_walk_task,
}
use rclone_kit.Scan.Below.{Within, Listed, IsMissing}
use rclone_kit.Scan.Finds.{async_diff_dir_walk_task-finds}
use rclone_kit.Scan.Missing.{async_diff_dir_walk_task-IsMissing}
use mathlib.Core.List.{Memᴰ}
use mathlib.Core.List.Memᴰ.{head}
use mathlib.Core.Bool.{true≢false}
use mathlib.Core.Path.{subst}

abbrev with_folders : List Dir → DirListing Dir
with_folders dirs = record { dirs = dirs; files = [] }

abbrev at : String → List String → Dir
at r p = record { remote = r; path = p }

abbrev same_order : (A : Type 0) → List A → List A
same_order A xs = xs

-- Every remote has its root, and `src` has a folder `a` in it.
abbrev is_there : String → List String → Bool
is_there r [] = true
is_there r (s ∷ []) = str_eq r "src" && str_eq s "a"
is_there r (s ∷ t ∷ p) = false

abbrev There : Dir → Type 0
There d = is_there d.remote d.path ≡ true

abbrev folders_in : String → List String → List Dir
folders_in r [] = if str_eq r "src" then at r ("a" ∷ []) ∷ [] else []
folders_in r (s ∷ p) = []

abbrev ls_one : ListingOption → Order → Option ℤ → Dir → Result (DirListing Dir)
ls_one option order k d = ok (with_folders (folders_in d.remote d.path))

abbrev dirs_in : Result (DirListing Dir) → List Dir
dirs_in (err e) = []
dirs_in (ok l) = l.dirs

one_Within : (k : Option ℤ) → Within k 1
one_Within none = omega arith
one_Within (some (pos zero)) = omega arith
one_Within (some (pos (suc n))) = omega arith
one_Within (some (negsuc n)) = tt

folders-Listed :
    (k : Option ℤ) (r : String) (p : List String) → All (Listed There k (at r p)) (folders_in r p)
folders-Listed k r [] = go (str_eq r "src") refl
  where
    go :
        (b : Bool)
        → str_eq r "src" ≡ b
        → All (Listed There k (at r [])) (if b then at r ("a" ∷ []) ∷ [] else [])
    go true e = (("a" ∷ [], (λ q. cc), refl, rw e refl, one_Within k), tt)
    go false e = tt
folders-Listed k r (s ∷ p) = tt

all-folders :
    (r : String) (p rel : List String)
    → rel ≢ []
    → There (at r (p ++ rel))
    → Memᴰ (at r (p ++ rel)) (folders_in r p)
all-folders r [] [] some_name there = absurd (some_name refl)
all-folders r [] (s ∷ []) some_name there =
    only (Bool-cases (str_eq r "src")) (Bool-cases (str_eq s "a"))
  where
    only :
        (str_eq r "src" ≡ true) ⊎ (str_eq r "src" ≡ false)
        → (str_eq s "a" ≡ true) ⊎ (str_eq s "a" ≡ false)
        → Memᴰ (at r (s ∷ [])) (folders_in r [])
    only (inl e) (inl k) = rw e (head (ap (λ n. at r (n ∷ [])) ((eq_iff s "a").0 k)))
    only (inl e) (inr k) = absurd (true≢false (sym there ∙ rw (e, k) refl))
    only (inr e) k = absurd (true≢false (sym there ∙ rw e refl))
all-folders r [] (s ∷ t ∷ rel) some_name there = absurd (true≢false (sym there))
all-folders r (t ∷ []) [] some_name there = absurd (some_name refl)
all-folders r (t ∷ []) (s ∷ rel) some_name there = absurd (true≢false (sym there))
all-folders r (t ∷ u ∷ p) rel some_name there = absurd (true≢false (sym there))

above : (r : String) (p q : List String) → There (at r (p ++ q)) → There (at r p)
above r [] q there = refl
above r (s ∷ []) [] there = there
above r (s ∷ []) (t ∷ q) there = absurd (true≢false (sym there))
above r (s ∷ t ∷ p) q there = there

above-append :
    (p0 p q : List String) (r : String) → There (at r (p0 ++ (p ++ q))) → There (at r (p0 ++ p))
above-append p0 p q r there =
    above r (p0 ++ p) q (subst (λ path. There (at r path)) (sym (append_assoc p0 p q)) there)

-- A chain of five folders in `src`, each in the one before; the destination has no folder.
abbrev chain_below : String → List String → List Dir
chain_below r p = if str_eq r "src" && ltb (length p) 5 then at r (p ++ ("x" ∷ [])) ∷ [] else []

abbrev chain_to : ℕ → String → List String → List Dir
chain_to zero r p = []
chain_to (suc n) r p =
    chain_below r p ++ (elim (chain_below r p) [ [] ↦ [] | _ ∷ _ ↦ chain_to n r (p ++ ("x" ∷ [])) ])

abbrev ls_chain : ListingOption → Order → Option ℤ → Dir → Result (DirListing Dir)
ls_chain option order (some (pos n)) d = ok (with_folders (chain_to n d.remote d.path))
ls_chain option order _ d = ok (with_folders (chain_to 1 d.remote d.path))

abbrev depths_put : ℤ → List ℕ
depths_put max_depth =
    map (λ d. length d.path)
      (diff_task same_order ls_chain 9 (at "src" []) (at "dst" []) max_depth normal).0

-- With a depth of 3 the folder at depth 4 is put, and those at depth 2 and 3 are put twice.
scan_depth_test : depths_put (pos 3) ≡ 1 ∷ 2 ∷ 3 ∷ 2 ∷ 3 ∷ 4 ∷ []
unfolding diff_task both_names put_if_missing put_missing_subtree depth_loop walk_runner_depth_first
scan_depth_test = refl

-- Without a limit each folder from depth 2 on is put twice.
scan_twice_test : depths_put (negsuc 0) ≡ 1 ∷ 2 ∷ 3 ∷ 4 ∷ 5 ∷ 2 ∷ 3 ∷ 4 ∷ 5 ∷ []
unfolding diff_task both_names put_if_missing put_missing_subtree depth_loop walk_runner_depth_first
scan_twice_test = refl

abbrev two_folders : String → List Dir
two_folders r = if str_eq r "src" then at r ("a" ∷ []) ∷ at r ("b" ∷ []) ∷ [] else []

abbrev ls_two : ListingOption → Order → Option ℤ → Dir → Result (DirListing Dir)
ls_two option order k d = ok (with_folders (ordered (same_order Dir) order (two_folders d.remote)))

-- The reversed names of a reversed listing are in the normal order.
scan_reversed_test :
    (diff_task same_order ls_two 2 (at "src" []) (at "dst" []) (pos 1) reversed).0
    ≡ two_folders "src"
unfolding diff_task both_names put_if_missing put_missing_subtree depth_loop walk_runner_depth_first
scan_reversed_test = refl

async_diff_dir_walk_task-IsMissing_example :
    (out : List Dir) × ((async_diff_dir_walk_task same_order ls_one 3
        (at "src" [])
        (at "dst" [])
        (negsuc 0)
        normal).0
      ≡ map some out ++ (none ∷ []))
    × All (IsMissing There (at "src" []) (at "dst" [])) out
async_diff_dir_walk_task-IsMissing_example =
    async_diff_dir_walk_task-IsMissing same_order ls_one There (λ A P xs h. h)
      (λ option order k d l h.
        subst (λ r. All (Listed There k d) (dirs_in r)) h (folders-Listed k d.remote d.path))
      (λ order k d l rel h some_name near there.
        subst (λ r. Memᴰ (d / rel) (dirs_in r)) h (all-folders d.remote d.path rel some_name there))
      (λ d p q there. above-append d.path p q d.remote there) 3 (at "src" []) (at "dst" [])
      (negsuc 0) normal

levels_below : (rel : List String) → There (at "src" [] / rel) → length rel < 2
levels_below [] there = omega arith
levels_below (s ∷ []) there = omega arith
levels_below (s ∷ t ∷ p) there = absurd (true≢false (sym there))

async_diff_dir_walk_task-finds_example :
    (enough : ℕ) × ((fuel : ℕ)
      → enough ≤ fuel
      → ((async_diff_dir_walk_task same_order ls_one fuel
            (at "src" [])
            (at "dst" [])
            (negsuc 0)
            normal).1
          ≡ ok tt)
        × ((rel : List String)
            → There (at "src" [] / rel)
            → (There (at "dst" [] / rel) → ⊥)
            → Memᴰ
                (some (at "src" [] / rel))
                (async_diff_dir_walk_task same_order ls_one fuel
                  (at "src" [])
                  (at "dst" [])
                  (negsuc 0)
                  normal).0))
async_diff_dir_walk_task-finds_example =
    async_diff_dir_walk_task-finds same_order ls_one There (λ A P xs h. h) (λ A x xs m. m)
      (λ d p q there. above-append d.path p q d.remote there)
      (λ option order k d other known. (
        with_folders (folders_in d.remote d.path),
        refl,
        folders-Listed k d.remote d.path,
        λ rel some_name near there. all-folders d.remote d.path rel some_name there,
      ))
      2 (at "src" []) (at "dst" []) normal refl refl levels_below
