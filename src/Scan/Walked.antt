-- ===== src/Scan/Walked.antt =====
-- scan_missing_folders.py: a walk without a limit of depth ends, and all below its root is in it.
use rclone_kit.Base.{
  ℕ, zero, suc, ◌+◌, ◌-◌, ◌≤◌, List, [], ◌∷◌, ◌++◌, map, Option, none, some, String, Result, ok,
  All, All-map, length, append_assoc, ◌≡◌, ◌≢◌, refl, ap, sym, ◌∙◌, arith,
}
use rclone_kit.Base.Int.{ℤ, negsuc}
use rclone_kit.Listing.{DirListing, ListingOption, Order, ordered, all_entries, files_only, normal}
use rclone_kit.Walk.{descend, put, depth_loop, reordered, walk_runner_depth_first}
use rclone_kit.Scan.{Dir, ◌/◌, dirs_of, ls_all, put_missing_subtree}
use rclone_kit.Scan.Below.{Within, Listed, /-assoc}
use rclone_kit.Scan.Names.{ordered-All}
use mathlib.Core.Path.{subst}
use mathlib.Core.List.{Memᴰ}
use mathlib.Core.List.Memᴰ.{head, tail}
use rclone_kit.Scan.Members.{Mem-front, Mem-back, Mem-ordered, Shallow, at-root, Shallow-below}

-- The listings put before what is put later.
abbrev before :
    List (DirListing Dir)
    → List (DirListing Dir) × Result (Unit {0})
    → List (DirListing Dir) × Result (Unit {0})
before [] out = out
before (l ∷ ls) out = put l (before ls out)

before-append :
    (ls ms : List (DirListing Dir)) (out : List (DirListing Dir) × Result (Unit {0}))
    → before (ls ++ ms) out ≡ before ls (before ms out)
before-append [] ms out = refl
before-append (l ∷ ls) ms out = ap (put l) (before-append ls ms out)

before-nothing : (ls : List (DirListing Dir)) → before ls ([], ok tt) ≡ (ls, ok tt)
before-nothing [] = refl
before-nothing (l ∷ ls) = ap (put l) (before-nothing ls)

abbrev all_dirs : List (DirListing Dir) → List Dir
all_dirs [] = []
all_dirs (l ∷ ls) = l.dirs ++ all_dirs ls

all_dirs-append : (ls ms : List (DirListing Dir)) → all_dirs (ls ++ ms) ≡ all_dirs ls ++ all_dirs ms
all_dirs-append [] ms = refl
all_dirs-append (l ∷ ls) ms =
    ap (λ ds. l.dirs ++ ds) (all_dirs-append ls ms)
    ∙ sym (append_assoc l.dirs (all_dirs ls) (all_dirs ms))

module _ (exists : Dir → Type 0) (ls : Dir → Result (DirListing Dir))
    (closed : (d : Dir) (p q : List String) → exists (d / (p ++ q)) → exists (d / p))
    (answers : (d : Dir)
      → exists d
      → (l : DirListing Dir) × (ls d ≡ ok l)
        × All (Listed exists none d) l.dirs
        × ((s : String) → exists (d / (s ∷ [])) → Memᴰ (d / (s ∷ [])) l.dirs)) where
  -- What is below one of the directories is in the listings.
  abbrev Covers : List Dir → List (DirListing Dir) → Type 0
  Covers xs items =
      (x : Dir) (rel : List String)
      → Memᴰ x xs
      → rel ≢ []
      → exists (x / rel)
      → Memᴰ (x / rel) (all_dirs items)

  -- The loop takes `fuel` to walk all that is below the directories, and goes on with the stack.
  abbrev Walks : List Dir → Type 0
  Walks xs =
      (fuel : ℕ) × (items : List (DirListing Dir)) × ((more : ℕ) (stack : List (Dir × ℤ))
        → depth_loop ls (fuel + more) (descend (negsuc 0) xs ++ stack)
          ≡ before items (depth_loop ls more stack))
      × Covers xs items

  Walks-All :
      (P : Dir → Type 0)
      → ((d : Dir) → P d → Walks (d ∷ []))
      → (xs : List Dir) → All P xs
      → Walks xs
  Walks-All P one [] h = (
    0,
    [],
    λ more stack.
        ap (λ fuel. depth_loop ls fuel stack)
          (let none_yet : 0 + more ≡ more = omega arith in none_yet),
    λ x rel m some_name there. elim m [ ],
  )
  Walks-All P one (d ∷ xs) h =
      let (n, items, run, finds) = one d h.0 in
      let (k, rest, runs, founds) = Walks-All P one xs h.1 in
      (
        n + k,
        items ++ rest,
        λ more stack.
            ap (λ fuel. depth_loop ls fuel (descend (negsuc 0) (d ∷ xs) ++ stack))
              (let assoc : (n + k) + more ≡ n + (k + more) = omega arith in assoc)
            ∙ run (k + more) (descend (negsuc 0) xs ++ stack)
            ∙ ap (before items) (runs more stack)
            ∙ sym (before-append items rest (depth_loop ls more stack)),
        λ x rel m some_name there.
            subst (Memᴰ (x / rel)) (sym (all_dirs-append items rest)) (elim m [
              | head e ↦
                  Mem-front (x / rel) (all_dirs items) (all_dirs rest)
                    (finds x rel (head e) some_name there)
              | tail m' ↦
                  Mem-back (x / rel) (all_dirs items) (all_dirs rest)
                    (founds x rel m' some_name there)
            ]),
      )

  depth_step :
      (d : Dir) (l : DirListing Dir) (fuel : ℕ) (stack : List (Dir × ℤ))
      → ls d ≡ ok l
      → depth_loop ls (suc fuel) ((d, negsuc 0) ∷ stack)
        ≡ put l (depth_loop ls fuel (descend (negsuc 0) l.dirs ++ stack))
  unfolding depth_loop
  depth_step d l fuel stack given = rw (given, depth_loop) refl

  pub Walks-one : (n : ℕ) (d : Dir) → exists d → Shallow exists d n → Walks (d ∷ [])
  Walks-one zero d known h = absurd (omega (arith, h [] (at-root exists d known)))
  Walks-one (suc n) d known h =
      let (l, given, listed, lists) = answers d known in
      let (k, items, run, finds) =
        Walks-All (λ x. exists x × Shallow exists x n) (λ x u. Walks-one n x u.0 u.1) l.dirs
          (All-map (Listed exists none d) (λ x. exists x × Shallow exists x n) l.dirs
            (λ x (rel, some_name, is, there, near). (
              there,
              subst (λ e. Shallow exists e n) (sym is) (Shallow-below exists d rel n some_name h),
            ))
            listed) in
      (
        suc k,
        l ∷ items,
        λ more stack.
            ap (λ fuel. depth_loop ls fuel ((d, negsuc 0) ∷ stack))
              (let one_more : suc k + more ≡ suc (k + more) = omega arith in one_more)
            ∙ depth_step d l (k + more) stack given
            ∙ ap (put l) (run more stack),
        λ x rel m some_name there. covers l.dirs items finds lists x rel m some_name there,
      )
    where
      covers :
          (dirs : List Dir) (items : List (DirListing Dir))
          → Covers dirs items
          → ((s : String) → exists (d / (s ∷ [])) → Memᴰ (d / (s ∷ [])) dirs)
          → (x : Dir) (rel : List String) → Memᴰ x (d ∷ [])
          → rel ≢ []
          → exists (x / rel)
          → Memᴰ (x / rel) (dirs ++ all_dirs items)
      covers dirs items finds lists x rel (tail m) some_name there = elim m [ ]
      covers dirs items finds lists x [] (head e) some_name there = absurd (some_name refl)
      covers dirs items finds lists x (s ∷ []) (head e) some_name there =
          Mem-front (x / (s ∷ [])) dirs (all_dirs items) (
            subst (λ y. Memᴰ (y / (s ∷ [])) dirs) (sym e)
              (lists s (subst (λ y. exists (y / (s ∷ []))) e there)))
      covers dirs items finds lists x (s ∷ t ∷ q) (head e) some_name there =
          let within = subst (λ y. exists (y / (s ∷ t ∷ q))) e there in
          let child = d / (s ∷ []) in
          let apart = sym (/-assoc d (s ∷ []) (t ∷ q)) in
          Mem-back (x / (s ∷ t ∷ q)) dirs (all_dirs items) (
            subst (λ y. Memᴰ y (all_dirs items)) (sym apart ∙ ap (λ y. y / (s ∷ t ∷ q)) (sym e))
              (finds child (t ∷ q) (lists s (closed d (s ∷ []) (t ∷ q) within)) (λ z. cc)
                (subst exists apart within)))

dirs_of-all_dirs : (ls : List (DirListing Dir)) → dirs_of (map some ls ++ (none ∷ [])) ≡ all_dirs ls
dirs_of-all_dirs [] = refl
dirs_of-all_dirs (l ∷ ls) = ap (λ ds. l.dirs ++ ds) (dirs_of-all_dirs ls)

-- What a listing answers that is not of files only.
abbrev pub Answers :
    (Dir → Type 0) → (ListingOption → Order → Option ℤ → Dir → Result (DirListing Dir)) → Type 0
Answers exists ls =
    (option : ListingOption) (order : Order) (k : Option ℤ) (d : Dir)
    → option ≢ files_only
    → exists d
    → (l : DirListing Dir) × (ls option order k d ≡ ok l)
      × All (Listed exists k d) l.dirs
      × ((rel : List String)
          → rel ≢ []
          → Within k (length rel)
          → exists (d / rel)
          → Memᴰ (d / rel) l.dirs)

module _ (shuffle : (A : Type 0) → List A → List A)
    (ls : ListingOption → Order → Option ℤ → Dir → Result (DirListing Dir)) (exists : Dir → Type 0)
    (keeps : (A : Type 0) (P : A → Type 0) (xs : List A) → All P xs → All P (shuffle A xs))
    (keeps_each : (A : Type 0) (x : A) (xs : List A) → Memᴰ x xs → Memᴰ x (shuffle A xs))
    (closed : (d : Dir) (p q : List String) → exists (d / (p ++ q)) → exists (d / p))
    (answers : Answers exists ls) where
  walk_answers :
      (order : Order) (d : Dir)
      → exists d
      → (l : DirListing Dir) × (reordered (shuffle Dir) order (ls_all shuffle ls normal d) ≡ ok l)
        × All (Listed exists none d) l.dirs
        × ((s : String) → exists (d / (s ∷ [])) → Memᴰ (d / (s ∷ [])) l.dirs)
  walk_answers order d known =
      let (l, given, listed, lists) = answers all_entries normal none d (λ e. cc) known in
      (
        record l { dirs = ordered (shuffle Dir) order l.dirs },
        ap (reordered (shuffle Dir) order) given,
        ordered-All (shuffle Dir) (keeps Dir) (Listed exists none d) order l.dirs listed,
        λ s there.
            Mem-ordered (shuffle Dir) (keeps_each Dir) order (d / (s ∷ [])) l.dirs
              (lists (s ∷ []) (λ e. cc) one_level there),
      )
    where
      one_level : 1 ≤ 1
      one_level = omega arith

  pub put_missing_subtree-Finds :
      (n : ℕ) (root : Dir) (order : Order)
      → exists root
      → Shallow exists root n
      → (enough : ℕ) × ((fuel : ℕ)
          → enough ≤ fuel
          → ((put_missing_subtree shuffle ls fuel root (negsuc 0) order).1 ≡ ok tt)
            × ((rel : List String)
                → rel ≢ []
                → exists (root / rel)
                → Memᴰ (root / rel) (put_missing_subtree shuffle ls fuel root (negsuc 0) order).0))
  unfolding put_missing_subtree walk_runner_depth_first depth_loop
  put_missing_subtree-Finds n root order known deep =
      let (enough, items, run, finds) =
        Walks-one exists (λ d. reordered (shuffle Dir) order (ls_all shuffle ls normal d)) closed
          (walk_answers order) n root known deep in
      (
        enough,
        λ fuel h.
            let split : fuel ≡ enough + (fuel - enough) = omega arith in
            let done =
              ap
                (λ f.
                  depth_loop (λ d. reordered (shuffle Dir) order (ls_all shuffle ls normal d)) f
                    ((root, negsuc 0) ∷ []))
                split
              ∙ run (fuel - enough) []
              ∙ before-nothing items in
            (
              rw done refl,
              λ rel some_name there.
                  rw (done, dirs_of-all_dirs items) (finds root rel (head refl) some_name there),
            ),
      )
