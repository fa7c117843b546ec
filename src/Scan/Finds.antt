-- ===== src/Scan/Finds.antt =====
-- scan_missing_folders.py: a scan without a limit of depth ends and puts every missing folder.
use rclone_kit.Base.{
  ℕ, zero, suc, ◌+◌, ◌-◌, ◌≤◌, ◌<◌, true, false, List, [], ◌∷◌, ◌++◌, map, Option, none, some,
  String, Result, ok, All, length, ◌≡◌, ◌≢◌, refl, ap, sym, ◌∙◌, arith, ◌⊎◌, inl, inr, Bool-cases,
  keep, append-nil,
}
use rclone_kit.Base.Int.{ℤ, negsuc}
use rclone_kit.Listing.{DirListing, ListingOption, Order, files_only}
use rclone_kit.Walk.{put, with_sentinel}
use rclone_kit.Scan.{
  Dir, ◌/◌, in_dirs, Output, and_then, each, put_missing_subtree, both_names, put_if_missing,
  diff_task, async_diff_dir_walk_task,
}
use rclone_kit.Scan.Below.{Within, Listed, /-assoc}
use rclone_kit.Scan.Members.{Mem-front, Shallow, Shallow-below, at-root}
use rclone_kit.Scan.Walked.{Answers, put_missing_subtree-Finds}
use rclone_kit.Scan.Both.{names_of_both}
use rclone_kit.Scan.Loops.{
  Puts, FromEnough, and_then-Puts, each-Puts, in_dirs-All, Mem-keep, keep-true,
}
use mathlib.Core.Path.{subst}
use mathlib.Core.Bool.{true≢false}
use mathlib.Core.List.{Memᴰ}
use mathlib.Core.List.Memᴰ.{head, tail}

module _ (shuffle : (A : Type 0) → List A → List A)
    (ls : ListingOption → Order → Option ℤ → Dir → Result (DirListing Dir)) (exists : Dir → Type 0)
    (keeps : (A : Type 0) (P : A → Type 0) (xs : List A) → All P xs → All P (shuffle A xs))
    (keeps_each : (A : Type 0) (x : A) (xs : List A) → Memᴰ x xs → Memᴰ x (shuffle A xs))
    (closed : (d : Dir) (p q : List String) → exists (d / (p ++ q)) → exists (d / p))
    (answers : Answers exists ls) where
  -- What the scan is to find
  abbrev pub Lacks : Dir → Dir → Dir → Type 0
  Lacks src dst x =
      (rel : List String) × (rel ≢ []) × (x ≡ (src / rel)) × exists x × (exists (dst / rel) → ⊥)

  -- What is to be put for a name that `dst_dirs` lacks
  abbrev Apart : Dir → List (List String) → List String → Dir → Type 0
  Apart src dst_dirs name x =
      (in_dirs name dst_dirs ≡ false) × (q : List String) × (x ≡ ((src / name) / q)) × exists x

  -- A missing directory is put, and then what is below it.
  put-Puts :
      (src : Dir) (dst_dirs : List (List String)) (name : List String) (o : Output)
      → o.1 ≡ ok tt
      → ((rel : List String)
          → rel ≢ []
          → exists ((src / name) / rel)
          → Memᴰ ((src / name) / rel) o.0)
      → Puts (Apart src dst_dirs name) (put (src / name) o)
  put-Puts src dst_dirs name (out, r) ends found = (ends, at)
    where
      at : (x : Dir) → Apart src dst_dirs name x → Memᴰ x ((src / name) ∷ out)
      at x (missed, [], is, there) =
          head (is ∙ ap (λ p. record src { path = p }) (append-nil (src / name).path))
      at x (missed, s ∷ q, is, there) =
          subst (λ y. Memᴰ y ((src / name) ∷ out)) (sym is)
            (tail (found (s ∷ q) (λ e. cc) (subst exists is there)))

  put_if_missing-missed :
      (fuel : ℕ) (src : Dir) (dst_dirs : List (List String)) (order : Order) (name : List String)
      → in_dirs name dst_dirs ≡ false
      → put_if_missing shuffle ls fuel src dst_dirs (negsuc 0) order name
        ≡ put (src / name) (put_missing_subtree shuffle ls fuel (src / name) (negsuc 0) order)
  unfolding put_if_missing
  put_if_missing-missed fuel src dst_dirs order name missed = rw (missed, put_if_missing) refl

  put_if_missing-Puts :
      (n : ℕ) (src : Dir) (dst_dirs : List (List String)) (order : Order) (name : List String)
      → Shallow exists src (suc n)
      → (name ≢ []) × exists (src / name)
      → FromEnough (λ fuel.
        Puts
          (Apart src dst_dirs name)
          (put_if_missing shuffle ls fuel src dst_dirs (negsuc 0) order name))
  unfolding put_if_missing
  put_if_missing-Puts n src dst_dirs order name deep (some_name, known) =
      elim (Bool-cases (in_dirs name dst_dirs)) [
        | inl found ↦
            (0, λ fuel k. rw (found, put_if_missing) (refl, λ x c. absurd (true≢false c.0)))
        | inr missed ↦
            let (enough, finds) =
              put_missing_subtree-Finds shuffle ls exists keeps keeps_each closed answers n
                (src / name) order known (Shallow-below exists src name n some_name deep) in
            (
              enough,
              λ fuel k.
                  let (ends, found) = finds fuel k in
                  subst (Puts (Apart src dst_dirs name))
                    (sym (put_if_missing-missed fuel src dst_dirs order name missed))
                    (put-Puts src dst_dirs name
                      (put_missing_subtree shuffle ls fuel (src / name) (negsuc 0) order) ends
                      found),
            )
      ]

  -- What the rounds of both loops are to put
  abbrev Due : Dir → Dir → List (List String) → List (List String) → Dir → Type 0
  Due src dst src_dirs dst_dirs x =
      ((name : List String) × Memᴰ name src_dirs × Apart src dst_dirs name x)
      ⊎ ((name : List String) × Memᴰ name (keep (λ n. in_dirs n dst_dirs) src_dirs)
          × Lacks (src / name) (dst / name) x)

  -- What is missing is below a listed name, in one of the two loops.
  listed-Due :
      (src dst : Dir) (src_dirs dst_dirs : List (List String)) (x : Dir) (p q : List String)
      → All (λ n. (n ≢ []) × exists (dst / n)) dst_dirs
      → Memᴰ p src_dirs
      → x ≡ (src / (p ++ q))
      → exists x
      → (exists (dst / (p ++ q)) → ⊥)
      → Due src dst src_dirs dst_dirs x
  listed-Due src dst src_dirs dst_dirs x p q there m is known lacks =
      elim (Bool-cases (in_dirs p dst_dirs)) [
        | inr missed ↦ inl (p, m, (missed, q, is ∙ sym (/-assoc src p q), known))
        | inl found ↦ inr (
          p,
          Mem-keep (λ n. in_dirs n dst_dirs) p src_dirs m found,
          (
            q,
            some_more q lacks found,
            is ∙ sym (/-assoc src p q),
            known,
            λ e. lacks (subst exists (/-assoc dst p q) e),
          ),
        )
      ]
    where
      some_more :
          (r : List String) → (exists (dst / (p ++ r)) → ⊥) → in_dirs p dst_dirs ≡ true → r ≢ []
      some_more r none_there found e = none_there (
          subst (λ t. exists (dst / (p ++ t))) (sym e)
            (subst (λ t. exists (dst / t)) (sym (append-nil p))
              (in_dirs-All (λ n. (n ≢ []) × exists (dst / n)) p dst_dirs there found).1))

  Lacks-Due :
      (src dst : Dir) (src_dirs dst_dirs : List (List String)) (x : Dir)
      → All (λ n. (n ≢ []) × exists (dst / n)) dst_dirs
      → ((p : List String) → p ≢ [] → length p ≤ 2 → exists (src / p) → Memᴰ p src_dirs)
      → Lacks src dst x
      → Due src dst src_dirs dst_dirs x
  Lacks-Due src dst src_dirs dst_dirs x there all ([], some_name, is, known, lacks) =
      absurd (some_name refl)
  Lacks-Due src dst src_dirs dst_dirs x there all (s ∷ [], some_name, is, known, lacks) =
      listed-Due src dst src_dirs dst_dirs x (s ∷ []) [] there
        (all (s ∷ []) some_name (omega arith) (subst exists is known)) is known lacks
  Lacks-Due src dst src_dirs dst_dirs x there all (s ∷ t ∷ q, some_name, is, known, lacks) =
      listed-Due src dst src_dirs dst_dirs x (s ∷ t ∷ []) q there
        (all (s ∷ t ∷ []) (λ e. cc) (omega arith)
          (closed src (s ∷ t ∷ []) q (subst exists is known)))
        is known lacks

  diff_task-eq :
      (fuel : ℕ) (src dst : Dir) (order : Order) (src_dirs dst_dirs : List (List String))
      → both_names shuffle ls src dst (negsuc 0) order ≡ ok (src_dirs, dst_dirs)
      → diff_task shuffle ls (suc fuel) src dst (negsuc 0) order
        ≡ and_then (each (put_if_missing shuffle ls fuel src dst_dirs (negsuc 0) order) src_dirs) (
            each
              (λ name. diff_task shuffle ls fuel (src / name) (dst / name) (negsuc 0) order)
              (keep (λ name. in_dirs name dst_dirs) src_dirs))
  unfolding diff_task
  diff_task-eq fuel src dst order src_dirs dst_dirs both = rw (both, diff_task) refl

  pub diff_task-Puts :
      (n : ℕ) (src dst : Dir) (order : Order)
      → exists src
      → exists dst
      → Shallow exists src n
      → FromEnough
          (λ fuel. Puts (Lacks src dst) (diff_task shuffle ls fuel src dst (negsuc 0) order))
  diff_task-Puts zero src dst order from to deep =
      absurd (omega (arith, deep [] (at-root exists src from)))
  diff_task-Puts (suc n) src dst order from to deep =
      let (src_dirs, dst_dirs, both, there, there', all) =
        names_of_both shuffle ls exists keeps keeps_each closed answers src dst order from to in
      let (k1, first) =
        each-Puts (λ name. (name ≢ []) × exists (src / name)) (Apart src dst_dirs)
          (λ fuel. put_if_missing shuffle ls fuel src dst_dirs (negsuc 0) order)
          (λ name known. put_if_missing-Puts n src dst_dirs order name deep known) src_dirs there in
      let (k2, second) =
        each-Puts (λ name. ((name ≢ []) × exists (src / name)) × (in_dirs name dst_dirs ≡ true))
          (λ name. Lacks (src / name) (dst / name))
          (λ fuel name. diff_task shuffle ls fuel (src / name) (dst / name) (negsuc 0) order)
          (λ name ((some_name, known), found).
            diff_task-Puts n (src / name) (dst / name) order known
              (in_dirs-All (λ n. (n ≢ []) × exists (dst / n)) name dst_dirs there' found).1
              (Shallow-below exists src name n some_name deep))
          (keep (λ name. in_dirs name dst_dirs) src_dirs)
          (keep-true (λ name. (name ≢ []) × exists (src / name)) (λ name. in_dirs name dst_dirs)
            src_dirs there) in
      (
        suc (k1 + k2),
        λ fuel large.
            let one_round : fuel ≡ suc (fuel - 1) = omega arith in
            let run =
              ap (λ f. diff_task shuffle ls f src dst (negsuc 0) order) one_round
              ∙ diff_task-eq (fuel - 1) src dst order src_dirs dst_dirs both in
            let (ends, found) =
              and_then-Puts
                (λ x. (name : List String) × Memᴰ name src_dirs × Apart src dst_dirs name x)
                (λ x.
                  (name : List String) × Memᴰ name (keep (λ n. in_dirs n dst_dirs) src_dirs)
                  × Lacks (src / name) (dst / name) x)
                (each (put_if_missing shuffle ls (fuel - 1) src dst_dirs (negsuc 0) order) src_dirs)
                (each
                  (λ name.
                    diff_task shuffle ls (fuel - 1) (src / name) (dst / name) (negsuc 0) order)
                  (keep (λ name. in_dirs name dst_dirs) src_dirs))
                (first (fuel - 1) (omega arith)) (second (fuel - 1) (omega arith)) in
            subst (Puts (Lacks src dst)) (sym run) (
              ends,
              λ x lacking. found x (Lacks-Due src dst src_dirs dst_dirs x there' all lacking),
            ),
      )

Mem-with_sentinel : (x : Dir) (o : Output) → Memᴰ x o.0 → Memᴰ (some x) (with_sentinel o).0
Mem-with_sentinel x (out, r) m = Mem-front (some x) (map some out) (none ∷ []) (Mem-map out m)
  where
    Mem-map : (ys : List Dir) → Memᴰ x ys → Memᴰ (some x) (map some ys)
    Mem-map [] m' = elim m' [ ]
    Mem-map (y ∷ ys) (head e) = head (ap some e)
    Mem-map (y ∷ ys) (tail m') = tail (Mem-map ys m')

-- If every listing of an existing directory, other than of files only, answers with existing
-- directories below it and with all of those within its depth, those above a directory exist, a
-- shuffle keeps what is shuffled, source and destination exist, and nothing below the source is
-- `levels` deep, then there is a fuel from which on the task without a limit of depth returns, and
-- puts every directory below `src` that exists and has none in its place below `dst`.
pub async_diff_dir_walk_task-finds :
    (shuffle : (A : Type 0) → List A → List A)
    (ls : ListingOption → Order → Option ℤ → Dir → Result (DirListing Dir)) (exists : Dir → Type 0)
    → ((A : Type 0) (P : A → Type 0) (xs : List A) → All P xs → All P (shuffle A xs))
    → ((A : Type 0) (x : A) (xs : List A) → Memᴰ x xs → Memᴰ x (shuffle A xs))
    → ((d : Dir) (p q : List String) → exists (d / (p ++ q)) → exists (d / p))
    → ((option : ListingOption) (order : Order) (k : Option ℤ) (d : Dir)
        → option ≢ files_only
        → exists d
        → (l : DirListing Dir) × (ls option order k d ≡ ok l)
          × All (Listed exists k d) l.dirs
          × ((rel : List String)
              → rel ≢ []
              → Within k (length rel)
              → exists (d / rel)
              → Memᴰ (d / rel) l.dirs))
    → (levels : ℕ) (src dst : Dir) (order : Order) → exists src
    → exists dst
    → ((rel : List String) → exists (src / rel) → length rel < levels)
    → (enough : ℕ) × ((fuel : ℕ)
        → enough ≤ fuel
        → ((async_diff_dir_walk_task shuffle ls fuel src dst (negsuc 0) order).1 ≡ ok tt)
          × ((rel : List String)
              → exists (src / rel)
              → (exists (dst / rel) → ⊥)
              → Memᴰ
                  (some (src / rel))
                  (async_diff_dir_walk_task shuffle ls fuel src dst (negsuc 0) order).0))
unfolding async_diff_dir_walk_task
async_diff_dir_walk_task-finds shuffle ls exists keeps keeps_each closed answers levels src dst
      order from to deep =
    let (enough, puts) =
      diff_task-Puts shuffle ls exists keeps keeps_each closed answers levels src dst order from to
        deep in
    (
      enough,
      λ fuel large.
          let (ends, found) = puts fuel large in
          (
            ends,
            λ rel there lacks.
                Mem-with_sentinel (src / rel) (diff_task shuffle ls fuel src dst (negsuc 0) order) (
                  found (src / rel) (
                    rel,
                    λ e. lacks (subst (λ r. exists (dst / r)) (sym e) (at-root exists dst to)),
                    refl,
                    there,
                    lacks,
                  )),
          ),
    )
