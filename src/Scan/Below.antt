-- ===== src/Scan/Below.antt =====
-- scan_missing_folders.py: the directories that a walk lists, what the task promises of a folder, and
-- what holds of all that is put.
use rclone_kit.Base.{
  ℕ, zero, suc, ◌≤◌, List, [], ◌∷◌, ◌++◌, map, Option, none, some, String, Result, ok, err, All,
  All-append, length, append_assoc, ◌≡◌, ◌≢◌, ap, inl, inr, Result-cases,
}
use rclone_kit.Base.Int.{ℤ, pos, negsuc}
use rclone_kit.Listing.{DirListing}
use rclone_kit.Walk.{descend, depth_loop}
use rclone_kit.Scan.{Dir, ◌/◌, Output, and_then, each, dirs_of}

pub descend-All :
    {E : Type 0} (P : E → Type 0) (depth : ℤ) (dirs : List E)
    → All P dirs
    → All (λ x. P x.0) (descend depth dirs)
descend-All P (pos zero) dirs h = tt
descend-All P (pos (suc n)) [] h = tt
descend-All P (pos (suc n)) (d ∷ dirs) h = (h.0, descend-All P (pos (suc n)) dirs h.1)
descend-All P (negsuc n) [] h = tt
descend-All P (negsuc n) (d ∷ dirs) h = (h.0, descend-All P (negsuc n) dirs h.1)

-- What goes from a directory to those listed in it holds of all that a walk lists.
pub depth_loop-All :
    {E : Type 0} (ls : E → Result (DirListing E)) (P : E → Type 0)
    → ((d : E) (l : DirListing E) → ls d ≡ ok l → P d → All P l.dirs)
    → (fuel : ℕ) (stack : List (E × ℤ)) → All (λ x. P x.0) stack
    → All (λ l. All P l.dirs) (depth_loop ls fuel stack).0
unfolding depth_loop
depth_loop-All ls P below zero [] h = tt
depth_loop-All ls P below (suc fuel) [] h = tt
depth_loop-All ls P below zero (x ∷ stack) h = tt
depth_loop-All ls P below (suc fuel) ((d, depth) ∷ stack) h = elim (Result-cases (ls d)) [
  | inl (e, raised) ↦ rw (raised, depth_loop) tt
  | inr (l, listed) ↦
      rw (listed, depth_loop)
        (
          below d l listed h.0,
          depth_loop-All ls P below fuel (descend depth l.dirs ++ stack) (
              All-append (λ x. P x.0) (descend depth l.dirs) stack
                (descend-All P depth l.dirs (below d l listed h.0)) h.1),
        )
]

pub dirs_of-All :
    (P : Dir → Type 0) (ls : List (DirListing Dir))
    → All (λ l. All P l.dirs) ls
    → All P (dirs_of (map some ls ++ (none ∷ [])))
dirs_of-All P [] h = tt
dirs_of-All P (l ∷ ls) h =
    All-append P l.dirs (dirs_of (map some ls ++ (none ∷ []))) h.0 (dirs_of-All P ls h.1)

-- Lists the paths so many levels down as `max_depth` allows.
abbrev pub Within : Option ℤ → ℕ → Type 0
Within none n = n ≤ 1
Within (some (pos zero)) n = n ≤ 1
Within (some (pos (suc d))) n = n ≤ suc d
Within (some (negsuc d)) n = Unit

module _ (exists : Dir → Type 0) where
  -- A directory in a listing of `d`
  abbrev pub Listed : Option ℤ → Dir → Dir → Type 0
  Listed max_depth d x =
      (rel : List String) × (rel ≢ []) × (x ≡ (d / rel)) × exists x × Within max_depth (length rel)

  -- A directory under `src`, and none in its place under `dst`
  abbrev pub IsMissing : Dir → Dir → Dir → Type 0
  IsMissing src dst x =
      (rel : List String) × (x ≡ (src / rel)) × exists x × (exists (dst / rel) → ⊥)

pub /-assoc : (d : Dir) (p q : List String) → ((d / p) / q) ≡ (d / (p ++ q))
/-assoc d p q = ap (λ path. record d { path = path }) (append_assoc d.path p q)

pub and_then-All :
    (P : Dir → Type 0) (o next : Output) → All P o.0 → All P next.0 → All P (and_then o next).0
and_then-All P (out, err e) next h k = h
and_then-All P (out, ok _) (more, r) h k = All-append P out more h k

pub each-All :
    (P : Dir → Type 0) (Q : List String → Type 0) (f : List String → Output)
    → ((name : List String) → Q name → All P (f name).0)
    → (names : List (List String)) → All Q names
    → All P (each f names).0
each-All P Q f one [] h = tt
each-All P Q f one (name ∷ names) h =
    and_then-All P (f name) (each f names) (one name h.0) (each-All P Q f one names h.1)
