-- ===== src/Grouping/Prefix.antt =====
-- group_files.py: the longest directory that files share. A path is the list of its parts.
use mathlib.Core.Path.{subst}
use rclone_kit.Base.{
  ℕ, zero, suc, ◌<◌, ◌≡◌, refl, sym, ap, ◌∙◌, String, Bool, true, false, ◌||◌, Option, none, some,
  List, [], ◌∷◌, ◌++◌, append_assoc, map, length, All, str_eq, eq_iff, if◌then◌else◌, ◌==◌, Result,
  ok, err, assertion_error, index_error, diverged, ◌>>=◌, >>=-eq-ok, arith,
}

-- `_get_prefix`
abbrev pub get_prefix : List String → Result (Option (String × List String))
get_prefix [] = err index_error
get_prefix (p ∷ []) = ok none
get_prefix (p ∷ q ∷ rest) = ok (some (p, q ∷ rest))

-- `prefix_set.add(p)`, for a set that is only asked for its size and its one element
abbrev pub add_to_set : String → List String → List String
add_to_set p [] = p ∷ []
add_to_set p (q ∷ qs) = let rest = add_to_set p qs in if str_eq q p then q ∷ qs else q ∷ rest

-- The first loop over the files: it stops at a file without a directory.
abbrev pub prefix_set : List (List String) → Result (List String)
prefix_set [] = ok []
prefix_set (file ∷ files) = do
  pair ← get_prefix file
  elim pair [ none ↦ ok [] | some (p, rest) ↦ (do ps ← prefix_set files; ok (add_to_set p ps)) ]

-- The second loop over the files, with its assertion.
abbrev pub stripped : List (List String) → Result (List (List String))
stripped [] = ok []
stripped (file ∷ files) = do
  pair ← get_prefix file
  elim pair [
    | none ↦ err assertion_error
    | some (p, rest) ↦ (do more ← stripped files; ok (rest ∷ more))
  ]

-- One turn of the `while`: it goes on with what is left of the files if the set has one element.
abbrev pub turn :
    (prefix : List String) (files : List (List String)) (rest : Result (List (List String)))
    (go_on : List String → List (List String) → Result (List String × List (List String)))
    → List String
    → Result (List String × List (List String))
turn prefix files rest go_on (p ∷ []) = rest >>= go_on (prefix ++ (p ∷ []))
turn prefix files rest go_on _ = ok (prefix, files)

-- `_common_prefix`; the prefix is the list of the directories that were added.
abbrev pub common_prefix :
    ℕ → List String → List (List String) → Result (List String × List (List String))
common_prefix zero prefix files = err diverged
common_prefix (suc fuel) prefix [] = ok (prefix, [])
common_prefix (suc fuel) prefix (file ∷ files) =
    prefix_set (file ∷ files)
    >>= turn prefix (file ∷ files) (stripped (file ∷ files)) (common_prefix fuel)

abbrev pub has_bare : List (List String) → Bool
has_bare [] = false
has_bare (file ∷ files) = (length file == 1) || has_bare files

abbrev pub IsPath : List String → Type 0
IsPath file = 0 < length file

-- How the files are taken apart: a prefix and what is left of each of them; or, where the files under
-- some prefix are not all in a directory, the failed assertion.
pub data Splits (files : List (List String))
    : Result (List String × List (List String)) → Type 0 where
  shares :
      (prefix : List String) (rest : List (List String))
      → map (λ (r : List String). prefix ++ r) rest ≡ files
      → Splits files (ok (prefix, rest))
  mixes :
      (prefix : List String) (rest : List (List String))
      → map (λ (r : List String). prefix ++ r) rest ≡ files
      → has_bare rest ≡ true
      → Splits files (err assertion_error)

abbrev AllAre : String → List String → Type 0
AllAre p = All (λ (q : String). q ≡ p)

add_to_set-AllAre :
    (p q : String) (ps : List String) → AllAre p (add_to_set q ps) → (q ≡ p) × AllAre p ps
add_to_set-AllAre p q [] h = (h.0, tt)
add_to_set-AllAre p q (x ∷ xs) h = pick (str_eq x q) (add_to_set-AllAre p q xs) refl h
  where
    pick :
        (b : Bool)
        → (AllAre p (add_to_set q xs) → (q ≡ p) × AllAre p xs)
        → str_eq x q ≡ b
        → AllAre p (if b then x ∷ xs else x ∷ add_to_set q xs)
        → (q ≡ p) × AllAre p (x ∷ xs)
    pick true ih e k = (sym ((eq_iff x q).0 e) ∙ k.0, k)
    pick false ih e k = let (same, others) = ih k.1 in (same, (k.0, others))

-- Every path has a part: the first loop raises nothing.
prefix_set_returns :
    (files : List (List String))
    → All IsPath files
    → (ps : List String) × (prefix_set files ≡ ok ps)
prefix_set_returns [] h = ([], refl)
prefix_set_returns ([] ∷ files) h = absurd (omega (arith, h.0))
prefix_set_returns ((p ∷ []) ∷ files) h = ([], refl)
prefix_set_returns ((p ∷ q ∷ rest) ∷ files) h =
    let (ps, e) = prefix_set_returns files h.1 in (add_to_set p ps, rw e refl)

-- Where the second loop ends, and where it fails.
data Strips (files : List (List String)) : Result (List (List String)) → Type 0 where
  strips :
      (rest : List (List String))
      → All IsPath rest
      → ((p : String) (ps : List String)
          → prefix_set files ≡ ok ps
          → AllAre p ps
          → map (λ (r : List String). p ∷ r) rest ≡ files)
      → Strips files (ok rest)
  fails : has_bare files ≡ true → Strips files (err assertion_error)

stripped-Strips : (files : List (List String)) → All IsPath files → Strips files (stripped files)
stripped-Strips [] h = strips [] tt (λ p ps e a. refl)
stripped-Strips ([] ∷ files) h = absurd (omega (arith, h.0))
stripped-Strips ((p ∷ []) ∷ files) h = fails refl
stripped-Strips ((p ∷ q ∷ r) ∷ files) h = with_rest (stripped files) (stripped-Strips files h.1)
  where
    with_rest :
        (out : Result (List (List String)))
        → Strips files out
        → Strips
            ((p ∷ q ∷ r) ∷ files)
            (out >>= (λ (more : List (List String)). ok ((q ∷ r) ∷ more)))
    with_rest (ok _) (strips rest paths heads) =
        strips ((q ∷ r) ∷ rest) (omega arith, paths)
          (λ p' ps e a.
            let (ps0, e0, e1) = >>=-eq-ok (prefix_set files) _ e in
            let sets : add_to_set p ps0 ≡ ps = cc in
            let (same, others) = add_to_set-AllAre p' p ps0 (subst (AllAre p') (sym sets) a) in
            let tails = heads p' ps0 e0 others in cc)
    with_rest (err _) (fails bare) = fails (ground (arith, bare))

-- The length of the first path.
abbrev pub depth : List (List String) → ℕ
depth [] = 0
depth (file ∷ files) = length file

map-append :
    (prefix : List String) (p : String) (rest : List (List String))
    → map (λ (r : List String). prefix ++ r) (map (λ (r : List String). p ∷ r) rest)
      ≡ map (λ (r : List String). (prefix ++ (p ∷ [])) ++ r) rest
map-append prefix p [] = refl
map-append prefix p (r ∷ rest) =
    let front = append_assoc prefix (p ∷ []) r in let back = map-append prefix p rest in cc

map-cons-depth :
    (p : String) (rest files : List (List String))
    → map (λ (r : List String). p ∷ r) rest ≡ files
    → 0 < depth files
    → depth rest < depth files
map-cons-depth p [] files h k = absurd (omega (arith, ap depth h))
map-cons-depth p (r ∷ rest) files h k = omega (arith, ap depth h)

-- One turn of the loop, if the rest of it is right.
turn-Splits :
    (fuel : ℕ) (prefix : List String) (files : List (List String)) (ps : List String)
    (out : Result (List (List String)))
    → 0 < depth files
    → ((p : List String) (rest : List (List String))
        → depth rest < depth files
        → All IsPath rest
        → Splits (map (λ (r : List String). p ++ r) rest) (common_prefix fuel p rest))
    → prefix_set files ≡ ok ps
    → Strips files out
    → Splits
        (map (λ (r : List String). prefix ++ r) files)
        (turn prefix files out (common_prefix fuel) ps)
turn-Splits fuel prefix files [] out k ih e st = shares prefix files refl
turn-Splits fuel prefix files (p ∷ q ∷ ps) out k ih e st = shares prefix files refl
turn-Splits fuel prefix files (p ∷ []) (ok left) k ih e (strips rest paths heads) =
    let tails = heads p (p ∷ []) e (refl, tt) in
    let front =
      ap (map (λ (r : List String). prefix ++ r)) (sym tails) ∙ map-append prefix p rest in
    subst (λ (fs : List (List String)). Splits fs (common_prefix fuel (prefix ++ (p ∷ [])) rest))
      (sym front) (ih (prefix ++ (p ∷ [])) rest (map-cons-depth p rest files tails k) paths)
turn-Splits fuel prefix files (p ∷ []) (err _) k ih e (fails bare) = mixes prefix files refl bare

-- Finding the common prefix of files, none of which is the empty path, comes to an end, with fuel above
-- the number of parts of the first one. The prefix in front of what is left of each file is that
-- file again, in the same order; or the assertion fails, and then the files are, with some prefix in
-- front of each, files one of which lies in no directory.
pub common_prefix-Splits :
    (fuel : ℕ) (prefix : List String) (files : List (List String))
    → depth files < fuel
    → All IsPath files
    → Splits (map (λ (r : List String). prefix ++ r) files) (common_prefix fuel prefix files)
common_prefix-Splits zero prefix files lt h = elim lt [ ]
common_prefix-Splits (suc fuel) prefix [] lt h = shares prefix [] refl
common_prefix-Splits (suc fuel) prefix (file ∷ files) lt h =
    let (ps, e) = prefix_set_returns (file ∷ files) h in
    subst
      (λ (set : Result (List String)).
        Splits (map (λ (r : List String). prefix ++ r) (file ∷ files))
          (set >>= turn prefix (file ∷ files) (stripped (file ∷ files)) (common_prefix fuel)))
      (sym e)
      (turn-Splits fuel prefix (file ∷ files) ps (stripped (file ∷ files)) h.0
        (λ p rest less paths. common_prefix-Splits fuel p rest (omega (arith, less, lt)) paths) e
        (stripped-Strips (file ∷ files) h))
