-- ===== src/Scan/Names.antt =====
-- scan_missing_folders.py: the names of a listing relative to its own root, and the test of a name.
use rclone_kit.Base.{
  Bool, true, false, List, [], ◌∷◌, ◌++◌, String, str_eq, eq_iff, ok, traverse, >>=-eq-ok, ◌>>=◌,
  All, keep, if◌then◌else◌, ◌≡◌, refl, ap, sym, ◌∙◌, ◌||◌, All-append,
}
use rclone_kit.Listing.{Order, ordered, normal, reversed, random}
use rclone_kit.Scan.{Dir, relative_path, relative_to, ◌/◌, same_path, in_dirs}
use mathlib.Core.Path.{subst}
use mathlib.Core.List.{Memᴰ, reverse, reverse-cons}
use mathlib.Core.List.Memᴰ.{head, tail}

pub str_eq_refl : (s : String) → str_eq s s ≡ true
str_eq_refl s = (eq_iff s s).1 refl

pub relative_path-append : (p rel : List String) → relative_path p (p ++ rel) ≡ ok rel
relative_path-append [] rel = refl
relative_path-append (s ∷ p) rel = rw (str_eq_refl s, relative_path-append p rel) refl

pub same_path_refl : (p : List String) → same_path p p ≡ true
same_path_refl [] = refl
same_path_refl (s ∷ p) = rw (str_eq_refl s, same_path_refl p) refl

pub in_dirs-Mem : (p : List String) (ps : List (List String)) → Memᴰ p ps → in_dirs p ps ≡ true
in_dirs-Mem p [] m = elim m [ ]
in_dirs-Mem p (q ∷ qs) (head e) = rw (sym e, same_path_refl p) refl
in_dirs-Mem p (q ∷ qs) (tail m) = rw (in_dirs-Mem p qs m) (||-true (same_path p q))
  where
    ||-true : (b : Bool) → (b || true) ≡ true
    ||-true true = refl
    ||-true false = refl

-- A list that was named: the name of its head, and those of the rest.
named_cons :
    (d : Dir) (ds : List Dir) (root : Dir) (names : List (List String))
    → traverse (λ x. relative_to x root) (d ∷ ds) ≡ ok names
    → (n : List String) × (ns : List (List String)) × (relative_to d root ≡ ok n)
      × (traverse (λ x. relative_to x root) ds ≡ ok ns)
      × (n ∷ ns ≡ names)
named_cons d ds root names h =
    let (n, e, h') =
      >>=-eq-ok (relative_to d root)
        (λ y. do ys ← traverse (λ x. relative_to x root) ds; ok (y ∷ ys)) h in
    let (ns, e', h'') = >>=-eq-ok (traverse (λ x. relative_to x root) ds) (λ ys. ok (n ∷ ys)) h' in
    (n, ns, e, e', cc)

-- The name of a directory below the root.
name_unique : (root : Dir) (rel n : List String) → relative_to (root / rel) root ≡ ok n → rel ≡ n
name_unique root rel n h = cc (h, relative_path-append root.path rel)

-- A directory of a listing has its name among the relative names.
pub relative_names-Mem :
    (l : List Dir) (root : Dir) (names : List (List String)) (rel : List String)
    → traverse (λ d. relative_to d root) l ≡ ok names
    → Memᴰ (root / rel) l
    → Memᴰ rel names
relative_names-Mem [] root names rel h m = elim m [ ]
relative_names-Mem (d ∷ ds) root names rel h (head e) =
    let (n, ns, e', k, q) = named_cons d ds root names h in
    subst (Memᴰ rel) q (head (name_unique root rel n (ap (λ x. relative_to x root) e ∙ e')))
relative_names-Mem (d ∷ ds) root names rel h (tail m) =
    let (n, ns, e', k, q) = named_cons d ds root names h in
    subst (Memᴰ rel) q (tail (relative_names-Mem ds root ns rel k m))

-- The names are those of the directories, when these are below the root.
pub relative_names-All :
    (P : List String → Type 0) (l : List Dir) (root : Dir) (names : List (List String))
    → traverse (λ d. relative_to d root) l ≡ ok names
    → All (λ x. (rel : List String) × (x ≡ (root / rel)) × P rel) l
    → All P names
relative_names-All P [] root names h a =
    let none_named : [] ≡ names = cc h in subst (All P) none_named tt
relative_names-All P (d ∷ ds) root names h ((rel, e, p), a) =
    let (n, ns, e', k, q) = named_cons d ds root names h in
    let same = name_unique root rel n (sym (ap (λ x. relative_to x root) e) ∙ e') in
    subst (All P) q (subst P same p, relative_names-All P ds root ns k a)

pub All-reverse {ℓ κ} : {A : Type ℓ} (P : A → Type κ) (xs : List A) → All P xs → All P (reverse xs)
All-reverse P [] h = tt
All-reverse P (x ∷ xs) h =
    subst (All P) (sym (reverse-cons x xs))
      (All-append P (reverse xs) (x ∷ []) (All-reverse P xs h.1) (h.0, tt))

-- What holds of all holds of all in another order.
pub ordered-All :
    {A : Type 0} (shuffle : List A → List A)
    → ((P : A → Type 0) (xs : List A) → All P xs → All P (shuffle xs))
    → (P : A → Type 0) (order : Order) (xs : List A) → All P xs
    → All P (ordered shuffle order xs)
ordered-All shuffle keeps P normal xs h = h
ordered-All shuffle keeps P reversed xs h = All-reverse P xs h
ordered-All shuffle keeps P random xs h = keeps P xs h

pub keep-All :
    {A : Type 0} (P : A → Type 0) (p : A → Bool) (xs : List A) → All P xs → All P (keep p xs)
keep-All P p [] h = tt
keep-All P p (x ∷ xs) h = pick (p x) (keep-All P p xs h.1)
  where
    pick : (b : Bool) → All P (keep p xs) → All P (if b then x ∷ keep p xs else keep p xs)
    pick true ih = (h.0, ih)
    pick false ih = ih
