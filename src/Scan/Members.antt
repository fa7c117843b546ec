-- ===== src/Scan/Members.antt =====
-- scan_missing_folders.py: what is in a list, and how deep directories lie.
use rclone_kit.Base.{
  ℕ, suc, ◌<◌, List, [], ◌∷◌, ◌++◌, String, All, length, length-append, append-nil, ◌≢◌, refl, sym,
  arith,
}
use rclone_kit.Listing.{Order, ordered, normal, reversed, random}
use rclone_kit.Scan.{Dir, ◌/◌}
use rclone_kit.Scan.Below.{/-assoc}
use mathlib.Core.Path.{subst}
use mathlib.Core.List.{Memᴰ, reverse, reverse-cons}
use mathlib.Core.List.Memᴰ.{head, tail}

module _ {A : Type 0} where
  pub Mem-front : (x : A) (xs ys : List A) → Memᴰ x xs → Memᴰ x (xs ++ ys)
  Mem-front x [] ys m = elim m [ ]
  Mem-front x (y ∷ xs) ys (head e) = head e
  Mem-front x (y ∷ xs) ys (tail m) = tail (Mem-front x xs ys m)

  pub Mem-back : (x : A) (xs ys : List A) → Memᴰ x ys → Memᴰ x (xs ++ ys)
  Mem-back x [] ys m = m
  Mem-back x (y ∷ xs) ys m = tail (Mem-back x xs ys m)

  Mem-reverse : (x : A) (xs : List A) → Memᴰ x xs → Memᴰ x (reverse xs)
  Mem-reverse x [] m = elim m [ ]
  Mem-reverse x (y ∷ xs) (head e) =
      subst (Memᴰ x) (sym (reverse-cons y xs)) (Mem-back x (reverse xs) (y ∷ []) (head e))
  Mem-reverse x (y ∷ xs) (tail m) =
      subst (Memᴰ x) (sym (reverse-cons y xs))
        (Mem-front x (reverse xs) (y ∷ []) (Mem-reverse x xs m))

  pub Mem-ordered :
      (shuffle : List A → List A)
      → ((x : A) (xs : List A) → Memᴰ x xs → Memᴰ x (shuffle xs))
      → (order : Order) (x : A) (xs : List A) → Memᴰ x xs
      → Memᴰ x (ordered shuffle order xs)
  Mem-ordered shuffle keeps normal x xs m = m
  Mem-ordered shuffle keeps reversed x xs m = Mem-reverse x xs m
  Mem-ordered shuffle keeps random x xs m = keeps x xs m

  pub All-Mem : (P : A → Type 0) (x : A) (xs : List A) → All P xs → Memᴰ x xs → P x
  All-Mem P x [] h m = elim m [ ]
  All-Mem P x (y ∷ xs) h (head e) = subst P (sym e) h.0
  All-Mem P x (y ∷ xs) h (tail m) = All-Mem P x xs h.1 m

-- Nothing below `d` is as many levels down as `n`.
abbrev pub Shallow : (Dir → Type 0) → Dir → ℕ → Type 0
Shallow exists d n = (rel : List String) → exists (d / rel) → length rel < n

pub at-root : (exists : Dir → Type 0) (d : Dir) → exists d → exists (d / [])
at-root exists d known = subst (λ p. exists (record d { path = p })) (sym (append-nil d.path)) known

-- Below a directory there are fewer levels left.
pub Shallow-below :
    (exists : Dir → Type 0) (d : Dir) (rel : List String) (n : ℕ)
    → rel ≢ []
    → Shallow exists d (suc n)
    → Shallow exists (d / rel) n
Shallow-below exists d [] n some_name h q there = absurd (some_name refl)
Shallow-below exists d (s ∷ rel) n some_name h q there =
    omega
      (arith, h ((s ∷ rel) ++ q) (subst exists (/-assoc d (s ∷ rel) q) there), length-append rel q)
