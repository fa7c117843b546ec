-- ===== src/Scan/Loops.antt =====
-- scan_missing_folders.py: loops that end and put what each round puts, and names of listings.
use rclone_kit.Base.{
  ℕ, ◌+◌, ◌≤◌, Bool, true, false, List, [], ◌∷◌, String, str_eq, eq_iff, ok, err, traverse, All,
  ◌≡◌, refl, ap, sym, ◌∙◌, arith, ◌⊎◌, inl, inr, Bool-cases, keep, if◌then◌else◌,
}
use rclone_kit.Scan.{Dir, ◌/◌, in_dirs, same_path, relative_to, Output, and_then, each}
use rclone_kit.Scan.Names.{relative_path-append}
use rclone_kit.Scan.Members.{Mem-front, Mem-back}
use mathlib.Core.Path.{subst}
use mathlib.Core.Bool.{true≢false}
use mathlib.Core.List.{Memᴰ}
use mathlib.Core.List.Memᴰ.{head, tail}

-- What ends, and has put all that is claimed.
abbrev pub Puts : (Dir → Type 0) → Output → Type 0
Puts Claim (out, r) = (r ≡ ok tt) × ((x : Dir) → Claim x → Memᴰ x out)

-- From some fuel on
abbrev pub FromEnough : (ℕ → Type 0) → Type 0
FromEnough P = (enough : ℕ) × ((fuel : ℕ) → enough ≤ fuel → P fuel)

pub and_then-Puts :
    (P Q : Dir → Type 0) (o next : Output)
    → Puts P o
    → Puts Q next
    → Puts (λ x. P x ⊎ Q x) (and_then o next)
and_then-Puts P Q (out, err e) next (h, f) k = cc
and_then-Puts P Q (out, ok _) (more, r) (h, f) (k, g) = (
  k,
  λ x c. elim c [ inl p ↦ Mem-front x out more (f x p) | inr q ↦ Mem-back x out more (g x q) ],
)

-- A loop whose rounds do what they claim from some fuel on does so itself.
pub each-Puts :
    (Q : List String → Type 0) (Claim : List String → Dir → Type 0) (f : ℕ → List String → Output)
    → ((name : List String) → Q name → FromEnough (λ fuel. Puts (Claim name) (f fuel name)))
    → (names : List (List String)) → All Q names
    → FromEnough (λ fuel.
      Puts (λ x. (name : List String) × Memᴰ name names × Claim name x) (each (f fuel) names))
each-Puts Q Claim f one [] h = (0, λ fuel k. (refl, λ x (name, m, c). elim m [ ]))
each-Puts Q Claim f one (name ∷ names) h =
    let (n, first) = one name h.0 in
    let (k, others) = each-Puts Q Claim f one names h.1 in
    (
      n + k,
      λ fuel large.
          let (ends, found) =
            and_then-Puts (Claim name)
              (λ x. (other : List String) × Memᴰ other names × Claim other x) (f fuel name)
              (each (f fuel) names) (first fuel (omega arith)) (others fuel (omega arith)) in
          (
            ends,
            λ x (other, m, c). found x (elim m [
              | head e ↦ inl (subst (λ p. Claim p x) e c)
              | tail m' ↦ inr (other, m', c)
            ]),
          ),
    )

same_path-eq : (p q : List String) → same_path p q ≡ true → p ≡ q
same_path-eq [] [] h = refl
same_path-eq [] (t ∷ q) h = absurd (true≢false (sym h))
same_path-eq (s ∷ p) [] h = absurd (true≢false (sym h))
same_path-eq (s ∷ p) (t ∷ q) h = elim (Bool-cases (str_eq s t)) [
  | inl e ↦
      ap (λ u. u ∷ p) ((eq_iff s t).0 e) ∙ ap (λ r. t ∷ r) (same_path-eq p q (sym (rw e refl) ∙ h))
  | inr e ↦ absurd (true≢false (sym h ∙ rw e refl))
]

pub in_dirs-All :
    (P : List String → Type 0) (p : List String) (ps : List (List String))
    → All P ps
    → in_dirs p ps ≡ true
    → P p
in_dirs-All P p [] h found = absurd (true≢false (sym found))
in_dirs-All P p (q ∷ ps) h found = elim (Bool-cases (same_path p q)) [
  | inl e ↦ subst P (sym (same_path-eq p q e)) h.0
  | inr e ↦ in_dirs-All P p ps h.1 (sym (rw e refl) ∙ found)
]

-- Directories below the root can be named.
pub relative_names-ok :
    (P : Dir → List String → Type 0) (root : Dir) (l : List Dir)
    → All (λ x. (rel : List String) × P x rel × (x ≡ (root / rel))) l
    → (names : List (List String)) × (traverse (λ d. relative_to d root) l ≡ ok names)
relative_names-ok P root [] h = ([], refl)
relative_names-ok P root (d ∷ l) ((rel, p, is), h) =
    let (names, e) = relative_names-ok P root l h in
    let named : relative_to d root ≡ ok rel =
      ap (λ x. relative_to x root) is ∙ relative_path-append root.path rel in
    (rel ∷ names, rw (named, e) refl)

pub Mem-keep :
    (p : List String → Bool) (name : List String) (names : List (List String))
    → Memᴰ name names
    → p name ≡ true
    → Memᴰ name (keep p names)
Mem-keep p name [] m h = elim m [ ]
Mem-keep p name (n ∷ names) (head e) h = rw (ap p (sym e) ∙ h) (head e)
Mem-keep p name (n ∷ names) (tail m) h = pick (p n) (Mem-keep p name names m h)
  where
    pick :
        (b : Bool)
        → Memᴰ name (keep p names)
        → Memᴰ name (if b then n ∷ keep p names else keep p names)
    pick true ih = tail ih
    pick false ih = ih

pub keep-true :
    (Q : List String → Type 0) (p : List String → Bool) (names : List (List String))
    → All Q names
    → All (λ name. Q name × (p name ≡ true)) (keep p names)
keep-true Q p [] h = tt
keep-true Q p (n ∷ names) h = pick (p n) refl (keep-true Q p names h.1)
  where
    pick :
        (b : Bool)
        → p n ≡ b
        → All (λ name. Q name × (p name ≡ true)) (keep p names)
        → All (λ name. Q name × (p name ≡ true)) (if b then n ∷ keep p names else keep p names)
    pick true e ih = ((h.0, e), ih)
    pick false e ih = ih
