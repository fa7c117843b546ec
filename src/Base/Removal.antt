-- ===== src/Base/Removal.antt =====
-- Lists of numbers without repetition, and the removal of one of them.
use mathlib.Core.Path.{subst, ◌≡◌, refl, sym, ◌∙◌}
use mathlib.Core.Logic.{inl, inr}
use mathlib.Core.Bool.{true, false, ◌||◌}
use mathlib.Core.List.{List, [], ◌∷◌, ◌++◌}
use Prim.Native.Nat.{ℕ, ◌≤◌}
use native.Mathlib.Omega.{arith}
use rclone_kit.Base.Tests.{Bool-cases, ◌==◌, eq→==, ==_iff, if◌then◌else◌}
use rclone_kit.Base.Lists.{member, length}

-- `deque.remove`, where `ValueError` is suppressed or cannot be
abbrev pub remove : ℕ → List ℕ → List ℕ
remove a [] = []
remove a (b ∷ bs) = if a == b then bs else b ∷ remove a bs

abbrev pub Distinct : List ℕ → Type 0
Distinct [] = Unit
Distinct (a ∷ rest) = (member a rest ≡ false) × Distinct rest

-- What holds at `a`, and at every other address, holds everywhere.
pub by_address {ℓ} : (a b : ℕ) (Q : ℕ → Type ℓ) → Q a → ((b == a) ≡ false → Q b) → Q b
by_address a b Q at_a elsewhere = elim (Bool-cases (b == a)) [
  | inl h ↦ subst Q (sym ((==_iff b a).0 h)) at_a
  | inr h ↦ elsewhere h
]

pub eq_self : (a : ℕ) → (a == a) ≡ true
eq_self a = eq→== a a refl

pub eq_swap : (a b : ℕ) → (b == a) ≡ false → (a == b) ≡ false
eq_swap a b h = ground arith

pub member-snoc : (b c : ℕ) (bs : List ℕ) → member b (bs ++ (c ∷ [])) ≡ (member b bs || (b == c))
member-snoc b c [] = ground arith
member-snoc b c (x ∷ xs) = ground (arith, member-snoc b c xs)

pub member-remove-other :
    (a b : ℕ) (bs : List ℕ) → (b == a) ≡ false → member b (remove a bs) ≡ member b bs
member-remove-other a b [] h = refl
member-remove-other a b (x ∷ xs) h = elim (Bool-cases (a == x)) [
  | inl e ↦ let differ : (b == x) ≡ false = ground arith in rw (e, differ) refl
  | inr e ↦ rw (e, member-remove-other a b xs h) refl
]

pub member-remove : (a : ℕ) (bs : List ℕ) → Distinct bs → member a (remove a bs) ≡ false
member-remove a [] d = refl
member-remove a (x ∷ xs) d = elim (Bool-cases (a == x)) [
  | inl e ↦ rw (e, (==_iff a x).0 e) d.0
  | inr e ↦ rw (e, e, member-remove a xs d.1) refl
]

pub Distinct-remove : (a : ℕ) (bs : List ℕ) → Distinct bs → Distinct (remove a bs)
Distinct-remove a [] d = tt
Distinct-remove a (x ∷ xs) d = elim (Bool-cases (a == x)) [
  | inl e ↦ rw e d.1
  | inr e ↦ rw e (member-remove-other a x xs (eq_swap x a e) ∙ d.0, Distinct-remove a xs d.1)
]

pub Distinct-snoc :
    (c : ℕ) (bs : List ℕ) → Distinct bs → member c bs ≡ false → Distinct (bs ++ (c ∷ []))
Distinct-snoc c [] d h = (refl, tt)
Distinct-snoc c (x ∷ xs) d h =
    let parts : ((c == x) ≡ false) × (member c xs ≡ false) = ground arith in
    (member-snoc x c xs ∙ rw (d.0, eq_swap x c parts.0) refl, Distinct-snoc c xs d.1 parts.1)

pub length-remove : (a : ℕ) (bs : List ℕ) → length (remove a bs) ≤ length bs
length-remove a [] = omega arith
length-remove a (x ∷ xs) = ground (arith, length-remove a xs)
