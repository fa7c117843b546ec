-- ===== src/Walk/Tree.antt =====
-- operations/walk.py: the tree of listings that a walk meets, and its two orders.
use rclone_kit.Base.{
  ℕ, zero, suc, ◌+◌, ◌≤◌, ◌≡◌, refl, List, [], ◌∷◌, ◌++◌, Result, ok, append_assoc, ap, sym, ◌∙◌,
  arith,
}
use rclone_kit.Base.Int.{ℤ}
use rclone_kit.Listing.{DirListing}
use rclone_kit.Walk.{descend}
use Prim.Native.Nat.{max}

-- A directory with what its listing says, and the directories below it.
mutual
  pub data Tree {ℓ} (A : Type ℓ) : Type ℓ where
    node : A → Forest A → Tree A

  pub data Forest {ℓ} (A : Type ℓ) : Type ℓ where
    nil : Forest A
    cons : Tree A → Forest A → Forest A

-- The items of a stack or a queue, with what is below them: an item has what it shows at its node,
-- and the items that it leads to are below.
module _ {X A : Type 0} (shows : X → A → Type 0) (leads_to : X → A → List X) where
  abbrev mutual
    pub Forms : X → Tree A → Type 0
    Forms x (node a below) = shows x a × FormsAll (leads_to x a) below

    pub FormsAll : List X → Forest A → Type 0
    FormsAll [] nil = Unit
    FormsAll (x ∷ xs) (cons t f) = Forms x t × FormsAll xs f
    FormsAll [] (cons t f) = ⊥
    FormsAll (x ∷ xs) nil = ⊥

-- Directories are listed as `ls` says, and lead to their subdirectories within the depth.
module _ {E : Type 0} (ls : E → Result (DirListing E)) where
  abbrev pub Shows : E × ℤ → DirListing E → Type 0
  Shows (dir, depth) l = ls dir ≡ ok l

  abbrev pub subdirs : E × ℤ → DirListing E → List (E × ℤ)
  subdirs (dir, depth) l = descend depth l.dirs

  abbrev pub Lists : E × ℤ → Tree (DirListing E) → Type 0
  Lists = Forms Shows subdirs

  abbrev pub ListsAll : List (E × ℤ) → Forest (DirListing E) → Type 0
  ListsAll = FormsAll Shows subdirs

module _ {ℓ} {A : Type ℓ} where
  infixl 65 ◌<>◌
  abbrev pub ◌<>◌ : Forest A → Forest A → Forest A
  nil <> g = g
  (cons t f) <> g = cons t (f <> g)

  -- What is at the roots, and the forest of what is one level below.
  abbrev pub roots : Forest A → List A
  roots nil = []
  roots (cons (node a below) f) = a ∷ roots f

  abbrev pub kids : Forest A → Forest A
  kids nil = nil
  kids (cons (node a below) f) = below <> kids f

  abbrev mutual
    pub size_tree : Tree A → ℕ
    size_tree (node a below) = suc (size below)

    pub size : Forest A → ℕ
    size nil = 0
    size (cons t f) = size_tree t + size f

  abbrev mutual
    pub height_tree : Tree A → ℕ
    height_tree (node a below) = suc (height below)

    pub height : Forest A → ℕ
    height nil = 0
    height (cons t f) = max (height_tree t) (height f)

  -- A directory before what is below it, and that before the next directory.
  abbrev mutual
    pub preorder_tree : Tree A → List A
    preorder_tree (node a below) = a ∷ preorder below

    pub preorder : Forest A → List A
    preorder nil = []
    preorder (cons t f) = preorder_tree t ++ preorder f

  -- So many levels, one after the other.
  abbrev pub levels : ℕ → Forest A → List A
  levels zero f = []
  levels (suc n) f = roots f ++ levels n (kids f)

  abbrev pub level_order : Tree A → List A
  level_order t = levels (height_tree t) (cons t nil)

  pub <>-nil : (f : Forest A) → (f <> nil) ≡ f
  <>-nil nil = refl
  <>-nil (cons t f) = ap (cons t) (<>-nil f)

  pub <>_assoc : (f g h : Forest A) → ((f <> g) <> h) ≡ (f <> (g <> h))
  <>_assoc nil g h = refl
  <>_assoc (cons t f) g h = ap (cons t) (<>_assoc f g h)

  pub size-<> : (f g : Forest A) → size (f <> g) ≡ size f + size g
  size-<> nil g = omega arith
  size-<> (cons t f) g = omega (arith, size-<> f g)

  pub height-<> : (f g : Forest A) → height (f <> g) ≡ max (height f) (height g)
  height-<> nil g = omega arith
  height-<> (cons t f) g = omega (arith, height-<> f g)

  pub preorder-<> : (f g : Forest A) → preorder (f <> g) ≡ preorder f ++ preorder g
  preorder-<> nil g = refl
  preorder-<> (cons t f) g =
      ap (λ l. preorder_tree t ++ l) (preorder-<> f g)
      ∙ sym (append_assoc (preorder_tree t) (preorder f) (preorder g))

  pub height-kids : (n : ℕ) (f : Forest A) → height f ≤ suc n → height (kids f) ≤ n
  height-kids n nil h = omega arith
  height-kids n (cons (node a below) f) h =
      omega (arith, height-<> below (kids f), height-kids n f (omega arith))

pub FormsAll-<> :
    {X A : Type 0} (shows : X → A → Type 0) (leads_to : X → A → List X) (xs ys : List X)
    (f g : Forest A)
    → FormsAll shows leads_to xs f
    → FormsAll shows leads_to ys g
    → FormsAll shows leads_to (xs ++ ys) (f <> g)
FormsAll-<> shows leads_to [] ys nil g h k = k
FormsAll-<> shows leads_to (x ∷ xs) ys (cons t f) g h k =
    (h.0, FormsAll-<> shows leads_to xs ys f g h.1 k)
FormsAll-<> shows leads_to [] ys (cons t f) g h k = absurd h
FormsAll-<> shows leads_to (x ∷ xs) ys nil g h k = absurd h
