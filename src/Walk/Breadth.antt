-- ===== src/Walk/Breadth.antt =====
-- operations/walk.py: the breadth-first walk puts the listings level by level, once each, and ends.
use rclone_kit.Base.{
  ℕ, zero, suc, ◌+◌, ◌≤◌, ◌≡◌, refl, sym, ap, ◌∙◌, List, [], ◌∷◌, ◌++◌, map, some, none, Result, ok,
  append-nil, arith,
}
use rclone_kit.Base.Int.{ℤ}
use rclone_kit.Listing.{DirListing, Order}
use rclone_kit.Walk.{descend, put, breadth_loop, walk_runner_breadth_first}
use rclone_kit.Walk.Tree.{
  Tree, Forest, node, nil, cons, Lists, ListsAll, ◌<>◌, size, size_tree, height, height_tree,
  preorder, preorder_tree, levels, level_order, roots, kids, size-<>, height-kids, preorder-<>,
  <>-nil, <>_assoc, FormsAll-<>, Shows, subdirs,
}

module _ {ℓ} {A : Type ℓ} where
  -- The order of a queue that takes a tree and appends what is below it.
  abbrev pub queue_order : ℕ → Forest A → List A
  queue_order fuel nil = []
  queue_order zero (cons t f) = []
  queue_order (suc fuel) (cons (node a below) f) = a ∷ queue_order fuel (f <> below)

  queue_order-split :
      (fuel n : ℕ) (f g : Forest A)
      → size f + size g ≤ fuel
      → height (g <> kids f) ≤ n
      → queue_order fuel (f <> g) ≡ roots f ++ levels n (g <> kids f)
  queue_order-split zero zero nil nil h k = refl
  queue_order-split (suc fuel) zero nil nil h k = refl
  queue_order-split zero (suc n) nil nil h k = queue_order-split zero n nil nil h (omega arith)
  queue_order-split (suc fuel) (suc n) nil nil h k =
      queue_order-split (suc fuel) n nil nil h (omega arith)
  queue_order-split fuel zero nil (cons (node a below) g) h k = absurd (omega arith)
  queue_order-split fuel (suc n) nil (cons (node a below) g) h k =
      ap (queue_order fuel) (sym (<>-nil (cons (node a below) g)))
      ∙ queue_order-split fuel n (cons (node a below) g) nil (omega arith) (
          height-kids n (cons (node a below) g)
            (omega (arith, ap height (<>-nil (cons (node a below) g)))))
      ∙ ap (λ f. roots f ++ levels n (kids f)) (sym (<>-nil (cons (node a below) g)))
  queue_order-split zero n (cons (node a below) f) g h k = absurd (omega arith)
  queue_order-split (suc fuel) n (cons (node a below) f) g h k =
      ap (λ l. a ∷ l)
        (ap (queue_order fuel) (<>_assoc f g below)
          ∙ queue_order-split fuel n f (g <> below) (omega (arith, size-<> g below))
              (omega (arith, ap height (<>_assoc g below (kids f))))
          ∙ ap (λ f'. roots f ++ levels n f') (<>_assoc g below (kids f)))

  -- A queue takes a tree level by level.
  pub queue_order-levels :
      (fuel : ℕ) (t : Tree A) → size_tree t ≤ fuel → queue_order fuel (cons t nil) ≡ level_order t
  queue_order-levels fuel t h =
      queue_order-split fuel (height_tree t) nil (cons t nil) (omega arith)
        (omega (arith, ap height (<>-nil (cons t nil))))
      ∙ ap (levels (height_tree t)) (<>-nil (cons t nil))

  -- What a list weighs, if each element weighs as `w` says.
  abbrev pub weigh : (A → ℕ) → List A → ℕ
  weigh w [] = 0
  weigh w (x ∷ xs) = w x + weigh w xs

  pub weigh-append : (w : A → ℕ) (xs ys : List A) → weigh w (xs ++ ys) ≡ weigh w xs + weigh w ys
  weigh-append w [] ys = omega arith
  weigh-append w (x ∷ xs) ys = omega (arith, weigh-append w xs ys)

  weigh-kids :
      (w : A → ℕ) (f : Forest A)
      → weigh w (roots f) + weigh w (preorder (kids f)) ≡ weigh w (preorder f)
  weigh-kids w nil = omega arith
  weigh-kids w (cons (node a below) f) = omega (
    arith,
    weigh-kids w f,
    weigh-append w (preorder below) (preorder f),
    weigh-append w (preorder below) (preorder (kids f)),
    ap (weigh w) (preorder-<> below (kids f)),
  )

  weigh-levels :
      (w : A → ℕ) (n : ℕ) (f : Forest A)
      → height f ≤ n
      → weigh w (levels n f) ≡ weigh w (preorder f)
  weigh-levels w zero nil h = refl
  weigh-levels w zero (cons (node a below) f) h = absurd (omega arith)
  weigh-levels w (suc n) f h = omega (
    arith,
    weigh-append w (roots f) (levels n (kids f)),
    weigh-levels w n (kids f) (height-kids n f h),
    weigh-kids w f,
  )

  -- Both orders have the same elements as often.
  pub weigh-level_order :
      (w : A → ℕ) (t : Tree A) → weigh w (level_order t) ≡ weigh w (preorder_tree t)
  weigh-level_order w t =
      weigh-levels w (height_tree t) (cons t nil) (omega arith)
      ∙ ap (weigh w) (append-nil (preorder_tree t))

module _ {E : Type 0} (ls : E → Result (DirListing E)) where
  breadth_loop-queue_order :
      (fuel : ℕ) (queue : List (E × ℤ)) (f : Forest (DirListing E))
      → ListsAll ls queue f
      → size f ≤ fuel
      → breadth_loop ls fuel queue ≡ (queue_order fuel f, ok tt)
  unfolding breadth_loop
  breadth_loop-queue_order zero [] nil h k = refl
  breadth_loop-queue_order (suc fuel) [] nil h k = refl
  breadth_loop-queue_order zero (x ∷ xs) (cons (node l below) f) h k = absurd (omega arith)
  breadth_loop-queue_order (suc fuel) ((d, depth) ∷ queue) (cons (node l below) f) h k =
      rw (h.0.0, breadth_loop)
        (ap (put l) (
          breadth_loop-queue_order fuel (queue ++ descend depth l.dirs) (f <> below)
            (FormsAll-<> (Shows ls) (subdirs ls) queue (descend depth l.dirs) f below h.1 h.0.1)
            (omega (arith, size-<> f below))))
  breadth_loop-queue_order fuel [] (cons t f) h k = absurd h
  breadth_loop-queue_order fuel (x ∷ xs) nil h k = absurd h

-- With fuel for each directory, the breadth-first walk of a remote whose directories can all be listed
-- puts their listings level by level, then one sentinel, and raises nothing; counted with any weight
-- they are the listings that stand in the preorder of the same tree.
pub walk_runner_breadth_first-levels :
    {E : Type 0} (shuffle : List E → List E) (list_dir : Order → E → Result (DirListing E))
    → (fuel : ℕ) (dir : E) (max_depth : ℤ) (order : Order) (t : Tree (DirListing E))
    → Lists (list_dir order) (dir, max_depth) t
    → size_tree t ≤ fuel
    → (walk_runner_breadth_first shuffle list_dir fuel dir max_depth order
        ≡ (map some (level_order t) ++ (none ∷ []), ok tt))
      × ((w : DirListing E → ℕ) → weigh w (level_order t) ≡ weigh w (preorder_tree t))
unfolding walk_runner_breadth_first
walk_runner_breadth_first-levels shuffle list_dir fuel dir max_depth order t h k = (
  rw
      (breadth_loop-queue_order (list_dir order) fuel ((dir, max_depth) ∷ []) (cons t nil) (h, tt)
          (omega arith)
        ∙ ap (λ out. (out, ok tt)) (queue_order-levels fuel t k))
      refl,
  λ w. weigh-level_order w t,
)
