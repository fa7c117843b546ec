-- ===== src/Walk/Depth.antt =====
-- operations/walk.py: the depth-first walk puts the listings in preorder, once each, and ends.
use rclone_kit.Base.{
  ℕ, zero, suc, ◌≤◌, ◌≡◌, refl, ap, ◌∙◌, List, [], ◌∷◌, ◌++◌, map, some, none, Result, ok,
  append-nil, arith,
}
use rclone_kit.Base.Int.{ℤ}
use rclone_kit.Listing.{DirListing, Order}
use rclone_kit.Walk.{descend, put, depth_loop, reordered, walk_runner_depth_first}
use rclone_kit.Walk.Tree.{
  Tree, Forest, node, nil, cons, Lists, ListsAll, ◌<>◌, size, size_tree, preorder, preorder_tree,
  size-<>, preorder-<>, FormsAll-<>, Shows, subdirs,
}

module _ {E : Type 0} (ls : E → Result (DirListing E)) where
  depth_loop-preorder :
      (fuel : ℕ) (stack : List (E × ℤ)) (f : Forest (DirListing E))
      → ListsAll ls stack f
      → size f ≤ fuel
      → depth_loop ls fuel stack ≡ (preorder f, ok tt)
  unfolding depth_loop
  depth_loop-preorder zero [] nil h k = refl
  depth_loop-preorder (suc fuel) [] nil h k = refl
  depth_loop-preorder zero (x ∷ xs) (cons (node l below) f) h k = absurd (omega arith)
  depth_loop-preorder (suc fuel) ((d, depth) ∷ stack) (cons (node l below) f) h k =
      rw (h.0.0, depth_loop)
        (ap (put l) (
          depth_loop-preorder fuel (descend depth l.dirs ++ stack) (below <> f)
            (FormsAll-<> (Shows ls) (subdirs ls) (descend depth l.dirs) stack below f h.0.1 h.1)
            (omega (arith, size-<> below f))
          ∙ ap (λ out. (out, ok tt)) (preorder-<> below f)))
  depth_loop-preorder fuel [] (cons t f) h k = absurd h
  depth_loop-preorder fuel (x ∷ xs) nil h k = absurd h

-- With fuel for each directory, the depth-first walk of a remote whose directories can all be listed
-- puts their listings, reordered as `order` says, in preorder, a directory before what is below it and
-- that before its next sibling, each of them once, then one sentinel, and raises nothing.
pub walk_runner_depth_first-preorder :
    {E : Type 0} (shuffle : List E → List E) (list_dir : Order → E → Result (DirListing E))
    → (fuel : ℕ) (dir : E) (max_depth : ℤ) (order : Order) (t : Tree (DirListing E))
    → Lists (λ d. reordered shuffle order (list_dir Order.normal d)) (dir, max_depth) t
    → size_tree t ≤ fuel
    → walk_runner_depth_first shuffle list_dir fuel dir max_depth order
      ≡ (map some (preorder_tree t) ++ (none ∷ []), ok tt)
unfolding walk_runner_depth_first
walk_runner_depth_first-preorder shuffle list_dir fuel dir max_depth order t h k =
    rw
      (depth_loop-preorder (λ d. reordered shuffle order (list_dir Order.normal d)) fuel
          ((dir, max_depth) ∷ []) (cons t nil) (h, tt) (omega arith)
        ∙ ap (λ out. (out, ok tt)) (append-nil (preorder_tree t)))
      refl
