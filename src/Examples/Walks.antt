-- ===== src/Examples/Walks.antt =====
-- Walks and producers at concrete inputs. Directory 0 has 1 and 2, and 1 has 3.
use rclone_kit.Base.{
  ℕ, zero, suc, ◌≡◌, refl, List, [], ◌∷◌, ◌++◌, map, Option, none, some, Result, ok, err,
  file_not_found, arith,
}
use rclone_kit.Base.Int.{pos, negsuc}
use rclone_kit.Listing.{DirListing, Order, normal, reversed}
use rclone_kit.Walk.{walk_runner_depth_first, walk_runner_breadth_first}
use rclone_kit.Walk.Tree.{Tree, node, nil, cons, preorder_tree, level_order}
use rclone_kit.Walk.Depth.{walk_runner_depth_first-preorder}
use rclone_kit.Walk.Breadth.{walk_runner_breadth_first-levels, weigh}
use rclone_kit.Walk.Parallel.{FsListing, fs_walk, walk_loop, round}
use rclone_kit.Walk.Parallel.Backlog.{fs_walk-IsPaced, IsPaced, put_all, begun, after_round}
use rclone_kit.Walk.Parallel.Fifo.{fs_walk-levels, listed}

abbrev with_dirs : List ℕ → DirListing ℕ
with_dirs dirs = record { dirs = dirs; files = [] }

abbrev subdirs_of : ℕ → List ℕ
subdirs_of zero = 1 ∷ 2 ∷ []
subdirs_of (suc zero) = 3 ∷ []
subdirs_of (suc (suc n)) = []

abbrev list_any : Order → ℕ → Result (DirListing ℕ)
list_any order d = ok (with_dirs (subdirs_of d))

abbrev same_order : List ℕ → List ℕ
same_order xs = xs

-- Reversed, 2 comes before 1.
abbrev reversed_tree : Tree (DirListing ℕ)
reversed_tree = node (with_dirs (2 ∷ 1 ∷ [])) (
    cons (node (with_dirs []) nil)
      (cons (node (with_dirs (3 ∷ [])) (cons (node (with_dirs []) nil) nil)) nil))

walk_runner_depth_first-preorder_example :
    walk_runner_depth_first same_order list_any 4 0 (negsuc 0) reversed
    ≡ (map some (preorder_tree reversed_tree) ++ (none ∷ []), ok tt)
walk_runner_depth_first-preorder_example =
    walk_runner_depth_first-preorder same_order list_any 4 0 (negsuc 0) reversed reversed_tree
      (refl, ((refl, tt), ((refl, ((refl, tt), tt)), tt))) (omega arith)

abbrev normal_tree : Tree (DirListing ℕ)
normal_tree =
    node (with_dirs (1 ∷ 2 ∷ []))
      (cons (node (with_dirs (3 ∷ [])) nil) (cons (node (with_dirs []) nil) nil))

-- With a depth of 1 directory 3 is not walked.
walk_runner_breadth_first-levels_example :
    (walk_runner_breadth_first same_order list_any 3 0 (pos 1) normal
      ≡ (map some (level_order normal_tree) ++ (none ∷ []), ok tt))
    × ((w : DirListing ℕ → ℕ)
        → weigh w (level_order normal_tree) ≡ weigh w (preorder_tree normal_tree))
walk_runner_breadth_first-levels_example =
    walk_runner_breadth_first-levels same_order list_any 3 0 (pos 1) normal normal_tree
      (refl, ((refl, tt), ((refl, tt), tt))) (omega arith)

-- Directory 1 cannot be listed; names are the numbers of the directories.
abbrev fs_ls : ℕ → Result (List ℕ × List ℕ)
fs_ls zero = ok (7 ∷ [], 1 ∷ 2 ∷ [])
fs_ls (suc zero) = err file_not_found
fs_ls (suc (suc n)) = ok ([], [])

abbrev at_root : FsListing ℕ ℕ
at_root = record { path = 0; dirnames = 1 ∷ 2 ∷ []; filenames = 7 ∷ [] }

abbrev fs_tree : Tree (Option (FsListing ℕ ℕ))
fs_tree = node (some at_root) (
    cons (node none nil)
      (cons (node (some (record { path = 2; dirnames = []; filenames = [] })) nil) nil))

fs_walk-levels_example : fs_walk fs_ls (λ d n. n) 16 3 0 ≡ (listed (level_order fs_tree), ok tt)
fs_walk-levels_example =
    fs_walk-levels fs_ls (λ d n. n) 16 3 0 fs_tree (omega arith)
      (refl, ((refl, tt), ((refl, tt), tt))) (omega arith)

-- With a backlog of one, after the root, directory 1 is in flight and 2 waits.
fs_walk-IsPaced_example :
    (fs_walk fs_ls (λ d n. n) 1 3 0
      ≡ put_all (at_root ∷ []) (walk_loop fs_ls (λ d n. n) 1 2 (2 ∷ [], 1 ∷ [])))
    × IsPaced {D = ℕ} 1 (2 ∷ [], 1 ∷ [])
unfolding round
fs_walk-IsPaced_example =
    fs_walk-IsPaced fs_ls (λ d n. n) 1 0 1 2 (at_root ∷ []) (2 ∷ [], 1 ∷ []) (after_round begun)
