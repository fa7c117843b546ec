-- ===== src/Grouping/Weight.antt =====
-- group_files.py: which files the groups list, by counting: each file's name has a weight.
use rclone_kit.Base.{
  ℕ, ◌+◌, ◌≡◌, refl, ap, ◌∙◌, String, Bool, true, false, Option, none, some, List, [], ◌∷◌, ◌++◌,
  map, str_eq, leb, if◌then◌else◌, Bool-cases, inl, inr, arith,
}
use rclone_kit.Grouping.{
  RcPathParts, Node, node, Nodes, no_nodes, add_node, name_of, add_file, at_child, place, last_of,
  insert_file, make_tree, full_path, get_child_subpaths, subpaths_of_all, Groups, same_path,
  extend_group, count_nodes, choose, merge, merge_each, group_files,
}

module _ (w : String → ℕ) where
  abbrev pub weight_files : List String → ℕ
  weight_files [] = 0
  weight_files (file ∷ files) = w file + weight_files files

  -- The weight of the last segment.
  abbrev pub weight_path : List String → ℕ
  weight_path [] = 0
  weight_path (s ∷ []) = w s
  weight_path (s ∷ t ∷ ts) = weight_path (t ∷ ts)

  abbrev pub weight_paths : List (List String) → ℕ
  weight_paths [] = 0
  weight_paths (path ∷ paths) = weight_path path + weight_paths paths

  abbrev pub weight_groups : Groups → ℕ
  weight_groups [] = 0
  weight_groups ((p, paths) ∷ rest) = weight_paths paths + weight_groups rest

  unfoldable mutual
    weight_node : Node → ℕ
    weight_node (node name children files) = weight_nodes children + weight_files files

    weight_nodes : Nodes → ℕ
    weight_nodes no_nodes = 0
    weight_nodes (add_node child rest) = weight_node child + weight_nodes rest

  -- How often the last directory occurs among the directories, counted with a weight.
  abbrev pub weight_at : String → List String → ℕ → ℕ
  weight_at last [] x = 0
  weight_at last (parent ∷ parents) x =
      (if str_eq parent last then x else 0) + weight_at last parents x

  -- The weight of a file, once for each directory of its path that is spelled as the last one.
  abbrev pub weight_part : List String → String → ℕ
  weight_part [] file = w file
  weight_part (parent ∷ parents) file =
      weight_at (last_of parent parents) (parent ∷ parents) (w file)

  abbrev pub weight_parts : List RcPathParts → ℕ
  weight_parts [] = 0
  weight_parts (p ∷ rest) = weight_part p.parents p.name + weight_parts rest

  weight_files-append :
      (xs ys : List String) → weight_files (xs ++ ys) ≡ weight_files xs + weight_files ys
  weight_files-append [] ys = omega arith
  weight_files-append (x ∷ xs) ys = omega (arith, weight_files-append xs ys)

  weight_paths-append :
      (xs ys : List (List String)) → weight_paths (xs ++ ys) ≡ weight_paths xs + weight_paths ys
  weight_paths-append [] ys = omega arith
  weight_paths-append (x ∷ xs) ys = omega (arith, weight_paths-append xs ys)

  full_path-weight :
      (parent : Option String) (file : String) → weight_path (full_path parent file) ≡ w file
  full_path-weight none file = refl
  full_path-weight (some parent) file = elim (Bool-cases (str_eq parent "")) [
    | inl h ↦ rw h refl
    | inr h ↦ rw h refl
  ]

  map-weight :
      (parent : Option String) (files : List String)
      → weight_paths (map (full_path parent) files) ≡ weight_files files
  map-weight parent [] = refl
  map-weight parent (file ∷ files) =
      omega (arith, full_path-weight parent file, map-weight parent files)

  -- The paths below a node carry the weight of its files.
  mutual
    unfolding weight_node get_child_subpaths

    subpaths-weight :
        (parent : Option String) (n : Node)
        → weight_paths (get_child_subpaths parent n) ≡ weight_node n
    subpaths-weight parent (node name children files) = omega (
      arith,
      weight_paths-append (subpaths_of_all children) (map (full_path parent) files),
      all_subpaths-weight children,
      map-weight parent files,
    )

    all_subpaths-weight : (ns : Nodes) → weight_paths (subpaths_of_all ns) ≡ weight_nodes ns
    all_subpaths-weight no_nodes = refl
    all_subpaths-weight (add_node child rest) = omega (
      arith,
      weight_paths-append (get_child_subpaths (some (name_of child)) child) (subpaths_of_all rest),
      subpaths-weight (some (name_of child)) child,
      all_subpaths-weight rest,
    )

  extend_group-weight :
      (path : List String) (paths : List (List String)) (out : Groups)
      → weight_groups (extend_group path paths out) ≡ weight_groups out + weight_paths paths
  extend_group-weight path paths [] = omega arith
  extend_group-weight path paths ((p, listed) ∷ rest) = elim (Bool-cases (same_path p path)) [
    | inl h ↦ rw h (omega (arith, weight_paths-append listed paths))
    | inr h ↦ rw h (omega (arith, extend_group-weight path paths rest))
  ]

  choose-weight :
      (few : Bool) (each flat : Groups) (k : ℕ)
      → weight_groups each ≡ k
      → weight_groups flat ≡ k
      → weight_groups (choose few each flat) ≡ k
  choose-weight true each flat k h h' = h
  choose-weight false each flat k h h' = h'

  mutual
    unfolding weight_node get_child_subpaths merge

    merge-weight :
        (n : Node) (path : List String) (out : Groups)
        → weight_groups (merge n path out) ≡ weight_groups out + weight_node n
    merge-weight (node name children []) path out =
        choose-weight (leb (count_nodes children) 2) _ _
          (weight_groups out + (weight_nodes children + 0))
          (omega (arith, merge_each-weight children (path ++ (name ∷ [])) out))
          (extend_group-weight (path ++ (name ∷ []))
              (get_child_subpaths none (node name children [])) out
            ∙ ap (λ x. weight_groups out + x) (subpaths-weight none (node name children [])))
    merge-weight (node name children (file ∷ files)) path out =
        extend_group-weight (path ++ (name ∷ []))
          (get_child_subpaths none (node name children (file ∷ files))) out
        ∙ ap (λ x. weight_groups out + x) (subpaths-weight none (node name children (file ∷ files)))

    merge_each-weight :
        (ns : Nodes) (path : List String) (out : Groups)
        → weight_groups (merge_each ns path out) ≡ weight_groups out + weight_nodes ns
    merge_each-weight no_nodes path out = omega arith
    merge_each-weight (add_node child rest) path out =
        omega
          (arith, merge_each-weight rest path (merge child path out), merge-weight child path out)

  add_file-weight :
      (file : String) (n : Node) → weight_node (add_file file n) ≡ weight_node n + w file
  unfolding weight_node
  add_file-weight file (node name children files) =
      omega (arith, weight_files-append files (file ∷ []))

  at_child-weight :
      (name : String) (f : Node → Node) (k : ℕ)
      → ((n : Node) → weight_node (f n) ≡ weight_node n + k)
      → (ns : Nodes) → weight_nodes (at_child name f ns) ≡ weight_nodes ns + k
  unfolding weight_node
  at_child-weight name f k adds no_nodes = omega (arith, adds (node name no_nodes []))
  at_child-weight name f k adds (add_node child rest) =
      elim (Bool-cases (str_eq (name_of child) name)) [
        | inl h ↦ rw h (omega (arith, adds child))
        | inr h ↦ rw h (omega (arith, at_child-weight name f k adds rest))
      ]

  add_if-weight :
      (b : Bool) (file : String) (n : Node)
      → weight_node (if b then add_file file n else n) ≡ weight_node n + (if b then w file else 0)
  add_if-weight true file n = add_file-weight file n
  add_if-weight false file n = omega arith

  place-weight :
      (last : String) (parents : List String) (file : String) (n : Node)
      → weight_node (place last parents file n) ≡ weight_node n + weight_at last parents (w file)
  unfolding weight_node
  place-weight last [] file n = omega arith
  place-weight last (parent ∷ parents) file (node name children files) =
      let here = if str_eq parent last then w file else 0 in
      omega (
        arith,
        at_child-weight parent
            (λ child.
              place last parents file (if str_eq parent last then add_file file child else child))
            (here + weight_at last parents (w file))
            (λ n. omega (
              arith,
              place-weight last parents file (if str_eq parent last then add_file file n else n),
              add_if-weight (str_eq parent last) file n,
            ))
            children,
      )

  insert_file-weight :
      (parents : List String) (file : String) (n : Node)
      → weight_node (insert_file parents file n) ≡ weight_node n + weight_part parents file
  insert_file-weight [] file n = add_file-weight file n
  insert_file-weight (parent ∷ parents) file n =
      place-weight (last_of parent parents) (parent ∷ parents) file n

  make_tree-weight :
      (files : List RcPathParts) (tree : Nodes)
      → weight_nodes (make_tree files tree) ≡ weight_nodes tree + weight_parts files
  unfolding weight_node
  make_tree-weight [] tree = omega arith
  make_tree-weight (p ∷ rest) tree = omega (
    arith,
    make_tree-weight rest (at_child p.remote (insert_file p.parents p.name) tree),
    at_child-weight p.remote (insert_file p.parents p.name) (weight_part p.parents p.name)
        (insert_file-weight p.parents p.name) tree,
  )

  -- Counted by their last segments alone, with any weight of these, the groups list the files that were
  -- given, each once, but once more for each directory of its path that is spelled as its last one
  -- without being the last. The directories under which they are listed are not part of the count.
  pub group_files-weight :
      (files : List RcPathParts) → weight_groups (group_files files) ≡ weight_parts files
  unfolding weight_node
  group_files-weight files =
      omega
        (arith, merge_each-weight (make_tree files no_nodes) [] [], make_tree-weight files no_nodes)
