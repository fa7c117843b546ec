-- ===== src/Grouping/Shallow.antt =====
-- group_files.py: what the groups keep of a file's directories.
use rclone_kit.Base.{
  ◌≤◌, String, Bool, true, false, Option, none, some, List, [], ◌∷◌, ◌++◌, map, length, All,
  All-append, str_eq, leb, Bool-cases, inl, inr, arith,
}
use rclone_kit.Grouping.{
  RcPathParts, Node, node, Nodes, no_nodes, add_node, name_of, make_tree, full_path,
  get_child_subpaths, subpaths_of_all, Groups, same_path, extend_group, count_nodes, choose, merge,
  merge_each, group_files,
}

abbrev pub IsShort : List String → Type 0
IsShort path = length path ≤ 2

abbrev pub AllShort : List (List String) → Type 0
AllShort = All IsShort

abbrev pub IsShallow : Groups → Type 0
IsShallow = All (λ (g : List String × List (List String)). AllShort g.1)

full_path-IsShort : (parent : Option String) (file : String) → IsShort (full_path parent file)
full_path-IsShort none file = omega arith
full_path-IsShort (some parent) file = elim (Bool-cases (str_eq parent "")) [
  | inl h ↦ rw h (omega arith)
  | inr h ↦ rw h (omega arith)
]

files-AllShort :
    (parent : Option String) (files : List String) → AllShort (map (full_path parent) files)
files-AllShort parent [] = tt
files-AllShort parent (file ∷ files) = (full_path-IsShort parent file, files-AllShort parent files)

mutual
  unfolding get_child_subpaths

  subpaths-AllShort : (parent : Option String) (n : Node) → AllShort (get_child_subpaths parent n)
  subpaths-AllShort parent (node name children files) =
      All-append IsShort (subpaths_of_all children) (map (full_path parent) files)
        (all_subpaths-AllShort children) (files-AllShort parent files)

  all_subpaths-AllShort : (ns : Nodes) → AllShort (subpaths_of_all ns)
  all_subpaths-AllShort no_nodes = tt
  all_subpaths-AllShort (add_node child rest) =
      All-append IsShort (get_child_subpaths (some (name_of child)) child) (subpaths_of_all rest)
        (subpaths-AllShort (some (name_of child)) child) (all_subpaths-AllShort rest)

extend_group-IsShallow :
    (path : List String) (paths : List (List String)) (out : Groups)
    → AllShort paths
    → IsShallow out
    → IsShallow (extend_group path paths out)
extend_group-IsShallow path paths [] h i = (h, tt)
extend_group-IsShallow path paths ((p, listed) ∷ rest) h i = elim (Bool-cases (same_path p path)) [
  | inl e ↦ rw e (All-append IsShort listed paths i.0 h, i.1)
  | inr e ↦ rw e (i.0, extend_group-IsShallow path paths rest h i.1)
]

choose-IsShallow :
    (few : Bool) (each flat : Groups)
    → IsShallow each
    → IsShallow flat
    → IsShallow (choose few each flat)
choose-IsShallow true each flat h i = h
choose-IsShallow false each flat h i = i

mutual
  unfolding merge

  merge-IsShallow :
      (n : Node) (path : List String) (out : Groups) → IsShallow out → IsShallow (merge n path out)
  merge-IsShallow (node name children []) path out i =
      choose-IsShallow (leb (count_nodes children) 2)
        (merge_each children (path ++ (name ∷ [])) out)
        (extend_group (path ++ (name ∷ [])) (get_child_subpaths none (node name children [])) out)
        (merge_each-IsShallow children (path ++ (name ∷ [])) out i)
        (extend_group-IsShallow (path ++ (name ∷ []))
          (get_child_subpaths none (node name children [])) out
          (subpaths-AllShort none (node name children [])) i)
  merge-IsShallow (node name children (file ∷ files)) path out i =
      extend_group-IsShallow (path ++ (name ∷ []))
        (get_child_subpaths none (node name children (file ∷ files))) out
        (subpaths-AllShort none (node name children (file ∷ files))) i

  merge_each-IsShallow :
      (ns : Nodes) (path : List String) (out : Groups)
      → IsShallow out
      → IsShallow (merge_each ns path out)
  merge_each-IsShallow no_nodes path out i = i
  merge_each-IsShallow (add_node child rest) path out i =
      merge_each-IsShallow rest path (merge child path out) (merge-IsShallow child path out i)

-- No path that a group lists has more than two segments, however deep below the group's directory the
-- file lies.
pub group_files-IsShallow : (files : List RcPathParts) → IsShallow (group_files files)
group_files-IsShallow files = merge_each-IsShallow (make_tree files no_nodes) [] [] tt
