-- ===== src/Grouping.antt =====
-- group_files.py: files are put into a tree by their directories, and the tree is cut into groups, one
-- for each call of rclone. A path is the list of its segments.
pub mod Weight
pub mod Shallow
pub mod Prefix
use rclone_kit.Base.{
  ℕ, ◌+◌, String, Bool, true, false, ◌&&◌, Option, none, some, List, [], ◌∷◌, ◌++◌, map, str_eq,
  leb, if◌then◌else◌,
}

-- `RcPathParts`
pub record RcPathParts : Type 0 where
  pub remote : String
  pub parents : List String
  pub name : String

-- `TreeNode`, without `count` and `parent`, which grouping does not read. The dict of children is a
-- list, in the order of insertion.
mutual
  pub data Node : Type 0 where
    node : (name : String) (children : Nodes) (files : List String) → Node

  pub data Nodes : Type 0 where
    no_nodes : Nodes
    add_node : Node → Nodes → Nodes

abbrev pub name_of : Node → String
name_of (node name _ _) = name

abbrev pub add_file : String → Node → Node
add_file file (node name children files) = node name children (files ++ (file ∷ []))

-- `child_nodes.setdefault(name, TreeNode(name))`, and what is done to that child
abbrev pub at_child : String → (Node → Node) → Nodes → Nodes
at_child name f no_nodes = add_node (f (node name no_nodes [])) no_nodes
at_child name f (add_node child rest) =
    let others = at_child name f rest in
    if str_eq (name_of child) name then add_node (f child) rest else add_node child others

-- The loop over `parts.parents`; a directory equal to the last one gets the file.
abbrev pub place : (last : String) → List String → String → Node → Node
place last [] file n = n
place last (parent ∷ parents) file (node name children files) =
    node name
      (at_child parent
        (λ child.
          place last parents file (if str_eq parent last then add_file file child else child))
        children)
      files

abbrev pub last_of : String → List String → String
last_of p [] = p
last_of p (q ∷ qs) = last_of q qs

abbrev pub insert_file : List String → String → Node → Node
insert_file [] file n = add_file file n
insert_file (parent ∷ parents) file n = place (last_of parent parents) (parent ∷ parents) file n

-- `_make_tree`
abbrev pub make_tree : List RcPathParts → Nodes → Nodes
make_tree [] tree = tree
make_tree (p ∷ rest) tree = make_tree rest (at_child p.remote (insert_file p.parents p.name) tree)

-- `get_child_subpaths`
abbrev pub full_path : Option String → String → List String
full_path none file = file ∷ []
full_path (some parent) file = if str_eq parent "" then file ∷ [] else parent ∷ file ∷ []

unfoldable mutual
  pub get_child_subpaths : Option String → Node → List (List String)
  get_child_subpaths parent (node name children files) =
      subpaths_of_all children ++ map (full_path parent) files

  pub subpaths_of_all : Nodes → List (List String)
  subpaths_of_all no_nodes = []
  subpaths_of_all (add_node child rest) =
      get_child_subpaths (some (name_of child)) child ++ subpaths_of_all rest

-- The dict from a directory to the files that are listed for it.
abbrev pub Groups : Type 0
Groups = List (List String × List (List String))

abbrev same_path : List String → List String → Bool
same_path [] [] = true
same_path (s ∷ ss) (t ∷ ts) = str_eq s t && same_path ss ts
same_path _ _ = false

-- `out.setdefault(path, []).extend(paths)`
abbrev pub extend_group : List String → List (List String) → Groups → Groups
extend_group path paths [] = (path, paths) ∷ []
extend_group path paths ((p, listed) ∷ rest) =
    let others = extend_group path paths rest in
    if same_path p path then (p, listed ++ paths) ∷ rest else (p, listed) ∷ others

abbrev pub count_nodes : Nodes → ℕ
count_nodes no_nodes = 0
count_nodes (add_node _ rest) = 1 + count_nodes rest

-- Whether a node without files of its own is left to its children.
abbrev pub choose : Bool → Groups → Groups → Groups
choose few each flat = if few then each else flat

unfoldable mutual
  pub merge : Node → List String → Groups → Groups
  merge (node name children []) path out =
      choose (leb (count_nodes children) 2) (merge_each children (path ++ (name ∷ [])) out)
        (extend_group (path ++ (name ∷ [])) (get_child_subpaths none (node name children [])) out)
  merge (node name children (file ∷ files)) path out =
      extend_group (path ++ (name ∷ []))
        (get_child_subpaths none (node name children (file ∷ files))) out

  pub merge_each : Nodes → List String → Groups → Groups
  merge_each no_nodes path out = out
  merge_each (add_node child rest) path out = merge_each rest path (merge child path out)

-- `group_files` up to the texts of its keys: the first segment of a path is the remote
abbrev pub group_files : List RcPathParts → Groups
group_files files = merge_each (make_tree files no_nodes) [] []
