-- ===== src/Examples/Groups.antt =====
-- Files in the tree of group_files.py, and the prefix that files share.
use rclone_kit.Base.{ℕ, ◌≡◌, refl, String, List, [], ◌∷◌, ok, err, assertion_error, arith}
use rclone_kit.Grouping.{RcPathParts, group_files, merge, get_child_subpaths}
use rclone_kit.Grouping.Weight.{weight_groups, weight_parts, group_files-weight}
use rclone_kit.Grouping.Shallow.{IsShallow, group_files-IsShallow}
use rclone_kit.Grouping.Prefix.{common_prefix, Splits, common_prefix-Splits}

abbrev file_at : List String → String → RcPathParts
file_at parents name = record { remote = "dst"; parents = parents; name = name }

-- Two directories under one without files are groups of their own.
two_groups :
    group_files (
      file_at ("Bucket" ∷ "a" ∷ []) "f1"
      ∷ file_at ("Bucket" ∷ "b" ∷ []) "f2"
      ∷ file_at ("Bucket" ∷ "a" ∷ []) "f3"
      ∷ [])
    ≡ ("dst" ∷ "Bucket" ∷ "a" ∷ [], ("f1" ∷ []) ∷ ("f3" ∷ []) ∷ [])
      ∷ ("dst" ∷ "Bucket" ∷ "b" ∷ [], ("f2" ∷ []) ∷ [])
      ∷ []
unfolding merge get_child_subpaths
two_groups = refl

-- Bucket/x/y/deep is listed as y/deep under Bucket.
abbrev nested : List RcPathParts
nested = file_at ("Bucket" ∷ []) "top" ∷ file_at ("Bucket" ∷ "x" ∷ "y" ∷ []) "deep" ∷ []

nested_loses_x :
    group_files nested ≡ ("dst" ∷ "Bucket" ∷ [], ("y" ∷ "deep" ∷ []) ∷ ("top" ∷ []) ∷ []) ∷ []
unfolding merge get_child_subpaths
nested_loses_x = refl

group_files-IsShallow_example : IsShallow (group_files nested)
group_files-IsShallow_example = group_files-IsShallow nested

-- A directory that is spelled like the last one gets the file as well.
repeated :
    group_files (file_at ("a" ∷ "b" ∷ "a" ∷ []) "f" ∷ [])
    ≡ ("dst" ∷ "a" ∷ [], ("a" ∷ "f" ∷ []) ∷ ("f" ∷ []) ∷ []) ∷ []
unfolding merge get_child_subpaths
repeated = refl

abbrev each_one : String → ℕ
each_one name = 1

group_files-weight_example :
    weight_groups each_one (group_files nested) ≡ weight_parts each_one nested
group_files-weight_example = group_files-weight each_one nested

abbrev two_files : List (List String)
two_files = ("Bucket" ∷ "sub" ∷ "f1" ∷ []) ∷ ("Bucket" ∷ "sub" ∷ "f2" ∷ []) ∷ []

common_prefix-Splits_example : Splits two_files (common_prefix 4 [] two_files)
common_prefix-Splits_example =
    common_prefix-Splits 4 [] two_files (omega arith) (omega arith, (omega arith, tt))

two_files_share :
    common_prefix 4 [] two_files ≡ ok ("Bucket" ∷ "sub" ∷ [], ("f1" ∷ []) ∷ ("f2" ∷ []) ∷ [])
two_files_share = refl

-- The same files in another order are split, or fail the assertion.
bare_last : common_prefix 4 [] (("a" ∷ "f" ∷ []) ∷ ("g" ∷ []) ∷ []) ≡ err assertion_error
bare_last = refl

bare_first :
    common_prefix 4 [] (("g" ∷ []) ∷ ("a" ∷ "f" ∷ []) ∷ [])
    ≡ ok ([], ("g" ∷ []) ∷ ("a" ∷ "f" ∷ []) ∷ [])
bare_first = refl
