-- ===== src/Examples/Locations.antt =====
-- Paths of remotes and of local files.
use rclone_kit.Base.{ℕ, ◌≡◌, refl, List, [], ◌∷◌, ok, err, value_error}
use rclone_kit.Paths.{parse, as_parent_and_name}

-- A working directory /w.
abbrev in_w : List ℕ → List ℕ
in_w path = b'/' ∷ b'w' ∷ b'/' ∷ path

-- "rs:a/f/"
abbrev remote_file : List ℕ
remote_file = b'r' ∷ b's' ∷ b':' ∷ b'a' ∷ b'/' ∷ b'f' ∷ b'/' ∷ []

-- ":s3,x:b"
abbrev inline_remote : List ℕ
inline_remote = b':' ∷ b's' ∷ b'3' ∷ b',' ∷ b'x' ∷ b':' ∷ b'b' ∷ []

parsed_remote :
    parse in_w remote_file
    ≡ record { fs = b'r' ∷ b's' ∷ b':' ∷ []; remote = b'a' ∷ b'/' ∷ b'f' ∷ [] }
parsed_remote = refl

parsed_inline :
    parse in_w inline_remote
    ≡ record { fs = b':' ∷ b's' ∷ b'3' ∷ b',' ∷ b'x' ∷ b':' ∷ []; remote = b'b' ∷ [] }
parsed_inline = refl

parsed_drive :
    parse in_w (b'C' ∷ b':' ∷ b'x' ∷ []) ≡ record { fs = b'C' ∷ b':' ∷ b'x' ∷ []; remote = [] }
parsed_drive = refl

parsed_local : (parse in_w (b'f' ∷ [])).fs ≡ in_w (b'f' ∷ [])
parsed_local = refl

split_file :
    as_parent_and_name in_w (parse in_w remote_file)
    ≡ ok (record { fs = b'r' ∷ b's' ∷ b':' ∷ b'a' ∷ []; remote = b'f' ∷ [] })
split_file = refl

root_has_no_name : as_parent_and_name in_w (parse in_w (b'r' ∷ b's' ∷ b':' ∷ [])) ≡ err value_error
root_has_no_name = refl
