-- ===== src/Multipart/Merge/Keys.antt =====
-- s3/multipart/upload_parts_server_side_merge.py: the key of an uploaded part.
use Prim.Native.String.{String, [], ◌∷◌, ◌++◌}

-- `_to_s3_key`, over the directory of the parts and the name of a part
abbrev pub to_s3_key : String → String → String
to_s3_key parts_path [] = parts_path
to_s3_key parts_path (c ∷ cs) = parts_path ++ ("/" ++ (c ∷ cs))

-- `dst_key`, in the directory of `parts_path`
abbrev pub dst_key_of : (dst_dir dst_name : String) → String
dst_key_of dst_dir dst_name = dst_dir ++ ("/" ++ dst_name)
