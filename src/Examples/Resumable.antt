-- ===== src/Examples/Resumable.antt =====
-- A resumable upload of two parts, the first of which is at the destination; the destination keeps the
-- names of its files.
use rclone_kit.Base.{
  ℕ, ◌*◌, ◌^◌, ◌≡◌, ◌==◌, refl, List, [], ◌∷◌, ◌++◌, Option, some, String, Result, ok, err,
  file_not_found, s3_upload_error, ◌-◌, if◌then◌else◌,
}
use rclone_kit.Base.Decimal.{show, show_padded, read}
use rclone_kit.Base.Int.{ℤ, pos}
use rclone_kit.Types.{make_range}
use rclone_kit.Types.Parts.{PartInfo, create_part_infos, get_chunk_size, part_loop, make_part_info}
use rclone_kit.Types.Names.{gen_name, parse_part_number}
use rclone_kit.Multipart.InfoJson.{Reading, get_info_json, fetch_all_finished_part_numbers}
use rclone_kit.Multipart.Resumable.{
  Access, upload_parts_resumable, prepare, load_info, upload_remaining, begin_tasks, run_parts,
  upload_part, conclude,
}

abbrev W : Type 0
W = List (List ℕ)

-- The part `bad` of the source cannot be read.
abbrev folder : ℕ → Access W
folder bad = record {
  stat = λ w. ok ("2024-01-01", pos (17 * 1024 ^ 2));
  serve_http = λ w. (ok tt, w);
  download = λ p w. if p.part_number == bad then err file_not_found else ok tt;
  copy_to = λ name w. (ok tt, w ++ (name ∷ []));
  listing = λ w. ok w;
  read_info = λ w. Reading.unreadable;
  write_info = λ info w. (ok tt, w);
}

abbrev part_of : ℕ → PartInfo
part_of k = record {
  part_number = k;
  range = record { start = 6 * 1024 ^ 2 * (k - 1); end = 6 * 1024 ^ 2 * k };
}

abbrev three_parts : List PartInfo
three_parts = part_of 1 ∷ part_of 2 ∷ part_of 3 ∷ []

abbrev first_done : W
first_done = gen_name 1 0 (6 * 1024 ^ 2) ∷ []

abbrev no_digest : Option String → Option String → ℤ → Option ℤ → String
no_digest src src_modtime size chunksize = "d"

abbrev in_order : List PartInfo → List PartInfo
in_order ps = ps

abbrev upload : ℕ → Result (Unit {0}) × W
upload bad =
    upload_parts_resumable (folder bad) no_digest in_order "src" (pos (18 * 1024 ^ 2))
      (some three_parts) first_done

-- Part 2 fails, part 3 is copied all the same.
upload_fails_test :
    upload 2 ≡ (err s3_upload_error, first_done ++ (gen_name 3 12582912 18874368 ∷ []))
unfolding upload_parts_resumable prepare load_info upload_remaining begin_tasks run_parts
    upload_part conclude fetch_all_finished_part_numbers get_info_json gen_name parse_part_number
    show_padded show read create_part_infos get_chunk_size part_loop make_part_info make_range
upload_fails_test = refl
