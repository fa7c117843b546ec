-- ===== src/Multipart/Resumable.antt =====
-- s3/multipart/upload_parts_resumable.py: the parts of a file that are not at the destination yet are
-- read and copied there. Without its progress messages and the directory of chunk files. Every
-- call of the access and of its server may raise.
pub mod Returns
use rclone_kit.Base.{
  ℕ, zero, suc, ◌+◌, ◌-◌, ◌*◌, ◌^◌, String, Bool, true, false, not, ◌&&◌, Option, none, some, List,
  [], ◌∷◌, map, member, keep, Error, Result, ok, err, value_error, s3_upload_error, ◌>>=◌, ◌>>◌,
  ltb, if◌then◌else◌,
}
use rclone_kit.Base.Int.{ℤ, pos}
use rclone_kit.Types.Parts.{PartInfo, split_parts}
use rclone_kit.Types.Names.{gen_name}
use rclone_kit.Multipart.InfoJson.{
  InfoData, Reading, get_info_json, save_info_json, set_chunksize, set_first_part, set_last_part,
  fetch_all_finished_part_numbers,
}

-- `MultipartAccess` and the HTTP server over a world `W`, for one source and one destination
-- directory: the modification time and size of the source, starting the server, reading a part of the
-- source, copying a chunk to a name of the directory, the listing of the directory, and reading and
-- writing its info.json.
pub record Access (W : Type 0) : Type 0 where
  pub stat : W → Result (String × ℤ)
  pub serve_http : W → Result (Unit {0}) × W
  pub download : PartInfo → W → Result (Unit {0})
  pub copy_to : List ℕ → W → Result (Unit {0}) × W
  pub listing : W → Result (List (List ℕ))
  pub read_info : W → Reading
  pub write_info : InfoData → W → Result (Unit {0}) × W

abbrev pub numbers : List PartInfo → List ℕ
numbers = map (λ (p : PartInfo). p.part_number)

-- `SizeSuffix("5MB")` and `SizeSuffix("96MB")`
abbrev min_part_upload_size : ℕ
min_part_upload_size = 5 * 1024 ^ 2

abbrev pub target_chunk_size : ℤ
target_chunk_size = pos (96 * 1024 ^ 2)

abbrev pub size_of : PartInfo → ℕ
size_of p = p.range.end - p.range.start

-- `_check_part_size`
abbrev pub check_part_size : List PartInfo → Result (Unit {0})
check_part_size [] = err value_error
check_part_size (part ∷ parts) =
    if ltb (size_of part) min_part_upload_size then err value_error else ok tt

-- `part_infos[-1]`, after a first part
abbrev last_of : PartInfo → List PartInfo → PartInfo
last_of p [] = p
last_of p (q ∷ qs) = last_of q qs

-- `info_json.first_part = …` and `info_json.last_part = …`
abbrev pub set_ends : List PartInfo → InfoData → InfoData
set_ends [] info = info
set_ends (p ∷ ps) info =
    set_last_part (last_of p ps).part_number (set_first_part p.part_number info)

abbrev all_in : List ℕ → List ℕ → Bool
all_in [] ms = true
all_in (n ∷ ns) ms = member n ms && all_in ns ms

-- `len(set(ns).symmetric_difference(set(ms))) == 0`
abbrev same_set : List ℕ → List ℕ → Bool
same_set ns ms = all_in ns ms && all_in ms ns

-- `upload_part.exception`
abbrev failure_of : Result (Unit {0}) → Option Error
failure_of (ok _) = none
failure_of (err e) = some e

module _ {W : Type 0} (a : Access W) where
  -- `read_task` and, with what it returns, `upload_task`: the exception of the `UploadPart`
  unfoldable pub upload_part : PartInfo → W → Option Error × W
  upload_part p w = elim (a.download p w) [
    | err e ↦ (some e, w)
    | ok _ ↦
        let (copied, w') = a.copy_to (gen_name p.part_number p.range.start p.range.end) w in
        (failure_of copied, w')
  ]

  abbrev pub listed : Option Error → List Error → List Error
  listed none es = es
  listed (some e) es = e ∷ es

  -- `exceptions`, of the tasks in the order in which they finish
  unfoldable pub run_parts : List PartInfo → W → List Error × W
  unfolding upload_part
  run_parts [] w = ([], w)
  run_parts (p ∷ ps) w =
      let (e, w1) = upload_part p w in let (es, w2) = run_parts ps w1 in (listed e es, w2)

  -- `info_json.load()`
  unfoldable pub load_info : (src : String) → W → Result InfoData
  load_info src w = do src_stat ← a.stat w; get_info_json (some src) src_stat (a.read_info w)

  module _ (md5 : Option String → Option String → ℤ → Option ℤ → String) where
    -- `info_json.save()`
    abbrev pub saved : InfoData → W → Result (Unit {0}) × W
    saved info w = a.write_info (save_info_json md5 info) w

    -- What follows the tasks; `info` is what was loaded after the first save.
    unfoldable pub conclude : List PartInfo → InfoData → List Error × W → Result (Unit {0}) × W
    conclude part_infos info (e ∷ es, w) = (err s3_upload_error, w)
    conclude part_infos info ([], w) = elim (fetch_all_finished_part_numbers (a.listing w)) [
      | err e ↦ (err e, w)
      | ok finished_parts ↦
          if same_set (numbers part_infos) finished_parts then saved info w else (ok tt, w)
    ]

    -- The parts that remain, and the info that was loaded; nothing is changed before.
    unfoldable pub prepare :
        (src : String) (src_size : ℤ) → List PartInfo → W → Result (List PartInfo × InfoData)
    unfolding load_info
    prepare src src_size part_infos w = do
      check_part_size part_infos
      info ← load_info src w
      done ← fetch_all_finished_part_numbers (a.listing w)
      ok (keep (λ p. not (member p.part_number done)) part_infos, info)

    -- From the settings of the info to the first task: the info that was loaded after the first save.
    unfoldable pub begin_tasks :
        (src : String) → List PartInfo → PartInfo → InfoData → W → Result InfoData × W
    begin_tasks src part_infos first info w =
        let (written, w1) =
          saved (set_ends part_infos (set_chunksize (pos (size_of first)) info)) w in
        elim written [
          | err e ↦ (err e, w1)
          | ok _ ↦ elim (load_info src w1) [
            | err e ↦ (err e, w1)
            | ok loaded ↦
                let (served, w2) = a.serve_http w1 in
                elim served [ err e ↦ (err e, w2) | ok _ ↦ (ok loaded, w2) ]
          ]
        ]

    -- `order` is the order in which the tasks of the remaining parts finish.
    module _ (order : List PartInfo → List PartInfo) where
      unfoldable pub upload_remaining :
          (src : String) → List PartInfo → List PartInfo × InfoData → W → Result (Unit {0}) × W
      unfolding run_parts conclude begin_tasks
      upload_remaining src part_infos ([], info) w = (ok tt, w)
      upload_remaining src part_infos (p ∷ ps, info) w =
          let (begun, w1) = begin_tasks src part_infos p info w in
          elim begun [
            | err e ↦ (err e, w1)
            | ok loaded ↦ conclude part_infos loaded (run_parts (order (p ∷ ps)) w1)
          ]

      abbrev prepared :
          (src : String)
          → List PartInfo
          → Result (List PartInfo × InfoData)
          → W
          → Result (Unit {0}) × W
      prepared src part_infos (err e) w = (err e, w)
      prepared src part_infos (ok plan) w = upload_remaining src part_infos plan w

      abbrev chosen : Option (List PartInfo) → List PartInfo → List PartInfo
      chosen none full_part_infos = full_part_infos
      chosen (some part_infos) full_part_infos = part_infos

      -- `upload_parts_resumable`, with the size of the source
      unfoldable pub upload_parts_resumable :
          (src : String) (src_size : ℤ) → Option (List PartInfo) → W → Result (Unit {0}) × W
      unfolding prepare upload_remaining
      upload_parts_resumable src src_size part_infos w =
          elim (split_parts src_size target_chunk_size) [
            | err e ↦ (err e, w)
            | ok full_part_infos ↦
                let parts = chosen part_infos full_part_infos in
                prepared src parts (prepare src src_size parts w) w
          ]
