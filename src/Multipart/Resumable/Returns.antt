-- ===== src/Multipart/Resumable/Returns.antt =====
-- s3/multipart/upload_parts_resumable.py: what is known of the parts when an upload returns.
use rclone_kit.Base.{ℕ, ◌≡◌, ◌⊎◌, String, true, not, Option, List, ◌∷◌, ◌++◌, member, keep, All, ok}
use rclone_kit.Base.Int.{ℤ}
use rclone_kit.Types.Parts.{PartInfo}
use rclone_kit.Types.Names.{gen_name}
use rclone_kit.Multipart.InfoJson.{InfoData, fetch_all_finished_part_numbers}
use rclone_kit.Multipart.Resumable.{Access, run_parts, load_info, begin_tasks}

-- The parts that are not among the numbers `done`.
abbrev pub remaining_of : List ℕ → List PartInfo → List PartInfo
remaining_of done = keep (λ p. not (member p.part_number done))

module _ {W : Type 0} (a : Access W) where
  -- Reading the part returns, and so does the copy of its chunk to the name of the part.
  abbrev pub Copied : W → PartInfo → Type 0
  Copied u p =
      (a.download p u ≡ ok tt)
      × ((a.copy_to (gen_name p.part_number p.range.start p.range.end) u).0 ≡ ok tt)

  -- In the tasks that begin in `v`, the one of `p` has its turn, after those of `before`, and the part is
  -- read and copied.
  abbrev pub Uploaded : W → List PartInfo → PartInfo → Type 0
  Uploaded v tasks p =
      (before : List PartInfo) × (after : List PartInfo) × (tasks ≡ before ++ (p ∷ after))
      × Copied (run_parts a before v).1 p

  module _ (md5 : Option String → Option String → ℤ → Option ℤ → String)
      (order : List PartInfo → List PartInfo)
      (kept : (Q : PartInfo → Type 0) (ps : List PartInfo) → All Q (order ps) → All Q ps)
      (src : String) (parts : List PartInfo) where
    -- What is known of `parts` when an upload that began in `w` returns in `v'`: `done` are the part
    -- numbers that were listed; if they are not all of the parts, the tasks of the rest began in `v`.
    pub record Returned (w v' : W) : Type 0 where
      pub done : List ℕ
      pub listing : fetch_all_finished_part_numbers (a.listing w) ≡ ok done
      pub uploaded :
          ((v' ≡ w) × All (λ p. member p.part_number done ≡ true) parts)
          ⊎ ((first : PartInfo) × (others : List PartInfo) × (info : InfoData) × (loaded : InfoData)
              × (v : W) × (remaining_of done parts ≡ first ∷ others)
              × (load_info a src w ≡ ok info)
              × (begin_tasks a md5 src parts first info w ≡ (ok loaded, v))
              × All
                  (λ p.
                    (member p.part_number done ≡ true)
                    ⊎ Uploaded v (order (remaining_of done parts)) p)
                  parts)
