-- ===== src/Transfer.antt =====
-- operations/transfer_ops_embedded.py: operations on many files as jobs, one for each group of files,
-- in batches. A job is a value of `H`. `M` is what the functions have of the monitor: starting
-- a job and waiting for one, on a world that both change; both may raise.
pub mod Pacing
pub mod Options
use rclone_kit.Base.{
  ℕ, zero, suc, ◌+◌, String, Bool, true, false, ◌&&◌, Option, none, some, List, [], ◌∷◌, ◌++◌, map,
  length, take, drop, Error, Result, ok, err, diverged, value_error, leb, ◌==◌, if◌then◌else◌,
}
use rclone_kit.Operation.{OperationResult}
use rclone_kit.Operation.Partitioned.{aggregate_results, Verdict, raise_if_check_failed, any_of}

pub record Jobs (Request H W : Type 0) : Type 0 where
  pub start_job : Request → W → Result H × W
  pub wait : H → W → Result OperationResult × W

-- The requests of a partition: its job, and the `rmdirs` that may follow it.
pub record Partition (Request : Type 0) : Type 0 where
  pub job : Request
  pub rmdirs : Option Request

-- `_read_copy_files_list` of a list; a path is its characters.
abbrev has_colon : List ℕ → Bool
has_colon = any_of (λ c. c == b':')

abbrev pub read_copy_files_list : List (List ℕ) → Result (List (List ℕ))
read_copy_files_list files = if any_of has_colon files then err value_error else ok files

-- `len(partitions) if max_partition_workers is None else max(1, max_partition_workers)`
abbrev pub batch_size_of : Option ℕ → ℕ → ℕ
batch_size_of none count = count
batch_size_of (some zero) count = 1
batch_size_of (some (suc n)) count = suc n

-- A step that raised, or what follows the step.
module _ {ℓ κ} {A : Type ℓ} {B : Type κ} {W : Type 0} where
  abbrev pub after_result : Result A → W → (A → W → Result B × W) → Result B × W
  after_result (err e) w next = (err e, w)
  after_result (ok x) w next = next x w

  abbrev pub after : Result A × W → (A → W → Result B × W) → Result B × W
  after out next = after_result out.0 out.1 next

-- `raise_if_check_failed(check, aggregate)`, before `return aggregate`
abbrev pub checked :
    {W : Type 0} → Bool → Result OperationResult → W → Result (Verdict × OperationResult) × W
checked check (err e) w = (err e, w)
checked check (ok aggregate) w = (ok (raise_if_check_failed check aggregate, aggregate), w)

module _ {Request H W : Type 0} (m : Jobs Request H W) where
  -- The comprehension that starts the jobs of a batch.
  unfoldable pub start_batch : List (Partition Request) → W → Result (List (H × Option Request)) × W
  start_batch [] w = (ok [], w)
  start_batch (p ∷ ps) w =
      after (m.start_job p.job w)
        (λ h w1. after (start_batch ps w1) (λ hs w2. (ok ((h, p.rmdirs) ∷ hs), w2)))

  -- `rmdirs` of a partition whose job was ok, started and waited for.
  unfoldable pub follow : OperationResult → Option Request → W → Result (List OperationResult) × W
  follow q none w = (ok [], w)
  follow q (some request) w =
      let rmdirs =
        after (m.start_job request w) (λ h w1. after (m.wait h w1) (λ r w2. (ok (r ∷ []), w2))) in
      if q.is_ok then rmdirs else (ok [], w)

  -- The loop that waits for the jobs of a batch.
  unfoldable pub wait_batch : List (H × Option Request) → W → Result (List OperationResult) × W
  unfolding follow
  wait_batch [] w = (ok [], w)
  wait_batch ((h, rmdirs) ∷ hs) w = after (m.wait h w) (λ q w1.
      after (follow q rmdirs w1)
        (λ more w2. after (wait_batch hs w2) (λ qs w3. (ok (q ∷ (more ++ qs)), w3))))

  -- `for batch_start in range(0, len(partitions), batch_size)`
  unfoldable pub run_batches :
      (fuel batch_size : ℕ) → List (Partition Request) → W → Result (List OperationResult) × W
  unfolding start_batch wait_batch
  run_batches fuel batch_size [] w = (ok [], w)
  run_batches zero batch_size (_ ∷ _) w = (err diverged, w)
  run_batches (suc fuel) batch_size (p ∷ ps) w =
      after (start_batch (take batch_size (p ∷ ps)) w) (λ hs w1. after (wait_batch hs w1) (λ qs w2.
        after (run_batches fuel batch_size (drop batch_size (p ∷ ps)) w2)
          (λ rs w3. (ok (qs ++ rs), w3))))

  -- `copy_files_embedded` and `delete_files_embedded`, once the files are grouped: the aggregate, and
  -- how `raise_if_check_failed` ends.
  unfoldable pub files_embedded :
      (now : ℕ) (operation : String) (source destination : Option String) (check : Bool)
      → (max_partition_workers : Option ℕ) → List (Partition Request)
      → W
      → Result (Verdict × OperationResult) × W
  unfolding run_batches
  files_embedded now operation source destination check max_partition_workers partitions w =
      let count = length partitions in
      after (run_batches count (batch_size_of max_partition_workers count) partitions w)
        (λ results w1.
          checked check (aggregate_results now operation source destination results) w1)
