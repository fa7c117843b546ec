-- ===== src/Job.antt =====
-- src/rclone_kit/job.py: the state of the job monitor, and the record of one job.
pub mod Settle
pub mod Polling
pub mod Handle
pub mod Phase
pub mod Writes
pub mod Reach
pub mod Tracked
pub mod Runs
pub mod Settled
pub mod Shutdown
pub mod Progress
pub mod Partition
use rclone_kit.Base.{
  ℕ, String, Bool, true, false, ◌||◌, Option, none, some, List, [], ◌∷◌, Error, ◌==◌, if◌then◌else◌,
}
use rclone_kit.Base.Int.{ℤ, eqb_ℤ}
use rclone_kit.Operation.{JobStatus, TransferStats, OperationResult, is_some}
use rclone_kit.Rc.Jobs.{RcJobRef}

-- `_JobRecord`, without its locks: each operation below is one critical section
pub record JobRecord : Type 0 where
  pub ref : RcJobRef
  pub operation : String
  pub source : Option String
  pub destination : Option String
  pub cancel_requested : Bool
  pub latest_status : Option JobStatus
  pub latest_stats : Option TransferStats
  pub terminal_result : Option OperationResult
  pub terminal_exception : Option Error

abbrev pub is_settled : JobRecord → Bool
is_settled r = is_some r.terminal_result || is_some r.terminal_exception

-- `_JobMonitor`. A record is shared by its handle and the monitor, so records live on a heap under
-- addresses that are given out in order; `tracked` is the dict `_records`, from job ids to
-- addresses. `batching` says that `_batch_client` is still there. The world is rclone's.
pub record Monitor (W : Type 0) : Type 0 where
  pub heap : ℕ → JobRecord
  pub count : ℕ
  pub tracked : List (ℤ × ℕ)
  pub batching : Bool
  pub thread_started : Bool
  pub world : W

-- Writing one record.
abbrev pub update : (ℕ → JobRecord) → ℕ → JobRecord → ℕ → JobRecord
update heap a r b = if b == a then r else heap b

-- `_records[job_id] = record`
abbrev pub track : ℤ → ℕ → List (ℤ × ℕ) → List (ℤ × ℕ)
track id a [] = (id, a) ∷ []
track id a ((j, b) ∷ entries) = if eqb_ℤ j id then (j, a) ∷ entries else (j, b) ∷ track id a entries

-- `_records.pop(job_id, None)`
abbrev pub untrack : ℤ → List (ℤ × ℕ) → List (ℤ × ℕ)
untrack id [] = []
untrack id ((j, b) ∷ entries) = if eqb_ℤ j id then entries else (j, b) ∷ untrack id entries
