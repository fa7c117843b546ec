-- ===== src/Job/Progress.antt =====
-- job.py: `_poll_once` where rclone reports the end of jobs.
use rclone_kit.Base.{
  ℕ, ◌≤◌, ◌≡◌, String, true, false, Option, some, List, Result, ok, err, Bool, ◌⊎◌,
}
use rclone_kit.Operation.{JobStatus, OperationAttempt, is_terminal}
use rclone_kit.Rc.Payload.{GoTime}
use rclone_kit.Rc.Jobs.{parse_operation_attempts}
use rclone_kit.Rc.JobClient.{JobClient}
use rclone_kit.Job.{Monitor, is_settled}
use rclone_kit.Job.Reach.{Reach}

-- An answer that says that the job has ended, in a way that can be read.
pub record IsReadableEnd (iso : String → Option GoTime) (answer : Result JobStatus) : Type 0 where
  pub status : JobStatus
  pub stop : ℕ
  pub attempts : List OperationAttempt
  pub answered : answer ≡ ok status
  pub terminal : is_terminal status.state ≡ true
  pub ended : status.ended_at ≡ some stop
  pub readable : parse_operation_attempts iso status.output ≡ ok attempts
  pub ordered : status.started_at ≤ stop

-- Whether an answer says that the job has ended.
abbrev pub reports_end : Result JobStatus → Bool
reports_end (ok status) = is_terminal status.state
reports_end (err e) = false

-- An answer of a job that goes on, or of one whose end can be read.
abbrev pub IsReadable : (String → Option GoTime) → Result JobStatus → Type 0
IsReadable iso answer =
    IsReadableEnd iso answer
    ⊎ ((status : JobStatus) × (answer ≡ ok status) × (is_terminal status.state ≡ false))

module _ {W : Type 0} (client : JobClient W) (iso : String → Option GoTime) (now : W → ℕ) where
  -- The record is settled, unless its answer was that the job goes on.
  abbrev Follows : Monitor W → ℕ × Result JobStatus → Type 0
  Follows l (a, answer) = (is_settled (l.heap a) ≡ true) ⊎ (reports_end answer ≡ false)
