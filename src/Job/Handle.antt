-- ===== src/Job/Handle.antt =====
-- `JobHandle`: what a client sees of its job.
use rclone_kit.Base.{
  ℕ, Bool, true, false, not, ◌&&◌, Option, none, some, Result, ok, Error, String, if◌then◌else◌,
}
use rclone_kit.Operation.{JobStatus, TransferStats, OperationResult}
use rclone_kit.Rc.Payload.{GoTime}
use rclone_kit.Rc.JobClient.{JobClient}
use rclone_kit.Job.{JobRecord, Monitor, is_settled}
use rclone_kit.Job.Polling.{poll_now, stats_now, request_cancel}

-- How `wait()` ends, once the record is settled.
pub data Outcome : Type 0 where
  returned : OperationResult → Outcome
  raised : Error → Outcome
  raised_cancelled raised_failed : OperationResult → Outcome

abbrev judged : Bool → OperationResult → Outcome
judged check result =
    if check && not result.is_ok
    then (if result.cancelled then raised_cancelled result else raised_failed result)
    else returned result

abbrev outcome_of : Bool → Option Error → Option OperationResult → Option Outcome
outcome_of check (some error) result = some (raised error)
outcome_of check none none = none
outcome_of check none (some result) = some (judged check result)

-- `JobHandle.wait` with no timeout; `none` while it blocks
unfoldable pub wait : Bool → JobRecord → Option Outcome
wait check r = outcome_of check r.terminal_exception r.terminal_result

-- `JobHandle.done`
unfoldable pub done : JobRecord → Bool
done r = is_settled r

module _ {W : Type 0} where
  -- `JobHandle.cancel`: its answer, and whether `request_cancel` is to send a `job/stop`
  unfoldable pub cancel : ℕ → Monitor W → (Bool × Bool) × Monitor W
  unfolding request_cancel
  cancel a m =
      if is_settled (m.heap a)
      then ((false, false), m)
      else let (sends, m') = request_cancel a m in ((true, sends), m')

module _ {W : Type 0} (client : JobClient W) (iso : String → Option GoTime) (now : W → ℕ) where
  -- `JobHandle.status`
  unfoldable pub status : ℕ → Monitor W → Result JobStatus × Monitor W
  status a m = elim (m.heap a).latest_status [
    | some s ↦ (ok s, m)
    | none ↦ poll_now client iso now a m
  ]

  -- `JobHandle.stats`, whose own test is the one that `stats_now` begins with
  unfoldable pub stats : ℕ → Monitor W → TransferStats × Monitor W
  stats a m = stats_now client iso now a m
