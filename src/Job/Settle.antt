-- ===== src/Job/Settle.antt =====
-- How one poll's outcome settles or refreshes a record (`_apply_poll_outcome` and the settlers).
use text.Mathlib.Text.{find?}
use rclone_kit.Base.{
  ℕ, String, Bool, true, false, ◌&&◌, Option, none, some, List, [], ◌∷◌, Result, ok, err, Error,
  assertion_error, job_not_found, job_identity_error, job_expired, job_runtime_closed,
  runtime_closed, ◌>>=◌, if◌then◌else◌,
}
use rclone_kit.Base.Int.{sub_ℕ}
use rclone_kit.Base.Json.{end}
use rclone_kit.Operation.{
  JobState, succeeded, failed, cancelled, lost, is_terminal, is_some, JobStatus, make_job_status,
  TransferStats, OperationResult, OperationAttempt, check_operation_result,
}
use rclone_kit.Rc.Payload.{GoTime}
use rclone_kit.Rc.Jobs.{parse_operation_attempts}
use rclone_kit.Rc.JobClient.{JobClient}
use rclone_kit.Job.{JobRecord, Monitor, is_settled, update, untrack}

-- `_EMPTY_STATS`
abbrev pub empty_stats : TransferStats
empty_stats = record {
  bytes = 0;
  total_bytes = 0;
  checks = 0;
  total_checks = 0;
  transfers = 0;
  total_transfers = 0;
  errors = 0;
  fatal_error = false;
  retry_error = false;
  speed = 0;
  eta_seconds = none;
  elapsed_seconds = 0;
  active_transfers = [];
  active_checks = [];
}

-- `marker in error`
unfoldable pub mentions : String → Option String → Bool
mentions marker none = false
mentions marker (some error) = is_some (find? error marker)

abbrev pub state_is_failed : JobState → Bool
state_is_failed failed = true
state_is_failed _ = false

abbrev pub state_is_succeeded : JobState → Bool
state_is_succeeded succeeded = true
state_is_succeeded _ = false

-- Whether a terminal status is the cancellation that this client asked for.
unfoldable pub was_cancelled : JobRecord → JobStatus → Bool
was_cancelled r status =
    r.cancel_requested && (state_is_failed status.state && mentions "context canceled" status.error)

-- `dataclasses.replace(status, state=CANCELLED)` where it was cancelled; both states are terminal
unfoldable pub classified : JobRecord → JobStatus → JobStatus
classified r status = if was_cancelled r status then record status { state = cancelled } else status

abbrev pub or_default : Bool → Option String → Option String
or_default false none = some "operation failed with no error message reported by rclone"
or_default _ error = error

-- The `error` of the result.
abbrev pub reported_error : Bool → Bool → Option String → Option String
reported_error is_ok is_cancelled error = if is_ok then none else or_default is_cancelled error

abbrev pub or_assert : Option ℕ → Result ℕ
or_assert none = err assertion_error
or_assert (some t) = ok t

abbrev pub stats_or : Result TransferStats → Option TransferStats → TransferStats
stats_or (ok s) _ = s
stats_or (err _) (some s) = s
stats_or (err _) none = empty_stats

-- The `OperationResult` of a terminal status, before its checks.
unfoldable pub result_of :
    JobRecord → JobStatus → TransferStats → ℕ → List OperationAttempt → OperationResult
result_of r status final_stats ended_at attempts =
    let is_cancelled = was_cancelled r status in
    let is_ok = state_is_succeeded (classified r status).state in
    record {
      is_ok = is_ok;
      operation = r.operation;
      source = r.source;
      destination = r.destination;
      job_ids = r.ref.job_id ∷ [];
      stats = some final_stats;
      warnings = [];
      attempts = attempts;
      started_at = status.started_at;
      ended_at = ended_at;
      duration = status.duration;
      cancelled = is_cancelled;
      error = reported_error is_ok is_cancelled status.error;
    }

unfoldable pub build_result :
    (iso : String → Option GoTime) → JobRecord → JobStatus → TransferStats → Result OperationResult
build_result iso r status final_stats = do
  ended_at ← or_assert status.ended_at
  attempts ← parse_operation_attempts iso status.output
  check_operation_result (result_of r status final_stats ended_at attempts)

-- The record with a terminal result, or with a terminal exception.
abbrev pub with_result : JobRecord → JobStatus → TransferStats → OperationResult → JobRecord
with_result r status final_stats result = record r {
  latest_status = some status;
  latest_stats = some final_stats;
  terminal_result = some result;
}

abbrev pub with_exception : JobRecord → JobStatus → Error → JobRecord
with_exception r status error = record r {
  latest_status = some status;
  terminal_exception = some error;
}

abbrev pub started_or : Option JobStatus → ℕ → ℕ
started_or none now = now
started_or (some s) _ = s.started_at

-- The status that reports the loss; its duration may come out negative and be refused.
unfoldable pub lost_status : JobRecord → ℕ → String → Result JobStatus
lost_status r now status_error =
    let started_at = started_or r.latest_status now in
    make_job_status r.ref.job_id r.ref.execute_id r.ref.group lost started_at (some now)
      (sub_ℕ now started_at) (some status_error) end

module _ {W : Type 0} where
  -- Writes the settled record, under its condition.
  abbrev pub settle : ℕ → JobRecord → Monitor W → Monitor W
  settle a r m = record m { heap = update m.heap a r }

  -- `_forget`, under the lock of the records
  abbrev pub forget : ℕ → Monitor W → Monitor W
  forget a m = record m { tracked = untrack (m.heap a).ref.job_id m.tracked }

  -- Every settler ends with `_forget`.
  abbrev pub forget_settled : ℕ → Monitor W → Monitor W
  forget_settled a m = record m {
    tracked = if is_settled (m.heap a) then untrack (m.heap a).ref.job_id m.tracked else m.tracked;
  }

  abbrev pub settle_lost_with :
      ℕ → Error → Result JobStatus → Monitor W → Result (Unit {0}) × Monitor W
  settle_lost_with a error (err e) m = (err e, m)
  settle_lost_with a error (ok status) m =
      (ok tt, settle a (with_exception (m.heap a) status error) m)

module _ {W : Type 0} (client : JobClient W) (iso : String → Option GoTime) (now : W → ℕ) where
  -- The end of `_settle_terminal`; a result that cannot be built leaves the record unsettled.
  unfoldable pub finish_terminal :
      ℕ
      → JobStatus
      → TransferStats
      → Result OperationResult
      → Monitor W
      → Result (Unit {0}) × Monitor W
  finish_terminal a status final_stats (err e) m = (err e, m)
  finish_terminal a status final_stats (ok result) m =
      let (_, w) = client.delete_stats (m.heap a).ref.group m.world in
      (ok tt, settle a (with_result (m.heap a) status final_stats result) (record m { world = w }))

  -- `_settle_terminal`
  unfoldable pub settle_terminal : ℕ → JobStatus → Monitor W → Result (Unit {0}) × Monitor W
  unfolding finish_terminal
  settle_terminal a status m =
      let r = m.heap a in
      let (answer, w) = client.stats r.ref.group m.world in
      let final_stats = stats_or answer r.latest_stats in
      finish_terminal a (classified r status) final_stats (build_result iso r status final_stats)
        (record m { world = w })

  -- `_settle_unobservable`
  unfoldable pub settle_unobservable :
      ℕ → Error → String → Monitor W → Result (Unit {0}) × Monitor W
  settle_unobservable a error status_error m =
      settle_lost_with a error (lost_status (m.heap a) (now m.world) status_error) m

  -- The `match outcome` of `_apply_poll_outcome`, on a record that is not settled, up to `_forget`.
  unfoldable pub act_on : ℕ → Result JobStatus → Monitor W → Result (Unit {0}) × Monitor W
  act_on a (ok status) m = if is_terminal status.state then settle_terminal a status m else (
    ok tt,
    record m { heap = update m.heap a (record (m.heap a) { latest_status = some status }) },
  )
  act_on a (err (job_not_found _)) m =
      settle_unobservable a (job_expired (m.heap a).ref.job_id (m.heap a).ref.execute_id)
        "job record expired before its terminal state could be observed" m
  act_on a (err (job_identity_error id expected actual)) m =
      settle_unobservable a (job_identity_error id expected actual)
        "job id was reused by a restarted rclone before this job's terminal state could be observed"
        m
  act_on a (err runtime_closed) m =
      settle_unobservable a (job_runtime_closed (m.heap a).ref.job_id)
        "the runtime polling this job was closed before its terminal state could be observed" m
  act_on a (err _) m = (ok tt, m)

  -- `_apply_poll_outcome` up to `_forget`, which takes another lock later
  unfoldable pub write_outcome : ℕ → Result JobStatus → Monitor W → Result (Unit {0}) × Monitor W
  write_outcome a outcome m = if is_settled (m.heap a) then (ok tt, m) else act_on a outcome m

  -- `_apply_poll_outcome`, with no other thread in between
  unfoldable pub apply_poll_outcome :
      ℕ → Result JobStatus → Monitor W → Result (Unit {0}) × Monitor W
  apply_poll_outcome a outcome m =
      if is_settled (m.heap a)
      then (ok tt, m)
      else let (r, m') = act_on a outcome m in (r, forget_settled a m')
