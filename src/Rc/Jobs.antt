-- ===== src/Rc/Jobs.antt =====
-- src/rclone_kit/rc/jobs.py: from the wire JSON of `job/status`, `job/batch` and `core/stats` to
-- the values of operation.py, and the client that makes the calls.
pub mod Batch
use rclone_kit.Base.{
  ℕ, String, Bool, true, false, not, Option, none, some, suc, List, [], ◌∷◌, Result, ok, err,
  value_error, assertion_error, key_error, Error, rc_call_error, job_not_found, job_identity_error,
  operation_start_error, ◌>>=◌, ◌>>◌, raise_if, str_eq, ◌==◌, length, map, if◌then◌else◌,
}
use rclone_kit.Base.Int.{ℤ, pos}
use rclone_kit.Base.Json.{
  Json, null, bool, int, float, str, arr, obj, Items, nil, cons, Fields, end, field, get, has,
  get_or_null, is_falsy,
}
use rclone_kit.Operation.{
  JobState, running, succeeded, failed, JobStatus, make_job_status, ActiveTransfer,
  make_active_transfer, TransferStats, OperationAttempt, make_operation_attempt,
  make_transfer_stats,
}
use rclone_kit.Rc.Payload.{
  GoTime, require, require_str, require_int, require_number, require_bool, optional_number,
  optional_percentage, text_or_none, parse_go_time, traverse_items,
}

pub record RcJobRef : Type 0 where
  pub job_id : ℤ
  pub execute_id : String
  pub group : String

-- `_is_job_not_found`; the text of a value that is no string is never this message
abbrev is_message : String → Json → Bool
is_message m (str s) = str_eq s m
is_message m _ = false

unfoldable pub is_job_not_found : Fields → Bool
is_job_not_found payload = is_message "job not found" (get_or_null payload "error")

-- `payload.get(key) or {}` and its type check
abbrev dict_or_empty : Json → Result Fields
dict_or_empty (obj d) = ok d
dict_or_empty v = if is_falsy v then ok end else err value_error

-- `payload.get(key) or []` and its type check
abbrev list_or_empty : Json → Result Items
list_or_empty (arr xs) = ok xs
list_or_empty v = if is_falsy v then ok nil else err value_error

abbrev or_value_error {ℓ} : {A : Type ℓ} → Option A → Result A
or_value_error none = err value_error
or_value_error (some a) = ok a

abbrev state_of : Bool → Bool → JobState
state_of finished success = if not finished then running else if success then succeeded else failed

-- `entry.get("error") or None`, taken over unchecked by the source; a value that is no text is
-- given the name of its type, since nothing reads it.
abbrev error_of : Json → Option String
error_of (str s) = text_or_none s
error_of v = if is_falsy v then none else some "not a text"

-- `isinstance(status, int)`, which a bool passes too
abbrev reported_status : Json → ℤ
reported_status (int n) = n
reported_status (bool true) = pos 1
reported_status (bool false) = pos 0
reported_status _ = pos 500

-- `_batch_entry_failure`
unfoldable pub batch_entry_failure : RcJobRef → Fields → Error
batch_entry_failure ref entry =
    if is_job_not_found entry
    then job_not_found ref.job_id
    else rc_call_error "job/status" (reported_status (get_or_null entry "status")) entry

abbrev pub count_items : Items → ℕ
count_items nil = 0
count_items (cons _ xs) = suc (count_items xs)

module _ (iso : String → Option GoTime) where
  -- `_parse_job_status`
  unfoldable pub parse_job_status : RcJobRef → Fields → Result JobStatus
  parse_job_status ref payload = do
    finished ← require_bool payload "finished"
    success ← require_bool payload "success"
    error ← require_str payload "error"
    start ← require payload "startTime"
    started ← parse_go_time iso start
    ended_at ←
        (if finished then (do e ← require payload "endTime"; parse_go_time iso e) else ok none)
    started_at ← or_value_error started
    output ← dict_or_empty (get_or_null payload "output")
    duration ← require_number payload "duration"
    make_job_status ref.job_id ref.execute_id ref.group (state_of finished success) started_at
        ended_at duration (text_or_none error) output

  -- `_parse_operation_attempt`
  unfoldable pub parse_operation_attempt : Json → Result OperationAttempt
  parse_operation_attempt (obj entry) = do
    start ← require entry "startTime"
    started ← parse_go_time iso start
    stop ← require entry "endTime"
    ended ← parse_go_time iso stop
    started_at ← or_value_error started
    ended_at ← or_value_error ended
    number ← require_int entry "number"
    duration ← require_number entry "duration"
    is_ok ← require_bool entry "ok"
    let error = error_of (get_or_null entry "error")
    fatal_error ← require_bool entry "fatalError"
    retry_error ← require_bool entry "retryError"
    make_operation_attempt number started_at ended_at duration is_ok error fatal_error retry_error
  parse_operation_attempt _ = err value_error

  abbrev attempts_of : Json → Result (List OperationAttempt)
  attempts_of null = ok []
  attempts_of (arr entries) = traverse_items parse_operation_attempt entries
  attempts_of _ = err value_error

  -- `parse_operation_attempts`
  unfoldable pub parse_operation_attempts : Fields → Result (List OperationAttempt)
  parse_operation_attempts output = attempts_of (get_or_null output "attempts")

  -- `_validated_job_status`
  unfoldable pub validated_job_status : RcJobRef → Fields → Result JobStatus
  validated_job_status ref payload = do
    actual ← require_str payload "executeId"
    raise_if (not (str_eq actual ref.execute_id))
        (job_identity_error ref.job_id ref.execute_id actual)
    parse_job_status ref payload

  -- `_batch_status_result`: one job's outcome, its exception as a value
  unfoldable pub batch_status_result : RcJobRef → Json → Result JobStatus
  batch_status_result ref (obj entry) =
      if has entry "finished"
      then validated_job_status ref entry
      else err (batch_entry_failure ref entry)
  batch_status_result ref _ = err value_error

  -- What `status()` does with the answer of its `job/status` call.
  unfoldable pub status_of_answer : RcJobRef → Result Fields → Result JobStatus
  status_of_answer ref (ok response) = validated_job_status ref response
  status_of_answer ref (err (rc_call_error method status payload)) =
      if is_job_not_found payload
      then err (job_not_found ref.job_id)
      else err (rc_call_error method status payload)
  status_of_answer ref (err e) = err e

  unfoldable pub zip_results : List RcJobRef → Items → List (Result JobStatus)
  zip_results (ref ∷ refs) (cons x xs) = batch_status_result ref x ∷ zip_results refs xs
  zip_results _ _ = []

  abbrev results_of : List RcJobRef → Json → Result (List (Result JobStatus))
  results_of refs (arr results) =
      if count_items results == length refs then ok (zip_results refs results) else err value_error
  results_of refs _ = err value_error

  -- What `statuses()` does with the answer of its `job/batch` call.
  unfoldable pub statuses_of_answer :
      List RcJobRef → Result Fields → Result (List (Result JobStatus))
  unfolding zip_results
  statuses_of_answer refs answer = do
    response ← answer
    results ← require response "results"
    results_of refs results

abbrev transfer_of : Json → Result ActiveTransfer
transfer_of (obj entry) = do
  name ← require_str entry "name"
  bytes ← require_int entry "bytes"
  size ← require_int entry "size"
  speed ← require_number entry "speed"
  percentage ← optional_percentage entry "percentage"
  eta ← optional_number entry "eta"
  make_active_transfer name bytes size speed percentage eta
transfer_of _ = err value_error

abbrev check_name : Json → Result String
check_name (str s) = ok s
check_name _ = err value_error

-- `_parse_transfer_stats`
unfoldable pub parse_transfer_stats : Fields → Result TransferStats
parse_transfer_stats payload = do
  transferring ← list_or_empty (get_or_null payload "transferring")
  checking ← list_or_empty (get_or_null payload "checking")
  names ← traverse_items check_name checking
  bytes ← require_int payload "bytes"
  total_bytes ← require_int payload "totalBytes"
  checks ← require_int payload "checks"
  total_checks ← require_int payload "totalChecks"
  transfers ← require_int payload "transfers"
  total_transfers ← require_int payload "totalTransfers"
  errors ← require_int payload "errors"
  fatal_error ← require_bool payload "fatalError"
  retry_error ← require_bool payload "retryError"
  speed ← require_number payload "speed"
  eta ← optional_number payload "eta"
  elapsed ← require_number payload "elapsedTime"
  active ← traverse_items transfer_of transferring
  make_transfer_stats bytes total_bytes checks total_checks transfers total_transfers errors
      fatal_error retry_error speed eta elapsed active names
