-- ===== src/Operation.antt =====
-- src/rclone_kit/operation.py: the value types of a job's status, statistics and result, each
-- with the checks of its `__post_init__`. A datetime is the instant of an aware one, counted in
-- the unit of a JSON float; a naive one has no counterpart. What a check keeps from being negative
-- is a natural.
pub mod Partitioned
pub mod Aggregate
use rclone_kit.Base.{
  ℕ, ◌≤◌, ◌≡◌, ◌≢◌, arith, String, Bool, true, false, not, ◌&&◌, ◌||◌, Option, none, some, List, [],
  Result, ok, err, value_error, ◌>>=◌, ◌>>◌, raise_if, ltb, leb,
}
use rclone_kit.Base.Int.{ℤ, pos, negsuc, ltb_ℤ, leb_ℤ, pos_part}
use rclone_kit.Base.Json.{Fields}

pub data JobState : Type 0 where
  running cancellation_requested succeeded failed cancelled lost : JobState

-- membership in `_TERMINAL_JOB_STATES`
abbrev pub is_terminal : JobState → Bool
is_terminal running = false
is_terminal cancellation_requested = false
is_terminal _ = true

abbrev pub is_some {ℓ} : {A : Type ℓ} → Option A → Bool
is_some none = false
is_some (some _) = true

-- `_require_non_negative`, `_require_non_negative_int`: the value, if it is not negative
abbrev pub require_non_negative : ℤ → Result ℕ
require_non_negative (pos n) = ok n
require_non_negative (negsuc _) = err value_error

abbrev pub require_non_negative_opt : Option ℤ → Result (Option ℕ)
require_non_negative_opt none = ok none
require_non_negative_opt (some v) = do n ← require_non_negative v; ok (some n)

pub record JobStatus : Type 0 where
  pub job_id : ℤ
  pub execute_id : String
  pub group : String
  pub state : JobState
  pub started_at : ℕ
  pub ended_at : Option ℕ
  pub duration : ℕ
  pub error : Option String
  pub output : Fields

-- `JobStatus(...)`: exactly the terminal states have an end
unfoldable pub make_job_status :
    ℤ → String → String → JobState → ℕ → Option ℕ → ℤ → Option String → Fields → Result JobStatus
make_job_status job_id execute_id group state started_at ended_at duration error output = do
  seconds ← require_non_negative duration
  raise_if (is_terminal state && not (is_some ended_at)) value_error
  raise_if (not (is_terminal state) && is_some ended_at) value_error
  ok (record {
    job_id = job_id;
    execute_id = execute_id;
    group = group;
    state = state;
    started_at = started_at;
    ended_at = ended_at;
    duration = seconds;
    error = error;
    output = output;
  })

-- A status that was built has the given identity, and an end exactly in a terminal state.
pub make_job_status_inv :
    (job_id : ℤ) (execute_id group : String) (state : JobState) (started_at : ℕ)
    (ended_at : Option ℕ) (duration : ℤ) (error : Option String) (output : Fields) (s : JobStatus)
    → make_job_status job_id execute_id group state started_at ended_at duration error output ≡ ok s
    → (s.job_id ≡ job_id)
      × (s.execute_id ≡ execute_id)
      × (s.group ≡ group)
      × (is_terminal s.state ≡ is_some s.ended_at)
unfolding make_job_status
make_job_status_inv i e g state start stop duration error output s h = ground (arith, h)

pub record ActiveTransfer : Type 0 where
  pub name : String
  pub bytes : ℕ
  pub size : ℕ
  pub speed : ℕ
  pub percentage : Option ℤ
  pub eta_seconds : Option ℕ

-- `0 <= percentage <= 100`
abbrev percentage_fits : Option ℤ → Bool
percentage_fits none = true
percentage_fits (some p) = leb_ℤ (pos 0) p && leb_ℤ p (pos 100)

unfoldable pub make_active_transfer :
    String → ℤ → ℤ → ℤ → Option ℤ → Option ℤ → Result ActiveTransfer
make_active_transfer name bytes size speed percentage eta = do
  b ← require_non_negative bytes
  s ← require_non_negative size
  v ← require_non_negative speed
  raise_if (not (percentage_fits percentage)) value_error
  e ← require_non_negative_opt eta
  ok (record {
    name = name;
    bytes = b;
    size = s;
    speed = v;
    percentage = percentage;
    eta_seconds = e;
  })

pub record TransferStats : Type 0 where
  pub bytes : ℕ
  pub total_bytes : ℕ
  pub checks : ℕ
  pub total_checks : ℕ
  pub transfers : ℕ
  pub total_transfers : ℕ
  pub errors : ℕ
  pub fatal_error : Bool
  pub retry_error : Bool
  pub speed : ℕ
  pub eta_seconds : Option ℕ
  pub elapsed_seconds : ℕ
  pub active_transfers : List ActiveTransfer
  pub active_checks : List String

-- `TransferStats(...)`: no count and no amount is negative
unfoldable pub make_transfer_stats :
    (bytes total_bytes checks total_checks transfers total_transfers errors : ℤ)
    → (fatal_error retry_error : Bool) → (speed : ℤ) → (eta_seconds : Option ℤ)
    → (elapsed_seconds : ℤ) → List ActiveTransfer
    → List String
    → Result TransferStats
make_transfer_stats b tb c tc t tt_ e fatal retry speed eta elapsed active names = do
  bytes ← require_non_negative b
  total_bytes ← require_non_negative tb
  checks ← require_non_negative c
  total_checks ← require_non_negative tc
  transfers ← require_non_negative t
  total_transfers ← require_non_negative tt_
  errors ← require_non_negative e
  speed_value ← require_non_negative speed
  elapsed_seconds ← require_non_negative elapsed
  eta_seconds ← require_non_negative_opt eta
  ok (record {
    bytes = bytes;
    total_bytes = total_bytes;
    checks = checks;
    total_checks = total_checks;
    transfers = transfers;
    total_transfers = total_transfers;
    errors = errors;
    fatal_error = fatal;
    retry_error = retry;
    speed = speed_value;
    eta_seconds = eta_seconds;
    elapsed_seconds = elapsed_seconds;
    active_transfers = active;
    active_checks = names;
  })

pub record OperationAttempt : Type 0 where
  pub number : ℕ
  pub started_at : ℕ
  pub ended_at : ℕ
  pub duration : ℕ
  pub is_ok : Bool
  pub error : Option String
  pub fatal_error : Bool
  pub retry_error : Bool

unfoldable pub make_operation_attempt :
    ℤ → ℕ → ℕ → ℤ → Bool → Option String → Bool → Bool → Result OperationAttempt
make_operation_attempt number started_at ended_at duration is_ok error fatal retry = do
  n ← require_non_negative number
  raise_if (ltb n 1) value_error
  d ← require_non_negative duration
  raise_if (ltb ended_at started_at) value_error
  ok (record {
    number = n;
    started_at = started_at;
    ended_at = ended_at;
    duration = d;
    is_ok = is_ok;
    error = error;
    fatal_error = fatal;
    retry_error = retry;
  })

-- The `detail` mapping with its four keys, which is all that this library puts there.
pub record OperationWarning : Type 0 where
  pub message : String
  pub source : Option String
  pub destination : Option String
  pub error : Option String
  pub job_ids : List ℤ

pub record OperationResult : Type 0 where
  pub is_ok : Bool
  pub operation : String
  pub source : Option String
  pub destination : Option String
  pub job_ids : List ℤ
  pub stats : Option TransferStats
  pub warnings : List OperationWarning
  pub attempts : List OperationAttempt
  pub started_at : ℕ
  pub ended_at : ℕ
  pub duration : ℕ
  pub cancelled : Bool
  pub error : Option String

-- The checks of `OperationResult.__post_init__` that the types leave open.
unfoldable pub check_operation_result : OperationResult → Result OperationResult
check_operation_result r = do
  raise_if (ltb r.ended_at r.started_at) value_error
  raise_if (r.is_ok && is_some r.error) value_error
  raise_if (not r.is_ok && not (is_some r.error) && not r.cancelled) value_error
  raise_if (r.cancelled && r.is_ok) value_error
  ok r

-- What the checks of `OperationResult` ensure.
pub record IsConsistent (r : OperationResult) : Type 0 where
  pub ordered : r.started_at ≤ r.ended_at
  pub no_error : r.is_ok ≡ true → r.error ≡ none
  pub explained : r.is_ok ≡ false → r.cancelled ≡ false → r.error ≢ none
  pub not_both : r.cancelled ≡ true → r.is_ok ≡ false

pub check_operation_result_lem :
    (r : OperationResult) → IsConsistent r → check_operation_result r ≡ ok r
unfolding check_operation_result
check_operation_result_lem r h = ground (arith, h.ordered, h.no_error, h.explained, h.not_both)

pub check_operation_result_inv :
    (r : OperationResult) {q : OperationResult}
    → check_operation_result r ≡ ok q
    → (q ≡ r) × IsConsistent r
unfolding check_operation_result
check_operation_result_inv r h = (
  ground arith,
  record {
    ordered = ground arith;
    no_error = ground arith;
    explained = ground arith;
    not_both = ground arith;
  },
)
