-- ===== src/Operation/Partitioned.antt =====
-- src/rclone_kit/partitioned_job.py: one result from the results of several jobs.
use Prim.Native.Nat.{min, max}
use Prim.Native.String.{◌++◌ as ◌<>◌}
use rclone_kit.Base.{
  ℕ, ◌+◌, ◌-◌, String, Bool, true, false, not, ◌&&◌, ◌||◌, Option, none, some, List, [], ◌∷◌, ◌++◌,
  map, Result, keep, if◌then◌else◌,
}
use rclone_kit.Operation.{TransferStats, OperationResult, OperationWarning, check_operation_result}

module _ {ℓ} {A : Type ℓ} where
  -- `sum(f(x) for x in xs)`
  abbrev pub sum_of : (A → ℕ) → List A → ℕ
  sum_of f [] = 0
  sum_of f (x ∷ xs) = f x + sum_of f xs

  -- `any(f(x) for x in xs)` and `all(f(x) for x in xs)`
  abbrev pub any_of : (A → Bool) → List A → Bool
  any_of f [] = false
  any_of f (x ∷ xs) = f x || any_of f xs

  abbrev pub all_of : (A → Bool) → List A → Bool
  all_of f [] = true
  all_of f (x ∷ xs) = f x && all_of f xs

  -- `min(f(x) for x in xs)` and `max(f(x) for x in xs)` of a list with a first element
  abbrev pub min_of : (A → ℕ) → A → List A → ℕ
  min_of f x [] = f x
  min_of f x (y ∷ ys) = min (f x) (min_of f y ys)

  abbrev pub max_of : (A → ℕ) → A → List A → ℕ
  max_of f x [] = f x
  max_of f x (y ∷ ys) = max (f x) (max_of f y ys)

  -- `tuple(y for x in xs for y in f(x))`
  abbrev pub concat_of {κ} : {B : Type κ} → (A → List B) → List A → List B
  concat_of f [] = []
  concat_of f (x ∷ xs) = f x ++ concat_of f xs

-- `_sum_stats`
unfoldable pub sum_stats : List TransferStats → TransferStats
sum_stats stats = record {
  bytes = sum_of (λ s. s.bytes) stats;
  total_bytes = sum_of (λ s. s.total_bytes) stats;
  checks = sum_of (λ s. s.checks) stats;
  total_checks = sum_of (λ s. s.total_checks) stats;
  transfers = sum_of (λ s. s.transfers) stats;
  total_transfers = sum_of (λ s. s.total_transfers) stats;
  errors = sum_of (λ s. s.errors) stats;
  fatal_error = any_of (λ s. s.fatal_error) stats;
  retry_error = any_of (λ s. s.retry_error) stats;
  speed = 0;
  eta_seconds = none;
  elapsed_seconds = 0;
  active_transfers = [];
  active_checks = [];
}

-- `f"{value}"` of an optional text
abbrev text_of : Option String → String
text_of none = "None"
text_of (some s) = s

-- `f"{failure.source} -> {failure.destination}: {failure.error}"`
abbrev failure_text : OperationResult → String
failure_text r =
    text_of r.source <> (" -> " <> (text_of r.destination <> (": " <> text_of r.error)))

-- `"; ".join(texts)`
abbrev join_texts : List String → String
join_texts [] = ""
join_texts (t ∷ []) = t
join_texts (t ∷ ts) = t <> ("; " <> join_texts ts)

abbrev failure_warning : OperationResult → OperationWarning
failure_warning r = record {
  message = failure_text r;
  source = r.source;
  destination = r.destination;
  error = r.error;
  job_ids = r.job_ids;
}

-- `[result.stats for result in results if result.stats is not None]`
abbrev stats_list : List OperationResult → List TransferStats
stats_list = concat_of (λ r. elim r.stats [ none ↦ [] | some s ↦ s ∷ [] ])

abbrev sum_if_any : List TransferStats → Option TransferStats
sum_if_any [] = none
sum_if_any (s ∷ ss) = some (sum_stats (s ∷ ss))

abbrev pub is_empty {ℓ} : {A : Type ℓ} → List A → Bool
is_empty [] = true
is_empty (_ ∷ _) = false

abbrev pub failures_of : List OperationResult → List OperationResult
failures_of = keep (λ r. not r.is_ok)

-- The aggregate of no results; `now` is the clock.
unfoldable pub nothing_done : ℕ → String → Option String → Option String → OperationResult
nothing_done now operation source destination = record {
  is_ok = true;
  operation = operation;
  source = source;
  destination = destination;
  job_ids = [];
  stats = none;
  warnings = [];
  attempts = [];
  started_at = now;
  ended_at = now;
  duration = 0;
  cancelled = false;
  error = none;
}

-- The fields of the aggregate of a list with a first result.
unfoldable pub folded :
    String
    → Option String
    → Option String
    → OperationResult
    → List OperationResult
    → OperationResult
folded operation source destination r rs =
    let failures = failures_of (r ∷ rs) in
    let is_ok = is_empty failures in
    let started_at = min_of (λ x. x.started_at) r rs in
    let ended_at = max_of (λ x. x.ended_at) r rs in
    record {
      is_ok = is_ok;
      operation = operation;
      source = source;
      destination = destination;
      job_ids = concat_of (λ x. x.job_ids) (r ∷ rs);
      stats = sum_if_any (stats_list (r ∷ rs));
      warnings = map failure_warning failures;
      attempts = concat_of (λ x. x.attempts) (r ∷ rs);
      started_at = started_at;
      ended_at = ended_at;
      duration = ended_at - started_at;
      cancelled = not is_ok && all_of (λ x. x.cancelled) failures;
      error = if is_ok then none else some (join_texts (map failure_text failures));
    }

-- `aggregate_results`
unfoldable pub aggregate_results :
    ℕ → String → Option String → Option String → List OperationResult → Result OperationResult
aggregate_results now operation source destination [] =
    check_operation_result (nothing_done now operation source destination)
aggregate_results now operation source destination (r ∷ rs) =
    check_operation_result (folded operation source destination r rs)

-- How `raise_if_check_failed` ends: it returns, or raises with the aggregate.
pub data Verdict : Type 0 where
  accepted : Verdict
  operation_cancelled operation_failed : OperationResult → Verdict

unfoldable pub raise_if_check_failed : Bool → OperationResult → Verdict
raise_if_check_failed check aggregate =
    if not check || aggregate.is_ok
    then accepted
    else if aggregate.cancelled
    then operation_cancelled aggregate
    else operation_failed aggregate
