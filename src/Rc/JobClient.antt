-- ===== src/Rc/JobClient.antt =====
-- The interface that the job monitor has of rclone (`RcJobClient`, `RcBatchStatusClient`), and
-- `RcloneRcJobClient`, which meets it with any `RcCallable`. A call may change the world outside,
-- which is passed along; what it does there is the callable's.
use rclone_kit.Base.{
  String, true, Option, some, List, [], ◌∷◌, Result, ok, err, rc_call_error, operation_start_error,
  ◌>>=◌, if◌then◌else◌,
}
use rclone_kit.Base.Json.{bool, int, str, arr, obj, Items, nil, cons, Fields, end, field}
use rclone_kit.Operation.{JobStatus, TransferStats}
use rclone_kit.Rc.Payload.{GoTime, require_int, require_str}
use rclone_kit.Rc.Jobs.{
  RcJobRef, is_job_not_found, status_of_answer, statuses_of_answer, parse_transfer_stats,
}

pub record JobClient (W : Type 0) : Type 0 where
  pub start : String → Fields → String → W → Result RcJobRef × W
  pub status : RcJobRef → W → Result JobStatus × W
  pub stats : String → W → Result TransferStats × W
  pub stop : RcJobRef → W → Result (Unit {0}) × W
  pub delete_stats : String → W → Result (Unit {0}) × W
  -- `none`: the client does not offer `statuses`
  pub statuses : Option (List RcJobRef → W → Result (List (Result JobStatus)) × W)

abbrev started : (method group : String) → Result Fields → Result RcJobRef
started method group (ok response) = do
  job_id ← require_int response "jobid"
  execute_id ← require_str response "executeId"
  ok (record { job_id = job_id; execute_id = execute_id; group = group })
started method group (err (rc_call_error _ _ _)) = err (operation_start_error method)
started method group (err e) = err e

abbrev stopped : Result Fields → Result (Unit {0})
stopped (ok _) = ok tt
stopped (err (rc_call_error method status payload)) =
    if is_job_not_found payload then ok tt else err (rc_call_error method status payload)
stopped (err e) = err e

abbrev done : Result Fields → Result (Unit {0})
done (ok _) = ok tt
done (err e) = err e

-- The inputs of one `job/batch` call.
abbrev batch_inputs : List RcJobRef → Items
batch_inputs [] = nil
batch_inputs (ref ∷ refs) =
    cons (obj (field "_path" (str "job/status") (field "jobid" (int ref.job_id) end)))
      (batch_inputs refs)

-- `RcCallable.call(method, **params)`
module _ {W : Type 0} (iso : String → Option GoTime)
    (call : String → Fields → W → Result Fields × W) where
  unfoldable pub start : String → Fields → String → W → Result RcJobRef × W
  start method params group w =
      let (answer, w') =
        call method (field "_async" (bool true) (field "_group" (str group) params)) w in
      (started method group answer, w')

  unfoldable pub status : RcJobRef → W → Result JobStatus × W
  status ref w =
      let (answer, w') = call "job/status" (field "jobid" (int ref.job_id) end) w in
      (status_of_answer iso ref answer, w')

  unfoldable pub statuses : List RcJobRef → W → Result (List (Result JobStatus)) × W
  statuses [] w = (ok [], w)
  statuses (ref ∷ refs) w =
      let (answer, w') =
        call "job/batch" (field "inputs" (arr (batch_inputs (ref ∷ refs))) end) w in
      (statuses_of_answer iso (ref ∷ refs) answer, w')

  unfoldable pub stats : String → W → Result TransferStats × W
  stats group w =
      let (answer, w') = call "core/stats" (field "group" (str group) end) w in
      ((answer >>= parse_transfer_stats), w')

  unfoldable pub stop : RcJobRef → W → Result (Unit {0}) × W
  stop ref w =
      let (answer, w') = call "job/stop" (field "jobid" (int ref.job_id) end) w in
      (stopped answer, w')

  unfoldable pub delete_stats : String → W → Result (Unit {0}) × W
  delete_stats group w =
      let (answer, w') = call "core/stats-delete" (field "group" (str group) end) w in
      (done answer, w')

  unfoldable pub rc_job_client : JobClient W
  rc_job_client = record {
    start = start;
    status = status;
    stats = stats;
    stop = stop;
    delete_stats = delete_stats;
    statuses = some statuses;
  }
