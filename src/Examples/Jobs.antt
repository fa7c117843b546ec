-- ===== src/Examples/Jobs.antt =====
-- A monitor over an rclone whose only job was cancelled, and whose world is a clock.
use rclone_kit.Base.{
  ℕ, ◌+◌, ◌≡◌, refl, String, true, false, List, Option, none, some, [], ◌∷◌, All, map, Result, ok,
  err, Error, ◌⊎◌, ◌≢◌, ◌↔◌, arith,
}
use rclone_kit.Base.Int.{pos}
use rclone_kit.Base.Json.{Fields, end}
use rclone_kit.Operation.{
  JobState, failed, succeeded, JobStatus, OperationResult, check_operation_result,
}
use rclone_kit.Rc.Payload.{GoTime}
use rclone_kit.Rc.Jobs.{RcJobRef, parse_operation_attempts}
use rclone_kit.Rc.JobClient.{JobClient}
use rclone_kit.Job.{Monitor, is_settled}
use rclone_kit.Job.Settle.{
  act_on, settle_terminal, finish_terminal, build_result, result_of, classified, empty_stats,
  apply_poll_outcome, write_outcome, forget, mentions, was_cancelled,
}
use rclone_kit.Job.Polling.{fresh, enroll, request_cancel}
use rclone_kit.Job.Handle.{raised_cancelled, wait}
use rclone_kit.Job.Phase.{Phase, live, SameEnd}
use rclone_kit.Job.Reach.{
  Reach, here, next, starts, requests, applies, forgets, Reach-Phase, Reach-SameEnd,
}
use rclone_kit.Job.Tracked.{IsTracked, Reach-IsTracked, apply_poll_outcome-untracks}
use rclone_kit.Job.Shutdown.{Shutdown, stops, waited, no_more, Shutdown-settles}
use rclone_kit.Operation.Partitioned.{raise_if_check_failed}
use rclone_kit.Operation.Aggregate.{Summarises}
use rclone_kit.Job.Partition.{
  HasResult, partition_wait, summarised, raised_error, run_cleanup, partition_wait-Summarises,
}
use rclone_kit.Job.Settled.{IsOwnCancellation, apply_poll_outcome-settles}

abbrev ref : RcJobRef
ref = record { job_id = pos 7; execute_id = "e1"; group = "job/7" }

abbrev status_with : JobState → Option ℕ → Option String → Fields → JobStatus
status_with state stop error output = record {
  job_id = pos 7;
  execute_id = "e1";
  group = "job/7";
  state = state;
  started_at = 3;
  ended_at = stop;
  duration = 2;
  error = error;
  output = output;
}

abbrev stopped_status : JobStatus
stopped_status = status_with failed (some 5) (some "copy: context canceled") end

abbrev finished_status : JobStatus
finished_status = status_with succeeded (some 5) none end

abbrev client : JobClient ℕ
client = record {
  start = λ method params group w. (ok ref, w + 1);
  status = λ r w. (ok stopped_status, w + 1);
  stats = λ group w. (ok empty_stats, w);
  stop = λ r w. (ok tt, w);
  delete_stats = λ group w. (ok tt, w);
  statuses = some (λ refs w. (ok (map (λ r. ok stopped_status) refs), w + 1));
}

abbrev iso : String → Option GoTime
iso _ = none

abbrev now : ℕ → ℕ
now w = w

abbrev idle : Monitor ℕ
idle = record {
  heap = λ a. fresh ref "copy" none none;
  count = 0;
  tracked = [];
  batching = true;
  thread_started = false;
  world = 0;
}

abbrev one_job : Monitor ℕ
one_job = enroll ref "copy" (some "a:") (some "b:") idle

abbrev asked : Monitor ℕ
asked = (request_cancel 0 one_job).1

abbrev written : Monitor ℕ
written = (write_outcome client iso now 0 (ok stopped_status) asked).1

abbrev settled : Monitor ℕ
settled = forget 0 written

idle-Phase : (b : ℕ) → Phase (idle.heap b)
idle-Phase b = live refl refl tt

idle-IsTracked : IsTracked idle
idle-IsTracked = record { entries_own = tt; distinct = tt }

run : Reach client iso now idle settled
unfolding write_outcome request_cancel act_on settle_terminal finish_terminal build_result
    parse_operation_attempts check_operation_result result_of classified was_cancelled mentions
run =
    next
      (next
        (next (next here (starts ref "copy" (some "a:") (some "b:"))) (requests 0 (omega arith)))
        (applies 0 (ok stopped_status) (omega arith)))
      (forgets 0 (omega arith) refl)

mentions_test : mentions "context canceled" (some "copy: context canceled") ≡ true
unfolding mentions
mentions_test = refl

mentions_other : mentions "context canceled" (some "no such file") ≡ false
unfolding mentions
mentions_other = refl

-- The job was asked to stop and its error is that of a cancelled context: `wait` raises for that.
wait_test : (e : OperationResult) × (wait true (settled.heap 0) ≡ some (raised_cancelled e))
unfolding wait write_outcome request_cancel act_on settle_terminal finish_terminal build_result
    parse_operation_attempts check_operation_result result_of classified was_cancelled mentions
wait_test = (_, refl)

settled-is_settled : is_settled (settled.heap 0) ≡ true
unfolding write_outcome request_cancel act_on settle_terminal finish_terminal build_result
    parse_operation_attempts check_operation_result result_of classified was_cancelled mentions
settled-is_settled = refl

settled-count : settled.count ≡ 1
unfolding write_outcome request_cancel act_on settle_terminal finish_terminal build_result
    parse_operation_attempts check_operation_result result_of classified was_cancelled mentions
settled-count = refl

one_job-IsTracked : IsTracked one_job
one_job-IsTracked = record { entries_own = ((refl, omega arith), tt); distinct = (tt, tt) }

finished_attempts : parse_operation_attempts iso finished_status.output ≡ ok []
unfolding parse_operation_attempts
finished_attempts = refl

-- The job is asked to stop, and settles while `shutdown` waits for it.
shut_down : Shutdown client iso now one_job true settled
unfolding write_outcome request_cancel act_on settle_terminal finish_terminal build_result
    parse_operation_attempts check_operation_result result_of classified was_cancelled mentions
shut_down =
    stops true
      (waited
        (next (next here (applies 0 (ok stopped_status) (omega arith)))
          (forgets 0 (omega arith) refl))
        no_more)
      here

Shutdown-settles_example : All (λ a. is_settled (settled.heap a) ≡ true) (0 ∷ [])
Shutdown-settles_example = Shutdown-settles client iso now shut_down one_job-IsTracked

abbrev batch : List RcJobRef → ℕ → Result (List (Result JobStatus)) × ℕ
batch refs w = (ok (map (λ r. ok stopped_status) refs), w + 1)

settled-HasResult : HasResult (settled.heap 0)
unfolding write_outcome request_cancel act_on settle_terminal finish_terminal build_result
    parse_operation_attempts check_operation_result result_of classified was_cancelled mentions
settled-HasResult = record {
  result = _;
  settled = refl;
  no_exception = refl;
  ordered = omega arith;
}

-- A cleanup that counts.
abbrev counting : Option (ℕ → Result (Unit {0}) × ℕ)
counting = some (λ w. (ok tt, w + 1))

partition_wait-Summarises_example :
    (qs : List OperationResult) × (a : OperationResult) × (map
        (λ r. r.terminal_result)
        (settled.heap 0 ∷ [])
      ≡ map some qs)
    × Summarises qs a
    × ((partition_wait 9 "copy" none none true counting (settled.heap 0 ∷ []) 4).1 ≡ 5)
    × (((run_cleanup counting 4).0 ≡ ok tt)
          × ((partition_wait 9 "copy" none none true counting (settled.heap 0 ∷ []) 4).0
              ≡ summarised (raise_if_check_failed true a) a)
        ⊎ ((e : Error) × ((run_cleanup counting 4).0 ≡ err e)
            × ((partition_wait 9 "copy" none none true counting (settled.heap 0 ∷ []) 4).0
                ≡ raised_error e)))
partition_wait-Summarises_example =
    partition_wait-Summarises 9 "copy" none none true counting (settled.heap 0 ∷ []) 4
      (settled-HasResult, tt)

Reach-SameEnd_example :
    SameEnd
      (settled.heap 0)
      ((write_outcome client iso now 0 (ok finished_status) settled).1.heap 0)
Reach-SameEnd_example =
    Reach-SameEnd client iso now 0
      (next here (applies 0 (ok finished_status) (omega (arith, settled-count))))
      (omega (arith, settled-count)) settled-is_settled

Reach-Phase_example : Phase (settled.heap 0)
Reach-Phase_example = Reach-Phase client iso now run idle-Phase 0

Reach-IsTracked_example : IsTracked settled
Reach-IsTracked_example = Reach-IsTracked client iso now run idle-IsTracked

apply_poll_outcome-untracks_example :
    let m = (apply_poll_outcome client iso now 0 (ok finished_status) one_job).1 in
    ((is_settled (m.heap 0) ≡ true) × All (λ e. e.0 ≢ pos 7) m.tracked)
    ⊎ ((is_settled (m.heap 0) ≡ false) × (m.tracked ≡ one_job.tracked))
apply_poll_outcome-untracks_example =
    apply_poll_outcome-untracks client iso now 0 (ok finished_status) one_job one_job-IsTracked refl

apply_poll_outcome-settles_example :
    (q : OperationResult) × ((apply_poll_outcome client iso now 0 (ok finished_status) one_job).0
      ≡ ok tt)
    × (((apply_poll_outcome client iso now 0 (ok finished_status) one_job).1.heap 0).terminal_result
        ≡ some q)
    × ((q.is_ok ≡ true) ↔ (finished_status.state ≡ succeeded))
    × ((q.cancelled ≡ true) ↔ IsOwnCancellation (one_job.heap 0) finished_status)
    × (q.attempts ≡ [])
apply_poll_outcome-settles_example =
    apply_poll_outcome-settles client iso now 0 one_job finished_status refl refl refl
      finished_attempts (omega arith)
