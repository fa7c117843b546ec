-- ===== src/Job/Polling.antt =====
-- `_JobMonitor`: starting, polling and cancelling jobs.
use rclone_kit.Base.{
  ℕ, ◌+◌, String, Bool, true, false, not, ◌&&◌, ◌||◌, Option, none, some, List, [], ◌∷◌, map,
  Result, ok, err, runtime_error, length, ◌==◌, if◌then◌else◌,
}
use rclone_kit.Base.Int.{ℤ}
use rclone_kit.Base.Json.{Fields}
use rclone_kit.Operation.{JobStatus, TransferStats, is_some}
use rclone_kit.Rc.Payload.{GoTime}
use rclone_kit.Rc.Jobs.{RcJobRef}
use rclone_kit.Rc.JobClient.{JobClient}
use rclone_kit.Job.{JobRecord, Monitor, is_settled, update, track}
use rclone_kit.Job.Settle.{apply_poll_outcome, empty_stats}

-- A record as `start_job` makes it.
abbrev pub fresh : RcJobRef → String → Option String → Option String → JobRecord
fresh ref operation source destination = record {
  ref = ref;
  operation = operation;
  source = source;
  destination = destination;
  cancel_requested = false;
  latest_status = none;
  latest_stats = none;
  terminal_result = none;
  terminal_exception = none;
}

-- The addresses of the tracked records that are not settled.
abbrev pub pending_of : (ℕ → JobRecord) → List (ℤ × ℕ) → List ℕ
pending_of heap [] = []
pending_of heap ((_, a) ∷ entries) =
    if is_settled (heap a) then pending_of heap entries else a ∷ pending_of heap entries

abbrev pub zip_records : List ℕ → List (Result JobStatus) → List (ℕ × Result JobStatus)
zip_records (a ∷ rs) (o ∷ outcomes) = (a, o) ∷ zip_records rs outcomes
zip_records _ _ = []

module _ {W : Type 0} where
  abbrev pub enroll : RcJobRef → String → Option String → Option String → Monitor W → Monitor W
  enroll ref operation source destination m = record m {
    heap = update m.heap m.count (fresh ref operation source destination);
    count = m.count + 1;
    tracked = track ref.job_id m.count m.tracked;
    thread_started = true;
  }

  abbrev pub started_job :
      Result RcJobRef → String → Option String → Option String → Monitor W → Result ℕ × Monitor W
  started_job (err e) operation source destination m = (err e, m)
  started_job (ok ref) operation source destination m =
      (ok m.count, enroll ref operation source destination m)

  -- The part of `request_cancel` under the lock: whether a `job/stop` is to be sent, which is done
  -- by a thread that runs `dispatch_cancel`.
  unfoldable pub request_cancel : ℕ → Monitor W → Bool × Monitor W
  request_cancel a m =
      let r = m.heap a in
      if is_settled r || r.cancel_requested
      then (false, m)
      else (true, record m { heap = update m.heap a (record r { cancel_requested = true }) })

  -- Caching fresh statistics, unless the record has settled with some.
  abbrev pub cache_stats : ℕ → TransferStats → Monitor W → TransferStats × Monitor W
  cache_stats a stats m =
      let r = m.heap a in
      if not (is_settled r) || not (is_some r.latest_stats)
      then (stats, record m { heap = update m.heap a (record r { latest_stats = some stats }) })
      else (elim r.latest_stats [ none ↦ stats | some s ↦ s ], m)

  -- The `except` of `stats_now`.
  abbrev pub stats_answer : ℕ → Result TransferStats → Monitor W → TransferStats × Monitor W
  stats_answer a (ok stats) m = cache_stats a stats m
  stats_answer a (err _) m = elim (m.heap a).latest_stats [
    | none ↦ cache_stats a empty_stats m
    | some s ↦ (s, m)
  ]

  -- An exception ends what follows.
  abbrev pub and_then :
      Result (Unit {0}) × Monitor W
      → (Monitor W → Result (Unit {0}) × Monitor W)
      → Result (Unit {0}) × Monitor W
  and_then (ok _, m) k = k m
  and_then (err e, m) k = (err e, m)

  -- A loop over records whose body may raise.
  abbrev pub for_each {ℓ} :
      {A : Type ℓ}
      → (A → Monitor W → Result (Unit {0}) × Monitor W)
      → List A
      → Monitor W
      → Result (Unit {0}) × Monitor W
  for_each f [] m = (ok tt, m)
  for_each f (x ∷ xs) m = and_then (f x m) (λ m'. for_each f xs m')

  -- `_batched_statuses` after its call: `none` sends the caller to one call for each job, and the
  -- batch transport is given up for good.
  abbrev pub batch_outcomes :
      List ℕ
      → Result (List (Result JobStatus))
      → Monitor W
      → Option (List (ℕ × Result JobStatus)) × Monitor W
  batch_outcomes pending (err _) m = (none, record m { batching = false })
  batch_outcomes pending (ok outcomes) m =
      if length outcomes == length pending
      then (some (zip_records pending outcomes), m)
      else (none, record m { batching = false })

module _ {W : Type 0} (client : JobClient W) (iso : String → Option GoTime) (now : W → ℕ) where
  unfoldable pub start_job :
      String
      → Fields
      → String
      → String
      → Option String
      → Option String
      → Monitor W
      → Result ℕ × Monitor W
  start_job method params group operation source destination m =
      let (answer, w) = client.start method params group m.world in
      started_job answer operation source destination (record m { world = w })

  -- `_poll_record`
  unfoldable pub poll_record : ℕ → Monitor W → Result (Unit {0}) × Monitor W
  poll_record a m =
      if is_settled (m.heap a)
      then (ok tt, m)
      else let (outcome, w) = client.status (m.heap a).ref m.world in
        apply_poll_outcome client iso now a outcome (record m { world = w })

  -- `_dispatch_cancel`
  unfoldable pub dispatch_cancel : ℕ → Monitor W → Result (Unit {0}) × Monitor W
  dispatch_cancel a m =
      let (_, w) = client.stop (m.heap a).ref m.world in poll_record a (record m { world = w })

  abbrev pub ask :
      Option (List RcJobRef → W → Result (List (Result JobStatus)) × W)
      → List ℕ
      → Monitor W
      → Option (List (ℕ × Result JobStatus)) × Monitor W
  ask none pending m = (none, m)
  ask (some statuses) pending m =
      let (answer, w) = statuses (map (λ a. (m.heap a).ref) pending) m.world in
      batch_outcomes pending answer (record m { world = w })

  -- `_batched_statuses`
  unfoldable pub batched_statuses :
      List ℕ → Monitor W → Option (List (ℕ × Result JobStatus)) × Monitor W
  batched_statuses pending m = if m.batching then ask client.statuses pending m else (none, m)

  abbrev pub apply_outcome : ℕ × Result JobStatus → Monitor W → Result (Unit {0}) × Monitor W
  apply_outcome (a, outcome) m = apply_poll_outcome client iso now a outcome m

  -- `_poll_once`; an exception here ends the monitor's thread
  abbrev pub settle_each :
      List ℕ → Option (List (ℕ × Result JobStatus)) × Monitor W → Result (Unit {0}) × Monitor W
  settle_each pending (none, m) = for_each poll_record pending m
  settle_each pending (some outcomes, m) = for_each apply_outcome outcomes m

  unfoldable pub poll_pending : List ℕ → Monitor W → Result (Unit {0}) × Monitor W
  poll_pending [] m = (ok tt, m)
  poll_pending (a ∷ more) m = settle_each (a ∷ more) (batched_statuses (a ∷ more) m)

  unfoldable pub poll_once : Monitor W → Result (Unit {0}) × Monitor W
  unfolding poll_pending
  poll_once m = poll_pending (pending_of m.heap m.tracked) m

  -- `stats_now`
  unfoldable pub stats_now : ℕ → Monitor W → TransferStats × Monitor W
  stats_now a m =
      let r = m.heap a in
      if is_settled r && is_some r.latest_stats
      then (elim r.latest_stats [ none ↦ empty_stats | some s ↦ s ], m)
      else let (answer, w) = client.stats r.ref.group m.world in
        stats_answer a answer (record m { world = w })

  -- `poll_now`
  unfoldable pub poll_now : ℕ → Monitor W → Result JobStatus × Monitor W
  poll_now a m =
      let (polled, m') = poll_record a m in
      elim polled [
        | err e ↦ (err e, m')
        | ok _ ↦ (elim (m'.heap a).latest_status [ none ↦ err runtime_error | some s ↦ ok s ], m')
      ]
