-- ===== src/Job/Writes.antt =====
-- job.py: which record an operation of the monitor writes, and that it tracks what it did.
use rclone_kit.Base.{
  ℕ, ◌≡◌, refl, String, true, false, not, ◌||◌, Option, some, Result, ok, err, Error, job_not_found,
  job_identity_error, runtime_closed, Bool-cases, Option-cases, inl, inr, arith,
}
use rclone_kit.Operation.{
  lost, is_terminal, is_some, JobStatus, TransferStats, OperationResult, make_job_status,
}
use rclone_kit.Rc.Payload.{GoTime}
use rclone_kit.Rc.JobClient.{JobClient}
use rclone_kit.Job.{JobRecord, Monitor, is_settled, update}
use rclone_kit.Job.Settle.{
  lost_status, settle_lost_with, finish_terminal, settle_terminal, settle_unobservable, act_on,
  write_outcome, build_result, classified, with_result, with_exception, empty_stats,
}
use rclone_kit.Job.Polling.{request_cancel, stats_answer, cache_stats}
use rclone_kit.Job.Phase.{
  Evolves, with_result-Evolves, with_exception-Evolves, refresh-Evolves, cancel_requested-Evolves,
  latest_stats-Evolves,
}

-- What one operation on the record at `a` may do to the monitor.
pub data Writes {W : Type 0} (a : ℕ) (m m' : Monitor W) : Type 0 where
  untouched : m'.heap ≡ m.heap → m'.tracked ≡ m.tracked → m'.count ≡ m.count → Writes a m m'
  refreshed :
      (r : JobRecord)
      → m'.heap ≡ update m.heap a r
      → m'.tracked ≡ m.tracked
      → m'.count ≡ m.count
      → Evolves (m.heap a) r
      → is_settled r ≡ is_settled (m.heap a)
      → Writes a m m'
  settles :
      (r : JobRecord)
      → m'.heap ≡ update m.heap a r
      → m'.tracked ≡ m.tracked
      → m'.count ≡ m.count
      → Evolves (m.heap a) r
      → is_settled r ≡ true
      → Writes a m m'

lost_status-lost :
    (r : JobRecord) (now : ℕ) (text : String) (s : JobStatus)
    → lost_status r now text ≡ ok s
    → s.state ≡ lost
unfolding lost_status make_job_status
lost_status-lost r now text s h = ground arith

module _ {W : Type 0} (a : ℕ) (m : Monitor W) (unsettled : is_settled (m.heap a) ≡ false) where
  settle_lost_with-Writes :
      (e : Error) (now : ℕ) (text : String)
      → Writes a m (settle_lost_with a e (lost_status (m.heap a) now text) m).1
  settle_lost_with-Writes e now text = go (lost_status (m.heap a) now text) refl
    where
      go :
          (r : Result JobStatus)
          → lost_status (m.heap a) now text ≡ r
          → Writes a m (settle_lost_with a e r m).1
      go (err x) h = untouched refl refl refl
      go (ok s) h =
          settles (with_exception (m.heap a) s e) refl refl refl
            (with_exception-Evolves (m.heap a) unsettled s e
              (lost_status-lost (m.heap a) now text s h))
            (ground arith)

  finish_terminal-Writes :
      (client : JobClient W) (iso : String → Option GoTime) (now : W → ℕ) (w : W)
      (status : JobStatus) (stats : TransferStats) (result : Result OperationResult)
      → is_terminal status.state ≡ true
      → build_result iso (m.heap a) status stats ≡ result
      → Writes a m
          (finish_terminal client iso now a
            (classified (m.heap a) status)
            stats
            result
            (record m { world = w })).1
  unfolding finish_terminal
  finish_terminal-Writes client iso now w status stats (err e) end h = untouched refl refl refl
  finish_terminal-Writes client iso now w status stats (ok q) end h =
      settles (with_result (m.heap a) (classified (m.heap a) status) stats q) refl refl refl
        (with_result-Evolves (m.heap a) unsettled iso status stats q end h) (ground arith)

module _ {W : Type 0} (client : JobClient W) (iso : String → Option GoTime) (now : W → ℕ) where
  act_on-Writes :
      (a : ℕ) (outcome : Result JobStatus) (m : Monitor W)
      → is_settled (m.heap a) ≡ false
      → Writes a m (act_on client iso now a outcome m).1
  unfolding act_on settle_terminal settle_unobservable
  act_on-Writes a (ok status) m h = elim (Bool-cases (is_terminal status.state)) [
    | inl end ↦ rw end (finish_terminal-Writes a m h client iso now _ status _ _ end refl)
    | inr more ↦ rw more (
        refreshed (record (m.heap a) { latest_status = some status }) refl refl refl
          (refresh-Evolves (m.heap a) h status more) refl)
  ]
  act_on-Writes a (err (job_not_found id)) m h = settle_lost_with-Writes a m h _ _ _
  act_on-Writes a (err (job_identity_error id expected actual)) m h =
      settle_lost_with-Writes a m h _ _ _
  act_on-Writes a (err runtime_closed) m h = settle_lost_with-Writes a m h _ _ _
  act_on-Writes a (err _) m h = untouched refl refl refl

  pub write_outcome-Writes :
      (a : ℕ) (outcome : Result JobStatus) (m : Monitor W)
      → Writes a m (write_outcome client iso now a outcome m).1
  unfolding write_outcome
  write_outcome-Writes a outcome m = elim (Bool-cases (is_settled (m.heap a))) [
    | inl h ↦ rw h (untouched refl refl refl)
    | inr h ↦ rw h (act_on-Writes a outcome m h)
  ]

module _ {W : Type 0} where
  pub request_cancel-Writes : (a : ℕ) (m : Monitor W) → Writes a m (request_cancel a m).1
  unfolding request_cancel
  request_cancel-Writes a m =
      elim (Bool-cases (is_settled (m.heap a) || (m.heap a).cancel_requested)) [
        | inl h ↦ rw h (untouched refl refl refl)
        | inr h ↦ rw h (
            refreshed (record (m.heap a) { cancel_requested = true }) refl refl refl
              (cancel_requested-Evolves (m.heap a)) refl)
      ]

  cache_stats-Writes :
      (a : ℕ) (stats : TransferStats) (m : Monitor W) → Writes a m (cache_stats a stats m).1
  cache_stats-Writes a stats m =
      elim (Bool-cases (not (is_settled (m.heap a)) || not (is_some (m.heap a).latest_stats))) [
        | inl h ↦ rw h (
            refreshed (record (m.heap a) { latest_stats = some stats }) refl refl refl
              (latest_stats-Evolves (m.heap a) stats) refl)
        | inr h ↦ rw h (untouched refl refl refl)
      ]

  pub stats_answer-Writes :
      (a : ℕ) (answer : Result TransferStats) (m : Monitor W)
      → Writes a m (stats_answer a answer m).1
  stats_answer-Writes a (ok stats) m = cache_stats-Writes a stats m
  stats_answer-Writes a (err e) m = elim (Option-cases (m.heap a).latest_stats) [
    | inl h ↦ rw (h, stats_answer) (cache_stats-Writes a empty_stats m)
    | inr (s, h) ↦ rw (h, stats_answer) (untouched refl refl refl)
  ]
