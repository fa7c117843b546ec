-- ===== src/Job/Partition.antt =====
-- src/rclone_kit/partitioned_job.py: `PartitionedJobHandle`, several jobs started as one operation.
-- Its handles are given by their records, as they are when the wait for each returns; no timeouts.
use rclone_kit.Base.{
  ℕ, ◌≤◌, ◌≡◌, refl, sym, ap, ◌∙◌, ==_iff, ◌⊎◌, String, Bool, true, false, not, ◌&&◌, ◌||◌, Option,
  none, some, List, [], ◌∷◌, map, All, Result, ok, err, Error, Bool-cases, inl, inr, ◌==◌, arith,
}
use rclone_kit.Operation.{OperationResult}
use rclone_kit.Operation.Partitioned.{all_of, aggregate_results, Verdict, raise_if_check_failed}
use rclone_kit.Operation.Aggregate.{Summarises, aggregate_results_summary}
use rclone_kit.Job.{JobRecord, Monitor, is_settled, update}
use rclone_kit.Job.Polling.{request_cancel}
use rclone_kit.Job.Handle.{Outcome, returned, raised, raised_cancelled, raised_failed, wait, cancel}

-- The `for` loop of `wait`.
pub data Collected : Type 0 where
  blocks : Collected
  stopped_by : Error → Collected
  stopped_by_result : OperationResult → Collected
  collected : List OperationResult → Collected

abbrev gather : Option Outcome → Collected → Collected
gather none rest = blocks
gather (some (raised e)) rest = stopped_by e
gather (some (raised_cancelled q)) rest = stopped_by_result q
gather (some (raised_failed q)) rest = stopped_by_result q
gather (some (returned q)) (collected qs) = collected (q ∷ qs)
gather (some (returned q)) rest = rest

-- Every handle of a partition is started with `check=False`.
abbrev pub collect : List JobRecord → Collected
collect [] = collected []
collect (r ∷ rs) = gather (wait false r) (collect rs)

-- How `wait` ends; with an aggregate, it returns or raises for it as the verdict says.
pub data PartitionEnd : Type 0 where
  still_waiting : PartitionEnd
  raised_error : Error → PartitionEnd
  raised_result : OperationResult → PartitionEnd
  summarised : Verdict → OperationResult → PartitionEnd

module _ {W : Type 0} where
  -- `if self._cleanup is not None: self._cleanup()`
  abbrev pub run_cleanup : Option (W → Result (Unit {0}) × W) → W → Result (Unit {0}) × W
  run_cleanup none w = (ok tt, w)
  run_cleanup (some cleanup) w = cleanup w

  -- An exception of the cleanup is raised in place of what follows.
  abbrev after_cleanup : Bool → OperationResult → Result (Unit {0}) × W → PartitionEnd × W
  after_cleanup check aggregate (err e, w) = (raised_error e, w)
  after_cleanup check aggregate (ok _, w) =
      (summarised (raise_if_check_failed check aggregate) aggregate, w)

  abbrev concluded :
      Option (W → Result (Unit {0}) × W) → Bool → Result OperationResult → W → PartitionEnd × W
  concluded cleanup check (err e) w = (raised_error e, w)
  concluded cleanup check (ok aggregate) w = after_cleanup check aggregate (run_cleanup cleanup w)

  abbrev conclude :
      (now : ℕ) (operation : String) (source destination : Option String) (check : Bool)
      → Option (W → Result (Unit {0}) × W)
      → Collected
      → W
      → PartitionEnd × W
  conclude now operation source destination check cleanup blocks w = (still_waiting, w)
  conclude now operation source destination check cleanup (stopped_by e) w = (raised_error e, w)
  conclude now operation source destination check cleanup (stopped_by_result q) w =
      (raised_result q, w)
  conclude now operation source destination check cleanup (collected results) w =
      concluded cleanup check (aggregate_results now operation source destination results) w

  -- `PartitionedJobHandle.wait`
  unfoldable pub partition_wait :
      (now : ℕ) (operation : String) (source destination : Option String) (check : Bool)
      → (cleanup : Option (W → Result (Unit {0}) × W)) → List JobRecord
      → W
      → PartitionEnd × W
  partition_wait now operation source destination check cleanup handles w =
      conclude now operation source destination check cleanup (collect handles) w

module _ {W : Type 0} where
  -- `PartitionedJobHandle.done`
  unfoldable pub partition_done : List ℕ → Monitor W → Bool
  partition_done handles m = all_of (λ a. is_settled (m.heap a)) handles

  -- `PartitionedJobHandle.cancel`
  unfoldable pub partition_cancel : List ℕ → Monitor W → Bool × Monitor W
  partition_cancel [] m = (false, m)
  partition_cancel (a ∷ handles) m =
      let (accepted, m1) = cancel a m in
      let (others, m2) = partition_cancel handles m1 in (accepted.0 || others, m2)

-- A record that is settled with a result that spans no negative time.
pub record HasResult (r : JobRecord) : Type 0 where
  pub result : OperationResult
  pub settled : r.terminal_result ≡ some result
  pub no_exception : r.terminal_exception ≡ none
  pub ordered : result.started_at ≤ result.ended_at

collect-HasResult :
    (rs : List JobRecord)
    → All HasResult rs
    → (qs : List OperationResult) × (collect rs ≡ collected qs)
      × (map (λ r. r.terminal_result) rs ≡ map some qs)
      × All (λ q. q.started_at ≤ q.ended_at) qs
unfolding wait
collect-HasResult [] h = ([], refl, refl, tt)
collect-HasResult (r ∷ rs) (h, hs) =
    let (qs, e, f, g) = collect-HasResult rs hs in
    (h.result ∷ qs, simp (h.settled, h.no_exception, e), simp (h.settled, f), (h.ordered, g))

module _ {W : Type 0} where
  after_cleanup-cases :
      (check : Bool) (a : OperationResult) (cleaned : Result (Unit {0}) × W)
      → ((after_cleanup check a cleaned).1 ≡ cleaned.1)
        × (((cleaned.0 ≡ ok tt)
              × ((after_cleanup check a cleaned).0 ≡ summarised (raise_if_check_failed check a) a))
            ⊎ ((e : Error) × (cleaned.0 ≡ err e)
                × ((after_cleanup check a cleaned).0 ≡ raised_error e)))
  after_cleanup-cases check a (ok tt, w) = (refl, inl (refl, refl))
  after_cleanup-cases check a (err e, w) = (refl, inr (e, refl, refl))

  -- If every job of a partitioned operation has settled with a result that spans no negative time,
  -- then `wait` does not block and loses none of them, whether the jobs succeeded or not: it runs the
  -- cleanup, if there is one, once; if that returns, `wait` returns or raises for the aggregate of
  -- exactly the results of all jobs, in order, and else it raises the exception of the cleanup.
  pub partition_wait-Summarises :
      (now : ℕ) (operation : String) (source destination : Option String) (check : Bool)
      (cleanup : Option (W → Result (Unit {0}) × W)) (rs : List JobRecord) (w : W)
      → All HasResult rs
      → (qs : List OperationResult) × (a : OperationResult) × (map (λ r. r.terminal_result) rs
          ≡ map some qs)
        × Summarises qs a
        × ((partition_wait now operation source destination check cleanup rs w).1
            ≡ (run_cleanup cleanup w).1)
        × ((((run_cleanup cleanup w).0 ≡ ok tt)
              × ((partition_wait now operation source destination check cleanup rs w).0
                  ≡ summarised (raise_if_check_failed check a) a))
            ⊎ ((e : Error) × ((run_cleanup cleanup w).0 ≡ err e)
                × ((partition_wait now operation source destination check cleanup rs w).0
                    ≡ raised_error e)))
  unfolding partition_wait
  partition_wait-Summarises now operation source destination check cleanup rs w h =
      let (qs, e, f, g) = collect-HasResult rs h in
      let (a, built, s) = aggregate_results_summary now operation source destination qs g in
      let cases = after_cleanup-cases check a (run_cleanup cleanup w) in
      (qs, a, f, s, rw (e, built) cases.0, rw (e, built) cases.1)

update-is_settled :
    (heap : ℕ → JobRecord) (a b : ℕ) (r : JobRecord)
    → is_settled r ≡ is_settled (heap a)
    → is_settled (update heap a r b) ≡ is_settled (heap b)
update-is_settled heap a b r same = elim (Bool-cases (b == a)) [
  | inl h ↦ rw h (same ∙ ap (λ (x : ℕ). is_settled (heap x)) (sym ((==_iff b a).0 h)))
  | inr h ↦ rw h refl
]

all_of-cong :
    (f g : ℕ → Bool)
    → ((a : ℕ) → f a ≡ g a)
    → (handles : List ℕ) → all_of f handles ≡ all_of g handles
all_of-cong f g h [] = refl
all_of-cong f g h (a ∷ handles) = rw (h a, all_of-cong f g h handles)

not-and : (x y z : Bool) → z ≡ not y → (not x || z) ≡ not (x && y)
not-and x y z h = ground arith

module _ {W : Type 0} where
  cancel-is_settled :
      (a b : ℕ) (m : Monitor W) → is_settled ((cancel a m).1.heap b) ≡ is_settled (m.heap b)
  unfolding cancel request_cancel
  cancel-is_settled a b m = elim (Bool-cases (is_settled (m.heap a))) [
    | inl h ↦ simp h
    | inr h ↦ elim (Bool-cases (m.heap a).cancel_requested) [
      | inl c ↦ simp (h, c)
      | inr c ↦
          simp (h, c)
            (update-is_settled m.heap a b (record (m.heap a) { cancel_requested = true }) refl)
    ]
  ]

  cancel-accepted : (a : ℕ) (m : Monitor W) → (cancel a m).0.0 ≡ not (is_settled (m.heap a))
  unfolding cancel
  cancel-accepted a m = elim (Bool-cases (is_settled (m.heap a))) [
    | inl h ↦ simp h
    | inr h ↦ simp h
  ]

  partition_cancel-is_settled :
      (handles : List ℕ) (b : ℕ) (m : Monitor W)
      → is_settled ((partition_cancel handles m).1.heap b) ≡ is_settled (m.heap b)
  unfolding partition_cancel
  partition_cancel-is_settled [] b m = refl
  partition_cancel-is_settled (a ∷ handles) b m =
      partition_cancel-is_settled handles b (cancel a m).1 ∙ cancel-is_settled a b m

  partition_cancel-accepted :
      (handles : List ℕ) (m : Monitor W)
      → (partition_cancel handles m).0 ≡ not (all_of (λ a. is_settled (m.heap a)) handles)
  unfolding partition_cancel
  partition_cancel-accepted [] m = refl
  partition_cancel-accepted (a ∷ handles) m =
      let same = all_of-cong _ _ (λ b. cancel-is_settled a b m) handles in
      ap (λ x. x || (partition_cancel handles (cancel a m).1).0) (cancel-accepted a m)
      ∙ not-and _ _ _ (partition_cancel-accepted handles (cancel a m).1 ∙ ap not same)

  -- Cancelling a partitioned operation answers `True` exactly if it is not done, and either way it
  -- does not change whether it is done.
  pub partition_cancel-partition_done :
      (handles : List ℕ) (m : Monitor W)
      → ((partition_cancel handles m).0 ≡ not (partition_done handles m))
        × (partition_done handles (partition_cancel handles m).1 ≡ partition_done handles m)
  unfolding partition_done
  partition_cancel-partition_done handles m = (
    partition_cancel-accepted handles m,
    all_of-cong _ _ (λ b. partition_cancel-is_settled handles b m) handles,
  )
