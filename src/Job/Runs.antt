-- ===== src/Job/Runs.antt =====
-- job.py: the methods of the monitor as sequences of the steps of Job/Reach.
use native.Mathlib.Nat.{le_trans}
use rclone_kit.Base.{
  ℕ, ◌<◌, ◌≡◌, refl, false, String, Option, none, some, List, [], ◌∷◌, Result, ok, err, All,
  All-map, Bool-cases, inl, inr, length, ◌==◌, arith,
}
use rclone_kit.Base.Int.{ℤ}
use rclone_kit.Operation.{JobStatus}
use rclone_kit.Rc.Payload.{GoTime}
use rclone_kit.Rc.Jobs.{RcJobRef}
use rclone_kit.Rc.JobClient.{JobClient}
use rclone_kit.Job.{JobRecord, Monitor, is_settled}
use rclone_kit.Job.Polling.{
  dispatch_cancel, poll_record, poll_once, pending_of, and_then, for_each, zip_records,
  batched_statuses, batch_outcomes, ask, settle_each, apply_outcome, poll_pending,
}
use rclone_kit.Job.Settle.{apply_poll_outcome, act_on, write_outcome}
use mathlib.Core.Path.{subst}
use rclone_kit.Job.Reach.{
  applies, forgets, gives_up_batching, outside, Reach, here, next, Reach-count,
}
use rclone_kit.Job.Tracked.{IsTracked, IsOwnEntry}

module _ {W : Type 0} (client : JobClient W) (iso : String → Option GoTime) (now : W → ℕ) where
  pub Reach-trans :
      {k l m : Monitor W}
      → Reach client iso now k l
      → Reach client iso now l m
      → Reach client iso now k m
  Reach-trans p here = p
  Reach-trans p (next q st) = next (Reach-trans p q) st

  -- A poll's outcome is a write, and then a forgetting if it settled the record.
  pub apply_poll_outcome-Reach :
      (a : ℕ) (outcome : Result JobStatus) (m : Monitor W)
      → a < m.count
      → Reach client iso now m (apply_poll_outcome client iso now a outcome m).1
  unfolding apply_poll_outcome write_outcome
  apply_poll_outcome-Reach a outcome m lt = elim (Bool-cases (is_settled (m.heap a))) [
    | inl h ↦ rw h here
    | inr h ↦
        let m' = (act_on client iso now a outcome m).1 in
        let written : Reach client iso now m m' =
          subst (λ x. Reach client iso now m x.1) (written_eq h)
            (next here (applies a outcome lt)) in
        let count = Reach-count client iso now written in
        rw h (elim (Bool-cases (is_settled (m'.heap a))) [
          | inl s ↦ rw s (next written (forgets a (le_trans lt count) s))
          | inr s ↦ rw s written
        ])
  ]
    where
      written_eq :
          is_settled (m.heap a) ≡ false
          → write_outcome client iso now a outcome m ≡ act_on client iso now a outcome m
      written_eq h = rw h refl

  pub poll_record-Reach :
      (a : ℕ) (m : Monitor W)
      → a < m.count
      → Reach client iso now m (poll_record client iso now a m).1
  unfolding poll_record
  poll_record-Reach a m lt = elim (Bool-cases (is_settled (m.heap a))) [
    | inl h ↦ rw h here
    | inr h ↦ rw h (Reach-trans (next here (outside _)) (apply_poll_outcome-Reach a _ _ lt))
  ]

  and_then-Reach :
      (m : Monitor W) (r : Result (Unit {0}) × Monitor W)
      (k : Monitor W → Result (Unit {0}) × Monitor W)
      → Reach client iso now m r.1
      → ((l : Monitor W) → Reach client iso now m l → Reach client iso now m (k l).1)
      → Reach client iso now m (and_then r k).1
  and_then-Reach m (ok _, l) k p next_part = next_part l p
  and_then-Reach m (err e, l) k p next_part = p

  pub for_each-Reach :
      {A : Type 0} (address : A → ℕ) (f : A → Monitor W → Result (Unit {0}) × Monitor W)
      → ((x : A) (m : Monitor W) → address x < m.count → Reach client iso now m (f x m).1)
      → (xs : List A) (m : Monitor W) → All (λ x. address x < m.count) xs
      → Reach client iso now m (for_each f xs m).1
  for_each-Reach address f step [] m h = here
  for_each-Reach address f step (x ∷ xs) m h =
      and_then-Reach m (f x m) (λ k. for_each f xs k) (step x m h.0)
        λ k p. Reach-trans p (
          for_each-Reach address f step xs k
            (All-map _ _ xs (λ y lt. omega (arith, lt, Reach-count client iso now p)) h.1))

  batch_outcomes-Reach :
      (pending : List ℕ) (answer : Result (List (Result JobStatus))) (m : Monitor W)
      → Reach client iso now m (batch_outcomes pending answer m).1
  batch_outcomes-Reach pending (err e) m = next here gives_up_batching
  batch_outcomes-Reach pending (ok outcomes) m =
      elim (Bool-cases (length outcomes == length pending)) [
        | inl h ↦ rw h here
        | inr h ↦ rw h (next here gives_up_batching)
      ]

  batched_statuses-Reach :
      (pending : List ℕ) (m : Monitor W)
      → Reach client iso now m (batched_statuses client iso now pending m).1
  unfolding batched_statuses
  batched_statuses-Reach pending m = elim (Bool-cases m.batching) [
    | inl h ↦ simp h (ask-Reach client.statuses)
    | inr h ↦ simp h here
  ]
    where
      ask-Reach :
          (offered : Option (List RcJobRef → W → Result (List (Result JobStatus)) × W))
          → Reach client iso now m (ask client iso now offered pending m).1
      ask-Reach none = here
      ask-Reach (some statuses) =
          Reach-trans (next here (outside _)) (batch_outcomes-Reach pending _ _)

  -- The outcomes of a batch are for pending records.
  abbrev OutcomesBelow : ℕ → Option (List (ℕ × Result JobStatus)) → Type 0
  OutcomesBelow k none = Unit
  OutcomesBelow k (some outcomes) = All (λ x. x.0 < k) outcomes

  pub zip_records-below :
      (k : ℕ) (pending : List ℕ) (outcomes : List (Result JobStatus))
      → All (λ a. a < k) pending
      → All (λ x. x.0 < k) (zip_records pending outcomes)
  zip_records-below k [] outcomes h = tt
  zip_records-below k (a ∷ rs) [] h = tt
  zip_records-below k (a ∷ rs) (o ∷ outcomes) h = (h.0, zip_records-below k rs outcomes h.1)

  batch_outcomes-below :
      (k : ℕ) (pending : List ℕ) (answer : Result (List (Result JobStatus))) (m : Monitor W)
      → All (λ a. a < k) pending
      → OutcomesBelow k (batch_outcomes pending answer m).0
  batch_outcomes-below k pending (err e) m h = tt
  batch_outcomes-below k pending (ok outcomes) m h =
      elim (Bool-cases (length outcomes == length pending)) [
        | inl e ↦ rw e (zip_records-below k pending outcomes h)
        | inr e ↦ rw e tt
      ]

  batched_statuses-below :
      (k : ℕ) (pending : List ℕ) (m : Monitor W)
      → All (λ a. a < k) pending
      → OutcomesBelow k (batched_statuses client iso now pending m).0
  unfolding batched_statuses
  batched_statuses-below k pending m below = elim (Bool-cases m.batching) [
    | inl h ↦ simp h (ask-below client.statuses)
    | inr h ↦ simp h tt
  ]
    where
      ask-below :
          (offered : Option (List RcJobRef → W → Result (List (Result JobStatus)) × W))
          → OutcomesBelow k (ask client iso now offered pending m).0
      ask-below none = tt
      ask-below (some statuses) = batch_outcomes-below k pending _ _ below

  settle_each-Reach :
      (pending : List ℕ) (polled : Option (List (ℕ × Result JobStatus)) × Monitor W)
      → All (λ a. a < polled.1.count) pending
      → OutcomesBelow polled.1.count polled.0
      → Reach client iso now polled.1 (settle_each client iso now pending polled).1
  settle_each-Reach pending (none, m) below _ =
      for_each-Reach (λ a. a) (poll_record client iso now) poll_record-Reach pending m below
  settle_each-Reach pending (some outcomes, m) _ below =
      for_each-Reach (λ x. x.0) (apply_outcome client iso now)
        (λ x k lt. apply_poll_outcome-Reach x.0 x.1 k lt) outcomes m below

  pub pending_of-below :
      (heap : ℕ → JobRecord) (k : ℕ) (entries : List (ℤ × ℕ))
      → All (IsOwnEntry heap k) entries
      → All (λ a. a < k) (pending_of heap entries)
  pending_of-below heap k [] h = tt
  pending_of-below heap k ((id, a) ∷ entries) ((_, lt), rest) =
      elim (Bool-cases (is_settled (heap a))) [
        | inl e ↦ rw e (pending_of-below heap k entries rest)
        | inr e ↦ rw e (lt, pending_of-below heap k entries rest)
      ]

  poll_pending-Reach :
      (pending : List ℕ) (m : Monitor W)
      → All (λ a. a < m.count) pending
      → Reach client iso now m (poll_pending client iso now pending m).1
  unfolding poll_pending
  poll_pending-Reach [] m h = here
  poll_pending-Reach (a ∷ more) m h =
      let asked = batched_statuses-Reach (a ∷ more) m in
      let grown = Reach-count client iso now asked in
      let below = All-map _ _ (a ∷ more) (λ x lt. le_trans lt grown) h in
      Reach-trans asked (
        settle_each-Reach (a ∷ more) (batched_statuses client iso now (a ∷ more) m) below
          (batched_statuses-below _ (a ∷ more) m below))

  -- A tick of the monitor's thread, from a monitor that tracks records under their job ids, is a sequence of
  -- steps of `Step`: batched or not, whatever rclone answers, and whether it raises or not.
  pub poll_once-Reach :
      (m : Monitor W) → IsTracked m → Reach client iso now m (poll_once client iso now m).1
  unfolding poll_once
  poll_once-Reach m i =
      poll_pending-Reach (pending_of m.heap m.tracked) m
        (pending_of-below m.heap m.count m.tracked i.entries_own)

  -- The `job/stop` of a cancellation and the poll that follows it, of a record that was given out, are
  -- a sequence of such steps, whatever rclone answers.
  pub dispatch_cancel-Reach :
      (a : ℕ) (m : Monitor W)
      → a < m.count
      → Reach client iso now m (dispatch_cancel client iso now a m).1
  unfolding dispatch_cancel
  dispatch_cancel-Reach a m lt = Reach-trans (next here (outside _)) (poll_record-Reach a _ lt)
