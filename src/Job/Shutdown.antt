-- ===== src/Job/Shutdown.antt =====
-- `_JobMonitor.shutdown`: every tracked job is asked to stop, and waited for until the deadline.
-- While it waits, other threads go on, so a shutdown is a relation between the monitor before it, its
-- answer, and the monitor after it. The stop event and the thread's end are in the answer only.
use native.Mathlib.Nat.{le_trans}
use rclone_kit.Base.{
  ℕ, ◌<◌, ◌≡◌, refl, String, Bool, true, false, ◌&&◌, Option, List, [], ◌∷◌, map, All, All-map,
  All-both, arith,
}
use rclone_kit.Base.Int.{ℤ}
use rclone_kit.Rc.Payload.{GoTime}
use rclone_kit.Rc.JobClient.{JobClient}
use rclone_kit.Job.{JobRecord, Monitor, is_settled}
use rclone_kit.Job.Polling.{request_cancel}
use rclone_kit.Job.Reach.{Reach, here, next, requests, Reach-count, Reach-SameEnd, settled-SameEnd}
use rclone_kit.Job.Tracked.{IsTracked, IsOwnEntry}
use rclone_kit.Job.Runs.{Reach-trans}

-- `list(self._records.values())`
abbrev pub records_of : List (ℤ × ℕ) → List ℕ
records_of = map (λ x. x.1)

module _ {W : Type 0} where
  -- `for record in records: self.request_cancel(record)`
  abbrev pub request_all : List ℕ → Monitor W → Monitor W
  request_all [] m = m
  request_all (a ∷ records) m = request_all records (request_cancel a m).1

module _ {W : Type 0} (client : JobClient W) (iso : String → Option GoTime) (now : W → ℕ) where
  -- The loop of `wait_for` calls, each of which ends in some monitor `k` that others have led to, with
  -- the value of its predicate there; the answer is `all_settled`.
  pub data Waits : List ℕ → Monitor W → Bool → Monitor W → Type 0 where
    no_more : {m : Monitor W} → Waits [] m true m
    waited :
        {a : ℕ} {records : List ℕ} {m k l : Monitor W} {all_settled : Bool}
        → Reach client iso now m k
        → Waits records k all_settled l
        → Waits (a ∷ records) m (is_settled (k.heap a) && all_settled) l

  -- `shutdown`; `joined` is whether the thread was never started or ended within its second.
  pub data Shutdown (m : Monitor W) : Bool → Monitor W → Type 0 where
    unsettled :
        {l : Monitor W}
        → Waits (records_of m.tracked) (request_all (records_of m.tracked) m) false l
        → Shutdown m false l
    stops :
        {k l : Monitor W} (joined : Bool)
        → Waits (records_of m.tracked) (request_all (records_of m.tracked) m) true k
        → Reach client iso now k l
        → Shutdown m joined l

  request_cancel-count : (a : ℕ) (m : Monitor W) → (request_cancel a m).1.count ≡ m.count
  unfolding request_cancel
  request_cancel-count a m = ground arith

  request_all-Reach :
      (records : List ℕ) (m : Monitor W)
      → All (λ a. a < m.count) records
      → Reach client iso now m (request_all records m)
  request_all-Reach [] m h = here
  request_all-Reach (a ∷ records) m h =
      let same = request_cancel-count a m in
      Reach-trans client iso now (next here (requests a h.0)) (
        request_all-Reach records (request_cancel a m).1
          (All-map _ _ records (λ b lt. omega (arith, same, lt)) h.1))

  Waits-Reach :
      {records : List ℕ} {m l : Monitor W} {b : Bool}
      → Waits records m b l
      → Reach client iso now m l
  Waits-Reach no_more = here
  Waits-Reach (waited r w) = Reach-trans client iso now r (Waits-Reach w)

  -- A settled record stays so.
  pub Reach-settled :
      {m l : Monitor W} (a : ℕ)
      → Reach client iso now m l
      → a < m.count
      → is_settled (m.heap a) ≡ true
      → is_settled (l.heap a) ≡ true
  Reach-settled {m} {l} a r lt h =
      settled-SameEnd (m.heap a) (l.heap a) (Reach-SameEnd client iso now a r lt h) h

  Waits-settled :
      {records : List ℕ} {m l : Monitor W} {b : Bool}
      → Waits records m b l
      → b ≡ true
      → All (λ a. a < m.count) records
      → All (λ a. is_settled (l.heap a) ≡ true) records
  Waits-settled no_more e h = tt
  Waits-settled (waited {a} {records} {m} {k} {l} {all_settled} r w) e h =
      let this : is_settled (k.heap a) ≡ true = ground arith in
      let others : all_settled ≡ true = ground arith in
      let grown = Reach-count client iso now r in
      let below = All-map _ _ records (λ c lt. le_trans lt grown) h.1 in
      (Reach-settled a (Waits-Reach w) (le_trans h.0 grown) this, Waits-settled w others below)

  records_of-below :
      (heap : ℕ → JobRecord) (count : ℕ) (entries : List (ℤ × ℕ))
      → All (IsOwnEntry heap count) entries
      → All (λ a. a < count) (records_of entries)
  records_of-below heap count [] h = tt
  records_of-below heap count ((id, a) ∷ entries) ((_, lt), rest) =
      (lt, records_of-below heap count entries rest)

  -- A shutdown that answers `True` leaves no job behind: every job that a monitor of distinct entries
  -- tracked when it began is settled when it returns, whatever other threads did in between.
  pub Shutdown-settles :
      {m l : Monitor W}
      → Shutdown m true l
      → IsTracked m
      → All (λ a. is_settled (l.heap a) ≡ true) (records_of m.tracked)
  Shutdown-settles {m} (stops {k} {l} joined w r) i =
      let below = records_of-below m.heap m.count m.tracked i.entries_own in
      let asked = Reach-count client iso now (request_all-Reach (records_of m.tracked) m below) in
      let given_out = All-map _ _ (records_of m.tracked) (λ a lt. le_trans lt asked) below in
      let waited_for = Reach-count client iso now (Waits-Reach w) in
      All-map _ _ (records_of m.tracked) (λ a h. Reach-settled a r (le_trans h.0 waited_for) h.1)
        (All-both _ _ (records_of m.tracked) given_out (Waits-settled w refl given_out))
