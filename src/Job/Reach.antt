-- ===== src/Job/Reach.antt =====
-- job.py: every interleaving of the monitor's operations, with answers that may be late or wrong.
use mathlib.Core.Path.{subst}
use rclone_kit.Base.{
  ℕ, ◌<◌, ◌≤◌, ◌≡◌, refl, sym, ◌∙◌, String, true, false, Option, Result, Bool-cases, inl, inr,
  arith, ◌==◌, ne→==, ==_iff,
}
use rclone_kit.Operation.{JobStatus, TransferStats}
use rclone_kit.Rc.Payload.{GoTime}
use rclone_kit.Rc.Jobs.{RcJobRef}
use rclone_kit.Rc.JobClient.{JobClient}
use rclone_kit.Job.{JobRecord, Monitor, is_settled, update}
use rclone_kit.Job.Settle.{write_outcome, forget}
use rclone_kit.Job.Polling.{enroll, request_cancel, stats_answer}
use rclone_kit.Job.Phase.{Phase, live, SameEnd, Evolves, Evolves-refl}
use rclone_kit.Job.Writes.{
  Writes, untouched, refreshed, settles, write_outcome-Writes, request_cancel-Writes,
  stats_answer-Writes,
}

module _ {W : Type 0} (client : JobClient W) (iso : String → Option GoTime) (now : W → ℕ) where
  -- One critical section of the monitor, or a change outside it. A poll's outcome and an answer of
  -- `core/stats` are arbitrary: they may have been fetched long before they are applied. A record that has settled is forgotten in
  -- a section of its own, later.
  pub data Step (m : Monitor W) : Monitor W → Type 0 where
    starts :
        (ref : RcJobRef) (operation : String) (source destination : Option String)
        → Step m (enroll ref operation source destination m)
    requests : (a : ℕ) → a < m.count → Step m (request_cancel a m).1
    applies :
        (a : ℕ) (outcome : Result JobStatus)
        → a < m.count
        → Step m (write_outcome client iso now a outcome m).1
    forgets : (a : ℕ) → a < m.count → is_settled (m.heap a) ≡ true → Step m (forget a m)
    counts :
        (a : ℕ) (answer : Result TransferStats) → a < m.count → Step m (stats_answer a answer m).1
    gives_up_batching : Step m (record m { batching = false })
    outside : (w : W) → Step m (record m { world = w })

  pub data Reach (m : Monitor W) : Monitor W → Type 0 where
    here : Reach m m
    next : {k l : Monitor W} → Reach m k → Step k l → Reach m l

update-Evolves :
    (heap : ℕ → JobRecord) (a b : ℕ) (r : JobRecord)
    → Evolves (heap a) r
    → Evolves (heap b) (update heap a r b)
update-Evolves heap a b r e = elim (Bool-cases (b == a)) [
  | inl h ↦ rw h (subst (λ (x : ℕ). Evolves (heap x) r) (sym ((==_iff b a).0 h)) e)
  | inr h ↦ rw h (Evolves-refl (heap b))
]

-- What a step keeps of the record at an address that was given out before.
pub settled-SameEnd : (r r' : JobRecord) → SameEnd r r' → is_settled r ≡ true → is_settled r' ≡ true
settled-SameEnd r r' e h = rw (e.result, e.exception) h

module _ {W : Type 0} where
  Writes-Evolves :
      {a : ℕ} {m m' : Monitor W} (b : ℕ) → Writes a m m' → Evolves (m.heap b) (m'.heap b)
  Writes-Evolves {a} {m} {m'} b (untouched h _ _) =
      subst (λ (k : ℕ → JobRecord). Evolves (m.heap b) (k b)) (sym h) (Evolves-refl (m.heap b))
  Writes-Evolves {a} {m} {m'} b (refreshed r h _ _ e _) =
      subst (λ (k : ℕ → JobRecord). Evolves (m.heap b) (k b)) (sym h)
        (update-Evolves m.heap a b r e)
  Writes-Evolves {a} {m} {m'} b (settles r h _ _ e _) =
      subst (λ (k : ℕ → JobRecord). Evolves (m.heap b) (k b)) (sym h)
        (update-Evolves m.heap a b r e)

  enroll-fresh :
      (ref : RcJobRef) (operation : String) (source destination : Option String) (m : Monitor W)
      (b : ℕ)
      → Phase (m.heap b)
      → Phase ((enroll ref operation source destination m).heap b)
  enroll-fresh ref operation source destination m b p = elim (Bool-cases (b == m.count)) [
    | inl h ↦ rw h (live refl refl tt)
    | inr h ↦ rw h p
  ]

  enroll-Evolves :
      (ref : RcJobRef) (operation : String) (source destination : Option String) (m : Monitor W)
      (b : ℕ)
      → b < m.count
      → Evolves (m.heap b) ((enroll ref operation source destination m).heap b)
  enroll-Evolves ref operation source destination m b h =
      rw (ne→== b m.count (omega arith)) (Evolves-refl (m.heap b))

  Writes-count : {a : ℕ} {m m' : Monitor W} → Writes a m m' → m.count ≤ m'.count
  Writes-count (untouched _ _ c) = omega arith
  Writes-count (refreshed _ _ _ c _ _) = omega arith
  Writes-count (settles _ _ _ c _ _) = omega arith

module _ {W : Type 0} (client : JobClient W) (iso : String → Option GoTime) (now : W → ℕ) where
  pub Step-count : {m m' : Monitor W} → Step client iso now m m' → m.count ≤ m'.count
  Step-count (starts ref o s d) = omega arith
  Step-count {m} (requests a h) = Writes-count (request_cancel-Writes a m)
  Step-count {m} (applies a o h) = Writes-count (write_outcome-Writes client iso now a o m)
  Step-count {m} (counts a t h) = Writes-count (stats_answer-Writes a t m)
  Step-count (forgets a h e) = omega arith
  Step-count gives_up_batching = omega arith
  Step-count (outside w) = omega arith

  pub Step-Evolves :
      {m m' : Monitor W} (b : ℕ)
      → b < m.count
      → Step client iso now m m'
      → Evolves (m.heap b) (m'.heap b)
  Step-Evolves {m} b lt (starts ref o s d) = enroll-Evolves ref o s d m b lt
  Step-Evolves {m} b lt (requests a h) = Writes-Evolves b (request_cancel-Writes a m)
  Step-Evolves {m} b lt (applies a o h) =
      Writes-Evolves b (write_outcome-Writes client iso now a o m)
  Step-Evolves {m} b lt (counts a t h) = Writes-Evolves b (stats_answer-Writes a t m)
  Step-Evolves {m} b lt (forgets a h e) = Evolves-refl (m.heap b)
  Step-Evolves {m} b lt gives_up_batching = Evolves-refl (m.heap b)
  Step-Evolves {m} b lt (outside w) = Evolves-refl (m.heap b)

  Step-Phase :
      {m m' : Monitor W} (b : ℕ) → Step client iso now m m' → Phase (m.heap b) → Phase (m'.heap b)
  Step-Phase {m} b (starts ref o s d) p = enroll-fresh ref o s d m b p
  Step-Phase {m} b (requests a h) p = (Writes-Evolves b (request_cancel-Writes a m)).phase p
  Step-Phase {m} b (applies a o h) p =
      (Writes-Evolves b (write_outcome-Writes client iso now a o m)).phase p
  Step-Phase {m} b (counts a t h) p = (Writes-Evolves b (stats_answer-Writes a t m)).phase p
  Step-Phase {m} b (forgets a h e) p = p
  Step-Phase {m} b gives_up_batching p = p
  Step-Phase {m} b (outside w) p = p

  pub Reach-count : {m m' : Monitor W} → Reach client iso now m m' → m.count ≤ m'.count
  Reach-count here = omega arith
  Reach-count (next r st) = omega (arith, Reach-count r, Step-count st)

  -- If every record is in one of three phases, then so it is after any run: whatever jobs are started,
  -- cancelled and polled, in any order and with any answers from rclone. A record is live, with no end and no terminal status; or it
  -- has a result, no exception, and a terminal status that the result agrees with; or it has an
  -- exception, no result, and the status `lost`. A result is cancelled only if this client had
  -- asked for it.
  pub Reach-Phase :
      {m m' : Monitor W}
      → Reach client iso now m m'
      → ((b : ℕ) → Phase (m.heap b))
      → (b : ℕ) → Phase (m'.heap b)
  Reach-Phase here p b = p b
  Reach-Phase (next r st) p b = Step-Phase b st (Reach-Phase r p b)

  -- A job settles once: the result, the exception and the last status of a record that was given out
  -- and is settled never change afterwards, whatever the monitor does and whichever late answers
  -- arrive.
  pub Reach-SameEnd :
      {m m' : Monitor W} (b : ℕ)
      → Reach client iso now m m'
      → b < m.count
      → is_settled (m.heap b) ≡ true
      → SameEnd (m.heap b) (m'.heap b)
  Reach-SameEnd {m} b here lt h = record { result = refl; exception = refl; status = refl }
  Reach-SameEnd {m} b (next {k} r st) lt h =
      let before = Reach-SameEnd b r lt h in
      let e = Step-Evolves b (omega (arith, Reach-count r)) st in
      let after = e.kept (settled-SameEnd (m.heap b) (k.heap b) before h) in
      record {
        result = after.result ∙ before.result;
        exception = after.exception ∙ before.exception;
        status = after.status ∙ before.status;
      }
