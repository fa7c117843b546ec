-- ===== src/Job/Phase.antt =====
-- The phases of a job's record, and how one write of the monitor moves a record between them.
use mathlib.Core.Path.{subst}
use rclone_kit.Base.{
  ℕ, ◌≡◌, refl, sym, String, Bool, true, false, Option, none, some, List, [], ◌∷◌, ok, Error,
  >>=-eq-ok, arith,
}
use rclone_kit.Operation.{
  JobState, cancelled, lost, is_terminal, JobStatus, TransferStats, OperationResult,
  OperationAttempt, IsConsistent, check_operation_result_inv,
}
use rclone_kit.Rc.Payload.{GoTime}
use rclone_kit.Rc.Jobs.{parse_operation_attempts}
use rclone_kit.Job.{JobRecord, is_settled}
use rclone_kit.Job.Settle.{
  was_cancelled, classified, result_of, build_result, with_result, with_exception,
  state_is_succeeded, or_assert,
}

abbrev pub state_is_cancelled : JobState → Bool
state_is_cancelled cancelled = true
state_is_cancelled _ = false

-- A status that does not end the job.
abbrev pub IsLive : Option JobStatus → Type 0
IsLive none = Unit
IsLive (some s) = is_terminal s.state ≡ false

-- How a result and the last status of its job agree.
pub record Agrees (r : JobRecord) (q : OperationResult) (s : JobStatus) : Type 0 where
  pub consistent : IsConsistent q
  pub ended : is_terminal s.state ≡ true
  pub succeeded : q.is_ok ≡ state_is_succeeded s.state
  pub by_request : q.cancelled ≡ true → (r.cancel_requested ≡ true) × (s.state ≡ cancelled)
  pub job_ids : q.job_ids ≡ r.ref.job_id ∷ []

-- A record is live, or it has a result, or it has an exception with the state `lost`.
pub data Phase (r : JobRecord) : Type 0 where
  live : r.terminal_result ≡ none → r.terminal_exception ≡ none → IsLive r.latest_status → Phase r
  finished :
      (q : OperationResult) (s : JobStatus)
      → r.terminal_result ≡ some q
      → r.terminal_exception ≡ none
      → r.latest_status ≡ some s
      → Agrees r q s
      → Phase r
  unobservable :
      (e : Error) (s : JobStatus)
      → r.terminal_result ≡ none
      → r.terminal_exception ≡ some e
      → r.latest_status ≡ some s
      → s.state ≡ lost
      → Phase r

-- The end of a settled record.
pub record SameEnd (r r' : JobRecord) : Type 0 where
  pub result : r'.terminal_result ≡ r.terminal_result
  pub exception : r'.terminal_exception ≡ r.terminal_exception
  pub status : r'.latest_status ≡ r.latest_status

pub record Evolves (r r' : JobRecord) : Type 0 where
  pub phase : Phase r → Phase r'
  pub kept : is_settled r ≡ true → SameEnd r r'
  pub same_ref : r'.ref ≡ r.ref
  pub requested : r.cancel_requested ≡ true → r'.cancel_requested ≡ true

pub Evolves-refl : (r : JobRecord) → Evolves r r
Evolves-refl r = record {
  phase = λ p. p;
  kept = λ h. record { result = refl; exception = refl; status = refl };
  same_ref = refl;
  requested = λ h. h;
}

result_of-Agrees :
    (r : JobRecord) (status : JobStatus) (stats : TransferStats) (stop : ℕ)
    (attempts : List OperationAttempt)
    → is_terminal status.state ≡ true
    → IsConsistent (result_of r status stats stop attempts)
    → Agrees r (result_of r status stats stop attempts) (classified r status)
unfolding result_of classified was_cancelled
result_of-Agrees r status stats stop attempts end c = record {
  consistent = c;
  ended = ground arith;
  succeeded = refl;
  by_request = λ h. ground arith;
  job_ids = refl;
}

-- Every result that is built agrees with the status that the record gets.
build_result-Agrees :
    (iso : String → Option GoTime) (r : JobRecord) (status : JobStatus) (stats : TransferStats)
    (q : OperationResult)
    → is_terminal status.state ≡ true
    → build_result iso r status stats ≡ ok q
    → Agrees r q (classified r status)
unfolding build_result
build_result-Agrees iso r status stats q end h =
    let (stop, _, h1) = >>=-eq-ok (or_assert status.ended_at) _ h in
    let (attempts, _, h2) = >>=-eq-ok (parse_operation_attempts iso status.output) _ h1 in
    let (same, c) = check_operation_result_inv (result_of r status stats stop attempts) h2 in
    subst (λ (x : OperationResult). Agrees r x (classified r status)) (sym same)
      (result_of-Agrees r status stats stop attempts end c)

-- A live record that gets a result, that loses its job, or that gets a status that is not terminal.
module _ (r : JobRecord) (unsettled : is_settled r ≡ false) where
  pub with_result-Evolves :
      (iso : String → Option GoTime) (status : JobStatus) (stats : TransferStats)
      (q : OperationResult)
      → is_terminal status.state ≡ true
      → build_result iso r status stats ≡ ok q
      → Evolves r (with_result r (classified r status) stats q)
  with_result-Evolves iso status stats q end h =
      let a = build_result-Agrees iso r status stats q end h in
      record {
        phase = λ p. finished q (classified r status) refl (ground arith) refl (record {
          consistent = a.consistent;
          ended = a.ended;
          succeeded = a.succeeded;
          by_request = a.by_request;
          job_ids = a.job_ids;
        });
        kept = λ h. cc;
        same_ref = refl;
        requested = λ h. h;
      }

  pub with_exception-Evolves :
      (status : JobStatus) (e : Error) → status.state ≡ lost → Evolves r (with_exception r status e)
  with_exception-Evolves status e h = record {
    phase = λ p. unobservable e status (ground arith) refl refl h;
    kept = λ h. cc;
    same_ref = refl;
    requested = λ h. h;
  }

  pub refresh-Evolves :
      (status : JobStatus)
      → is_terminal status.state ≡ false
      → Evolves r (record r { latest_status = some status })
  refresh-Evolves status h = record {
    phase = λ p. live (ground arith) (ground arith) h;
    kept = λ h. cc;
    same_ref = refl;
    requested = λ h. h;
  }

-- A write that touches neither the end nor the last status.
module _ (r : JobRecord) where
  Phase-cancel_requested : Phase r → Phase (record r { cancel_requested = true })
  Phase-cancel_requested (live p e l) = live p e l
  Phase-cancel_requested (finished q s p e l a) = finished q s p e l (record {
    consistent = a.consistent;
    ended = a.ended;
    succeeded = a.succeeded;
    by_request = λ h. (refl, (a.by_request h).1);
    job_ids = a.job_ids;
  })
  Phase-cancel_requested (unobservable x s p e l h) = unobservable x s p e l h

  pub cancel_requested-Evolves : Evolves r (record r { cancel_requested = true })
  cancel_requested-Evolves = record {
    phase = Phase-cancel_requested;
    kept = λ h. record { result = refl; exception = refl; status = refl };
    same_ref = refl;
    requested = λ h. refl;
  }

  Phase-latest_stats : (t : TransferStats) → Phase r → Phase (record r { latest_stats = some t })
  Phase-latest_stats t (live p e l) = live p e l
  Phase-latest_stats t (finished q s p e l a) = finished q s p e l (record {
    consistent = a.consistent;
    ended = a.ended;
    succeeded = a.succeeded;
    by_request = a.by_request;
    job_ids = a.job_ids;
  })
  Phase-latest_stats t (unobservable x s p e l h) = unobservable x s p e l h

  pub latest_stats-Evolves : (t : TransferStats) → Evolves r (record r { latest_stats = some t })
  latest_stats-Evolves t = record {
    phase = Phase-latest_stats t;
    kept = λ h. record { result = refl; exception = refl; status = refl };
    same_ref = refl;
    requested = λ h. h;
  }
