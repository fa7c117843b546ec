-- ===== src/Job/Settled.antt =====
-- job.py: `_apply_poll_outcome` on an unsettled record, and the classification of its end.
use native.Mathlib.Nat.{le_refl}
use text.Mathlib.Text.{find?}
use mathlib.Core.Bool.{true≢false}
use mathlib.Core.Path.{subst}
use rclone_kit.Base.{
  ◌↔◌, sym, ◌∙◌, ℕ, ◌-◌, ◌≤◌, ◌≡◌, refl, String, true, false, Option, none, some, List, ok, err,
  arith, eq→==, le→leb, job_not_found, job_expired,
}
use rclone_kit.Base.Int.{ℤ}
use rclone_kit.Base.Json
use rclone_kit.Operation.{
  JobState, succeeded, running, cancellation_requested, failed, cancelled, is_some, lost,
  is_terminal, JobStatus, TransferStats, OperationResult, OperationAttempt, IsConsistent,
  check_operation_result_lem, make_job_status,
}
use rclone_kit.Rc.Payload.{GoTime}
use rclone_kit.Rc.Jobs.{parse_operation_attempts}
use rclone_kit.Rc.JobClient.{JobClient}
use rclone_kit.Job.{JobRecord, Monitor, is_settled}
use rclone_kit.Job.Settle.{
  mentions, was_cancelled, classified, result_of, build_result, lost_status, settle_terminal,
  finish_terminal, settle_unobservable, act_on, apply_poll_outcome, stats_or, state_is_succeeded,
  state_is_failed, started_or,
}

-- The result of a status with a time span in order passes the checks of `OperationResult`.
result_of-IsConsistent :
    (r : JobRecord) (status : JobStatus) (stats : TransferStats) (stop : ℕ)
    (attempts : List OperationAttempt)
    → status.started_at ≤ stop
    → IsConsistent (result_of r status stats stop attempts)
unfolding result_of classified was_cancelled mentions
result_of-IsConsistent r status stats stop attempts h = record {
  ordered = h;
  no_error = λ e. ground arith;
  explained = λ e f. ground arith;
  not_both = λ e. ground arith;
}

build_result_lem :
    (iso : String → Option GoTime) (r : JobRecord) (status : JobStatus) (stats : TransferStats)
    (stop : ℕ) (attempts : List OperationAttempt)
    → status.ended_at ≡ some stop
    → parse_operation_attempts iso status.output ≡ ok attempts
    → status.started_at ≤ stop
    → build_result iso r status stats ≡ ok (result_of r status stats stop attempts)
unfolding build_result
build_result_lem iso r status stats stop attempts e p h =
    simp (e, p)
      (check_operation_result_lem _ (result_of-IsConsistent r status stats stop attempts h))

started_or-le :
    (o : Option JobStatus) (t : ℕ)
    → ((s : JobStatus) → o ≡ some s → s.started_at ≤ t)
    → started_or o t ≤ t
started_or-le none t h = le_refl t
started_or-le (some s) t h = h s refl

lost_status_lem :
    (r : JobRecord) (t : ℕ) (text : String)
    → started_or r.latest_status t ≤ t
    → (s : JobStatus) × (lost_status r t text ≡ ok s)
unfolding lost_status make_job_status
lost_status_lem r t text h = (
  record {
    job_id = r.ref.job_id;
    execute_id = r.ref.execute_id;
    group = r.ref.group;
    state = lost;
    started_at = started_or r.latest_status t;
    ended_at = some t;
    duration = t - started_or r.latest_status t;
    error = some text;
    output = Json.end;
  },
  rw (le→leb (started_or r.latest_status t) t h),
)

state_is_succeeded_iff : (s : JobState) → (state_is_succeeded s ≡ true) ↔ (s ≡ succeeded)
state_is_succeeded_iff s = (go s, λ e. rw e refl)
  where
    go : (t : JobState) → state_is_succeeded t ≡ true → t ≡ succeeded
    go succeeded h = refl
    go running h = cc
    go failed h = cc
    go cancelled h = cc
    go cancellation_requested h = cc
    go lost h = cc

state_is_failed_iff : (s : JobState) → (state_is_failed s ≡ true) ↔ (s ≡ failed)
state_is_failed_iff s = (go s, λ e. rw e refl)
  where
    go : (t : JobState) → state_is_failed t ≡ true → t ≡ failed
    go failed h = refl
    go running h = cc
    go succeeded h = cc
    go cancelled h = cc
    go cancellation_requested h = cc
    go lost h = cc

-- This client had asked for the cancellation, and rclone reports a failure whose error says that a
-- context was canceled.
abbrev pub IsOwnCancellation : JobRecord → JobStatus → Type 0
IsOwnCancellation r status =
    (r.cancel_requested ≡ true)
    × (status.state ≡ failed)
    × ((text : String) × (position : ℕ) × (status.error ≡ some text)
        × (find? text "context canceled" ≡ some position))

mentions_iff :
    (marker : String) (error : Option String)
    → (mentions marker error ≡ true) ↔ (
        (text : String) × (position : ℕ) × (error ≡ some text)
        × (find? text marker ≡ some position))
unfolding mentions
mentions_iff marker none = (λ h. cc, λ h. cc (h.2))
mentions_iff marker (some text) = (λ h. found (find? text marker) refl h, λ h. back h.0 h.1 h.2 h.3)
  where
    back :
        (t : String) (k : ℕ)
        → some text ≡ some t
        → find? t marker ≡ some k
        → is_some (find? text marker) ≡ true
    back t k e f = let same : text ≡ t = cc e in rw (same, f) refl

    found :
        (o : Option ℕ)
        → find? text marker ≡ o
        → is_some (find? text marker) ≡ true
        → (t : String) × (position : ℕ) × (some text ≡ some t) × (find? t marker ≡ some position)
    found none e h = absurd (true≢false (sym h ∙ rw e refl))
    found (some k) e h = (text, k, refl, e)

was_cancelled_iff :
    (r : JobRecord) (status : JobStatus)
    → (was_cancelled r status ≡ true) ↔ IsOwnCancellation r status
unfolding was_cancelled
was_cancelled_iff r status = (
  λ h.
      let asked : r.cancel_requested ≡ true = ground arith in
      let ended : state_is_failed status.state ≡ true = ground arith in
      let named : mentions "context canceled" status.error ≡ true = ground arith in
      (
        asked,
        (state_is_failed_iff status.state).0 ended,
        (mentions_iff "context canceled" status.error).0 named,
      ),
  λ h.
      rw
        (
          h.0,
          (state_is_failed_iff status.state).1 h.1,
          (mentions_iff "context canceled" status.error).1 h.2,
        )
        refl,
)

module _ {W : Type 0} (client : JobClient W) (iso : String → Option GoTime) (now : W → ℕ) where
  -- A poll that sees the end of a job that is not settled settles it at once: the call returns, the
  -- record has the result, which is ok exactly if rclone reported success, and counts as cancelled
  -- exactly if this client had asked for it, the job failed, and its error is that of a cancelled
  -- context. It takes that the status has an end not before its start, and that its attempts, if
  -- any, can be read.
  pub apply_poll_outcome-settles :
      (a : ℕ) (m : Monitor W) (status : JobStatus) {stop : ℕ} {attempts : List OperationAttempt}
      → is_settled (m.heap a) ≡ false
      → is_terminal status.state ≡ true
      → status.ended_at ≡ some stop
      → parse_operation_attempts iso status.output ≡ ok attempts
      → status.started_at ≤ stop
      → (q : OperationResult) × ((apply_poll_outcome client iso now a (ok status) m).0 ≡ ok tt)
        × (((apply_poll_outcome client iso now a (ok status) m).1.heap a).terminal_result ≡ some q)
        × ((q.is_ok ≡ true) ↔ (status.state ≡ succeeded))
        × ((q.cancelled ≡ true) ↔ IsOwnCancellation (m.heap a) status)
        × (q.attempts ≡ attempts)
  unfolding apply_poll_outcome act_on settle_terminal finish_terminal
  apply_poll_outcome-settles a m status {stop} {attempts} live end e p h =
      let r = m.heap a in
      let (answer, w) = client.stats r.ref.group m.world in
      let q = result_of r status (stats_or answer r.latest_stats) stop attempts in
      (
        q,
        rw (
          live,
          end,
          build_result_lem iso r status (stats_or answer r.latest_stats) stop attempts e p h,
        ),
        rw (
          live,
          end,
          build_result_lem iso r status (stats_or answer r.latest_stats) stop attempts e p h,
          eq→== a a refl,
        ),
        subst (λ b. (b ≡ true) ↔ (status.state ≡ succeeded))
            (let same : state_is_succeeded status.state ≡ q.is_ok =
                unfold result_of classified was_cancelled in ground arith in
              same)
            (state_is_succeeded_iff status.state),
        unfold result_of in was_cancelled_iff r status,
        unfold result_of in refl,
      )

  -- rclone's word that it knows no such job settles an unsettled one with the exception that it
  -- expired, and with no result, unless the clock reads less than the start that was last reported.
  pub apply_poll_outcome-expires :
      (a : ℕ) (m : Monitor W) (id : ℤ)
      → is_settled (m.heap a) ≡ false
      → ((s : JobStatus) → (m.heap a).latest_status ≡ some s → s.started_at ≤ now m.world)
      → let (r, m') = apply_poll_outcome client iso now a (err (job_not_found id)) m in
        (r ≡ ok tt)
        × ((m'.heap a).terminal_exception
            ≡ some (job_expired (m.heap a).ref.job_id (m.heap a).ref.execute_id))
        × ((m'.heap a).terminal_result ≡ none)
  unfolding apply_poll_outcome act_on settle_unobservable
  apply_poll_outcome-expires a m id live clock =
      let (s, e) =
        lost_status_lem (m.heap a) (now m.world)
          "job record expired before its terminal state could be observed"
          (started_or-le _ _ clock) in
      rw (live, e, eq→== a a refl) (refl, refl, ground arith)
