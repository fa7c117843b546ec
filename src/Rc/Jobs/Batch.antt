-- ===== src/Rc/Jobs/Batch.antt =====
-- rc/jobs.py: the entries of a `job/batch` response next to the answers of single calls.
use rclone_kit.Base.{
  suc, ◌≡◌, refl, String, true, false, Option, some, List, [], ◌∷◌, Result, ok, err, rc_call_error,
  str_eq, eq_iff, >>=-eq-ok, Ensures, raise_if, not, length, eq→==, ap, arith,
}
use rclone_kit.Base.Int.{ℤ}
use rclone_kit.Base.Json.{Json, int, arr, obj, Items, nil, cons, Fields, end, field, get, has}
use rclone_kit.Operation.{JobStatus, is_terminal, is_some, make_job_status}
use rclone_kit.Rc.Payload.{GoTime, require, require_str}
use rclone_kit.Rc.Jobs.{
  RcJobRef, validated_job_status, parse_job_status, batch_entry_failure, batch_status_result,
  status_of_answer, statuses_of_answer, zip_results, count_items,
}

-- The entry of a `job/batch` response that stands for the answer of one `job/status` call: the
-- response itself, or the error blob of a call that rclone refused.
pub data Reports : Json → Result Fields → Type 0 where
  answered : (p : Fields) → has p "finished" ≡ true → Reports (obj p) (ok p)
  refused :
      (p : Fields) (s : ℤ)
      → has p "finished" ≡ false
      → get p "status" ≡ some (int s)
      → Reports (obj p) (err (rc_call_error "job/status" s p))

-- The entries of a response, one for each job and in order.
pub data AllReport : Items → List (Result Fields) → Type 0 where
  none_left : AllReport nil []
  one_more :
      {x : Json} {a : Result Fields} {xs : Items} {answers : List (Result Fields)}
      → Reports x a
      → AllReport xs answers
      → AllReport (cons x xs) (a ∷ answers)

count_items-AllReport :
    {entries : Items} {answers : List (Result Fields)}
    → AllReport entries answers
    → count_items entries ≡ length answers
count_items-AllReport none_left = refl
count_items-AllReport (one_more h r) = ap suc (count_items-AllReport r)

module _ (iso : String → Option GoTime) where
  batch_status_result-Reports :
      (ref : RcJobRef) {x : Json} {a : Result Fields}
      → Reports x a
      → batch_status_result iso ref x ≡ status_of_answer iso ref a
  unfolding batch_status_result status_of_answer batch_entry_failure
  batch_status_result-Reports ref (answered p h) = rw h
  batch_status_result-Reports ref (refused p s h e) = ground arith

  -- The statuses that single calls give for the jobs, in order.
  abbrev pub single_statuses : List RcJobRef → List (Result Fields) → List (Result JobStatus)
  single_statuses (ref ∷ refs) (a ∷ answers) =
      status_of_answer iso ref a ∷ single_statuses refs answers
  single_statuses _ _ = []

  zip_results-eq-single :
      (refs : List RcJobRef) {entries : Items} {answers : List (Result Fields)}
      → AllReport entries answers
      → zip_results iso refs entries ≡ single_statuses refs answers
  unfolding zip_results
  zip_results-eq-single [] none_left = refl
  zip_results-eq-single (ref ∷ refs) none_left = refl
  zip_results-eq-single [] (one_more h r) = refl
  zip_results-eq-single (ref ∷ refs) (one_more h r) =
      cc (batch_status_result-Reports ref h, zip_results-eq-single refs r)

  -- If the entries of a `job/batch` response report the answers that single `job/status` calls
  -- would have had, in order and one for each job, then `statuses` returns exactly the outcomes,
  -- exceptions included, of polling the jobs one by one.
  pub statuses-eq-single :
      (refs : List RcJobRef) (answers : List (Result Fields)) (entries : Items)
      → length refs ≡ length answers
      → AllReport entries answers
      → statuses_of_answer iso refs (ok (field "results" (arr entries) end))
        ≡ ok (single_statuses refs answers)
  unfolding statuses_of_answer require
  statuses-eq-single refs answers entries h r =
      rw (eq→== (count_items entries) (length refs) (omega (arith, count_items-AllReport r)))
        (ap (λ outcomes. ok outcomes) (zip_results-eq-single refs r))

  parse_job_status-identity :
      (ref : RcJobRef) (payload : Fields)
      → Ensures
          (λ (s : JobStatus).
            (s.job_id ≡ ref.job_id)
            × (s.execute_id ≡ ref.execute_id)
            × (s.group ≡ ref.group)
            × (is_terminal s.state ≡ is_some s.ended_at))
          (parse_job_status iso ref payload)
  unfolding parse_job_status make_job_status
  parse_job_status-identity ref payload s h = ground arith

  -- A status is accepted only from the execution that the job was started in: it bears the job's
  -- own identity, and the payload named the same execution.
  pub validated_job_status-identity :
      (ref : RcJobRef) (payload : Fields) {s : JobStatus}
      → validated_job_status iso ref payload ≡ ok s
      → (s.job_id ≡ ref.job_id)
        × (s.execute_id ≡ ref.execute_id)
        × (s.group ≡ ref.group)
        × (require_str payload "executeId" ≡ ok ref.execute_id)
        × (is_terminal s.state ≡ is_some s.ended_at)
  unfolding validated_job_status
  validated_job_status-identity ref payload {s} h =
      let (actual, named, h1) = >>=-eq-ok (require_str payload "executeId") _ h in
      let (_, same, parsed) = >>=-eq-ok (raise_if (not (str_eq actual ref.execute_id)) _) _ h1 in
      let (i, e, g, t) = parse_job_status-identity ref payload s parsed in
      (i, e, g, ground (arith, eq_iff actual ref.execute_id, named, same), t)
