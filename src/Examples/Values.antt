-- ===== src/Examples/Values.antt =====
-- Splits, part names, wire payloads and aggregates at concrete inputs.
use rclone_kit.Base.{
  ℕ, ◌≤◌, ◌≡◌, refl, String, true, false, Option, none, some, List, [], ◌∷◌, map, length, Result,
  ok, err, rc_call_error, arith,
}
use rclone_kit.Base.Int.{pos}
use rclone_kit.Base.Json.{bool, int, str, obj, arr, Items, nil, cons, Fields, end, field}
use rclone_kit.Types.Parts.{
  PartInfo, split_parts, part_loop, create_part_infos, get_chunk_size, make_part_info,
  max_part_number,
}
use rclone_kit.Types.{make_range}
use rclone_kit.Types.Tiling.{Tiles, chunk_for, split_parts-Tiles}
use rclone_kit.Types.Names.{gen_name, parse_part_number, parse_part_number-gen_name}
use rclone_kit.Operation.{
  succeeded, JobStatus, OperationResult, make_job_status, check_operation_result,
}
use rclone_kit.Operation.Partitioned.{aggregate_results, folded}
use rclone_kit.Operation.Aggregate.{Summarises, aggregate_results_summary}
use rclone_kit.Rc.Payload.{
  GoTime, require, require_str, require_bool, require_number, parse_go_time,
}
use rclone_kit.Rc.Jobs.{RcJobRef, validated_job_status, parse_job_status, statuses_of_answer}
use rclone_kit.Rc.Jobs.Batch.{
  answered, refused, AllReport, none_left, one_more, single_statuses, statuses-eq-single,
}

-- The part numbers of a split, with the ends of the ranges.
abbrev ends_of : Result (List PartInfo) → List ℕ
ends_of (ok ps) = map (λ p. p.range.end) ps
ends_of (err _) = []

split_parts_test : ends_of (split_parts (pos 100) (pos 30)) ≡ 30 ∷ 60 ∷ 90 ∷ 100 ∷ []
unfolding create_part_infos get_chunk_size part_loop make_range make_part_info
split_parts_test = refl

split_parts-Tiles_example :
    (ps : List PartInfo) × (split_parts (pos 100) (pos 30) ≡ ok ps)
    × Tiles (chunk_for 100 30) 0 100 1 ps
    × (length ps ≤ max_part_number)
split_parts-Tiles_example = split_parts-Tiles 100 30 (omega arith) (omega arith)

parse_part_number-gen_name_example : parse_part_number (gen_name 123456 0 30) ≡ ok 123456
parse_part_number-gen_name_example = parse_part_number-gen_name 123456 0 30

abbrev iso : String → Option GoTime
iso _ = some (record { year = 2024; aware = true; instant = 9 })

abbrev ref : RcJobRef
ref = record { job_id = pos 7; execute_id = "e1"; group = "job/7" }

abbrev payload : Fields
payload = field "finished" (bool true) (
    field "success" (bool true) (
      field "error" (str "") (
        field "startTime" (str "2024-01-01T00:00:00Z") (
          field "endTime" (str "2024-01-01T00:00:00Z")
            (field "duration" (int (pos 0)) (field "executeId" (str "e1") end))))))

abbrev gone : Fields
gone = field "error" (str "job not found") (field "status" (int (pos 500)) end)

abbrev entries : Items
entries = cons (obj payload) (cons (obj gone) nil)

abbrev answers : List (Result Fields)
answers = ok payload ∷ err (rc_call_error "job/status" (pos 500) gone) ∷ []

entries-AllReport : AllReport entries answers
entries-AllReport =
    one_more (answered payload refl) (one_more (refused gone (pos 500) refl refl) none_left)

statuses-eq-single_example :
    statuses_of_answer iso (ref ∷ ref ∷ []) (ok (field "results" (arr entries) end))
    ≡ ok (single_statuses iso (ref ∷ ref ∷ []) answers)
statuses-eq-single_example =
    statuses-eq-single iso (ref ∷ ref ∷ []) answers entries refl entries-AllReport

abbrev status : JobStatus
status = record {
  job_id = pos 7;
  execute_id = "e1";
  group = "job/7";
  state = succeeded;
  started_at = 9;
  ended_at = some 9;
  duration = 0;
  error = none;
  output = end;
}

payload-status : validated_job_status iso ref payload ≡ ok status
unfolding validated_job_status parse_job_status require require_str require_bool require_number
    parse_go_time make_job_status
payload-status = refl

abbrev result_at : ℕ → ℕ → OperationResult
result_at start stop = record {
  is_ok = true;
  operation = "check";
  source = none;
  destination = none;
  job_ids = pos 7 ∷ [];
  stats = none;
  warnings = [];
  attempts = [];
  started_at = start;
  ended_at = stop;
  duration = 0;
  cancelled = false;
  error = none;
}

-- A result that failed, and was not cancelled.
abbrev failed_at : ℕ → ℕ → OperationResult
failed_at start stop = record (result_at start stop) { is_ok = false; error = some "denied" }

abbrev results : List OperationResult
results = result_at 3 8 ∷ failed_at 1 5 ∷ []

aggregate_results_summary_example :
    (a : OperationResult) × (aggregate_results 0 "check" none none results ≡ ok a)
    × Summarises results a
aggregate_results_summary_example =
    aggregate_results_summary 0 "check" none none results (omega arith, (omega arith, tt))

results-folded :
    aggregate_results 0 "check" none none results
    ≡ ok (folded "check" none none (result_at 3 8) (failed_at 1 5 ∷ []))
unfolding aggregate_results folded check_operation_result
results-folded = refl
