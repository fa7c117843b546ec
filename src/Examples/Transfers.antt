-- ===== src/Examples/Transfers.antt =====
-- Transfers at concrete inputs: the job of an odd number fails.
use rclone_kit.Base.{
  ℕ, ◌+◌, ◌%◌, ◌≤◌, ◌≡◌, ◌==◌, refl, true, false, none, some, List, [], ◌∷◌, length, ok,
  if◌then◌else◌,
}
use Prim.Native.Nat.{max}
use rclone_kit.Base.Int.{pos}
use rclone_kit.Operation.{OperationResult}
use rclone_kit.Transfer.{Jobs, Partition, files_embedded}
use rclone_kit.Transfer.Pacing.{Count, counted, files_embedded-peak}
use rclone_kit.Transfer.Options.{
  TransferOptions, check_options, with_defaults_from, or_else, copy_tuned_profile,
  encode_transfer_options_config, config_get,
}
use rclone_kit.Transfer.Options.Overlay.{with_defaults_from-config}

abbrev result_for : ℕ → OperationResult
result_for n = record {
  is_ok = n % 2 == 0;
  operation = "copy_files";
  source = none;
  destination = none;
  job_ids = pos n ∷ [];
  stats = none;
  warnings = [];
  attempts = [];
  started_at = n;
  ended_at = n + 1;
  duration = 1;
  cancelled = false;
  error = if n % 2 == 0 then none else some "denied";
}

-- A job is its number, and the world counts the jobs.
abbrev numbered_jobs : Jobs ℕ ℕ ℕ
numbered_jobs = record { start_job = λ n w. (ok n, w + 1); wait = λ h w. (ok (result_for h), w) }

-- The job of the second partition fails, and only the first has its `rmdirs` run.
abbrev partitions : List (Partition ℕ)
partitions =
    record { job = 2; rmdirs = some 4 }
    ∷ record { job = 3; rmdirs = some 6 }
    ∷ record { job = 8; rmdirs = none }
    ∷ []

abbrev unstarted : Count ℕ
unstarted = record { world = 0; outstanding = 0; peak = 0 }

files_embedded-peak_example :
    ((files_embedded
        (counted numbered_jobs)
        0
        "copy_files"
        none
        none
        true
        (some 2)
        partitions
        unstarted).1.peak
      ≤ max 1 2)
    × ((files_embedded
          (counted numbered_jobs)
          0
          "copy_files"
          none
          none
          true
          none
          partitions
          unstarted).1.peak
        ≤ length partitions)
files_embedded-peak_example =
    files_embedded-peak numbered_jobs 0 "copy_files" none none true 2 partitions 0

abbrev few_transfers : TransferOptions
few_transfers = record copy_tuned_profile {
  checkers = none;
  transfers = some (pos 4);
  retries = none;
}

with_defaults_from-config_example :
    (result : TransferOptions) × (with_defaults_from few_transfers copy_tuned_profile ≡ ok result)
    × (config_get "Transfers" (encode_transfer_options_config result)
        ≡ or_else
            (config_get "Transfers" (encode_transfer_options_config few_transfers))
            (config_get "Transfers" (encode_transfer_options_config copy_tuned_profile)))
unfolding check_options
with_defaults_from-config_example =
    with_defaults_from-config few_transfers copy_tuned_profile "Transfers" refl refl
