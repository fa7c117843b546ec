-- ===== src/Operation/Aggregate.antt =====
-- What the result of a partitioned operation says about the results of its jobs.
use native.Mathlib.Nat.{le_refl}
use mathlib.Core.Path.{subst}
use rclone_kit.Base.{
  ℕ, ◌≤◌, ◌≡◌, refl, String, not, ◌&&◌, ◌||◌, Option, List, [], ◌∷◌, ok, All, All-map, All-both, ap,
  sym, arith,
}
use rclone_kit.Operation.{
  OperationResult, IsConsistent, check_operation_result_lem, check_operation_result_inv,
}
use rclone_kit.Operation.Partitioned.{
  all_of, min_of, max_of, concat_of, is_empty, failures_of, aggregate_results, folded, nothing_done,
}

is_empty-failures_of :
    (rs : List OperationResult) → is_empty (failures_of rs) ≡ all_of (λ r. r.is_ok) rs
is_empty-failures_of [] = refl
is_empty-failures_of (r ∷ rs) = ground (arith, is_empty-failures_of rs)

all_of-failures_of :
    (rs : List OperationResult)
    → all_of (λ r. r.cancelled) (failures_of rs) ≡ all_of (λ r. r.is_ok || r.cancelled) rs
all_of-failures_of [] = refl
all_of-failures_of (r ∷ rs) = ground (arith, all_of-failures_of rs)

module _ (f : OperationResult → ℕ) where
  min_of-All :
      (r : OperationResult) (rs : List OperationResult) → All (λ x. min_of f r rs ≤ f x) (r ∷ rs)
  min_of-All r [] = (le_refl (f r), tt)
  min_of-All r (q ∷ rs) =
      (omega arith, All-map _ _ (q ∷ rs) (λ x h. omega (arith, h)) (min_of-All q rs))

  max_of-All :
      (r : OperationResult) (rs : List OperationResult) → All (λ x. f x ≤ max_of f r rs) (r ∷ rs)
  max_of-All r [] = (le_refl (f r), tt)
  max_of-All r (q ∷ rs) =
      (omega arith, All-map _ _ (q ∷ rs) (λ x h. omega (arith, h)) (max_of-All q rs))

nothing_done-IsConsistent :
    (now : ℕ) (operation : String) (source destination : Option String)
    → IsConsistent (nothing_done now operation source destination)
unfolding nothing_done
nothing_done-IsConsistent now operation source destination = record {
  ordered = le_refl now;
  no_error = λ h. refl;
  explained = λ h. cc;
  not_both = λ h. cc;
}

folded-IsConsistent :
    (operation : String) (source destination : Option String) (r : OperationResult)
    (rs : List OperationResult)
    → All (λ x. x.started_at ≤ x.ended_at) (r ∷ rs)
    → IsConsistent (folded operation source destination r rs)
unfolding folded
folded-IsConsistent operation source destination r rs h = record {
  ordered =
      omega (
        arith,
        (min_of-All (λ x. x.started_at) r rs).0,
        (max_of-All (λ x. x.ended_at) r rs).0,
        h.0,
      );
  no_error = λ e. rw e;
  explained = λ e f. rw e (λ p. cc);
  not_both = λ e. ground arith;
}

-- The fields that the fold over a list with a first result computes.
abbrev pub Summarises : List OperationResult → OperationResult → Type 0
Summarises rs a =
    IsConsistent a
    × (a.is_ok ≡ all_of (λ r. r.is_ok) rs)
    × (a.cancelled ≡ (not a.is_ok && all_of (λ r. r.is_ok || r.cancelled) rs))
    × (a.job_ids ≡ concat_of (λ r. r.job_ids) rs)
    × (a.attempts ≡ concat_of (λ r. r.attempts) rs)

-- The aggregate of the results of a partitioned operation is built, whatever the partitions did,
-- if every result spans no negative time: it is itself consistent, it is ok exactly when all the
-- results are, cancelled exactly when some failed and every one that failed was cancelled, and it
-- has the job ids and attempts of all, in order. Of no results it is ok.
pub aggregate_results_summary :
    (now : ℕ) (operation : String) (source destination : Option String) (rs : List OperationResult)
    → All (λ r. r.started_at ≤ r.ended_at) rs
    → (a : OperationResult) × (aggregate_results now operation source destination rs ≡ ok a)
      × Summarises rs a
unfolding aggregate_results
aggregate_results_summary now operation source destination [] h =
    let a = nothing_done now operation source destination in
    let c = nothing_done-IsConsistent now operation source destination in
    (a, check_operation_result_lem a c, unfold nothing_done in (c, refl, refl, refl, refl))
aggregate_results_summary now operation source destination (r ∷ rs) h =
    let a = folded operation source destination r rs in
    let c = folded-IsConsistent operation source destination r rs h in
    (
      a,
      check_operation_result_lem a c,
      unfold folded in
          (
            c,
            is_empty-failures_of (r ∷ rs),
            ap (λ b. not (is_empty (failures_of (r ∷ rs))) && b) (all_of-failures_of (r ∷ rs)),
            refl,
            refl,
          ),
    )

abbrev pub Within : OperationResult → OperationResult → Type 0
Within a r = (a.started_at ≤ r.started_at) × (r.ended_at ≤ a.ended_at)

-- An aggregate that is built begins no later and ends no earlier than any of its results.
pub aggregate_results_span :
    (now : ℕ) (operation : String) (source destination : Option String) (rs : List OperationResult)
    {a : OperationResult}
    → aggregate_results now operation source destination rs ≡ ok a
    → All (Within a) rs
unfolding aggregate_results folded
aggregate_results_span now operation source destination [] h = tt
aggregate_results_span now operation source destination (r ∷ rs) {a} h =
    let same = (check_operation_result_inv (folded operation source destination r rs) h).0 in
    subst (λ (x : OperationResult). All (Within x) (r ∷ rs)) (sym same)
      (All-both _ _ (r ∷ rs) (min_of-All (λ x. x.started_at) r rs)
        (max_of-All (λ x. x.ended_at) r rs))
