-- ===== src/Auth/Driver/Calls.antt =====
-- authorization/state_driver.py: which calls of rclone a run makes.
use rclone_kit.Base.{
  ℕ, zero, suc, ◌≡◌, refl, sym, ap, ◌∙◌, ◌⊎◌, inl, inr, String, Option, none, some, Error, Result,
  ok, err, str_eq, if◌then◌else◌, Bool-cases,
}
use rclone_kit.Base.Json.{str, obj, Fields, get}
use rclone_kit.Auth.{RemoteConflictPolicy, reject, reconnect, AuthorizationRequest}
use rclone_kit.Auth.Wire.{ConfigStep, first_opt, continue_opt, call_params, config_call}
use rclone_kit.Auth.Driver.{
  encode_parameters, is_blocking_answer, judge, at_start, at_continue, start_call, continue_call,
  answer_step, drive_loop, drive,
}
use rclone_kit.Auth.Driver.Follows.{after, round, drive_loop-round}
use rclone_kit.Auth.Driver.Judged.{
  Judged, known, has_error, no_option, unknown, judge-Judged, judge_done,
}

abbrev pub method_of : RemoteConflictPolicy → String
method_of reconnect = "config/update"
method_of reject = "config/create"

-- A call that a run for this request may make.
pub record IsConfigCall (r : AuthorizationRequest) (overlay : Fields) (method : String)
    (params : Fields) : Type 0 where
  pub named : get params "name" ≡ some (str r.remote_name)
  pub by_policy : method ≡ method_of r.on_conflict
  pub pre_answers : get params "parameters" ≡ some (obj (encode_parameters r))
  pub first_or_true :
      (get params "opt" ≡ some (obj first_opt))
      ⊎ ((s : String) × (get params "opt" ≡ some (obj (continue_opt s "true"))))

is_config_call :
    (r : AuthorizationRequest) (overlay : Fields) (method : String) (opt : Fields)
    (backend : Option String)
    → method ≡ method_of r.on_conflict
    → (opt ≡ first_opt) ⊎ ((s : String) × (opt ≡ continue_opt s "true"))
    → IsConfigCall r overlay method
        (call_params r.remote_name (encode_parameters r) opt overlay backend)
is_config_call r overlay method opt backend m o = record {
  named = refl;
  by_policy = m;
  pre_answers = refl;
  first_or_true = elim o [
    | inl h ↦ inl (ap (λ x. some (obj x)) h)
    | inr (s, h) ↦ inr (s, ap (λ x. some (obj x)) h)
  ];
}

-- The loop sends no answer but "true".
Judged-true :
    (name s a : String) (o e : Option String) (j : Result (Option String))
    → Judged name s o e j
    → j ≡ ok (some a)
    → a ≡ "true"
Judged-true name s a (some x) e j (known q c k) h = cc
Judged-true name s a o (some x) j (has_error e k) h = cc
Judged-true name s a none e j (no_option c) h = cc
Judged-true name s a (some x) e j (unknown q c k l) h = cc

judge_is_true :
    (name : String) (step : ConfigStep) (a : String) → judge name step ≡ ok (some a) → a ≡ "true"
judge_is_true name step a h = elim (Bool-cases (str_eq step.state "")) [
  | inl k ↦ absurd_done (sym (judge_done name step k) ∙ h)
  | inr k ↦
      Judged-true name step.state a step.option_name step.error (judge name step)
        (judge-Judged name step.state step.option_name step.error k) h
]
  where
    absurd_done : Path (Result (Option String)) (ok none) (ok (some a)) → a ≡ "true"
    absurd_done e = cc

module _ {W : Type 0} (r : AuthorizationRequest) (overlay : Fields)
    (call call' : String → Fields → W → Result Fields × W)
    (same : (method : String) (params : Fields) (w : W)
      → IsConfigCall r overlay method params
      → call method params w ≡ call' method params w) where
  same_call :
      (method : String) (opt : Fields) (backend : Option String) (w : W)
      → method ≡ method_of r.on_conflict
      → (opt ≡ first_opt) ⊎ ((s : String) × (opt ≡ continue_opt s "true"))
      → config_call call method r.remote_name (encode_parameters r) opt overlay backend w
        ≡ config_call call' method r.remote_name (encode_parameters r) opt overlay backend w
  same_call method opt backend w m o =
      rw
        (same method (call_params r.remote_name (encode_parameters r) opt overlay backend) w
          (is_config_call r overlay method opt backend m o))
        refl

  start_by :
      (p : RemoteConflictPolicy) (w : W)
      → r.on_conflict ≡ p
      → start_call call r overlay w ≡ start_call call' r overlay w
  start_by reconnect w h = rw h (same_call "config/update" first_opt none w (rw h refl) (inl refl))
  start_by reject w h =
      rw h (same_call "config/create" first_opt (some r.backend) w (rw h refl) (inl refl))

  continue_by :
      (p : RemoteConflictPolicy) (s : String) (w : W)
      → r.on_conflict ≡ p
      → continue_call call r overlay s "true" w ≡ continue_call call' r overlay s "true" w
  continue_by reconnect s w h =
      rw h (same_call "config/update" (continue_opt s "true") none w (rw h refl) (inr (s, refl)))
  continue_by reject s w h = rw h (
      same_call "config/create" (continue_opt s "true") (some r.backend) w (rw h refl)
        (inr (s, refl)))

  module _ (str_of : Error → String) (before : W → W) where
    abbrev asks_by :
        (String → Fields → W → Result Fields × W) → String → String → W → Result ConfigStep × W
    asks_by c = continue_call c r overlay

    answer_same :
        (step : ConfigStep) (w : W)
        → answer_step str_of r.remote_name (continue_call call r overlay) before step "true" w
          ≡ answer_step str_of r.remote_name (continue_call call' r overlay) before step "true" w
    unfolding answer_step
    answer_same step w =
        ap (λ (out : Result ConfigStep × W). (at_continue str_of r.remote_name out.0, out.1))
          (continue_by r.on_conflict step.state (if is_blocking_answer step then before w else w)
            refl)

    after_same :
        (fuel : ℕ)
        → ((step : ConfigStep) (w : W)
            → drive_loop str_of r.remote_name (asks_by call) before fuel step w
              ≡ drive_loop str_of r.remote_name (asks_by call') before fuel step w)
        → (out : Result ConfigStep × W)
        → after str_of r.remote_name (asks_by call) before fuel out
          ≡ after str_of r.remote_name (asks_by call') before fuel out
    after_same fuel ih (err e, w) = refl
    after_same fuel ih (ok next, w) = ih next w

    round_same :
        (fuel : ℕ)
        → ((step : ConfigStep) (w : W)
            → drive_loop str_of r.remote_name (asks_by call) before fuel step w
              ≡ drive_loop str_of r.remote_name (asks_by call') before fuel step w)
        → (step : ConfigStep) (w : W) (j : Result (Option String))
        → ((a : String) → j ≡ ok (some a) → a ≡ "true")
        → round str_of r.remote_name (asks_by call) before fuel step w j
          ≡ round str_of r.remote_name (asks_by call') before fuel step w j
    round_same fuel ih step w (err e) t = refl
    round_same fuel ih step w (ok none) t = refl
    round_same fuel ih step w (ok (some a)) t =
        rw (t a refl, answer_same step w)
          (after_same fuel ih
            (answer_step str_of r.remote_name (asks_by call') before step "true" w))

    loop_same :
        (fuel : ℕ) (step : ConfigStep) (w : W)
        → drive_loop str_of r.remote_name (asks_by call) before fuel step w
          ≡ drive_loop str_of r.remote_name (asks_by call') before fuel step w
    unfolding drive_loop
    loop_same zero step w = refl
    loop_same (suc fuel) step w =
        let j = judge r.remote_name step in
        drive_loop-round str_of r.remote_name (asks_by call) before fuel step w j refl
        ∙ round_same fuel (loop_same fuel) step w j (judge_is_true r.remote_name step)
        ∙ sym (drive_loop-round str_of r.remote_name (asks_by call') before fuel step w j refl)

    -- `drive` once the first call has answered.
    abbrev begun :
        (String → Fields → W → Result Fields × W)
        → ℕ
        → Result ConfigStep × W
        → Result (Unit {0}) × W
    begun c fuel out = elim (at_start str_of r.remote_name out.0) [
      | err e ↦ (err e, out.1)
      | ok step ↦ drive_loop str_of r.remote_name (asks_by c) before fuel step out.1
    ]

    begun_same :
        (fuel : ℕ) (out : Result ConfigStep × W) → begun call fuel out ≡ begun call' fuel out
    begun_same fuel (err e, w) = refl
    begun_same fuel (ok step, w) = loop_same fuel step w

    -- All that `drive` sends to rclone through the functions of `build_call_functions` are calls of
    -- `config/create`, or of `config/update` for a reconnect, with the request's remote name, with
    -- its parameters on every call, and as the first call or with "true" for an answer: two
    -- rclones that agree on those calls cannot be told apart.
    pub drive-same_calls :
        (fuel : ℕ) (w : W)
        → drive str_of r.remote_name (asks_by call) before fuel (start_call call r overlay) w
          ≡ drive str_of r.remote_name (asks_by call') before fuel (start_call call' r overlay) w
    unfolding drive
    drive-same_calls fuel w =
        ap (begun call fuel) (start_by r.on_conflict w refl)
        ∙ begun_same fuel (start_call call' r overlay w)
