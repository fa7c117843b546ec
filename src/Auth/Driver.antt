-- ===== src/Auth/Driver.antt =====
-- authorization/state_driver.py: the walk through rclone's questions. `str_of` is what `str(error)`
-- prints, and `w` the world that rclone's calls change.
pub mod Judged
pub mod Follows
pub mod Calls
use rclone_kit.Base.{
  ℕ, zero, suc, String, Bool, true, false, not, Option, none, some, Error, Result, ok, err,
  assertion_error, rc_call_error, authorization_start_error, authorization_rejected,
  unsupported_prompt, diverged, ◌>>=◌, ◌>>◌, raise_if, str_eq, if◌then◌else◌,
}
use rclone_kit.Base.Json.{str, Fields, put}
use rclone_kit.Auth.{RemoteConflictPolicy, reject, reconnect, AuthorizationRequest}
use rclone_kit.Auth.Wire.{
  ConfigStep, step_done, create, create_continue, update_remote, update_continue,
}

-- `_KNOWN_ANSWERS.get(name)`
abbrev pub known_answer : String → Option String
known_answer name =
    if str_eq name "config_refresh_token"
    then some "true"
    else if str_eq name "config_is_local"
    then some "true"
    else none

-- `if answer is None: raise`
abbrev pub or_unsupported : (remote_name state name : String) → Option String → Result String
or_unsupported remote_name state name none = err (unsupported_prompt remote_name state name)
or_unsupported remote_name state name (some answer) = ok answer

abbrev pub answer_for : String → ConfigStep → Result String
answer_for remote_name step = elim step.option_name [
  | none ↦ err assertion_error
  | some name ↦ or_unsupported remote_name step.state name (known_answer name)
]

abbrev pub is_blocking_answer : ConfigStep → Bool
is_blocking_answer step = elim step.option_name [
  | none ↦ false
  | some name ↦ str_eq name "config_is_local"
]

-- Setting the client's id, or the answer that stands in for it; then the secret.
abbrev with_client_id : Option String → Fields → Fields
with_client_id none parameters = put parameters "config_shared_client_id" (str "true")
with_client_id (some client_id) parameters = put parameters "client_id" (str client_id)

abbrev with_client_secret : Option String → Fields → Fields
with_client_secret none parameters = parameters
with_client_secret (some secret) parameters = put parameters "client_secret" (str secret)

abbrev pub encode_parameters : AuthorizationRequest → Fields
encode_parameters r =
    with_client_secret r.client_secret (with_client_id r.client_id r.backend_options)

-- `if step.error: raise`
abbrev check_error : String → Option String → Result (Unit {0})
check_error remote_name none = ok tt
check_error remote_name (some e) =
    raise_if (not (str_eq e "")) (authorization_rejected remote_name e)

-- What one round of the loop does with a step: `none` leaves the loop, `some` answers and goes on.
unfoldable pub judge : String → ConfigStep → Result (Option String)
judge remote_name step = if step_done step then ok none else (do
  check_error remote_name step.error
  answer ← answer_for remote_name step
  ok (some answer))

module _ {W : Type 0} (call : String → Fields → W → Result Fields × W) (r : AuthorizationRequest)
    (overlay : Fields) where
  -- The two closures that `build_call_functions` returns: `start` and `continue_`.
  abbrev pub start_call : W → Result ConfigStep × W
  start_call = elim r.on_conflict [
    | reconnect ↦ update_remote call r.remote_name (encode_parameters r) overlay
    | reject ↦ create call r.remote_name r.backend (encode_parameters r) overlay
  ]

  abbrev pub continue_call : String → String → W → Result ConfigStep × W
  continue_call state result = elim r.on_conflict [
    | reconnect ↦ update_continue call r.remote_name state result (encode_parameters r) overlay
    | reject ↦
        create_continue call r.remote_name r.backend state result (encode_parameters r) overlay
  ]

module _ (str_of : Error → String) (remote_name : String) where
  -- What the driver raises for a call that failed: the first one, and a later one.
  abbrev pub start_failure : Error → Error
  start_failure (rc_call_error method status payload) =
      authorization_start_error remote_name (rc_call_error method status payload)
  start_failure e = e

  abbrev pub later_failure : Error → Error
  later_failure (rc_call_error method status payload) =
      authorization_rejected remote_name (str_of (rc_call_error method status payload))
  later_failure e = e

  abbrev pub at_start : Result ConfigStep → Result ConfigStep
  at_start (ok step) = ok step
  at_start (err e) = err (start_failure e)

  abbrev pub at_continue : Result ConfigStep → Result ConfigStep
  at_continue (ok step) = ok step
  at_continue (err e) = err (later_failure e)

  module _ {W : Type 0} (continue_ : String → String → W → Result ConfigStep × W)
      (before : W → W) where
    -- `on_before_blocking_call()`, and the call that answers.
    unfoldable pub answer_step : ConfigStep → String → W → Result ConfigStep × W
    answer_step step answer w =
        let (r, w') =
          continue_ step.state answer (if is_blocking_answer step then before w else w) in
        (at_continue r, w')

    -- The `while` of `drive`.
    unfoldable pub drive_loop : ℕ → ConfigStep → W → Result (Unit {0}) × W
    drive_loop zero step w = (err diverged, w)
    drive_loop (suc fuel) step w = elim (judge remote_name step) [
      | err e ↦ (err e, w)
      | ok next ↦ elim next [
        | none ↦ (ok tt, w)
        | some answer ↦
            let (r, w') = answer_step step answer w in
            elim r [ err e ↦ (err e, w') | ok step' ↦ drive_loop fuel step' w' ]
      ]
    ]

    unfoldable pub drive : ℕ → (W → Result ConfigStep × W) → W → Result (Unit {0}) × W
    drive fuel start w =
        let (r, w') = start w in
        elim (at_start r) [ err e ↦ (err e, w') | ok step ↦ drive_loop fuel step w' ]
