-- ===== src/Auth/Wire.antt =====
-- rc/auth.py: the calls of rclone that the state driver and the session make, and the readers of
-- their answers. A call may change the world outside, which is passed along.
use rclone_kit.Base.{
  String, Bool, true, false, Option, none, some, Result, ok, err, value_error, rc_call_error, ◌>>=◌,
  str_eq, if◌then◌else◌,
}
use rclone_kit.Base.Json.{
  Json, null, bool, str, arr, obj, Items, nil, Fields, end, field, get, get_or_null, is_falsy,
}
use rclone_kit.Rc.Payload.{as_str}

pub record ConfigStep : Type 0 where
  pub state : String
  pub option_name : Option String
  pub error : Option String

-- `ConfigStep.done`
abbrev pub step_done : ConfigStep → Bool
step_done step = str_eq step.state ""

pub record OAuthStatus : Type 0 where
  pub running : Bool
  pub auth_url : Option String

-- `value or ""`, then `isinstance(value, str)`
abbrev state_of_step : Json → Result String
state_of_step v = if is_falsy v then ok "" else as_str v

abbrev non_empty_name : String → Result (Option String)
non_empty_name s = if str_eq s "" then err value_error else ok (some s)

abbrev option_of_step : Json → Result (Option String)
option_of_step null = ok none
option_of_step (obj option) = do name ← as_str (get_or_null option "Name"); non_empty_name name
option_of_step _ = err value_error

-- `value or None`, then `isinstance(value, str)`
abbrev error_of_step : Json → Result (Option String)
error_of_step v = if is_falsy v then ok none else (do text ← as_str v; ok (some text))

abbrev pub parse_config_step : Fields → Result ConfigStep
parse_config_step payload = do
  state ← state_of_step (get_or_null payload "State")
  option_name ← option_of_step (get_or_null payload "Option")
  error ← error_of_step (get_or_null payload "Error")
  ok (record { state = state; option_name = option_name; error = error })

abbrev running_of : Json → Result Bool
running_of (str s) =
    if str_eq s "running" then ok true else if str_eq s "stopped" then ok false else err value_error
running_of _ = err value_error

abbrev url_of : Json → Result (Option String)
url_of null = ok none
url_of (str s) = ok (some s)
url_of _ = err value_error

abbrev pub parse_oauth_status : Fields → Result OAuthStatus
parse_oauth_status payload = do
  running ← running_of (get_or_null payload "status")
  auth_url ← url_of (get_or_null payload "authUrl")
  ok (record { running = running; auth_url = auth_url })

-- The names are kept as they come: `tuple(remotes)` checks none of them.
abbrev pub remotes_of : Option Json → Result Items
remotes_of none = ok nil
remotes_of (some (arr remotes)) = ok remotes
remotes_of _ = err value_error

-- `str(value) == message` for a text; nothing else prints as one of the messages
abbrev prints_as : Option Json → String → Bool
prints_as (some (str s)) message = str_eq s message
prints_as _ message = false

abbrev pub no_oauth_in_progress : String
no_oauth_in_progress = "no oauth authentication is in progress"

abbrev pub stop_answer : Result Fields → Result (Unit {0})
stop_answer (ok _) = ok tt
stop_answer (err (rc_call_error method status payload)) =
    if prints_as (get payload "error") no_oauth_in_progress
    then ok tt
    else err (rc_call_error method status payload)
stop_answer (err e) = err e

abbrev answered : Result Fields → Result (Unit {0})
answered (ok _) = ok tt
answered (err e) = err e

-- The optional arguments of `_config_call`, in the order in which they are added.
abbrev with_type : Option String → Fields → Fields
with_type none rest = rest
with_type (some backend) rest = field "type" (str backend) rest

abbrev with_overlay : Fields → Fields
with_overlay end = end
with_overlay overlay = field "_config" (obj overlay) end

abbrev pub call_params : String → Fields → Fields → Fields → Option String → Fields
call_params name parameters opt overlay backend = field "name" (str name) (
    field "parameters" (obj parameters)
      (field "opt" (obj opt) (with_type backend (with_overlay overlay))))

abbrev pub first_opt : Fields
first_opt = field "nonInteractive" (bool true) end

abbrev pub continue_opt : String → String → Fields
continue_opt state result =
    field "nonInteractive" (bool true)
      (field "continue" (bool true) (field "state" (str state) (field "result" (str result) end)))

-- `RcloneRcAuthClient`; `call` is `RcCallable.call(method, **params)`
module _ {W : Type 0} (call : String → Fields → W → Result Fields × W) where
  abbrev pub config_call :
      String → String → Fields → Fields → Fields → Option String → W → Result ConfigStep × W
  config_call method name parameters opt overlay backend w =
      let (answer, w') = call method (call_params name parameters opt overlay backend) w in
      ((answer >>= parse_config_step), w')

  abbrev pub create : String → String → Fields → Fields → W → Result ConfigStep × W
  create name backend parameters overlay =
      config_call "config/create" name parameters first_opt overlay (some backend)

  abbrev pub create_continue :
      String → String → String → String → Fields → Fields → W → Result ConfigStep × W
  create_continue name backend state result parameters overlay =
      config_call "config/create" name parameters (continue_opt state result) overlay (some backend)

  abbrev pub update_remote : String → Fields → Fields → W → Result ConfigStep × W
  update_remote name parameters overlay =
      config_call "config/update" name parameters first_opt overlay none

  abbrev pub update_continue :
      String → String → String → Fields → Fields → W → Result ConfigStep × W
  update_continue name state result parameters overlay =
      config_call "config/update" name parameters (continue_opt state result) overlay none

  abbrev pub delete_remote : String → W → Result (Unit {0}) × W
  delete_remote name w =
      let (answer, w') = call "config/delete" (field "name" (str name) end) w in
      (answered answer, w')

  abbrev pub listremotes : W → Result Items × W
  listremotes w =
      let (answer, w') = call "config/listremotes" end w in
      ((answer >>= (λ response. remotes_of (get response "remotes"))), w')

  abbrev pub oauth_status : W → Result OAuthStatus × W
  oauth_status w =
      let (answer, w') = call "config/oauthstatus" end w in ((answer >>= parse_oauth_status), w')

  abbrev pub oauth_stop : W → Result (Unit {0}) × W
  oauth_stop w = let (answer, w') = call "config/oauthstop" end w in (stop_answer answer, w')
