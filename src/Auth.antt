-- ===== src/Auth.antt =====
-- src/rclone_kit/authorization/types.py: a request to authorize a remote, and the states of a
-- session that carries one out.
pub mod Wire
pub mod Driver
pub mod Session
pub mod Manager
use rclone_kit.Base.{
  ℕ, String, Bool, true, false, ◌&&◌, Option, none, some, Result, ok, value_error, ◌>>◌, raise_if,
  str_eq, leb,
}
use rclone_kit.Base.Json.{Fields}

pub data RemoteConflictPolicy : Type 0 where
  reject reconnect : RemoteConflictPolicy

-- `AuthorizationStatus`
pub data AuthorizationStatus : Type 0 where
  queued starting waiting_for_user completing : AuthorizationStatus
  succeeded failed cancelled expired closed : AuthorizationStatus

-- `AuthorizationStatus.is_terminal`
abbrev pub is_terminal_status : AuthorizationStatus → Bool
is_terminal_status queued = false
is_terminal_status starting = false
is_terminal_status waiting_for_user = false
is_terminal_status completing = false
is_terminal_status _ = true

-- A `Secret` is its text, and `expires_in` a number of seconds.
pub record AuthorizationRequest : Type 0 where
  pub remote_name : String
  pub backend : String
  pub public_callback_url : Option String
  pub backend_options : Fields
  pub client_id : Option String
  pub client_secret : Option String
  pub on_conflict : RemoteConflictPolicy
  pub expires_in : ℕ
  pub private_listen_addr : Option String

-- A text that is given but empty.
abbrev given_empty : Option String → Bool
given_empty none = false
given_empty (some s) = str_eq s ""

-- `AuthorizationRequest.__post_init__`
abbrev pub check_authorization_request : AuthorizationRequest → Result AuthorizationRequest
check_authorization_request r = do
  raise_if (str_eq r.remote_name "") value_error
  raise_if (str_eq r.backend "") value_error
  raise_if (given_empty r.public_callback_url) value_error
  raise_if (leb r.expires_in 0) value_error
  ok r

-- The config of the one remote is its text.
pub record AuthorizationResult : Type 0 where
  pub remote_name : String
  pub config : String
