-- ===== src/Auth/Session.antt =====
-- authorization/session.py: the record of one session, and how the driver thread settles it.
-- `str_of` is what `str(error)` prints; a time is a number of seconds.
pub mod Ends
use rclone_kit.Base.{
  ℕ, ◌+◌, String, Bool, true, false, ◌&&◌, ◌||◌, Option, none, some, Error, Result, ok, err,
  assertion_error, authorization_expired, authorization_cancelled, authorization_rejected,
  if◌then◌else◌,
}
use rclone_kit.Job.Settle.{mentions}
use rclone_kit.Auth.{
  AuthorizationStatus, queued, succeeded, failed, cancelled, expired, closed, is_terminal_status,
  AuthorizationRequest, AuthorizationResult,
}

-- `_SessionRecord`, without its locks and its timer
pub record Session : Type 0 where
  pub request : AuthorizationRequest
  pub owner : Option String
  pub expires_at : ℕ
  pub status : AuthorizationStatus
  pub cancel_requested : Bool
  pub expire_requested : Bool
  pub authorization_url : Option String
  pub private_base_url : Option String
  pub oauth_state : Option String
  pub terminal_result : Option AuthorizationResult
  pub terminal_exception : Option Error
  pub generation : ℕ

abbrev pub fresh_session : AuthorizationRequest → Option String → ℕ → Session
fresh_session request owner enqueued_at = record {
  request = request;
  owner = owner;
  expires_at = enqueued_at + request.expires_in;
  status = queued;
  cancel_requested = false;
  expire_requested = false;
  authorization_url = none;
  private_base_url = none;
  oauth_state = none;
  terminal_result = none;
  terminal_exception = none;
  generation = 0;
}

abbrev pub is_ended : Session → Bool
is_ended s = is_terminal_status s.status

-- `_advance(status, **updates)`, with the updates as one function
unfoldable pub advance : AuthorizationStatus → (Session → Session) → Session → Session
advance status updates s = if is_ended s then s else updates (record s { status = status })

abbrev pub ending_with : Error → Session → Session
ending_with e s = record s { terminal_exception = some e }

abbrev pub mark_succeeded : AuthorizationResult → Session → Session
mark_succeeded result = advance succeeded (λ s. record s { terminal_result = some result })

abbrev pub mark_failed : Error → Session → Session
mark_failed e = advance failed (ending_with e)

abbrev pub mark_cancelled : Session → Session
mark_cancelled s = advance cancelled (ending_with (authorization_cancelled s.request.remote_name)) s

abbrev pub mark_expired : Session → Session
mark_expired s = advance expired (ending_with (authorization_expired s.request.remote_name)) s

abbrev pub mark_closed : Session → Session
mark_closed s = advance closed (ending_with (authorization_cancelled s.request.remote_name)) s

-- `isinstance(error, AuthorizationRejectedError)`
abbrev pub is_rejected : Error → Bool
is_rejected (authorization_rejected _ _) = true
is_rejected _ = false

-- What `_run_driver` does with the end of `drive`: `built` is what `build_result` made, which is asked
-- for only if `drive` returned; the two flags are those that it read after a rejection.
abbrev pub settle_driven :
    (str_of : Error → String) (was_expired was_cancelled : Bool)
    → Result (Unit {0})
    → Result AuthorizationResult
    → Session
    → Session
settle_driven str_of was_expired was_cancelled (ok _) (ok result) s = mark_succeeded result s
settle_driven str_of was_expired was_cancelled (ok _) (err e) s = mark_failed e s
settle_driven str_of was_expired was_cancelled (err e) built s =
    if is_rejected e
      && ((was_expired || was_cancelled)
          && mentions "oauth authentication was cancelled" (some (str_of e)))
    then (if was_expired then mark_expired s else mark_cancelled s)
    else mark_failed e s

-- `AuthorizationSession.wait` once the session has ended
abbrev pub wait_answer : Session → Result AuthorizationResult
wait_answer s = elim s.terminal_exception [
  | some e ↦ err e
  | none ↦ elim s.terminal_result [ some result ↦ ok result | none ↦ err assertion_error ]
]

-- `AuthorizationSession.authorization_url` once it no longer waits
abbrev pub url_answer : Session → Result String
url_answer s = elim s.authorization_url [
  | some url ↦ ok url
  | none ↦ elim s.terminal_exception [
    | some e ↦ err e
    | none ↦ err (authorization_expired s.request.remote_name)
  ]
]
