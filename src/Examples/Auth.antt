-- ===== src/Examples/Auth.antt =====
-- An rclone that asks whether its machine is the browser's, and runs of the queue of sessions.
use mathlib.Core.Path.{subst}
use rclone_kit.Base.{
  ℕ, ◌+◌, ◌≡◌, ◌≢◌, ◌⊎◌, ◌==◌, refl, ap, String, Bool, true, false, none, some, [], ◌∷◌, Error,
  Result, ok, err, value_error, str_eq, if◌then◌else◌, arith, ◌<◌,
}
use rclone_kit.Base.Json.{str, Fields, end, field}
use rclone_kit.Auth.{
  AuthorizationRequest, reject, cancelled, closed, succeeded, AuthorizationResult,
  check_authorization_request,
}
use rclone_kit.Auth.Wire.{ConfigStep}
use rclone_kit.Auth.Driver.{
  drive, drive_loop, answer_step, judge, start_call, continue_call, encode_parameters,
}
use rclone_kit.Auth.Driver.Follows.{drive-Drives, Drives}
use rclone_kit.Auth.Driver.Calls.{IsConfigCall, drive-same_calls}
use rclone_kit.Auth.Session.{Session, fresh_session, is_ended, advance, wait_answer, mark_closed}
use rclone_kit.Auth.Session.Ends.{SameEnd}
use rclone_kit.Auth.Manager.{admission, check_caps, begin, arm_timer, cancel_pending, drop_queued}
use rclone_kit.Auth.Manager.Threads.{
  System, after_start, session_at, at_stage, put_session, arming, driving, Reach, here, next,
  starts, admits, arms, cancels, drops, closes,
}
use rclone_kit.Auth.Manager.Invariant.{fresh_system, fresh_system-IsSound, IsSound}
use rclone_kit.Auth.Manager.Sound.{Reach-IsSound, Reach-single_flight}
use rclone_kit.Auth.Manager.Outcome.{Reach-ends_once, Reach-wait_answer}

abbrev prints : Error → String
prints e = "failed"

abbrev request : AuthorizationRequest
request = record {
  remote_name = "drive";
  backend = "drive";
  public_callback_url = none;
  backend_options = field "scope" (str "drive") end;
  client_id = none;
  client_secret = some "s";
  on_conflict = reject;
  expires_in = 600;
  private_listen_addr = none;
}

request_is_valid : check_authorization_request request ≡ ok request
request_is_valid = refl

request_parameters :
    encode_parameters request
    ≡ field "scope"
        (str "drive")
        (field "config_shared_client_id" (str "true") (field "client_secret" (str "s") end))
request_parameters = refl

-- The driver against an rclone with one question; the world counts the calls of `before`.
abbrev asks_local : ConfigStep
asks_local = record { state = "*oauth-islocal"; option_name = some "config_is_local"; error = none }

abbrev saved_step : ConfigStep
saved_step = record { state = ""; option_name = none; error = none }

abbrev first : ℕ → Result ConfigStep × ℕ
first w = (ok asks_local, w)

abbrev next_of : Bool → Result ConfigStep
next_of true = ok saved_step
next_of false = err value_error

abbrev goes_on : String → String → ℕ → Result ConfigStep × ℕ
goes_on s a w = (next_of (str_eq s "*oauth-islocal"), w)

abbrev rank_of : Bool → ℕ
rank_of true = 1
rank_of false = 0

abbrev rank : String → ℕ
rank s = rank_of (str_eq s "*oauth-islocal")

abbrev watcher_starts : ℕ → ℕ
watcher_starts w = w + 1

abbrev step_in : Result ConfigStep × ℕ → ConfigStep
step_in (ok step, w) = step
step_in (err e, w) = saved_step

falls_by :
    (b : Bool) (w w' : ℕ) (step : ConfigStep)
    → ◌≡◌ {A = Result ConfigStep × ℕ} (next_of b, w) (ok step, w')
    → rank step.state < rank_of b
falls_by true w w' step h =
    subst (λ (x : ConfigStep). rank x.state < 1) (ap step_in h) (omega arith)
falls_by false w w' step h = cc

falls :
    (s : String) (w w' : ℕ) (step : ConfigStep)
    → goes_on s "true" w ≡ (ok step, w')
    → rank step.state < rank s
falls s w w' step h = falls_by (str_eq s "*oauth-islocal") w w' step h

enough : (step : ConfigStep) (w' : ℕ) → first 0 ≡ (ok step, w') → rank step.state < 2
enough step w' h = subst (λ (x : ConfigStep). rank x.state < 2) (ap step_in h) (omega arith)

drive-Drives_example :
    Drives prints "drive" goes_on watcher_starts first 0
      (drive prints "drive" goes_on watcher_starts 2 first 0).0
      (drive prints "drive" goes_on watcher_starts 2 first 0).1
drive-Drives_example =
    drive-Drives prints "drive" goes_on watcher_starts rank falls 2 first 0 enough

drive_saves : drive prints "drive" goes_on watcher_starts 2 first 0 ≡ (ok tt, 1)
unfolding drive drive_loop answer_step judge
drive_saves = refl

-- An rclone that answers every call with the end of the walk, and one that has no `config/delete`.
abbrev saving : String → Fields → ℕ → Result Fields × ℕ
saving method params w = (ok (field "State" (str "") end), w)

abbrev undeletable : String → Fields → ℕ → Result Fields × ℕ
undeletable method params w =
    if str_eq method "config/delete" then (err value_error, w) else saving method params w

no_delete :
    (method : String) (params : Fields) (w : ℕ)
    → IsConfigCall request end method params
    → saving method params w ≡ undeletable method params w
no_delete method params w c = rw c.by_policy refl

drive-same_calls_example :
    drive prints "drive"
      (continue_call saving request end)
      watcher_starts
      1
      (start_call saving request end)
      0
    ≡ drive prints "drive"
        (continue_call undeletable request end)
        watcher_starts
        1
        (start_call undeletable request end)
        0
drive-same_calls_example =
    drive-same_calls request end saving undeletable no_delete prints watcher_starts 1 0

-- Two requests: the first is admitted, the second waits and is cancelled; then the first is closed by
-- a `close_session` that had read `QUEUED`, while its driver runs.
abbrev nobody : ℕ → Session
nobody a = fresh_session request none 0

abbrev s0 : System
s0 = fresh_system nobody 5 none

abbrev s1 : System
s1 = after_start (admission (fresh_session request none 0) s0.mgr) s0

abbrev s2 : System
s2 = after_start (admission (fresh_session request none 1) s1.mgr) s1

abbrev s3 : System
s3 = at_stage 0 arming (put_session 0 (begin 2 (session_at s2 0)) s2)

abbrev s4 : System
s4 = at_stage 0 driving (put_session 0 (arm_timer (session_at s3 0)) s3)

abbrev s5 : System
s5 = record s4 { mgr = (cancel_pending 1 s4.mgr).1 }

two_wait : (s2.mgr.active ≡ some 0) × (s2.mgr.pending ≡ 1 ∷ [])
unfolding check_caps
two_wait = (refl, refl)

to_s4 : Reach prints s0 s4
unfolding check_caps
to_s4 =
    next (next (next (next here (starts request none 0)) (starts request none 1)) (admits 0 2 refl))
      (arms 0 refl)

to_s5 : Reach prints s0 s5
to_s5 = next to_s4 (cancels 1)

cancelled_in_queue : ((session_at s5 1).status ≡ cancelled) × (s5.mgr.pending ≡ [])
unfolding check_caps advance
cancelled_in_queue = (refl, refl)

Reach-IsSound_example : IsSound s5
Reach-IsSound_example = Reach-IsSound prints to_s5 (fresh_system-IsSound nobody 5 none)

Reach-single_flight_example : ◌≡◌ {A = ℕ} 0 0
Reach-single_flight_example = Reach-single_flight prints nobody 5 none s4 to_s4 0 0 refl refl

-- A `close_session` of the cancelled session, and the mark that comes too late.
abbrev closing : ℕ → System → System
closing a s = record s {
  mgr = drop_queued a s.mgr;
  to_close = λ b. if b == a then true else s.to_close b;
}

abbrev closed_after : ℕ → System → System
closed_after a s = put_session a (mark_closed (session_at s a)) s

one_is_ended : is_ended (session_at s5 1) ≡ true
unfolding check_caps advance
one_is_ended = refl

late_close : Reach prints s5 (closed_after 1 (closing 1 s5))
unfolding check_caps
late_close = next (next here (drops 1 (omega arith))) (closes 1 refl)

one_is_given : 1 < s5.mgr.count
unfolding check_caps
one_is_given = omega arith

Reach-ends_once_example : SameEnd (session_at s5 1) (session_at (closed_after 1 (closing 1 s5)) 1)
Reach-ends_once_example = Reach-ends_once prints 1 late_close one_is_given one_is_ended

Reach-wait_answer_example :
    ((q : AuthorizationResult) × ((session_at s5 1).status ≡ succeeded)
      × (wait_answer (session_at s5 1) ≡ ok q))
    ⊎ ((e : Error) × ((session_at s5 1).status ≢ succeeded)
        × ((session_at s5 1).terminal_exception ≡ some e)
        × (wait_answer (session_at s5 1) ≡ err e))
Reach-wait_answer_example =
    Reach-wait_answer prints nobody 5 none s5 to_s5 1 one_is_given one_is_ended

-- A `close_session` that read `QUEUED` before its session was admitted marks it closed while its driver
-- runs.
closed_while_driving :
    ((session_at (closed_after 0 (closing 0 s4)) 0).status ≡ closed)
    × ((closed_after 0 (closing 0 s4)).stage 0 ≡ driving)
unfolding check_caps advance
closed_while_driving = (refl, refl)

to_closed_while_driving : Reach prints s0 (closed_after 0 (closing 0 s4))
unfolding check_caps
to_closed_while_driving = next (next to_s4 (drops 0 (omega arith))) (closes 0 refl)
