-- ===== src/Auth/Manager/Threads.antt =====
-- authorization/manager.py and session.py: every interleaving of the sections that callers, timers,
-- drivers and watchers run.
use rclone_kit.Base.{
  ℕ, ◌+◌, ◌-◌, ◌<◌, ◌≡◌, String, Bool, true, false, Option, some, Error, Result, ok, err, ◌==◌,
  if◌then◌else◌,
}
use rclone_kit.Auth.{waiting_for_user, AuthorizationRequest, AuthorizationResult}
use rclone_kit.Auth.Session.{
  Session, fresh_session, advance, mark_expired, mark_closed, settle_driven,
}
use rclone_kit.Auth.Manager.{
  Manager, write, arm_timer, admission, begin, Promotion, returns, skips, promotes, promote_next,
  release, Deadline, stale, stops, expires, on_deadline, expire_active, cancel_active,
  cancel_pending, drop_queued, relay_callback,
}

-- Where the threads that carry out a session stand: not begun; `_admit` before its first and its second
-- section; the driver thread in `drive`, and after it settled; all over.
pub data Stage : Type 0 where
  unstarted admitting arming driving finishing gone : Stage

-- The manager, with the threads: the stage of each session; which sessions some `close_session`, and
-- which some `_on_deadline`, has yet to mark; and how many calls of `_promote_next` made by
-- `_on_settled` have not returned.
pub record System : Type 0 where
  pub mgr : Manager
  pub stage : ℕ → Stage
  pub to_close : ℕ → Bool
  pub to_expire : ℕ → Bool
  pub promoting : ℕ

abbrev pub at_stage : ℕ → Stage → System → System
at_stage a g s = record s { stage = λ b. if b == a then g else s.stage b }

-- A write of one session.
abbrev pub put_session : ℕ → Session → System → System
put_session a t s = record s { mgr = write a t s.mgr }

abbrev pub session_at : System → ℕ → Session
session_at s a = s.mgr.heap a

abbrev pub after_start : Result Bool × Manager → System → System
after_start (ok true, m) s = at_stage s.mgr.count admitting (record s { mgr = m })
after_start (ok false, m) s = record s { mgr = m }
after_start (err _, m) s = record s { mgr = m }

-- A turn of `_promote_next`, by the thread of a driver or by another one.
abbrev pub promoted : Promotion × Manager → System → System
promoted (promotes a, m) s = at_stage a admitting (record s { mgr = m })
promoted (returns, m) s = record s { mgr = m }
promoted (skips, m) s = record s { mgr = m }

abbrev pub over : Promotion → ℕ → ℕ
over skips n = n
over returns n = n - 1
over (promotes _) n = n - 1

abbrev pub timed_out : ℕ → Deadline × Manager → System → System
timed_out a (expires, m) s = record s {
  mgr = m;
  to_expire = λ b. if b == a then true else s.to_expire b;
}
timed_out a (stops, m) s = record s { mgr = m }
timed_out a (stale, m) s = record s { mgr = m }

module _ (str_of : Error → String) where
  -- A timer that was cancelled may still fire; a `close_session` may have read the status long before;
  -- what rclone answers is arbitrary.
  pub data Step (s : System) : System → Type 0 where
    starts :
        (r : AuthorizationRequest) (owner : Option String) (now : ℕ)
        → Step s (after_start (admission (fresh_session r owner now) s.mgr) s)
    admits :
        (a now : ℕ)
        → s.stage a ≡ admitting
        → Step s (at_stage a arming (put_session a (begin now (session_at s a)) s))
    arms :
        (a : ℕ)
        → s.stage a ≡ arming
        → Step s (at_stage a driving (put_session a (arm_timer (session_at s a)) s))
    watches :
        (a : ℕ) (public_url private_base_url oauth_state : String)
        → s.stage a ≡ driving
        → Step s (
            put_session a
              (advance waiting_for_user
                (λ t. record t {
                  authorization_url = some public_url;
                  private_base_url = some private_base_url;
                  oauth_state = some oauth_state;
                })
                (session_at s a))
              s)
    relays : (a : ℕ) → Step s (put_session a (relay_callback (session_at s a)) s)
    cancels : (a : ℕ) → Step s (record s { mgr = (cancel_pending a s.mgr).1 })
    asks_to_cancel : (a : ℕ) → Step s (put_session a (cancel_active (session_at s a)) s)
    drops :
        (a : ℕ)
        → a < s.mgr.count
        → Step s (record s {
          mgr = drop_queued a s.mgr;
          to_close = λ b. if b == a then true else s.to_close b;
        })
    closes : (a : ℕ) → s.to_close a ≡ true → Step s (put_session a (mark_closed (session_at s a)) s)
    fires :
        (a generation : ℕ)
        → a < s.mgr.count
        → Step s (timed_out a (on_deadline a generation s.mgr) s)
    asks_to_expire : (a : ℕ) → Step s (put_session a (expire_active (session_at s a)) s)
    expires_queued :
        (a : ℕ) → s.to_expire a ≡ true → Step s (put_session a (mark_expired (session_at s a)) s)
    settles :
        (a : ℕ) (was_expired was_cancelled : Bool) (out : Result (Unit {0}))
        (built : Result AuthorizationResult)
        → s.stage a ≡ driving
        → Step s (
            at_stage a finishing (
              put_session a
                (settle_driven str_of was_expired was_cancelled out built (session_at s a))
                s))
    hands_over :
        (a : ℕ)
        → s.stage a ≡ finishing
        → Step s (at_stage a gone (record s { mgr = release a s.mgr; promoting = s.promoting + 1 }))
    goes_on :
        0 < s.promoting
        → Step s (record (promoted (promote_next s.mgr) s) {
          promoting = over (promote_next s.mgr).0 s.promoting;
        })
    also_promotes : Step s (promoted (promote_next s.mgr) s)

  pub data Reach (s : System) : System → Type 0 where
    here : Reach s s
    next : {t u : System} → Reach s t → Step t u → Reach s u
