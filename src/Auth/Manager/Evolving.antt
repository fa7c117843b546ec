-- ===== src/Auth/Manager/Evolving.antt =====
-- authorization/manager.py: what each step does to the record of a session.
use rclone_kit.Base.{
  ℕ, ◌<◌, refl, Bool, true, false, ◌||◌, not, Option, none, some, List, [], ◌∷◌, arith, ◌==◌, ne→==,
  member, String, Error, Result, ok, err,
}
use rclone_kit.Auth.{waiting_for_user}
use rclone_kit.Auth.Session.{
  Session, fresh_session, is_ended, advance, mark_expired, mark_closed, mark_cancelled,
  settle_driven,
}
use rclone_kit.Auth.Session.Ends.{
  Evolves, Evolves-refl, same-Evolves, mark_closed-Evolves, mark_expired-Evolves,
  mark_cancelled-Evolves, settle_driven-Evolves,
}
use rclone_kit.Auth.Manager.{
  is_at, begin, arm_timer, relay_callback, cancel_active, expire_active, check_caps, queue_behind,
  admission_by, admission, cancel_by, cancel_pending, deadline_by, on_deadline, promote_by,
  take_or_skip, promote_next,
}
use rclone_kit.Auth.Manager.Threads.{
  System, session_at, put_session, after_start, promoted, timed_out, Step, starts, admits, arms,
  watches, relays, cancels, asks_to_cancel, drops, closes, fires, asks_to_expire, expires_queued,
  settles, hands_over, goes_on, also_promotes,
}
use rclone_kit.Auth.Manager.Queue.{by_address, eq_self}
use rclone_kit.Auth.Manager.Steps.{
  cancel_active-Evolves, expire_active-Evolves, begin-Evolves, relay_callback-Evolves,
  watch-Evolves,
}

-- What a section does to the session at `b`.
abbrev pub EvolvesAt : ℕ → System → System → Type 0
EvolvesAt b s s' = Evolves (session_at s b) (session_at s' b)

pub put-EvolvesAt :
    (s : System) (a : ℕ) (t : Session) (b : ℕ)
    → Evolves (session_at s a) t
    → EvolvesAt b s (put_session a t s)
put-EvolvesAt s a t b e =
    by_address a b (λ x. EvolvesAt x s (put_session a t s)) (rw (eq_self a) e)
      (λ h. rw h (Evolves-refl (session_at s b)))

-- A write at the next address is not a write of a session that was given out.
fresh-EvolvesAt :
    (s : System) (t : Session) (b : ℕ)
    → b < s.mgr.count
    → EvolvesAt b s (put_session s.mgr.count t s)
fresh-EvolvesAt s t b given = rw (ne→== b s.mgr.count (omega arith)) (Evolves-refl (session_at s b))

starts-EvolvesAt :
    (s : System) (t : Session) (b : ℕ)
    → b < s.mgr.count
    → EvolvesAt b s (after_start (admission t s.mgr) s)
starts-EvolvesAt s t b given = by_active s.mgr.active
  where
    by_caps : (r : Result (Unit {0})) → EvolvesAt b s (after_start (queue_behind t s.mgr r) s)
    by_caps (err e) = Evolves-refl (session_at s b)
    by_caps (ok _) = fresh-EvolvesAt s (arm_timer t) b given

    by_active : (o : Option ℕ) → EvolvesAt b s (after_start (admission_by o t s.mgr) s)
    by_active none = fresh-EvolvesAt s t b given
    by_active (some a) = by_caps (check_caps t a s.mgr)

cancel_pending-EvolvesAt :
    (s : System) (a b : ℕ) → EvolvesAt b s (record s { mgr = (cancel_pending a s.mgr).1 })
cancel_pending-EvolvesAt s a b = by_test (member a s.mgr.pending)
  where
    by_test : (x : Bool) → EvolvesAt b s (record s { mgr = (cancel_by x a s.mgr).1 })
    by_test true =
        put-EvolvesAt s a (mark_cancelled (session_at s a)) b
          (mark_cancelled-Evolves (session_at s a))
    by_test false = Evolves-refl (session_at s b)

timed_out-EvolvesAt :
    (s : System) (a g b : ℕ) → EvolvesAt b s (timed_out a (on_deadline a g s.mgr) s)
timed_out-EvolvesAt s a g b =
    by_test (is_ended (session_at s a) || not (g == (session_at s a).generation))
      (is_at s.mgr.active a)
  where
    by_test : (x y : Bool) → EvolvesAt b s (timed_out a (deadline_by x y a s.mgr) s)
    by_test true y = Evolves-refl (session_at s b)
    by_test false true = Evolves-refl (session_at s b)
    by_test false false = Evolves-refl (session_at s b)

promoted-EvolvesAt : (s : System) (b : ℕ) → EvolvesAt b s (promoted (promote_next s.mgr) s)
promoted-EvolvesAt s b = by_queue s.mgr.active s.mgr.pending
  where
    by_test :
        (x : Bool) (a : ℕ) (rest : List ℕ)
        → EvolvesAt b s (promoted (take_or_skip x a rest s.mgr) s)
    by_test true a rest = Evolves-refl (session_at s b)
    by_test false a rest = Evolves-refl (session_at s b)

    by_queue :
        (o : Option ℕ) (queue : List ℕ) → EvolvesAt b s (promoted (promote_by o queue s.mgr) s)
    by_queue (some a) queue = Evolves-refl (session_at s b)
    by_queue none [] = Evolves-refl (session_at s b)
    by_queue none (a ∷ rest) = by_test (is_ended (session_at s a)) a rest

module _ (str_of : Error → String) where
  pub Step-EvolvesAt :
      {s s' : System} (b : ℕ) → b < s.mgr.count → Step str_of s s' → EvolvesAt b s s'
  Step-EvolvesAt {s} b lt (starts r owner now) = starts-EvolvesAt s (fresh_session r owner now) b lt
  Step-EvolvesAt {s} b lt (admits a now h) =
      put-EvolvesAt s a (begin now (session_at s a)) b (begin-Evolves now (session_at s a))
  Step-EvolvesAt {s} b lt (arms a h) =
      put-EvolvesAt s a (arm_timer (session_at s a)) b
        (same-Evolves (session_at s a) (arm_timer (session_at s a)) refl refl refl)
  Step-EvolvesAt {s} b lt (watches a u v w h) =
      put-EvolvesAt s a
        (advance waiting_for_user
          (λ t. record t {
            authorization_url = some u;
            private_base_url = some v;
            oauth_state = some w;
          })
          (session_at s a))
        b (watch-Evolves u v w (session_at s a))
  Step-EvolvesAt {s} b lt (relays a) =
      put-EvolvesAt s a (relay_callback (session_at s a)) b
        (relay_callback-Evolves (session_at s a))
  Step-EvolvesAt {s} b lt (cancels a) = cancel_pending-EvolvesAt s a b
  Step-EvolvesAt {s} b lt (asks_to_cancel a) =
      put-EvolvesAt s a (cancel_active (session_at s a)) b (cancel_active-Evolves (session_at s a))
  Step-EvolvesAt {s} b lt (drops a h) = Evolves-refl (session_at s b)
  Step-EvolvesAt {s} b lt (closes a h) =
      put-EvolvesAt s a (mark_closed (session_at s a)) b (mark_closed-Evolves (session_at s a))
  Step-EvolvesAt {s} b lt (fires a g h) = timed_out-EvolvesAt s a g b
  Step-EvolvesAt {s} b lt (asks_to_expire a) =
      put-EvolvesAt s a (expire_active (session_at s a)) b (expire_active-Evolves (session_at s a))
  Step-EvolvesAt {s} b lt (expires_queued a h) =
      put-EvolvesAt s a (mark_expired (session_at s a)) b (mark_expired-Evolves (session_at s a))
  Step-EvolvesAt {s} b lt (settles a x y out built h) =
      put-EvolvesAt s a (settle_driven str_of x y out built (session_at s a)) b
        (settle_driven-Evolves str_of x y out built (session_at s a))
  Step-EvolvesAt {s} b lt (hands_over a h) = Evolves-refl (session_at s b)
  Step-EvolvesAt {s} b lt (goes_on h) = promoted-EvolvesAt s b
  Step-EvolvesAt {s} b lt also_promotes = promoted-EvolvesAt s b
