-- ===== src/Auth/Manager/Steps.antt =====
-- authorization/manager.py: what each step does to the places of the sessions, and to the record of one.
use rclone_kit.Base.{
  ℕ, ◌+◌, ◌≡◌, refl, ap, ◌∙◌, Bool, true, false, ◌||◌, Option, none, some, List, [], ◌∷◌, arith,
  member, if◌then◌else◌, String, Error,
}
use rclone_kit.Auth.{queued, starting, waiting_for_user, completing}
use rclone_kit.Auth.Session.{
  Session, fresh_session, is_ended, advance, mark_expired, mark_closed, settle_driven,
}
use rclone_kit.Auth.Session.Ends.{
  Evolves, Evolves-is_ended, Evolves-refl, if-Evolves, same-Evolves, advance_live-Evolves,
  mark_closed-Evolves, mark_expired-Evolves, settle_driven_ends,
}
use rclone_kit.Auth.Manager.{
  begin, arm_timer, relay_callback, can_relay, cancel_active, expire_active, promote_next,
  promote_by, take_or_skip,
}
use rclone_kit.Auth.Manager.Threads.{
  arming, driving, finishing, System, session_at, at_stage, put_session, Step, starts, admits, arms,
  watches, relays, cancels, asks_to_cancel, drops, closes, fires, asks_to_expire, expires_queued,
  settles, hands_over, goes_on, also_promotes, promoted,
}
use rclone_kit.Auth.Manager.Queue.{Distinct, by_address, eq_self}
use rclone_kit.Auth.Manager.Places.{
  View, view, is_running, Place, Moves, Moves-put_session, Moves-at_stage, pending-Waiting, finish,
}
use rclone_kit.Auth.Manager.Sections.{
  starts-Moves, take-Moves, drop_queued-Moves, on_deadline-Moves, cancel_pending-Moves,
  release-Moves,
}

-- The writes that change neither status nor end.
if_same-Evolves :
    (b : Bool) (s t : Session)
    → t.status ≡ s.status
    → t.terminal_result ≡ s.terminal_result
    → t.terminal_exception ≡ s.terminal_exception
    → Evolves s (if b then s else t)
if_same-Evolves true s t a r e = Evolves-refl s
if_same-Evolves false s t a r e = same-Evolves s t a r e

pub cancel_active-Evolves : (s : Session) → Evolves s (cancel_active s)
cancel_active-Evolves s =
    if_same-Evolves (is_ended s) s (record s { cancel_requested = true }) refl refl refl

pub expire_active-Evolves : (s : Session) → Evolves s (expire_active s)
expire_active-Evolves s =
    if_same-Evolves (is_ended s) s (record s { expire_requested = true }) refl refl refl

pub begin-Evolves : (now : ℕ) (s : Session) → Evolves s (begin now s)
begin-Evolves now s =
    advance_live-Evolves starting (λ t. record t { expires_at = now + s.request.expires_in }) s refl
      (λ t. record { status = refl; result = refl; exception = refl })

pub relay_callback-Evolves : (s : Session) → Evolves s (relay_callback s)
relay_callback-Evolves s =
    if-Evolves (can_relay s.status)
      (advance_live-Evolves completing (λ t. t) s refl
        (λ t. record { status = refl; result = refl; exception = refl }))
      (Evolves-refl s)

pub watch-Evolves :
    (u v w : String) (s : Session)
    → Evolves s (
        advance waiting_for_user
          (λ t. record t {
            authorization_url = some u;
            private_base_url = some v;
            oauth_state = some w;
          })
          s)
watch-Evolves u v w s =
    advance_live-Evolves waiting_for_user
      (λ t. record t {
        authorization_url = some u;
        private_base_url = some v;
        oauth_state = some w;
      })
      s refl (λ t. record { status = refl; result = refl; exception = refl })

cancel_active_status : (s : Session) → (cancel_active s).status ≡ s.status
cancel_active_status s = ground arith

expire_active_status : (s : Session) → (expire_active s).status ≡ s.status
expire_active_status s = ground arith

relay_callback_queued : (s : Session) → s.status ≡ queued → (relay_callback s).status ≡ s.status
relay_callback_queued s h = rw h refl

-- A session whose threads run is not in the queue.
running_not_pending :
    (v : View) → is_running v.stage ≡ true → Place v → v.is_pending ≡ true → false ≡ true
running_not_pending v r p h = ground (arith, (pending-Waiting v p h).stage, r)

owed_not_pending : (v : View) → v.is_owed ≡ true → Place v → v.is_pending ≡ true → false ≡ true
owed_not_pending v o p h = ground (arith, (pending-Waiting v p h).not_owed, o)

-- A write of a session whose threads run, and of one that is to be ended.
put_running-Moves :
    (s : System) (a : ℕ) (t : Session)
    → is_running (s.stage a) ≡ true
    → Evolves (session_at s a) t
    → Moves s (put_session a t s)
put_running-Moves s a t r e =
    Moves-put_session s a t (Evolves-is_ended (session_at s a) t e)
      (λ p h. absurd (cc (running_not_pending (view s a) r p h)))

put_owed-Moves :
    (s : System) (a : ℕ) (t : Session)
    → (s.to_close a || s.to_expire a) ≡ true
    → Evolves (session_at s a) t
    → Moves s (put_session a t s)
put_owed-Moves s a t o e =
    Moves-put_session s a t (Evolves-is_ended (session_at s a) t e)
      (λ p h. absurd (cc (owed_not_pending (view s a) o p h)))

-- The driver's thread settles its session.
finish-Moves :
    (s : System) (a : ℕ) (t : Session)
    → s.stage a ≡ driving
    → is_ended t ≡ true
    → Moves s (at_stage a finishing (put_session a t s))
finish-Moves s a t h end b =
    by_address a b
      (λ x. Place (view s x) → Place (view (at_stage a finishing (put_session a t s)) x))
      (λ p. rw (eq_self a) (finish (view s a) t.status (rw h refl) end p)) (λ e p. rw e p)

-- A turn of `_promote_next`.
promoted-Moves :
    (s : System)
    → ((b : ℕ) → Place (view s b))
    → Distinct s.mgr.pending
    → Moves s (promoted (promote_next s.mgr) s)
promoted-Moves s places d = by_queue s.mgr.active s.mgr.pending refl refl
  where
    by_test :
        (x : Bool) (a : ℕ) (rest : List ℕ)
        → s.mgr.active ≡ none
        → s.mgr.pending ≡ a ∷ rest
        → is_ended (session_at s a) ≡ x
        → Moves s (promoted (take_or_skip x a rest s.mgr) s)
    by_test true a rest h k e =
        let w = pending-Waiting (view s a) (places a) (ap (member a) k ∙ rw (eq_self a) refl) in
        absurd (ground (arith, w.status, e))
    by_test false a rest h k e = take-Moves s a rest h k d

    by_queue :
        (o : Option ℕ) (queue : List ℕ)
        → s.mgr.active ≡ o
        → s.mgr.pending ≡ queue
        → Moves s (promoted (promote_by o queue s.mgr) s)
    by_queue (some a) queue h k = λ b p. p
    by_queue none [] h k = λ b p. p
    by_queue none (a ∷ rest) h k = by_test (is_ended (session_at s a)) a rest h k refl

module _ (str_of : Error → String) where
  pub Step-Moves :
      {s s' : System}
      → ((b : ℕ) → Place (view s b))
      → Distinct s.mgr.pending
      → Step str_of s s'
      → Moves s s'
  Step-Moves {s} places d (starts r owner now) = starts-Moves s (fresh_session r owner now) refl
  Step-Moves {s} places d (admits a now h) = λ b p.
      Moves-at_stage (put_session a (begin now (session_at s a)) s) a arming (rw h refl) refl b (
        put_running-Moves s a (begin now (session_at s a)) (rw h refl)
          (begin-Evolves now (session_at s a)) b p)
  Step-Moves {s} places d (arms a h) = λ b p.
      Moves-at_stage (put_session a (arm_timer (session_at s a)) s) a driving (rw h refl) refl b (
        put_running-Moves s a (arm_timer (session_at s a)) (rw h refl)
          (same-Evolves (session_at s a) (arm_timer (session_at s a)) refl refl refl) b p)
  Step-Moves {s} places d (watches a u v w h) =
      put_running-Moves s a
        (advance waiting_for_user
          (λ t. record t {
            authorization_url = some u;
            private_base_url = some v;
            oauth_state = some w;
          })
          (session_at s a))
        (rw h refl) (watch-Evolves u v w (session_at s a))
  Step-Moves {s} places d (relays a) =
      Moves-put_session s a (relay_callback (session_at s a))
        (Evolves-is_ended (session_at s a) (relay_callback (session_at s a))
          (relay_callback-Evolves (session_at s a)))
        (λ p h. relay_callback_queued (session_at s a) (pending-Waiting (view s a) p h).status)
  Step-Moves {s} places d (cancels a) = cancel_pending-Moves s a d
  Step-Moves {s} places d (asks_to_cancel a) =
      Moves-put_session s a (cancel_active (session_at s a))
        (Evolves-is_ended (session_at s a) (cancel_active (session_at s a))
          (cancel_active-Evolves (session_at s a)))
        (λ p h. cancel_active_status (session_at s a))
  Step-Moves {s} places d (drops a h) = drop_queued-Moves s a h d
  Step-Moves {s} places d (closes a h) =
      put_owed-Moves s a (mark_closed (session_at s a)) (rw h refl)
        (mark_closed-Evolves (session_at s a))
  Step-Moves {s} places d (fires a g h) = on_deadline-Moves s a g h d
  Step-Moves {s} places d (asks_to_expire a) =
      Moves-put_session s a (expire_active (session_at s a))
        (Evolves-is_ended (session_at s a) (expire_active (session_at s a))
          (expire_active-Evolves (session_at s a)))
        (λ p h. expire_active_status (session_at s a))
  Step-Moves {s} places d (expires_queued a h) =
      put_owed-Moves s a (mark_expired (session_at s a)) (ground (arith, h))
        (mark_expired-Evolves (session_at s a))
  Step-Moves {s} places d (settles a x y out built h) =
      finish-Moves s a (settle_driven str_of x y out built (session_at s a)) h
        (settle_driven_ends str_of x y out built (session_at s a))
  Step-Moves {s} places d (hands_over a h) = release-Moves s a h (places a)
  Step-Moves {s} places d (goes_on h) = promoted-Moves s places d
  Step-Moves {s} places d also_promotes = promoted-Moves s places d
