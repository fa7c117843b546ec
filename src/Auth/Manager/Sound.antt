-- ===== src/Auth/Manager/Sound.antt =====
-- authorization/manager.py: the invariant of the queue, over every interleaving.
use rclone_kit.Base.{ℕ, ◌≡◌, inl, inr, true, Option, arith, String, Error}
use rclone_kit.Auth.Session.{Session, fresh_session}
use rclone_kit.Auth.Manager.Threads.{
  System, Step, starts, admits, arms, watches, relays, cancels, asks_to_cancel, drops, closes,
  fires, asks_to_expire, expires_queued, settles, hands_over, goes_on, also_promotes, Reach, here,
  next,
}
use rclone_kit.Auth.Manager.Queue.{is_at_unique}
use rclone_kit.Auth.Manager.Places.{
  View, view, is_running, Place, not_yet, waits, leaves, runs, settled, ended,
}
use rclone_kit.Auth.Manager.Steps.{Step-Moves}
use rclone_kit.Auth.Manager.Invariant.{IsMoving, IsSound, fresh_system, fresh_system-IsSound}
use rclone_kit.Auth.Manager.Bounded.{
  Queue, IsSound-Queue, remove-Queue, starts-Queue, promoted-Queue, cancel_pending-Queue,
  timed_out-Queue,
}
use rclone_kit.Auth.Manager.Moving.{
  remove-IsMoving, starts-IsMoving, cancel_pending-IsMoving, timed_out-IsMoving, turn-IsMoving,
  promoted-IsMoving,
}

module _ (str_of : Error → String) where
  Step-Queue : {s s' : System} → IsSound s → Step str_of s s' → Queue s'.mgr
  Step-Queue {s} i (starts r owner now) = starts-Queue s (fresh_session r owner now) i
  Step-Queue {s} i (cancels a) = cancel_pending-Queue s a i
  Step-Queue {s} i (drops a h) = remove-Queue a s.mgr (IsSound-Queue s i)
  Step-Queue {s} i (fires a g h) = timed_out-Queue s a g i
  Step-Queue {s} i (goes_on h) = promoted-Queue s i
  Step-Queue {s} i also_promotes = promoted-Queue s i
  Step-Queue {s} i (admits a now h) = IsSound-Queue s i
  Step-Queue {s} i (arms a h) = IsSound-Queue s i
  Step-Queue {s} i (watches a u v w h) = IsSound-Queue s i
  Step-Queue {s} i (relays a) = IsSound-Queue s i
  Step-Queue {s} i (asks_to_cancel a) = IsSound-Queue s i
  Step-Queue {s} i (closes a h) = IsSound-Queue s i
  Step-Queue {s} i (asks_to_expire a) = IsSound-Queue s i
  Step-Queue {s} i (expires_queued a h) = IsSound-Queue s i
  Step-Queue {s} i (settles a x y out built h) = IsSound-Queue s i
  Step-Queue {s} i (hands_over a h) = IsSound-Queue s i

  Step-IsMoving : {s s' : System} → Step str_of s s' → IsMoving s → IsMoving s'
  Step-IsMoving {s} (starts r owner now) i = starts-IsMoving s (fresh_session r owner now) i
  Step-IsMoving {s} (cancels a) i = cancel_pending-IsMoving s a i
  Step-IsMoving {s} (drops a h) i = remove-IsMoving s a i
  Step-IsMoving {s} (fires a g h) i = timed_out-IsMoving s a g i
  Step-IsMoving {s} (goes_on h) i = turn-IsMoving s h
  Step-IsMoving {s} also_promotes i = promoted-IsMoving s i
  Step-IsMoving {s} (hands_over a h) i = inr (inr (omega arith))
  Step-IsMoving {s} (admits a now h) i = i
  Step-IsMoving {s} (arms a h) i = i
  Step-IsMoving {s} (watches a u v w h) i = i
  Step-IsMoving {s} (relays a) i = i
  Step-IsMoving {s} (asks_to_cancel a) i = i
  Step-IsMoving {s} (closes a h) i = i
  Step-IsMoving {s} (asks_to_expire a) i = i
  Step-IsMoving {s} (expires_queued a h) i = i
  Step-IsMoving {s} (settles a x y out built h) i = i

  Step-IsSound : {s s' : System} → IsSound s → Step str_of s s' → IsSound s'
  Step-IsSound i st =
      let q = Step-Queue i st in
      record {
        places = λ b. Step-Moves str_of i.places i.distinct st b (i.places b);
        distinct = q.distinct;
        bounded = q.bounded;
        moving = Step-IsMoving st i.moving;
      }

  -- The queue is sound after any run, if it was before (as it is in a new manager): whatever callers,
  -- timers, drivers and watchers do, in any order, and whatever rclone answers. Every session is in
  -- one of six places. It has not been given out; or it is `QUEUED` in the queue, and no thread
  -- works on it; or it was taken out of the queue and a thread is about to mark it closed or
  -- expired; or it is the active one, out of the queue, and its threads run; or it is the active one
  -- and has ended, and its driver is about to give up the turn; or it has ended. No address is in
  -- the queue twice, and the queue is no longer than its cap. If someone waits, then a session is
  -- active or a settled driver's `_promote_next` has not returned.
  pub Reach-IsSound : {s s' : System} → Reach str_of s s' → IsSound s → IsSound s'
  Reach-IsSound here i = i
  Reach-IsSound (next r st) i = Step-IsSound (Reach-IsSound r i) st

running_is_active : (v : View) → is_running v.stage ≡ true → Place v → v.is_active ≡ true
running_is_active v h (not_yet a b c d e) = absurd (ground arith)
running_is_active v h (waits a b c d e f) = absurd (ground arith)
running_is_active v h (leaves a b c d e) = absurd (ground arith)
running_is_active v h (runs a b c d) = c
running_is_active v h (settled a b c d e) = c
running_is_active v h (ended a (inl b) c d e) = absurd (ground arith)
running_is_active v h (ended a (inr b) c d e) = absurd (ground arith)

-- Single flight: after any run of a manager that began empty, at most one session has been admitted
-- and is not settled by its driver.
pub Reach-single_flight :
    (str_of : Error → String) (heap : ℕ → Session) (pending_cap : ℕ) (per_owner_cap : Option ℕ)
    (s : System)
    → Reach str_of (fresh_system heap pending_cap per_owner_cap) s
    → (a b : ℕ) → is_running (s.stage a) ≡ true
    → is_running (s.stage b) ≡ true
    → a ≡ b
Reach-single_flight str_of heap pending_cap per_owner_cap s r a b run_a run_b =
    let i = Reach-IsSound str_of r (fresh_system-IsSound heap pending_cap per_owner_cap) in
    is_at_unique s.mgr.active a b (running_is_active (view s a) run_a (i.places a))
      (running_is_active (view s b) run_b (i.places b))
