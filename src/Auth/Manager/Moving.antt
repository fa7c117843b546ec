-- ===== src/Auth/Manager/Moving.antt =====
-- authorization/manager.py: whoever waits in the queue gets a turn.
use rclone_kit.Base.{
  ℕ, ◌<◌, ◌≡◌, refl, ap, inl, inr, Bool, true, false, not, ◌||◌, Option, none, some, List, [], ◌∷◌,
  ◌==◌, member, Result, ok, err,
}
use rclone_kit.Auth.Session.{Session, is_ended}
use rclone_kit.Auth.Manager.{
  Manager, is_at, remove, Promotion, check_caps, queue_behind, admission_by, admission, cancel_by,
  cancel_pending, deadline_by, on_deadline, promote_by, take_or_skip, promote_next,
}
use rclone_kit.Auth.Manager.Threads.{System, after_start, promoted, over, timed_out, session_at}
use rclone_kit.Auth.Manager.Invariant.{IsMoving}

-- Taking one out of the queue.
pub remove-IsMoving :
    (s : System) (a : ℕ)
    → IsMoving s
    → IsMoving (record s { mgr = record s.mgr { pending = remove a s.mgr.pending } })
remove-IsMoving s a (inl h) = inl (ap (remove a) h)
remove-IsMoving s a (inr h) = inr h

pub starts-IsMoving :
    (s : System) (t : Session) → IsMoving s → IsMoving (after_start (admission t s.mgr) s)
starts-IsMoving s t i = by_active s.mgr.active refl
  where
    by_caps :
        (a : ℕ) (r : Result (Unit {0}))
        → s.mgr.active ≡ some a
        → IsMoving (after_start (queue_behind t s.mgr r) s)
    by_caps a (err e) h = i
    by_caps a (ok v) h = inr (inl (a, h))

    by_active :
        (o : Option ℕ) → s.mgr.active ≡ o → IsMoving (after_start (admission_by o t s.mgr) s)
    by_active none h = inr (inl (s.mgr.count, refl))
    by_active (some a) h = by_caps a (check_caps t a s.mgr) h

pub cancel_pending-IsMoving :
    (s : System) (a : ℕ) → IsMoving s → IsMoving (record s { mgr = (cancel_pending a s.mgr).1 })
cancel_pending-IsMoving s a i = by_test (member a s.mgr.pending)
  where
    by_test : (x : Bool) → IsMoving (record s { mgr = (cancel_by x a s.mgr).1 })
    by_test true = remove-IsMoving s a i
    by_test false = i

pub timed_out-IsMoving :
    (s : System) (a g : ℕ) → IsMoving s → IsMoving (timed_out a (on_deadline a g s.mgr) s)
timed_out-IsMoving s a g i =
    by_test (is_ended (session_at s a) || not (g == (session_at s a).generation))
      (is_at s.mgr.active a)
  where
    by_test : (x y : Bool) → IsMoving (timed_out a (deadline_by x y a s.mgr) s)
    by_test true y = i
    by_test false true = i
    by_test false false = remove-IsMoving s a i

-- A turn of `_promote_next`: it leaves the loop only where nobody waits or a session is active.
abbrev pub turn : Promotion × Manager → System → System
turn out s = record (promoted out s) { promoting = over out.0 s.promoting }

pub turn-IsMoving : (s : System) → 0 < s.promoting → IsMoving (turn (promote_next s.mgr) s)
turn-IsMoving s p = by_queue s.mgr.active s.mgr.pending refl refl
  where
    by_test : (x : Bool) (a : ℕ) (rest : List ℕ) → IsMoving (turn (take_or_skip x a rest s.mgr) s)
    by_test true a rest = inr (inr p)
    by_test false a rest = inr (inl (a, refl))

    by_queue :
        (o : Option ℕ) (queue : List ℕ)
        → s.mgr.active ≡ o
        → s.mgr.pending ≡ queue
        → IsMoving (turn (promote_by o queue s.mgr) s)
    by_queue (some a) queue h k = inr (inl (a, h))
    by_queue none [] h k = inl k
    by_queue none (a ∷ rest) h k = by_test (is_ended (session_at s a)) a rest

pub promoted-IsMoving : (s : System) → IsMoving s → IsMoving (promoted (promote_next s.mgr) s)
promoted-IsMoving s i = by_queue s.mgr.active s.mgr.pending refl refl
  where
    still :
        (a : ℕ) (rest : List ℕ)
        → s.mgr.active ≡ none
        → s.mgr.pending ≡ a ∷ rest
        → IsMoving s
        → 0 < s.promoting
    still a rest h k (inl e) = absurd (cc)
    still a rest h k (inr (inl (b, e))) = absurd (cc)
    still a rest h k (inr (inr p)) = p

    by_test :
        (x : Bool) (a : ℕ) (rest : List ℕ)
        → s.mgr.active ≡ none
        → s.mgr.pending ≡ a ∷ rest
        → IsMoving (promoted (take_or_skip x a rest s.mgr) s)
    by_test true a rest h k = inr (inr (still a rest h k i))
    by_test false a rest h k = inr (inl (a, refl))

    by_queue :
        (o : Option ℕ) (queue : List ℕ)
        → s.mgr.active ≡ o
        → s.mgr.pending ≡ queue
        → IsMoving (promoted (promote_by o queue s.mgr) s)
    by_queue (some a) queue h k = i
    by_queue none [] h k = i
    by_queue none (a ∷ rest) h k = by_test (is_ended (session_at s a)) a rest h k
