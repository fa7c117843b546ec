-- ===== src/Auth/Manager/Bounded.antt =====
-- authorization/manager.py: the queue holds each address once, and no more than its cap.
use mathlib.Core.Path.{subst}
use rclone_kit.Base.{
  ℕ, ◌<◌, ◌≤◌, ◌≡◌, refl, ap, Bool, true, false, not, ◌||◌, Option, none, some, List, [], ◌∷◌,
  arith, ◌==◌, member, length, leb, Error, Result, ok, err, >>=-eq-ok, raise_if, queue_full,
  length-append,
}
use rclone_kit.Auth.Session.{Session, is_ended}
use rclone_kit.Auth.Manager.{
  Manager, is_at, remove, check_caps, queue_behind, admission_by, admission, cancel_by,
  cancel_pending, deadline_by, on_deadline, promote_by, take_or_skip, promote_next,
}
use rclone_kit.Auth.Manager.Threads.{System, after_start, promoted, timed_out, session_at}
use rclone_kit.Auth.Manager.Queue.{Distinct, Distinct-remove, Distinct-snoc, length-remove}
use rclone_kit.Auth.Manager.Sections.{count-Fresh}
use rclone_kit.Auth.Manager.Invariant.{IsSound}

-- The queue: what the steps that change it must keep.
pub record IsQueue (pending : List ℕ) (cap : ℕ) : Type 0 where
  pub distinct : Distinct pending
  pub bounded : length pending ≤ cap

abbrev pub Queue : Manager → Type 0
Queue m = IsQueue m.pending m.pending_cap

pub IsSound-Queue : (s : System) → IsSound s → Queue s.mgr
IsSound-Queue s i = record { distinct = i.distinct; bounded = i.bounded }

pub remove-Queue :
    (a : ℕ) (m : Manager) → Queue m → Queue (record m { pending = remove a m.pending })
remove-Queue a m q = record {
  distinct = Distinct-remove a m.pending q.distinct;
  bounded = omega (arith, length-remove a m.pending, q.bounded);
}

raise_if-ok : (b : Bool) (e : Error) (v : Unit {0}) → raise_if b e ≡ ok v → b ≡ false
raise_if-ok true e v h = cc
raise_if-ok false e v h = refl

-- The checks passed: there is room.
caps_room :
    (t : Session) (a : ℕ) (m : Manager) (v : Unit {0})
    → check_caps t a m ≡ ok v
    → length m.pending < m.pending_cap
unfolding check_caps
caps_room t a m v h =
    let full = leb m.pending_cap (length m.pending) in
    let (u, e, _) =
      >>=-eq-ok (raise_if full (queue_full t.request.remote_name m.pending_cap)) _ h in
    ground (arith, raise_if-ok full (queue_full t.request.remote_name m.pending_cap) u e)

pub starts-Queue :
    (s : System) (t : Session) → IsSound s → Queue (after_start (admission t s.mgr) s).mgr
starts-Queue s t i = by_active s.mgr.active
  where
    by_caps :
        (a : ℕ) (r : Result (Unit {0}))
        → check_caps t a s.mgr ≡ r
        → Queue (after_start (queue_behind t s.mgr r) s).mgr
    by_caps a (err e) h = IsSound-Queue s i
    by_caps a (ok v) h = record {
      distinct =
          Distinct-snoc s.mgr.count s.mgr.pending i.distinct
            (count-Fresh s (i.places s.mgr.count)).not_pending;
      bounded =
          omega (arith, caps_room t a s.mgr v h, length-append s.mgr.pending (s.mgr.count ∷ []));
    }

    by_active : (o : Option ℕ) → Queue (after_start (admission_by o t s.mgr) s).mgr
    by_active none = IsSound-Queue s i
    by_active (some a) = by_caps a (check_caps t a s.mgr) refl

pub promoted-Queue : (s : System) → IsSound s → Queue (promoted (promote_next s.mgr) s).mgr
promoted-Queue s i = by_queue s.mgr.active s.mgr.pending refl
  where
    tail-Queue :
        (a : ℕ) (rest : List ℕ) (o : Option ℕ)
        → s.mgr.pending ≡ a ∷ rest
        → Queue (record s.mgr { pending = rest; active = o })
    tail-Queue a rest o h = record {
      distinct = (subst Distinct h i.distinct).1;
      bounded = omega (arith, ap length h, i.bounded);
    }

    by_test :
        (x : Bool) (a : ℕ) (rest : List ℕ)
        → s.mgr.pending ≡ a ∷ rest
        → Queue (promoted (take_or_skip x a rest s.mgr) s).mgr
    by_test true a rest h = tail-Queue a rest s.mgr.active h
    by_test false a rest h = tail-Queue a rest (some a) h

    by_queue :
        (o : Option ℕ) (queue : List ℕ)
        → s.mgr.pending ≡ queue
        → Queue (promoted (promote_by o queue s.mgr) s).mgr
    by_queue (some a) queue h = IsSound-Queue s i
    by_queue none [] h = IsSound-Queue s i
    by_queue none (a ∷ rest) h = by_test (is_ended (session_at s a)) a rest h

pub cancel_pending-Queue : (s : System) (a : ℕ) → IsSound s → Queue (cancel_pending a s.mgr).1
cancel_pending-Queue s a i = by_test (member a s.mgr.pending)
  where
    by_test : (x : Bool) → Queue (cancel_by x a s.mgr).1
    by_test true = record {
      distinct = Distinct-remove a s.mgr.pending i.distinct;
      bounded = omega (arith, length-remove a s.mgr.pending, i.bounded);
    }
    by_test false = IsSound-Queue s i

pub timed_out-Queue :
    (s : System) (a g : ℕ) → IsSound s → Queue (timed_out a (on_deadline a g s.mgr) s).mgr
timed_out-Queue s a g i =
    by_test (is_ended (session_at s a) || not (g == (session_at s a).generation))
      (is_at s.mgr.active a)
  where
    by_test : (x y : Bool) → Queue (timed_out a (deadline_by x y a s.mgr) s).mgr
    by_test true y = IsSound-Queue s i
    by_test false true = IsSound-Queue s i
    by_test false false = remove-Queue a s.mgr (IsSound-Queue s i)
