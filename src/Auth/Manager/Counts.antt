-- ===== src/Auth/Manager/Counts.antt =====
-- authorization/manager.py: how many sessions are given out.
use mathlib.Core.Path.{subst}
use rclone_kit.Base.{
  ℕ, ◌≤◌, ◌≡◌, refl, sym, ◌⊎◌, inl, inr, Bool, true, false, ◌||◌, not, Option, none, some, List, [],
  ◌∷◌, arith, ◌==◌, member, String, Error, Result, ok, err,
}
use rclone_kit.Auth.{AuthorizationRequest}
use rclone_kit.Auth.Session.{Session, fresh_session, is_ended}
use rclone_kit.Auth.Manager.{
  is_at, check_caps, queue_behind, admission_by, admission, cancel_by, cancel_pending, deadline_by,
  on_deadline, promote_by, take_or_skip, promote_next,
}
use rclone_kit.Auth.Manager.Threads.{
  System, session_at, after_start, promoted, timed_out, Step, starts, admits, arms, watches, relays,
  cancels, asks_to_cancel, drops, closes, fires, asks_to_expire, expires_queued, settles,
  hands_over, goes_on, also_promotes,
}

-- How many addresses are given out.
cancel_pending-count : (s : System) (a : ℕ) → (cancel_pending a s.mgr).1.count ≡ s.mgr.count
cancel_pending-count s a = by_test (member a s.mgr.pending)
  where
    by_test : (x : Bool) → (cancel_by x a s.mgr).1.count ≡ s.mgr.count
    by_test true = refl
    by_test false = refl

timed_out-count :
    (s : System) (a g : ℕ) → (timed_out a (on_deadline a g s.mgr) s).mgr.count ≡ s.mgr.count
timed_out-count s a g =
    by_test (is_ended (session_at s a) || not (g == (session_at s a).generation))
      (is_at s.mgr.active a)
  where
    by_test : (x y : Bool) → (timed_out a (deadline_by x y a s.mgr) s).mgr.count ≡ s.mgr.count
    by_test true y = refl
    by_test false true = refl
    by_test false false = refl

promoted-count : (s : System) → (promoted (promote_next s.mgr) s).mgr.count ≡ s.mgr.count
promoted-count s = by_queue s.mgr.active s.mgr.pending
  where
    by_test :
        (x : Bool) (a : ℕ) (rest : List ℕ)
        → (promoted (take_or_skip x a rest s.mgr) s).mgr.count ≡ s.mgr.count
    by_test true a rest = refl
    by_test false a rest = refl

    by_queue :
        (o : Option ℕ) (queue : List ℕ)
        → (promoted (promote_by o queue s.mgr) s).mgr.count ≡ s.mgr.count
    by_queue (some a) queue = refl
    by_queue none [] = refl
    by_queue none (a ∷ rest) = by_test (is_ended (session_at s a)) a rest

starts-count :
    (s : System) (t : Session) → s.mgr.count ≤ (after_start (admission t s.mgr) s).mgr.count
starts-count s t = by_active s.mgr.active
  where
    by_caps :
        (r : Result (Unit {0})) → s.mgr.count ≤ (after_start (queue_behind t s.mgr r) s).mgr.count
    by_caps (err e) = omega arith
    by_caps (ok _) = omega arith

    by_active : (o : Option ℕ) → s.mgr.count ≤ (after_start (admission_by o t s.mgr) s).mgr.count
    by_active none = omega arith
    by_active (some a) = by_caps (check_caps t a s.mgr)

module _ (str_of : Error → String) where
  -- No step but `starts` gives out an address.
  pub Step-same_count :
      {s s' : System}
      → Step str_of s s'
      → ((r : AuthorizationRequest) × (owner : Option String) × (now : ℕ) × (s'
            ≡ after_start (admission (fresh_session r owner now) s.mgr) s))
        ⊎ (s'.mgr.count ≡ s.mgr.count)
  Step-same_count {s} (starts r owner now) = inl (r, owner, now, refl)
  Step-same_count {s} (admits a now h) = inr refl
  Step-same_count {s} (arms a h) = inr refl
  Step-same_count {s} (watches a u v w h) = inr refl
  Step-same_count {s} (relays a) = inr refl
  Step-same_count {s} (cancels a) = inr (cancel_pending-count s a)
  Step-same_count {s} (asks_to_cancel a) = inr refl
  Step-same_count {s} (drops a h) = inr refl
  Step-same_count {s} (closes a h) = inr refl
  Step-same_count {s} (fires a g h) = inr (timed_out-count s a g)
  Step-same_count {s} (asks_to_expire a) = inr refl
  Step-same_count {s} (expires_queued a h) = inr refl
  Step-same_count {s} (settles a x y out built h) = inr refl
  Step-same_count {s} (hands_over a h) = inr refl
  Step-same_count {s} (goes_on h) = inr (promoted-count s)
  Step-same_count {s} also_promotes = inr (promoted-count s)

  pub Step-count : {s s' : System} → Step str_of s s' → s.mgr.count ≤ s'.mgr.count
  Step-count {s} st = elim (Step-same_count st) [
    | inl (r, owner, now, h) ↦
        subst (λ (x : System). s.mgr.count ≤ x.mgr.count) (sym h)
          (starts-count s (fresh_session r owner now))
    | inr h ↦ omega arith
  ]
