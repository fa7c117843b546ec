-- ===== src/Auth/Manager/Outcome.antt =====
-- authorization/manager.py and session.py: how sessions end, over every interleaving.
use mathlib.Core.Path.{subst}
use rclone_kit.Base.{
  ℕ, ◌+◌, ◌<◌, ◌≤◌, ◌≡◌, refl, sym, ◌∙◌, ◌≢◌, ◌⊎◌, inl, inr, true, Option, none, some, arith,
  String, Error, Result, ok, err,
}
use rclone_kit.Auth.{succeeded, AuthorizationRequest, AuthorizationResult}
use rclone_kit.Auth.Session.{Session, fresh_session, is_ended, wait_answer}
use rclone_kit.Auth.Session.Ends.{SameEnd, SameEnd-refl, Shape, going_on, wait_answer-ended}
use rclone_kit.Auth.Manager.{arm_timer, check_caps, queue_behind, admission_by, admission}
use rclone_kit.Auth.Manager.Threads.{
  System, session_at, put_session, after_start, Step, Reach, here, next,
}
use rclone_kit.Auth.Manager.Invariant.{fresh_system}
use rclone_kit.Auth.Manager.Queue.{by_address, eq_self}
use rclone_kit.Auth.Manager.Evolving.{Step-EvolvesAt}
use rclone_kit.Auth.Manager.Counts.{Step-same_count, Step-count}

module _ (str_of : Error → String) where
  Reach-count : {s s' : System} → Reach str_of s s' → s.mgr.count ≤ s'.mgr.count
  Reach-count here = omega arith
  Reach-count (next r st) = omega (arith, Reach-count r, Step-count str_of st)

  -- A session ends once: the status, the result and the exception of a session that was given out and
  -- has ended never change afterwards, whatever callers, timers, drivers and watchers do, in any
  -- order.
  pub Reach-ends_once :
      {s s' : System} (b : ℕ)
      → Reach str_of s s'
      → b < s.mgr.count
      → is_ended (session_at s b) ≡ true
      → SameEnd (session_at s b) (session_at s' b)
  Reach-ends_once {s} b here lt h = SameEnd-refl (session_at s b)
  Reach-ends_once {s} b (next {t} r st) lt h =
      let before = Reach-ends_once b r lt h in
      let e = Step-EvolvesAt str_of b (omega (arith, Reach-count r)) st in
      let after = e.kept (rw before.status h) in
      record {
        status = after.status ∙ before.status;
        result = after.result ∙ before.result;
        exception = after.exception ∙ before.exception;
      }

-- The sessions that were given out are going on, or have ended well-formed.
abbrev AllShape : System → Type 0
AllShape s = (b : ℕ) → b < s.mgr.count → Shape (session_at s b)

fresh-Shape :
    (r : AuthorizationRequest) (owner : Option String) (now : ℕ) → Shape (fresh_session r owner now)
fresh-Shape r owner now = going_on refl refl refl

armed-Shape :
    (r : AuthorizationRequest) (owner : Option String) (now : ℕ)
    → Shape (arm_timer (fresh_session r owner now))
armed-Shape r owner now = going_on refl refl refl

given-Shape :
    (s : System) (t : Session)
    → Shape t
    → AllShape s
    → (b : ℕ) → b < s.mgr.count + 1
    → Shape (session_at (put_session s.mgr.count t s) b)
given-Shape s t p all b lt =
    by_address s.mgr.count b (λ x. Shape (session_at (put_session s.mgr.count t s) x))
      (rw (eq_self s.mgr.count) p) (λ h. rw h (all b (ground arith)))

starts-AllShape :
    (s : System) (r : AuthorizationRequest) (owner : Option String) (now : ℕ)
    → AllShape s
    → AllShape (after_start (admission (fresh_session r owner now) s.mgr) s)
starts-AllShape s r owner now all = by_active s.mgr.active
  where
    t : Session
    t = fresh_session r owner now

    by_caps : (c : Result (Unit {0})) → AllShape (after_start (queue_behind t s.mgr c) s)
    by_caps (err e) = all
    by_caps (ok _) = given-Shape s (arm_timer t) (armed-Shape r owner now) all

    by_active : (o : Option ℕ) → AllShape (after_start (admission_by o t s.mgr) s)
    by_active none = given-Shape s t (fresh-Shape r owner now) all
    by_active (some a) = by_caps (check_caps t a s.mgr)

module _ (str_of : Error → String) where
  Step-AllShape : {s s' : System} → Step str_of s s' → AllShape s → AllShape s'
  Step-AllShape {s} st all = elim (Step-same_count str_of st) [
    | inl (r, owner, now, h) ↦ subst AllShape (sym h) (starts-AllShape s r owner now all)
    | inr h ↦ λ b lt.
        let given : b < s.mgr.count = omega (arith, h, lt) in
        (Step-EvolvesAt str_of b given st).shape (all b given)
  ]

  Reach-AllShape : {s s' : System} → Reach str_of s s' → AllShape s → AllShape s'
  Reach-AllShape here all = all
  Reach-AllShape (next r st) all = Step-AllShape st (Reach-AllShape r all)

  -- `wait` on a session that has ended, after any run of a manager that began empty, returns a result
  -- if the session succeeded and raises the session's exception if it did not; its assertion that
  -- there is a result never fails.
  pub Reach-wait_answer :
      (heap : ℕ → Session) (pending_cap : ℕ) (per_owner_cap : Option ℕ) (s : System)
      → Reach str_of (fresh_system heap pending_cap per_owner_cap) s
      → (b : ℕ) → b < s.mgr.count
      → is_ended (session_at s b) ≡ true
      → ((q : AuthorizationResult) × ((session_at s b).status ≡ succeeded)
          × (wait_answer (session_at s b) ≡ ok q))
        ⊎ ((e : Error) × ((session_at s b).status ≢ succeeded)
            × ((session_at s b).terminal_exception ≡ some e)
            × (wait_answer (session_at s b) ≡ err e))
  Reach-wait_answer heap pending_cap per_owner_cap s r b lt h =
      wait_answer-ended (session_at s b) (Reach-AllShape r (λ x k. absurd (omega (arith, k))) b lt)
        h
