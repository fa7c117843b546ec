-- ===== src/Auth/Manager/Sections.antt =====
-- authorization/manager.py: what each section under the lock does to the places of the sessions.
use mathlib.Core.Path.{subst}
use rclone_kit.Base.{
  ℕ, ◌+◌, ◌<◌, ◌≡◌, refl, ap, ◌∙◌, inl, inr, Bool, true, false, not, ◌||◌, Option, none, some, List,
  ◌∷◌, arith, ◌==◌, member, leb, if◌then◌else◌, Result, ok, err, authorization_cancelled,
}
use rclone_kit.Auth.{queued, cancelled}
use rclone_kit.Auth.Session.{Session, is_ended}
use rclone_kit.Auth.Session.Ends.{advance_ends}
use rclone_kit.Auth.Manager.{
  is_at, remove, seize, enqueue, queue_behind, admission_by, admission, check_caps, deadline_by,
  cancel_by, release, drop_queued, cancel_pending, on_deadline,
}
use rclone_kit.Auth.Manager.Threads.{
  unstarted, admitting, finishing, gone, System, session_at, at_stage, after_start, timed_out,
}
use rclone_kit.Auth.Manager.Queue.{
  by_address, eq_self, Distinct, member-snoc, member-remove, member-remove-other,
}
use rclone_kit.Auth.Manager.Places.{
  View, view, Place, not_yet, waits, leaves, runs, settled, ended, Moves, pending-Waiting,
}

-- A session that has not been given out.
pub record Fresh (v : View) : Type 0 where
  pub stage : v.stage ≡ unstarted
  pub not_active : v.is_active ≡ false
  pub not_pending : v.is_pending ≡ false
  pub not_owed : v.is_owed ≡ false

new-Fresh : (v : View) → Place v → v.is_new ≡ true → Fresh v
new-Fresh v (not_yet a b c d e) h = record {
  stage = b;
  not_active = c;
  not_pending = d;
  not_owed = e;
}
new-Fresh v (waits a b c d e f) h = absurd (ground arith)
new-Fresh v (leaves a b c d e) h = absurd (ground arith)
new-Fresh v (runs a b c d) h = absurd (ground arith)
new-Fresh v (settled a b c d e) h = absurd (ground arith)
new-Fresh v (ended a b c d e) h = absurd (ground arith)

leb-suc : (c b : ℕ) → (b == c) ≡ false → leb (c + 1) b ≡ leb c b
leb-suc c b h = ground arith

or_false : (x y : Bool) → y ≡ false → (x || y) ≡ x
or_false true y h = refl
or_false false y h = h

pub count-Fresh : (s : System) → Place (view s s.mgr.count) → Fresh (view s s.mgr.count)
count-Fresh s p = new-Fresh (view s s.mgr.count) p (ground arith)

pub seize-Moves :
    (s : System) (t : Session)
    → s.mgr.active ≡ none
    → Moves s (at_stage s.mgr.count admitting (record s { mgr = seize t s.mgr }))
seize-Moves s t idle b =
    by_address s.mgr.count b
      (λ x.
        Place (view s x)
        → Place (view (at_stage s.mgr.count admitting (record s { mgr = seize t s.mgr })) x))
      (λ p.
        let f = count-Fresh s p in
        runs (ground arith) (rw (eq_self s.mgr.count) refl) (eq_self s.mgr.count) f.not_pending)
      (λ h p.
        rw (h, leb-suc s.mgr.count b h)
          (subst (λ o. Place (record (view s b) { is_active = is_at o b })) idle p))

pub enqueue-Moves :
    (s : System) (t : Session) → t.status ≡ queued → Moves s (record s { mgr = enqueue t s.mgr })
enqueue-Moves s t q b =
    by_address s.mgr.count b
      (λ x. Place (view s x) → Place (view (record s { mgr = enqueue t s.mgr }) x))
      (λ p.
        let f = count-Fresh s p in
        waits (ground arith) f.stage f.not_active
          (member-snoc s.mgr.count s.mgr.count s.mgr.pending
            ∙ rw (f.not_pending, eq_self s.mgr.count) refl)
          f.not_owed (rw (eq_self s.mgr.count) q))
      (λ h p.
        rw
          (
            member-snoc b s.mgr.count s.mgr.pending,
            or_false (member b s.mgr.pending) (b == s.mgr.count) h,
            h,
            leb-suc s.mgr.count b h,
          )
          p)

pub starts-Moves :
    (s : System) (t : Session) → t.status ≡ queued → Moves s (after_start (admission t s.mgr) s)
starts-Moves s t q = by_active s.mgr.active refl
  where
    by_caps : (r : Result (Unit {0})) → Moves s (after_start (queue_behind t s.mgr r) s)
    by_caps (err e) = λ b p. p
    by_caps (ok _) = enqueue-Moves s t q

    by_active : (o : Option ℕ) → s.mgr.active ≡ o → Moves s (after_start (admission_by o t s.mgr) s)
    by_active none h = seize-Moves s t h
    by_active (some a) h = by_caps (check_caps t a s.mgr)

-- The session at the head of the queue gets its turn.
pub take-Moves :
    (s : System) (a : ℕ) (rest : List ℕ)
    → s.mgr.active ≡ none
    → s.mgr.pending ≡ a ∷ rest
    → Distinct s.mgr.pending
    → Moves s
        (at_stage a admitting (record s { mgr = record s.mgr { pending = rest; active = some a } }))
take-Moves s a rest idle queue d b =
    by_address a b
      (λ x.
        Place (view s x)
        → Place (
            view
              (at_stage a admitting
                (record s { mgr = record s.mgr { pending = rest; active = some a } }))
              x))
      (λ p.
        let w = pending-Waiting (view s a) p (ap (member a) queue ∙ rw (eq_self a) refl) in
        runs w.given (rw (eq_self a) refl) (eq_self a) (subst Distinct queue d).0)
      (λ h p.
        let p1 = subst (λ o. Place (record (view s b) { is_active = is_at o b })) idle p in
        let p2 =
          subst (λ xs. Place (record (view s b) { is_active = false; is_pending = member b xs }))
            queue p1 in
        rw h (
          subst
            (λ x. Place (record (view s b) { is_active = false; is_pending = x || member b rest }))
            h p2))

-- A session that was given out leaves the queue, if it is there.
dropped :
    (v : View) {pending owed : Bool}
    → pending ≡ false
    → owed ≡ true
    → v.is_new ≡ false
    → Place v
    → Place (record v { is_pending = pending; is_owed = owed })
dropped v out now given (not_yet a b c d e) = absurd (ground arith)
dropped v out now given (waits a b c d e f) = leaves a b c out now
dropped v out now given (leaves a b c d e) = leaves a b c out now
dropped v out now given (runs a b c d) = runs a b c out
dropped v out now given (settled a b c d e) = settled a b c out e
dropped v out now given (ended a b c d e) = ended a b c out e

-- A session is taken out of the queue, and a thread has yet to end it.
drop-Moves :
    (s : System) (a : ℕ) (owed expiring : ℕ → Bool)
    → a < s.mgr.count
    → Distinct s.mgr.pending
    → (owed a || expiring a) ≡ true
    → ((b : ℕ) → (b == a) ≡ false → (owed b || expiring b) ≡ (s.to_close b || s.to_expire b))
    → Moves s (record s {
      mgr = record s.mgr { pending = remove a s.mgr.pending };
      to_close = owed;
      to_expire = expiring;
    })
drop-Moves s a owed expiring given d now same b =
    by_address a b
      (λ x.
        Place (view s x)
        → Place (
            view
              (record s {
                mgr = record s.mgr { pending = remove a s.mgr.pending };
                to_close = owed;
                to_expire = expiring;
              })
              x))
      (dropped (view s a) (member-remove a s.mgr.pending d) now (ground arith))
      (λ h p. rw (member-remove-other a b s.mgr.pending h, same b h) p)

pub drop_queued-Moves :
    (s : System) (a : ℕ)
    → a < s.mgr.count
    → Distinct s.mgr.pending
    → Moves s (record s {
      mgr = drop_queued a s.mgr;
      to_close = λ b. if b == a then true else s.to_close b;
    })
drop_queued-Moves s a given d =
    drop-Moves s a (λ b. if b == a then true else s.to_close b) s.to_expire given d
      (rw (eq_self a) refl) (λ b h. rw h refl)

pub on_deadline-Moves :
    (s : System) (a generation : ℕ)
    → a < s.mgr.count
    → Distinct s.mgr.pending
    → Moves s (timed_out a (on_deadline a generation s.mgr) s)
on_deadline-Moves s a generation given d =
    by_test (is_ended (session_at s a) || not (generation == (session_at s a).generation))
      (is_at s.mgr.active a)
  where
    by_test : (x y : Bool) → Moves s (timed_out a (deadline_by x y a s.mgr) s)
    by_test true y = λ b p. p
    by_test false true = λ b p. p
    by_test false false =
        drop-Moves s a s.to_close (λ b. if b == a then true else s.to_expire b) given d
          (rw (eq_self a) (ground arith)) (λ b h. rw h refl)

pub cancel_pending-Moves :
    (s : System) (a : ℕ)
    → Distinct s.mgr.pending
    → Moves s (record s { mgr = (cancel_pending a s.mgr).1 })
cancel_pending-Moves s a d = by_test (member a s.mgr.pending) refl
  where
    by_test :
        (x : Bool)
        → member a s.mgr.pending ≡ x
        → Moves s (record s { mgr = (cancel_by x a s.mgr).1 })
    by_test false h = λ b p. p
    by_test true h = λ b.
        by_address a b
          (λ x. Place (view s x) → Place (view (record s { mgr = (cancel_by true a s.mgr).1 }) x))
          (λ p.
            let w = pending-Waiting (view s a) p h in
            ended w.given (inl w.stage) w.not_active (member-remove a s.mgr.pending d) (
              rw (eq_self a) (
                advance_ends cancelled
                  (authorization_cancelled (session_at s a).request.remote_name) (session_at s a)
                  refl)))
          (λ e p. rw (e, member-remove-other a b s.mgr.pending e) p)

-- A settled session gives up its turn.
gone_view :
    (v : View)
    → v.stage ≡ finishing
    → Place v
    → Place (record v { stage = gone; is_active = false })
gone_view v h (not_yet a b c d e) = absurd (ground arith)
gone_view v h (waits a b c d e f) = absurd (ground arith)
gone_view v h (leaves a b c d e) = absurd (ground arith)
gone_view v h (runs a b c d) = absurd (ground arith)
gone_view v h (settled a b c d e) = ended a (inr refl) refl d e
gone_view v h (ended a (inl b) c d e) = absurd (ground arith)
gone_view v h (ended a (inr b) c d e) = absurd (ground arith)

pub finishing_is_active : (v : View) → v.stage ≡ finishing → Place v → v.is_active ≡ true
finishing_is_active v h (not_yet a b c d e) = absurd (ground arith)
finishing_is_active v h (waits a b c d e f) = absurd (ground arith)
finishing_is_active v h (leaves a b c d e) = absurd (ground arith)
finishing_is_active v h (runs a b c d) = c
finishing_is_active v h (settled a b c d e) = c
finishing_is_active v h (ended a (inl b) c d e) = absurd (ground arith)
finishing_is_active v h (ended a (inr b) c d e) = absurd (ground arith)

is_at_other : (o : Option ℕ) (a b : ℕ) → is_at o a ≡ true → (b == a) ≡ false → is_at o b ≡ false
is_at_other none a b h k = refl
is_at_other (some c) a b h k = ground arith

pub release-Moves :
    (s : System) (a : ℕ)
    → s.stage a ≡ finishing
    → Place (view s a)
    → Moves s (at_stage a gone (record s { mgr = release a s.mgr; promoting = s.promoting + 1 }))
release-Moves s a h pa b =
    let act = finishing_is_active (view s a) h pa in
    by_address a b
      (λ x.
        Place (view s x)
        → Place (
            view (at_stage a gone (record s { mgr = release a s.mgr; promoting = s.promoting + 1 }))
              x))
      (λ p. rw (act, eq_self a) (gone_view (view s a) h p))
      (λ e p.
        rw (act, e)
          (subst (λ x. Place (record (view s b) { is_active = x }))
            (is_at_other s.mgr.active a b act e) p))
