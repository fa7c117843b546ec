-- ===== src/Auth/Manager/Places.antt =====
-- authorization/manager.py: where a session stands, and what each section does to that.
use rclone_kit.Base.{ℕ, ◌≡◌, refl, ◌∙◌, ◌⊎◌, inl, inr, Bool, true, false, ◌||◌, arith, member, leb}
use rclone_kit.Auth.{AuthorizationStatus, queued, is_terminal_status}
use rclone_kit.Auth.Session.{Session}
use rclone_kit.Auth.Manager.{is_at}
use rclone_kit.Auth.Manager.Threads.{
  Stage, unstarted, admitting, arming, driving, finishing, gone, System, at_stage, put_session,
}
use rclone_kit.Auth.Manager.Queue.{by_address, eq_self}

-- What the manager and the threads know of one session.
pub record View : Type 0 where
  pub status : AuthorizationStatus
  pub stage : Stage
  pub is_active : Bool
  pub is_pending : Bool
  pub is_owed : Bool
  pub is_new : Bool

abbrev pub view : System → ℕ → View
view s b = record {
  status = (s.mgr.heap b).status;
  stage = s.stage b;
  is_active = is_at s.mgr.active b;
  is_pending = member b s.mgr.pending;
  is_owed = s.to_close b || s.to_expire b;
  is_new = leb s.mgr.count b;
}

abbrev pub is_running : Stage → Bool
is_running admitting = true
is_running arming = true
is_running driving = true
is_running _ = false

-- A session has not been given out; it waits its turn in the queue; it was taken out of the queue, and
-- a thread is about to end it; its threads run; it has settled and is about to give up its turn;
-- or it is over.
pub data Place (v : View) : Type 0 where
  not_yet :
      v.is_new ≡ true
      → v.stage ≡ unstarted
      → v.is_active ≡ false
      → v.is_pending ≡ false
      → v.is_owed ≡ false
      → Place v
  waits :
      v.is_new ≡ false
      → v.stage ≡ unstarted
      → v.is_active ≡ false
      → v.is_pending ≡ true
      → v.is_owed ≡ false
      → v.status ≡ queued
      → Place v
  leaves :
      v.is_new ≡ false
      → v.stage ≡ unstarted
      → v.is_active ≡ false
      → v.is_pending ≡ false
      → v.is_owed ≡ true
      → Place v
  runs :
      v.is_new ≡ false
      → is_running v.stage ≡ true
      → v.is_active ≡ true
      → v.is_pending ≡ false
      → Place v
  settled :
      v.is_new ≡ false
      → v.stage ≡ finishing
      → v.is_active ≡ true
      → v.is_pending ≡ false
      → is_terminal_status v.status ≡ true
      → Place v
  ended :
      v.is_new ≡ false
      → (v.stage ≡ unstarted) ⊎ (v.stage ≡ gone)
      → v.is_active ≡ false
      → v.is_pending ≡ false
      → is_terminal_status v.status ≡ true
      → Place v

-- A new status keeps the place, if it is terminal where the old one was, and queued in the queue.
pub restatus :
    (v : View) (st : AuthorizationStatus)
    → (is_terminal_status v.status ≡ true → is_terminal_status st ≡ true)
    → (v.is_pending ≡ true → st ≡ v.status)
    → Place v
    → Place (record v { status = st })
restatus v st end same (not_yet a b c d e) = not_yet a b c d e
restatus v st end same (waits a b c d e f) = waits a b c d e (same d ∙ f)
restatus v st end same (leaves a b c d e) = leaves a b c d e
restatus v st end same (runs a b c d) = runs a b c d
restatus v st end same (settled a b c d e) = settled a b c d (end e)
restatus v st end same (ended a b c d e) = ended a b c d (end e)

-- Another stage of a session that runs.
restage :
    (v : View) (g : Stage)
    → is_running v.stage ≡ true
    → is_running g ≡ true
    → Place v
    → Place (record v { stage = g })
restage v g was now (not_yet a b c d e) = absurd (ground arith)
restage v g was now (waits a b c d e f) = absurd (ground arith)
restage v g was now (leaves a b c d e) = absurd (ground arith)
restage v g was now (runs a b c d) = runs a now c d
restage v g was now (settled a b c d e) = absurd (ground arith)
restage v g was now (ended a (inl b) c d e) = absurd (ground arith)
restage v g was now (ended a (inr b) c d e) = absurd (ground arith)

-- A session that runs and whose driver has settled it.
pub finish :
    (v : View) (st : AuthorizationStatus)
    → is_running v.stage ≡ true
    → is_terminal_status st ≡ true
    → Place v
    → Place (record v { status = st; stage = finishing })
finish v st was end (not_yet a b c d e) = absurd (ground arith)
finish v st was end (waits a b c d e f) = absurd (ground arith)
finish v st was end (leaves a b c d e) = absurd (ground arith)
finish v st was end (runs a b c d) = settled a refl c d end
finish v st was end (settled a b c d e) = absurd (ground arith)
finish v st was end (ended a (inl b) c d e) = absurd (ground arith)
finish v st was end (ended a (inr b) c d e) = absurd (ground arith)

-- What a section does to the places of all sessions.
abbrev pub Moves : System → System → Type 0
Moves s s' = (b : ℕ) → Place (view s b) → Place (view s' b)

pub Moves-put_session :
    (s : System) (a : ℕ) (t : Session)
    → (is_terminal_status (s.mgr.heap a).status ≡ true → is_terminal_status t.status ≡ true)
    → (Place (view s a) → member a s.mgr.pending ≡ true → t.status ≡ (s.mgr.heap a).status)
    → Moves s (put_session a t s)
Moves-put_session s a t end same b =
    by_address a b (λ x. Place (view s x) → Place (view (put_session a t s) x))
      (λ p. rw (eq_self a) (restatus (view s a) t.status end (same p) p)) (λ h p. rw h p)

-- A session in the queue.
pub record Waiting (v : View) : Type 0 where
  pub given : v.is_new ≡ false
  pub stage : v.stage ≡ unstarted
  pub not_active : v.is_active ≡ false
  pub not_owed : v.is_owed ≡ false
  pub status : v.status ≡ queued

pub pending-Waiting : (v : View) → Place v → v.is_pending ≡ true → Waiting v
pending-Waiting v (not_yet a b c d e) h = absurd (ground arith)
pending-Waiting v (waits a b c d e f) h = record {
  given = a;
  stage = b;
  not_active = c;
  not_owed = e;
  status = f;
}
pending-Waiting v (leaves a b c d e) h = absurd (ground arith)
pending-Waiting v (runs a b c d) h = absurd (ground arith)
pending-Waiting v (settled a b c d e) h = absurd (ground arith)
pending-Waiting v (ended a b c d e) h = absurd (ground arith)

-- Another stage of the threads that carry out one session.
pub Moves-at_stage :
    (s : System) (a : ℕ) (g : Stage)
    → is_running (s.stage a) ≡ true
    → is_running g ≡ true
    → Moves s (at_stage a g s)
Moves-at_stage s a g was now b =
    by_address a b (λ x. Place (view s x) → Place (view (at_stage a g s) x))
      (λ p. rw (eq_self a) (restage (view s a) g was now p)) (λ h p. rw h p)
