-- ===== src/Auth/Manager/Invariant.antt =====
-- authorization/manager.py: what is kept of the queue.
use rclone_kit.Base.{ℕ, ◌<◌, ◌≤◌, ◌≡◌, refl, ◌⊎◌, inl, false, Option, some, [], arith, length}
use rclone_kit.Auth.Session.{Session}
use rclone_kit.Auth.Manager.{fresh_manager}
use rclone_kit.Auth.Manager.Threads.{System, unstarted}
use rclone_kit.Auth.Manager.Queue.{Distinct}
use rclone_kit.Auth.Manager.Places.{view, Place, not_yet}

-- Whoever waits in the queue waits for a session that is active, or a thread is on its way to take
-- the next one out.
abbrev pub IsMoving : System → Type 0
IsMoving s = (s.mgr.pending ≡ []) ⊎ (((a : ℕ) × (s.mgr.active ≡ some a)) ⊎ (0 < s.promoting))

pub record IsSound (s : System) : Type 0 where
  pub places : (b : ℕ) → Place (view s b)
  pub distinct : Distinct s.mgr.pending
  pub bounded : length s.mgr.pending ≤ s.mgr.pending_cap
  pub moving : IsMoving s

-- Before the first `start`.
abbrev pub fresh_system : (ℕ → Session) → ℕ → Option ℕ → System
fresh_system heap pending_cap per_owner_cap = record {
  mgr = fresh_manager heap pending_cap per_owner_cap;
  stage = λ a. unstarted;
  to_close = λ a. false;
  to_expire = λ a. false;
  promoting = 0;
}

pub fresh_system-IsSound :
    (heap : ℕ → Session) (pending_cap : ℕ) (per_owner_cap : Option ℕ)
    → IsSound (fresh_system heap pending_cap per_owner_cap)
fresh_system-IsSound heap pending_cap per_owner_cap = record {
  places = λ b. not_yet (ground arith) refl refl refl refl;
  distinct = tt;
  bounded = omega arith;
  moving = inl refl;
}
