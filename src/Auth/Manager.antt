-- ===== src/Auth/Manager.antt =====
-- authorization/manager.py: the queue of sessions. A session is shared by its handle, its threads and
-- the manager, so sessions live on a heap under addresses that are given out in order. Each
-- function is one section under the manager's lock, or under a session's.
pub mod Queue
pub mod Threads
pub mod Places
pub mod Sections
pub mod Steps
pub mod Invariant
pub mod Bounded
pub mod Moving
pub mod Sound
pub mod Evolving
pub mod Counts
pub mod Outcome
pub use rclone_kit.Base.Removal.{remove}
use rclone_kit.Base.{
  ℕ, ◌+◌, suc, String, Bool, true, false, ◌&&◌, ◌||◌, not, Option, none, some, List, [], ◌∷◌, ◌++◌,
  Result, ok, err, queue_full, remote_name_conflict, ◌>>◌, ◌>>=◌, raise_if, if◌then◌else◌, ◌==◌,
  leb, length, member, str_eq,
}
use rclone_kit.Base.Json.{Json, str, Items, nil, cons, Fields}
use rclone_kit.Auth.{
  AuthorizationStatus, starting, waiting_for_user, completing, RemoteConflictPolicy, reject,
  reconnect, AuthorizationRequest, is_terminal_status,
}
use rclone_kit.Auth.Wire.{listremotes}
use rclone_kit.Auth.Session.{
  Session, fresh_session, is_ended, advance, mark_cancelled, mark_expired, mark_closed,
}

pub record Manager : Type 0 where
  pub heap : ℕ → Session
  pub count : ℕ
  pub active : Option ℕ
  pub pending : List ℕ
  pub pending_cap : ℕ
  pub per_owner_cap : Option ℕ

-- `AuthorizationManager.__init__`, with nothing on the heap that counts.
abbrev pub fresh_manager : (ℕ → Session) → ℕ → Option ℕ → Manager
fresh_manager heap pending_cap per_owner_cap = record {
  heap = heap;
  count = 0;
  active = none;
  pending = [];
  pending_cap = pending_cap;
  per_owner_cap = per_owner_cap;
}

abbrev pub write : ℕ → Session → Manager → Manager
write a s m = record m { heap = λ b. if b == a then s else m.heap b }

-- `self._active is record`
abbrev pub is_at : Option ℕ → ℕ → Bool
is_at none b = false
is_at (some a) b = b == a

-- `_arm_timer`, of which only the number of the timer that counts is kept
abbrev pub arm_timer : Session → Session
arm_timer s = record s { generation = s.generation + 1 }

abbrev owns : String → Option String → Bool
owns owner none = false
owns owner (some o) = str_eq o owner

-- `sum(1 for r in self._pending if r.owner == owner)`
abbrev pub owned_by : String → (ℕ → Session) → List ℕ → ℕ
owned_by owner heap [] = 0
owned_by owner heap (a ∷ rest) =
    let others = owned_by owner heap rest in
    if owns owner (heap a).owner then suc others else others

abbrev check_owner : Session → ℕ → Manager → Result (Unit {0})
check_owner s active m = elim s.owner [
  | none ↦ ok tt
  | some owner ↦ elim m.per_owner_cap [
    | none ↦ ok tt
    | some cap ↦
        raise_if
          (leb cap
            (owned_by owner m.heap m.pending + (if owns owner (m.heap active).owner then 1 else 0)))
          (queue_full s.request.remote_name cap)
  ]
]

-- The checks of `start` before a session is queued behind the one at `active`.
unfoldable pub check_caps : Session → ℕ → Manager → Result (Unit {0})
check_caps s active m = do
  raise_if (leb m.pending_cap (length m.pending)) (queue_full s.request.remote_name m.pending_cap)
  check_owner s active m

abbrev pub enqueue : Session → Manager → Manager
enqueue s m = record (write m.count (arm_timer s) m) {
  count = m.count + 1;
  pending = m.pending ++ (m.count ∷ []);
}

abbrev pub seize : Session → Manager → Manager
seize s m = record (write m.count s m) { count = m.count + 1; active = some m.count }

abbrev pub queue_behind : Session → Manager → Result (Unit {0}) → Result Bool × Manager
queue_behind s m (err e) = (err e, m)
queue_behind s m (ok _) = (ok false, enqueue s m)

abbrev pub admission_by : Option ℕ → Session → Manager → Result Bool × Manager
admission_by none s m = (ok true, seize s m)
admission_by (some active) s m = queue_behind s m (check_caps s active m)

-- The locked section of `start`: whether the session is admitted at once. The record gets the next
-- address; where the queue is full it is dropped.
abbrev pub admission : Session → Manager → Result Bool × Manager
admission s m = admission_by m.active s m

-- `name in existing`
abbrev pub is_listed : String → Items → Bool
is_listed name nil = false
is_listed name (cons (str s) rest) = str_eq s name || is_listed name rest
is_listed name (cons _ rest) = is_listed name rest

abbrev pub check_conflict :
    {W : Type 0} (call : String → Fields → W → Result Fields × W)
    → AuthorizationRequest
    → W
    → Result (Unit {0}) × W
check_conflict call r w = elim r.on_conflict [
  | reconnect ↦ (ok tt, w)
  | reject ↦
      let (existing, w') = listremotes call w in
      (
        (existing >>= (λ names.
            raise_if (is_listed r.remote_name names) (remote_name_conflict r.remote_name))),
        w',
      )
]

-- `start` up to `_admit`
unfoldable pub start_session :
    {W : Type 0} (call : String → Fields → W → Result Fields × W)
    → AuthorizationRequest
    → Option String
    → (now : ℕ) → Manager
    → W
    → Result Bool × Manager × W
start_session call r owner now m w =
    let (checked, w') = check_conflict call r w in
    elim checked [
      | err e ↦ (err e, m, w')
      | ok _ ↦ let (admitted, m') = admission (fresh_session r owner now) m in (admitted, m', w')
    ]

-- `_admit` before the timer is armed
abbrev pub begin : ℕ → Session → Session
begin now s =
    let admitted = now + s.request.expires_in in
    advance starting (λ t. record t { expires_at = admitted }) s

pub data Promotion : Type 0 where
  returns skips : Promotion
  promotes : ℕ → Promotion

abbrev pub take_or_skip : Bool → ℕ → List ℕ → Manager → Promotion × Manager
take_or_skip true a rest m = (skips, record m { pending = rest })
take_or_skip false a rest m = (promotes a, record m { pending = rest; active = some a })

abbrev pub promote_by : Option ℕ → List ℕ → Manager → Promotion × Manager
promote_by (some _) pending m = (returns, m)
promote_by none [] m = (returns, m)
promote_by none (a ∷ rest) m = take_or_skip (is_ended (m.heap a)) a rest m

-- One turn of the loop of `_promote_next`.
abbrev pub promote_next : Manager → Promotion × Manager
promote_next m = promote_by m.active m.pending m

-- The locked section of `_on_settled`
abbrev pub release : ℕ → Manager → Manager
release a m = record m { active = if is_at m.active a then none else m.active }

pub data Deadline : Type 0 where
  stale stops expires : Deadline

abbrev pub deadline_by : (is_stale is_active : Bool) → ℕ → Manager → Deadline × Manager
deadline_by true is_active a m = (stale, m)
deadline_by false true a m = (stops, m)
deadline_by false false a m = (expires, record m { pending = remove a m.pending })

-- The locked section of `_on_deadline`: then the active session is asked to stop, one that is not
-- active has expired.
abbrev pub on_deadline : ℕ → ℕ → Manager → Deadline × Manager
on_deadline a generation m =
    deadline_by (is_ended (m.heap a) || not (generation == (m.heap a).generation))
      (is_at m.active a) a m

-- `if record.status.is_terminal: return`, then the flag: of `_on_deadline`, and of `cancel`.
abbrev pub expire_active : Session → Session
expire_active s = if is_ended s then s else record s { expire_requested = true }

abbrev pub cancel_active : Session → Session
cancel_active s = if is_ended s then s else record s { cancel_requested = true }

abbrev pub cancel_by : Bool → ℕ → Manager → Bool × Manager
cancel_by true a m =
    (true, record (write a (mark_cancelled (m.heap a)) m) { pending = remove a m.pending })
cancel_by false a m = (false, m)

-- The locked section of `cancel`: whether the session was still queued.
abbrev pub cancel_pending : ℕ → Manager → Bool × Manager
cancel_pending a m = cancel_by (member a m.pending) a m

-- The locked section of `close_session`
abbrev pub drop_queued : ℕ → Manager → Manager
drop_queued a m = record m { pending = remove a m.pending }

-- `relay`'s look at the active session, and its `_advance`
abbrev pub can_relay : AuthorizationStatus → Bool
can_relay waiting_for_user = true
can_relay completing = true
can_relay _ = false

abbrev pub relay_callback : Session → Session
relay_callback s = if can_relay s.status then advance completing (λ t. t) s else s
