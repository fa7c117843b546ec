-- ===== src/Auth/Session/Ends.antt =====
-- authorization/session.py: what one write of a session's record keeps.
use rclone_kit.Base.{
  ◌≡◌, refl, sym, ◌∙◌, ◌≢◌, ◌⊎◌, inl, inr, String, Bool, true, false, none, some, Error, Result, ok,
  err, authorization_cancelled, authorization_expired, ◌&&◌, ◌||◌, if◌then◌else◌, Bool-cases, arith,
}
use rclone_kit.Job.Settle.{mentions}
use rclone_kit.Auth.{
  AuthorizationStatus, succeeded, failed, cancelled, expired, closed, is_terminal_status,
  AuthorizationResult,
}
use rclone_kit.Auth.Session.{
  Session, is_ended, advance, ending_with, mark_succeeded, mark_failed, mark_cancelled,
  mark_expired, mark_closed, is_rejected, settle_driven, wait_answer,
}

-- The end of a session that has one.
pub record SameEnd (s s' : Session) : Type 0 where
  pub status : s'.status ≡ s.status
  pub result : s'.terminal_result ≡ s.terminal_result
  pub exception : s'.terminal_exception ≡ s.terminal_exception

-- A session goes on with neither a result nor an exception, or it has ended with one of them.
pub data Shape (s : Session) : Type 0 where
  going_on : is_ended s ≡ false → s.terminal_result ≡ none → s.terminal_exception ≡ none → Shape s
  with_result :
      (q : AuthorizationResult)
      → s.status ≡ succeeded
      → s.terminal_result ≡ some q
      → s.terminal_exception ≡ none
      → Shape s
  with_error :
      (e : Error)
      → is_ended s ≡ true
      → s.status ≢ succeeded
      → s.terminal_result ≡ none
      → s.terminal_exception ≡ some e
      → Shape s

pub record Evolves (s s' : Session) : Type 0 where
  pub kept : is_ended s ≡ true → SameEnd s s'
  pub shape : Shape s → Shape s'

pub SameEnd-refl : (s : Session) → SameEnd s s
SameEnd-refl s = record { status = refl; result = refl; exception = refl }

pub Evolves-refl : (s : Session) → Evolves s s
Evolves-refl s = record { kept = λ h. SameEnd-refl s; shape = λ p. p }

-- A write that leaves status, result and exception.
pub same-Evolves :
    (s s' : Session)
    → s'.status ≡ s.status
    → s'.terminal_result ≡ s.terminal_result
    → s'.terminal_exception ≡ s.terminal_exception
    → Evolves s s'
same-Evolves s s' st r e = record {
  kept = λ h. record { status = st; result = r; exception = e };
  shape = λ p. elim p [
    | going_on g a b ↦ going_on (rw st g) (r ∙ a) (e ∙ b)
    | with_result q g a b ↦ with_result q (st ∙ g) (r ∙ a) (e ∙ b)
    | with_error x g n a b ↦ with_error x (rw st g) (λ y. n (sym st ∙ y)) (r ∙ a) (e ∙ b)
  ];
}

-- A session that goes on has no end yet.
no_end :
    (s : Session)
    → Shape s
    → is_ended s ≡ false
    → (s.terminal_result ≡ none) × (s.terminal_exception ≡ none)
no_end s (going_on g a b) h = (a, b)
no_end s (with_result q g a b) h = absurd (ground (arith, g, h))
no_end s (with_error e g n a b) h = absurd (ground (arith, g, h))

module _ (status : AuthorizationStatus) (f : Session → Session) (s : Session) where
  advance-Evolves :
      (Shape s → is_ended s ≡ false → Shape (f (record s { status = status })))
      → Evolves s (advance status f s)
  unfolding advance
  advance-Evolves go = elim (Bool-cases (is_ended s)) [
    | inl h ↦ rw h (Evolves-refl s)
    | inr h ↦ rw h (record { kept = λ k. absurd (cc); shape = λ p. go p h })
  ]

-- A move to a status that ends nothing, with an update that ends nothing.
pub advance_live-Evolves :
    (status : AuthorizationStatus) (f : Session → Session) (s : Session)
    → is_terminal_status status ≡ false
    → ((t : Session) → SameEnd t (f t))
    → Evolves s (advance status f s)
advance_live-Evolves status f s live keeps = advance-Evolves status f s (λ p h.
    let k = keeps (record s { status = status }) in
    let (r, e) = no_end s p h in going_on (rw k.status live) (k.result ∙ r) (k.exception ∙ e))

pub mark_succeeded-Evolves :
    (q : AuthorizationResult) (s : Session) → Evolves s (mark_succeeded q s)
mark_succeeded-Evolves q s =
    advance-Evolves succeeded (λ t. record t { terminal_result = some q }) s
      (λ p h. with_result q refl refl (no_end s p h).1)

-- The marks that raise: their status is terminal, and not the one of success.
mark_error-Evolves :
    (status : AuthorizationStatus) (e : Error) (s : Session)
    → is_terminal_status status ≡ true
    → status ≢ succeeded
    → Evolves s (advance status (ending_with e) s)
mark_error-Evolves status e s end n =
    advance-Evolves status (ending_with e) s (λ p h. with_error e end n (no_end s p h).0 refl)

pub mark_failed-Evolves : (e : Error) (s : Session) → Evolves s (mark_failed e s)
mark_failed-Evolves e s = mark_error-Evolves failed e s refl (λ x. cc)

pub mark_cancelled-Evolves : (s : Session) → Evolves s (mark_cancelled s)
mark_cancelled-Evolves s =
    mark_error-Evolves cancelled (authorization_cancelled s.request.remote_name) s refl (λ x. cc)

pub mark_expired-Evolves : (s : Session) → Evolves s (mark_expired s)
mark_expired-Evolves s =
    mark_error-Evolves expired (authorization_expired s.request.remote_name) s refl (λ x. cc)

pub mark_closed-Evolves : (s : Session) → Evolves s (mark_closed s)
mark_closed-Evolves s =
    mark_error-Evolves closed (authorization_cancelled s.request.remote_name) s refl (λ x. cc)

-- A mark leaves the session ended.
pub advance_ends :
    (status : AuthorizationStatus) (e : Error) (s : Session)
    → is_terminal_status status ≡ true
    → is_ended (advance status (ending_with e) s) ≡ true
unfolding advance
advance_ends status e s h = ground arith

pub if-Evolves :
    (b : Bool) {s t u : Session} → Evolves s t → Evolves s u → Evolves s (if b then t else u)
if-Evolves true e f = e
if-Evolves false e f = f

-- However `drive` ends, the driver moves the session on, and leaves it ended.
module _ (str_of : Error → String) (was_expired was_cancelled : Bool) where
  pub settle_driven-Evolves :
      (out : Result (Unit {0})) (built : Result AuthorizationResult) (s : Session)
      → Evolves s (settle_driven str_of was_expired was_cancelled out built s)
  settle_driven-Evolves (ok _) (ok q) s = mark_succeeded-Evolves q s
  settle_driven-Evolves (ok _) (err e) s = mark_failed-Evolves e s
  settle_driven-Evolves (err e) built s =
      if-Evolves
        (is_rejected e
          && ((was_expired || was_cancelled)
              && mentions "oauth authentication was cancelled" (some (str_of e))))
        (if-Evolves was_expired (mark_expired-Evolves s) (mark_cancelled-Evolves s))
        (mark_failed-Evolves e s)

  pub settle_driven_ends :
      (out : Result (Unit {0})) (built : Result AuthorizationResult) (s : Session)
      → is_ended (settle_driven str_of was_expired was_cancelled out built s) ≡ true
  unfolding advance
  settle_driven_ends (ok _) (ok q) s = ground arith
  settle_driven_ends (ok _) (err e) s = ground arith
  settle_driven_ends (err e) built s = ground arith

-- A session that has ended answers `wait`: with its result if it succeeded, and by raising if not.
pub wait_answer-ended :
    (s : Session)
    → Shape s
    → is_ended s ≡ true
    → ((q : AuthorizationResult) × (s.status ≡ succeeded) × (wait_answer s ≡ ok q))
      ⊎ ((e : Error) × (s.status ≢ succeeded)
          × (s.terminal_exception ≡ some e)
          × (wait_answer s ≡ err e))
wait_answer-ended s (going_on g a b) h = absurd cc
wait_answer-ended s (with_result q g a b) h = inl (q, g, rw (a, b) refl)
wait_answer-ended s (with_error e g n a b) h = inr (e, n, b, rw b refl)

-- A session that has ended stays so.
pub Evolves-is_ended : (s s' : Session) → Evolves s s' → is_ended s ≡ true → is_ended s' ≡ true
Evolves-is_ended s s' e h = rw (e.kept h).status h
