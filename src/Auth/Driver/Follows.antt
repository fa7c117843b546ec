-- ===== src/Auth/Driver/Follows.antt =====
-- authorization/state_driver.py: the walk as a relation, and the loop against it.
use mathlib.Core.Path.{subst}
use rclone_kit.Base.{
  ℕ, zero, suc, ◌<◌, ◌≡◌, refl, sym, ap, ◌∙◌, ◌≢◌, ◌⊎◌, inl, inr, String, Option, none, some, Error,
  Result, ok, err, assertion_error, authorization_rejected, unsupported_prompt, str_eq, Bool-cases,
  arith,
}
use rclone_kit.Auth.Wire.{ConfigStep}
use rclone_kit.Auth.Driver.{
  judge, at_continue, later_failure, answer_step, start_failure, at_start, drive_loop, drive,
}
use rclone_kit.Auth.Driver.Judged.{
  IsClear, eq_of, ne_of, Judged, has_error, no_option, unknown, known, step_of, judge-Judged,
  judge_done,
}

module _ (str_of : Error → String) (remote_name : String) {W : Type 0}
    (continue_ : String → String → W → Result ConfigStep × W) (before : W → W) where
  -- A question that the policy answers, the world before, and the one in which it is answered.
  pub data Asks (step : ConfigStep) (w : W) : W → Type 0 where
    refreshes : step.option_name ≡ some "config_refresh_token" → Asks step w w
    is_local : step.option_name ≡ some "config_is_local" → Asks step w (before w)

  -- From a step and a world: how the walk ends, and the world in which it does.
  pub data Follows : ConfigStep → W → Result (Unit {0}) → W → Type 0 where
    saved : {step : ConfigStep} {w : W} → step.state ≡ "" → Follows step w (ok tt) w
    reported :
        {step : ConfigStep} {w : W} (e : String)
        → step.state ≢ ""
        → step.error ≡ some e
        → e ≢ ""
        → Follows step w (err (authorization_rejected remote_name e)) w
    unasked :
        {step : ConfigStep} {w : W}
        → step.state ≢ ""
        → IsClear step.error
        → step.option_name ≡ none
        → Follows step w (err assertion_error) w
    unsupported :
        {step : ConfigStep} {w : W} (q : String)
        → step.state ≢ ""
        → IsClear step.error
        → step.option_name ≡ some q
        → q ≢ "config_refresh_token"
        → q ≢ "config_is_local"
        → Follows step w (err (unsupported_prompt remote_name step.state q)) w
    fails :
        {step : ConfigStep} (e : Error) {w w1 w2 : W}
        → step.state ≢ ""
        → IsClear step.error
        → Asks step w w1
        → continue_ step.state "true" w1 ≡ (err e, w2)
        → Follows step w (err (later_failure str_of remote_name e)) w2
    answers :
        {step : ConfigStep} (next : ConfigStep) {r : Result (Unit {0})} {w w1 w2 w3 : W}
        → step.state ≢ ""
        → IsClear step.error
        → Asks step w w1
        → continue_ step.state "true" w1 ≡ (ok next, w2)
        → Follows next w2 r w3
        → Follows step w r w3

module _ (str_of : Error → String) (name : String) {W : Type 0}
    (continue_ : String → String → W → Result ConfigStep × W) (before : W → W) where
  -- What the loop returns, and the world it leaves, as the relation has them.
  abbrev Ends : ℕ → ConfigStep → W → Type 0
  Ends fuel step w =
      let out = drive_loop str_of name continue_ before fuel step w in
      Follows str_of name continue_ before step w out.0 out.1

  -- One round of the loop, by what it makes of the step.
  abbrev pub after : ℕ → Result ConfigStep × W → Result (Unit {0}) × W
  after fuel out = elim out.0 [
    | err e ↦ (err e, out.1)
    | ok next ↦ drive_loop str_of name continue_ before fuel next out.1
  ]

  abbrev pub round : ℕ → ConfigStep → W → Result (Option String) → Result (Unit {0}) × W
  round fuel step w (err e) = (err e, w)
  round fuel step w (ok none) = (ok tt, w)
  round fuel step w (ok (some a)) = after fuel (answer_step str_of name continue_ before step a w)

  pub drive_loop-round :
      (fuel : ℕ) (step : ConfigStep) (w : W) (j : Result (Option String))
      → judge name step ≡ j
      → drive_loop str_of name continue_ before (suc fuel) step w ≡ round fuel step w j
  unfolding drive_loop
  drive_loop-round fuel step w (err e) h = rw (drive_loop, h) refl
  drive_loop-round fuel step w (ok none) h = rw (drive_loop, h) refl
  drive_loop-round fuel step w (ok (some a)) h = rw (drive_loop, h) refl

  abbrev EndsAs : ConfigStep → W → Result (Unit {0}) × W → Type 0
  EndsAs step w out = Follows str_of name continue_ before step w out.0 out.1

  -- A known question is answered, and the rest of the walk is as the relation has it.
  after-EndsAs :
      (fuel : ℕ) (step : ConfigStep) (w w1 w2 : W) (r : Result ConfigStep)
      → step.state ≢ ""
      → IsClear step.error
      → Asks str_of name continue_ before step w w1
      → continue_ step.state "true" w1 ≡ (r, w2)
      → ((next : ConfigStep)
          → r ≡ ok next
          → EndsAs next w2 (drive_loop str_of name continue_ before fuel next w2))
      → EndsAs step w (after fuel (at_continue str_of name r, w2))
  after-EndsAs fuel step w w1 w2 (ok next) n c asks sent rest =
      answers next n c asks sent (rest next refl)
  after-EndsAs fuel step w w1 w2 (err e) n c asks sent rest = fails e n c asks sent

  -- The world in which a known question is answered.
  asked_in :
      (step : ConfigStep) (q : String) (w : W)
      → step.option_name ≡ some q
      → (q ≡ "config_refresh_token") ⊎ (q ≡ "config_is_local")
      → (w1 : W) × Asks str_of name continue_ before step w w1
        × (answer_step str_of name continue_ before step "true" w ≡ (
          at_continue str_of name (continue_ step.state "true" w1).0,
          (continue_ step.state "true" w1).1,
        ))
  unfolding answer_step
  asked_in step q w o (inl h) = (w, refreshes (o ∙ ap some h), rw (o, h) refl)
  asked_in step q w o (inr h) = (before w, is_local (o ∙ ap some h), rw (o, h) refl)

  -- One round, where the rest of the walk is as the relation has it.
  round-EndsAs :
      (fuel : ℕ) (s : String) (o e : Option String) (w : W) (j : Result (Option String))
      → s ≢ ""
      → Judged name s o e j
      → ((w1 w2 : W) (next : ConfigStep)
          → continue_ s "true" w1 ≡ (ok next, w2)
          → EndsAs next w2 (drive_loop str_of name continue_ before fuel next w2))
      → EndsAs (step_of name s o e) w (round fuel (step_of name s o e) w j)
  round-EndsAs fuel s o (some x) w j n (has_error e k) rest = reported e n refl k
  round-EndsAs fuel s none e w j n (no_option c) rest = unasked n c refl
  round-EndsAs fuel s (some x) e w j n (unknown q c k l) rest = unsupported q n c refl k l
  round-EndsAs fuel s (some x) e w j n (known q c k) rest =
      let (w1, asks, sent) = asked_in (step_of name s (some q) e) q w refl k in
      let out = continue_ s "true" w1 in
      rw sent (
        after-EndsAs fuel (step_of name s (some q) e) w w1 out.1 out.0 n c asks refl
          (λ next h. rest w1 out.1 next (ap (λ x. (x, out.1)) h)))

  -- The loop is the relation, if rclone gets through its states: if each answer that leads to another
  -- step makes a rank of the state smaller, then fuel above the rank of the first state is enough,
  -- and the walk ends as the relation says.
  pub drive_loop-Follows :
      (rank : String → ℕ)
      → ((s : String) (w w' : W) (next : ConfigStep)
          → continue_ s "true" w ≡ (ok next, w')
          → rank next.state < rank s)
      → (fuel : ℕ) (step : ConfigStep) (w : W) → rank step.state < fuel
      → EndsAs step w (drive_loop str_of name continue_ before fuel step w)
  drive_loop-Follows rank falls zero step w lt = elim lt [ ]
  drive_loop-Follows rank falls (suc fuel) step w lt = elim (Bool-cases (str_eq step.state "")) [
    | inl h ↦
        subst (EndsAs step w)
          (sym (drive_loop-round fuel step w (ok none) (judge_done name step h)))
          (saved (eq_of step.state "" h))
    | inr h ↦ subst (EndsAs step w) (sym (drive_loop-round fuel step w (judge name step) refl)) (
        round-EndsAs fuel step.state step.option_name step.error w (judge name step)
          (ne_of step.state "" h) (judge-Judged name step.state step.option_name step.error h)
          (λ w1 w2 next sent.
            drive_loop-Follows rank falls fuel next w2
              (omega (arith, falls step.state w1 w2 next sent, lt))))
  ]

  -- A whole run: the first call fails, or its step is walked on from.
  pub data Drives (start : W → Result ConfigStep × W) (w : W) : Result (Unit {0}) → W → Type 0 where
    not_started :
        (e : Error) {w1 : W}
        → start w ≡ (err e, w1)
        → Drives start w (err (start_failure str_of name e)) w1
    walked :
        (step : ConfigStep) {r : Result (Unit {0})} {w1 w2 : W}
        → start w ≡ (ok step, w1)
        → Follows str_of name continue_ before step w1 r w2
        → Drives start w r w2

  abbrev DrivesAs : (W → Result ConfigStep × W) → W → Result (Unit {0}) × W → Type 0
  DrivesAs start w out = Drives start w out.0 out.1

  -- If every answer "true" that leads to another step makes a rank of rclone's states smaller, then
  -- `drive` comes to an end, with fuel above the rank of the first state: it raises what the first
  -- call raised, or it walks from the first step, and then it asks and answers as `Follows` says.
  -- It returns only on a step whose state is empty; it answers only the two known questions, always
  -- with "true", and calls `before` just before it answers `config_is_local` and at no other time;
  -- any other question, an error that rclone reports and a failing call raise.
  pub drive-Drives :
      (rank : String → ℕ)
      → ((s : String) (w w' : W) (next : ConfigStep)
          → continue_ s "true" w ≡ (ok next, w')
          → rank next.state < rank s)
      → (fuel : ℕ) (start : W → Result ConfigStep × W) (w : W)
      → ((step : ConfigStep) (w' : W) → start w ≡ (ok step, w') → rank step.state < fuel)
      → DrivesAs start w (drive str_of name continue_ before fuel start w)
  unfolding drive
  drive-Drives rank falls fuel start w lt = started (start w).0 (start w).1 refl
    where
      started :
          (r : Result ConfigStep) (w1 : W)
          → start w ≡ (r, w1)
          → DrivesAs start w (elim (at_start str_of name r) [
            | err e ↦ (err e, w1)
            | ok step ↦ drive_loop str_of name continue_ before fuel step w1
          ])
      started (err e) w1 h = not_started e h
      started (ok step) w1 h =
          walked step h (drive_loop-Follows rank falls fuel step w1 (lt step w1 h))
