-- ===== src/Auth/Driver/Judged.antt =====
-- authorization/state_driver.py: what one round of the loop makes of a step.
use rclone_kit.Base.{
  ◌≡◌, refl, ◌≢◌, ◌⊎◌, inl, inr, String, true, false, Option, none, some, Result, ok, err,
  assertion_error, authorization_rejected, unsupported_prompt, ◌>>=◌, str_eq, eq_iff, Bool-cases,
  arith,
}
use rclone_kit.Auth.Wire.{ConfigStep}
use rclone_kit.Auth.Driver.{known_answer, answer_for, or_unsupported, judge}

-- A step that reports no error.
abbrev pub IsClear : Option String → Type 0
IsClear none = Unit
IsClear (some e) = e ≡ ""

pub eq_of : (s t : String) → str_eq s t ≡ true → s ≡ t
eq_of s t h = (eq_iff s t).0 h

pub ne_of : (s t : String) → str_eq s t ≡ false → s ≢ t
ne_of s t h e = ground (arith, h, (eq_iff s t).1 e)

-- What the loop makes of a step that is not the last one, by its two optional fields.
pub data Judged (name s : String) : (o e : Option String) → Result (Option String) → Type 0 where
  has_error :
      {o : Option String} (e : String)
      → e ≢ ""
      → Judged name s o (some e) (err (authorization_rejected name e))
  no_option : {e : Option String} → IsClear e → Judged name s none e (err assertion_error)
  unknown :
      {e : Option String} (q : String)
      → IsClear e
      → q ≢ "config_refresh_token"
      → q ≢ "config_is_local"
      → Judged name s (some q) e (err (unsupported_prompt name s q))
  known :
      {e : Option String} (q : String)
      → IsClear e
      → (q ≡ "config_refresh_token") ⊎ (q ≡ "config_is_local")
      → Judged name s (some q) e (ok (some "true"))

-- The policy, read off the answer to a question.
data Policy (q : String) : Option String → Type 0 where
  has_answer : (q ≡ "config_refresh_token") ⊎ (q ≡ "config_is_local") → Policy q (some "true")
  no_answer : q ≢ "config_refresh_token" → q ≢ "config_is_local" → Policy q none

known_answer-Policy : (q : String) → Policy q (known_answer q)
known_answer-Policy q = elim (Bool-cases (str_eq q "config_refresh_token")) [
  | inl h ↦ rw h (has_answer (inl (eq_of q "config_refresh_token" h)))
  | inr h ↦ elim (Bool-cases (str_eq q "config_is_local")) [
    | inl k ↦ rw (h, k) (has_answer (inr (eq_of q "config_is_local" k)))
    | inr k ↦ rw (h, k) (no_answer (ne_of q "config_refresh_token" h) (ne_of q "config_is_local" k))
  ]
]

module _ (name s : String) where
  abbrev pub step_of : Option String → Option String → ConfigStep
  step_of o e = record { state = s; option_name = o; error = e }

  Policy-Judged :
      {e : Option String} (q : String) (a : Option String)
      → IsClear e
      → Policy q a
      → Judged name s
          (some q)
          e
          (or_unsupported name s q a >>= (λ (answer : String). ok (some answer)))
  Policy-Judged q (some a) c (has_answer k) = known q c k
  Policy-Judged q none c (no_answer k l) = unknown q c k l

  asked-Judged :
      (o e : Option String)
      → IsClear e
      → Judged name s o e
          (answer_for name (step_of o e) >>= (λ (answer : String). ok (some answer)))
  asked-Judged none e c = no_option c
  asked-Judged (some q) e c = Policy-Judged q (known_answer q) c (known_answer-Policy q)

  pub judge-Judged :
      (o e : Option String) → str_eq s "" ≡ false → Judged name s o e (judge name (step_of o e))
  unfolding judge
  judge-Judged o none h = rw h (asked-Judged o none tt)
  judge-Judged o (some e) h = elim (Bool-cases (str_eq e "")) [
    | inl k ↦ rw (h, k) (asked-Judged o (some e) (eq_of e "" k))
    | inr k ↦ rw (h, k) (has_error e (ne_of e "" k))
  ]

pub judge_done :
    (name : String) (step : ConfigStep) → str_eq step.state "" ≡ true → judge name step ≡ ok none
unfolding judge
judge_done name step h = rw h refl
