-- ===== src/Base/Raise.antt =====
-- A call that may raise: its value, or the exception.
use Prim.Native.Nat.{ℕ}
use Prim.Native.String.{String}
use mathlib.Core.Path.{◌≡◌, refl}
use mathlib.Core.Logic.{◌⊎◌, inl, inr}
use mathlib.Core.Bool.{Bool, true, false}
use mathlib.Core.List.{List, [], ◌∷◌}
use rclone_kit.Base.Int.{ℤ}
use rclone_kit.Base.Json.{Fields}

-- The exceptions by class, with the fields that the code reads and without the messages.
-- `diverged` marks a loop that ran out of fuel.
pub data Error : Type 0 where
  value_error assertion_error key_error index_error type_error runtime_error file_not_found : Error
  zero_division merge_state_error s3_merge_error s3_upload_error : Error
  rc_call_error : (method : String) (status : ℤ) (payload : Fields) → Error
  job_not_found : (job_id : ℤ) → Error
  job_identity_error : (job_id : ℤ) (expected actual : String) → Error
  job_expired : (job_id : ℤ) (execute_id : String) → Error
  job_runtime_closed : (job_id : ℤ) → Error
  runtime_closed : Error
  operation_start_error : (method : String) → Error
  operation_timeout : (operation : String) → Error
  remote_name_conflict : (remote_name : String) → Error
  unsupported_prompt : (remote_name state option_name : String) → Error
  authorization_start_error : (remote_name : String) (cause : Error) → Error
  authorization_rejected : (remote_name reason : String) → Error
  authorization_expired : (remote_name : String) → Error
  authorization_cancelled : (remote_name : String) → Error
  queue_full : (remote_name : String) (cap : ℕ) → Error
  relay_error : Error
  diverged : Error

-- A call either raises or returns.
pub data Result {ι} (B : Type ι) : Type ι where
  err : (raised : Error) → Result B
  ok : (value : B) → Result B

abbrev pub ◌>>=◌ {ι κ} : {B : Type ι} {C : Type κ} (m : Result B) → (B → Result C) → Result C
(err raised) >>= next = err raised
(ok value) >>= next = next value

-- A check that may raise, before what follows it.
abbrev pub ◌>>◌ {ι} : {C : Type ι} (check : Result (Unit {0})) → Result C → Result C
check >> next = check >>= (λ passed. next)

infixl 5 ◌>>=◌
infixl 5 ◌>>◌
-- `if test: raise error`
abbrev pub raise_if : Bool → Error → Result (Unit {0})
raise_if true e = err e
raise_if false e = ok tt

-- `[f(x) for x in xs]` where `f` may raise.
abbrev pub traverse {ℓ κ} : {A : Type ℓ} {B : Type κ} → (A → Result B) → List A → Result (List B)
traverse f [] = ok []
traverse f (x ∷ xs) = do y ← f x; ys ← traverse f xs; ok (y ∷ ys)

-- A bind that returns: its first part returned, and so did the second on that value.
pub >>=-eq-ok {ι κ} :
    {B : Type ι} {C : Type κ} (m : Result B) (next : B → Result C) {c : C}
    → (m >>= next) ≡ ok c
    → (v : B) × (m ≡ ok v) × (next v ≡ ok c)
>>=-eq-ok (err raised) next returns = cc
>>=-eq-ok (ok v) next returns = (v, refl, returns)

-- To split on what a call gives and keep the equation.
pub Result-cases {ℓ} :
    {A : Type ℓ} (r : Result A) → ((e : Error) × (r ≡ err e)) ⊎ ((x : A) × (r ≡ ok x))
Result-cases (err e) = inl (e, refl)
Result-cases (ok x) = inr (x, refl)

-- A property of the value, if there is one.
abbrev pub Ensures {ℓ κ} : {A : Type ℓ} → (A → Type κ) → Result A → Type (ℓ ⊔ κ)
Ensures {A} P r = (a : A) → r ≡ ok a → P a

pub Ensures-bind {ℓ κ ι} :
    {A : Type ℓ} {B : Type κ} {P : B → Type ι} (m : Result A) (f : A → Result B)
    → ((a : A) → m ≡ ok a → Ensures P (f a))
    → Ensures P (m >>= f)
Ensures-bind m f k b h = let (a, e, h') = >>=-eq-ok m f h in k a e b h'
