-- ===== src/Base/Decimal.antt =====
-- `str(n)`, `f"{n:05d}"` and `int(s)` for a natural number, over character codes.
use rclone_kit.Base.Tests.{leb, ◌==◌, if◌then◌else◌, Bool-cases}
use rclone_kit.Base.Lists.{length, All, All-append, length-append}
use Prim.Native.Nat.{ℕ, zero, suc, ◌+◌, ◌-◌, ◌*◌, ◌/◌, ◌%◌, ◌<◌}
use mathlib.Core.Path.{◌≡◌, refl, ap, ◌∙◌}
use mathlib.Core.Logic.{inl, inr}
use mathlib.Core.Bool.{Bool, true, ◌&&◌}
use mathlib.Core.List.{List, [], ◌∷◌, ◌++◌}
use native.Mathlib.Omega.{arith}

abbrev pub is_digit : ℕ → Bool
is_digit c = leb 48 c && leb c 57

-- The decimal digits of `n` in front of `rest`; the fuel is more than the number of digits.
show_onto : ℕ → ℕ → List ℕ → List ℕ
show_onto zero n rest = rest
show_onto (suc fuel) n rest =
    let more = show_onto fuel (n / 10) ((48 + n % 10) ∷ rest) in
    if n / 10 == 0 then (48 + n % 10) ∷ rest else more

unfoldable pub show : ℕ → List ℕ
unfolding show_onto
show n = show_onto (suc n) n []

abbrev zeros : ℕ → List ℕ
zeros zero = []
zeros (suc n) = 48 ∷ zeros n

-- `f"{n:05d}"`
unfoldable pub show_padded : ℕ → List ℕ
show_padded n = zeros (5 - length (show n)) ++ show n

read_from : ℕ → List ℕ → ℕ
read_from v [] = v
read_from v (c ∷ cs) = read_from (v * 10 + (c - 48)) cs

-- `int(s)`, for a text of digits
unfoldable pub read : List ℕ → ℕ
unfolding read_from
read = read_from 0

read_from-show_onto :
    (fuel n : ℕ) (rest : List ℕ) → n < fuel → read_from 0 (show_onto fuel n rest) ≡ read_from n rest
unfolding show_onto read_from
read_from-show_onto zero n rest h = elim h [ ]
read_from-show_onto (suc fuel) n rest h = elim (Bool-cases (n / 10 == 0)) [
  | inl last ↦ rw last (ap (λ v. read_from v rest) (ground arith))
  | inr more ↦ rw more (
      read_from-show_onto fuel (n / 10) ((48 + n % 10) ∷ rest) (ground arith)
      ∙ ap (λ v. read_from v rest) (omega arith))
]

-- Reading what was printed gives the number back.
pub read-show : (n : ℕ) → read (show n) ≡ n
unfolding read show
read-show n = read_from-show_onto (suc n) n [] (omega arith)

read_from-zeros : (k : ℕ) (cs : List ℕ) → read_from 0 (zeros k ++ cs) ≡ read_from 0 cs
unfolding read_from
read_from-zeros zero cs = refl
read_from-zeros (suc k) cs = read_from-zeros k cs

pub read-show_padded : (n : ℕ) → read (show_padded n) ≡ n
unfolding read show_padded
read-show_padded n = read_from-zeros (5 - length (show n)) (show n) ∙ read-show n

abbrev pub IsDigit : ℕ → Type 0
IsDigit c = is_digit c ≡ true

show_onto-IsDigit :
    (fuel n : ℕ) (rest : List ℕ) → All IsDigit rest → All IsDigit (show_onto fuel n rest)
unfolding show_onto
show_onto-IsDigit zero n rest h = h
show_onto-IsDigit (suc fuel) n rest h = elim (Bool-cases (n / 10 == 0)) [
  | inl last ↦ rw last (ground arith, h)
  | inr more ↦ rw more (show_onto-IsDigit fuel (n / 10) _ (ground arith, h))
]

pub show-IsDigit : (n : ℕ) → All IsDigit (show n)
unfolding show
show-IsDigit n = show_onto-IsDigit (suc n) n [] tt

zeros-IsDigit : (k : ℕ) → All IsDigit (zeros k)
zeros-IsDigit zero = tt
zeros-IsDigit (suc k) = (refl, zeros-IsDigit k)

pub show_padded-IsDigit : (n : ℕ) → All IsDigit (show_padded n)
unfolding show_padded
show_padded-IsDigit n = All-append IsDigit (zeros _) (show n) (zeros-IsDigit _) (show-IsDigit n)

length-show_onto :
    (fuel n : ℕ) (rest : List ℕ) → n < fuel → length rest < length (show_onto fuel n rest)
unfolding show_onto
length-show_onto zero n rest h = elim h [ ]
length-show_onto (suc fuel) n rest h = elim (Bool-cases (n / 10 == 0)) [
  | inl last ↦ rw last (omega arith)
  | inr more ↦
      rw more (omega (arith, length-show_onto fuel (n / 10) ((48 + n % 10) ∷ rest) (ground arith)))
]

pub show-ne-nil : (n : ℕ) → 0 < length (show n)
unfolding show
show-ne-nil n = length-show_onto (suc n) n [] (omega arith)

pub show_padded-ne-nil : (n : ℕ) → 0 < length (show_padded n)
unfolding show_padded
show_padded-ne-nil n =
    omega (arith, length-append (zeros (5 - length (show n))) (show n), show-ne-nil n)
