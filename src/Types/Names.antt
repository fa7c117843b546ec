-- ===== src/Types/Names.antt =====
-- Part names: `PartInfo.name` and `_gen_name` print them, `_parse_part_number` reads them back.
-- A text is the list of its character codes; the digits are those of ASCII.
use rclone_kit.Base.{
  ℕ, ◌<◌, ◌≡◌, refl, false, List, [], ◌∷◌, ◌++◌, Result, ok, err, value_error, ◌>>=◌, ◌>>◌, ◌==◌,
  if◌then◌else◌, All, length, ne→==, append-nil, arith,
}
use rclone_kit.Base.Decimal.{
  is_digit, IsDigit, show, show_padded, read, read-show_padded, show-IsDigit, show_padded-IsDigit,
  show-ne-nil, show_padded-ne-nil,
}
use rclone_kit.Types.Parts.{PartInfo}

-- `f"part.{part_number:05d}_{offset}-{end}"`
unfoldable pub gen_name : ℕ → ℕ → ℕ → List ℕ
gen_name part_number offset end =
    b'p'
    ∷ b'a'
    ∷ b'r'
    ∷ b't'
    ∷ b'.'
    ∷ (show_padded part_number ++ b'_' ∷ (show offset ++ b'-' ∷ show end))

-- `PartInfo.name`
unfoldable pub part_name : PartInfo → List ℕ
unfolding gen_name
part_name p = gen_name p.part_number p.range.start p.range.end

-- One character of the pattern.
abbrev literal : ℕ → List ℕ → Result (List ℕ)
literal c [] = err value_error
literal c (x ∷ xs) = if x == c then ok xs else err value_error

-- The longest run of digits, and what follows it.
abbrev span_digits : List ℕ → List ℕ × List ℕ
span_digits [] = ([], [])
span_digits (x ∷ xs) =
    let (ds, rest) = span_digits xs in if is_digit x then (x ∷ ds, rest) else ([], x ∷ xs)

-- `\d+`. The pattern has no digit after it, so the greedy run is the only match.
abbrev digits : List ℕ → Result (List ℕ × List ℕ)
digits s =
    let (ds, rest) = span_digits s in if length ds == 0 then err value_error else ok (ds, rest)

-- `$`, which also stands before one newline at the end
abbrev at_end : List ℕ → Result (Unit {0})
at_end [] = ok tt
at_end (c ∷ []) = if c == 10 then ok tt else err value_error
at_end _ = err value_error

abbrev literals : List ℕ → List ℕ → Result (List ℕ)
literals [] s = ok s
literals (c ∷ cs) s = literal c s >>= literals cs

-- `_parse_part_number`, with the pattern `^part\.(\d+)_\d+-\d+$`
unfoldable pub parse_part_number : List ℕ → Result ℕ
parse_part_number name = do
  after_prefix ← literals (b'p' ∷ b'a' ∷ b'r' ∷ b't' ∷ b'.' ∷ []) name
  (number, after_number) ← digits after_prefix
  after_mark ← literal b'_' after_number
  (_, after_offset) ← digits after_mark
  after_dash ← literal b'-' after_offset
  (_, after_end) ← digits after_dash
  at_end after_end
  ok (read number)

-- A run of digits is taken whole before a character that is none, and at the end.
Stops : List ℕ → Type 0
Stops [] = Unit
Stops (c ∷ _) = is_digit c ≡ false

span_digits-append :
    (ds rest : List ℕ) → All IsDigit ds → Stops rest → span_digits (ds ++ rest) ≡ (ds, rest)
unfolding Stops
span_digits-append [] [] h stop = refl
span_digits-append [] (c ∷ rest) h stop = rw stop
span_digits-append (d ∷ ds) rest h stop = rw (span_digits-append ds rest h.1 stop, h.0)

digits-append :
    (ds rest : List ℕ)
    → 0 < length ds
    → All IsDigit ds
    → Stops rest
    → digits (ds ++ rest) ≡ ok (ds, rest)
digits-append ds rest some_digit h stop =
    rw (span_digits-append ds rest h stop, ne→== (length ds) 0 (omega arith))

-- The reader of part names gives back the number that the writer put in, for every number (also one
-- of more than the five digits it is padded to), offset and end.
pub parse_part_number-gen_name :
    (n offset end : ℕ) → parse_part_number (gen_name n offset end) ≡ ok n
unfolding parse_part_number gen_name Stops
parse_part_number-gen_name n offset end = rw (
  digits-append (show_padded n) (b'_' ∷ (show offset ++ b'-' ∷ show end)) (show_padded-ne-nil n)
      (show_padded-IsDigit n) refl,
  digits-append (show offset) (b'-' ∷ show end) (show-ne-nil offset) (show-IsDigit offset) refl,
  ← append-nil (show end),
  digits-append (show end) [] (show-ne-nil end) (show-IsDigit end) tt,
  read-show_padded n,
)
