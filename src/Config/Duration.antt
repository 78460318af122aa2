-- ===== src/Config/Duration.antt =====
-- server/internal/config/duration.go. Every error of the file is an ErrInvalidDuration: it is `none`
-- here. Durations are in nanoseconds. The loop of parseDuration runs on fuel, one unit for each
-- segment: the length of the text is enough, since a segment has at least one character.
pub mod Exact
use Prim.Native.Char.{Char, code}
use Prim.Native.String.{[], ◌∷◌}
use auth_middleware.Prelude.{
  ℕ, zero, suc, ◌+◌, ◌-◌, ◌*◌, ◌/◌, String, Bool, true, false, ◌&&◌, Option, none, some, leb, eqb,
  ltb, ◌==◌, if◌then◌else◌,
}
use auth_middleware.Text.{to_lower, trim_space}

-- math.MaxInt64
abbrev pub max_int64 : ℕ
max_int64 = 9223372036854775807

abbrev pub second : ℕ
second = 1000000000

-- durationUnits
unfoldable pub unit_of : Char → Option ℕ
unit_of c =
    if eqb (code c) b'd'
    then some (24 * 60 * 60 * second)
    else if eqb (code c) b'h'
    then some (60 * 60 * second)
    else if eqb (code c) b'm'
    then some (60 * second)
    else if eqb (code c) b's'
    then some second
    else none

unfoldable pub is_digit : Char → Bool
is_digit c = leb b'0' (code c) && leb (code c) b'9'

unfoldable pub is_digits : String → Bool
unfolding is_digit
is_digits [] = true
is_digits (c ∷ s) = is_digit c && is_digits s

-- the value of a text of digits, without a bound
unfoldable pub digits_value : (so_far : ℕ) → String → ℕ
digits_value n [] = n
digits_value n (c ∷ s) = digits_value (n * 10 + (code c - b'0')) s

-- strconv.ParseInt(digits, 10, 64)
unfoldable pub parse_int : (digits : String) → Option ℕ
unfolding digits_value
parse_int digits = let n = digits_value 0 digits in if leb n max_int64 then some n else none

-- multiplyDuration, after ParseInt; `unit` is not 0
unfoldable pub multiply : Option ℕ → (unit : ℕ) → Option ℕ
multiply none unit = none
multiply (some n) unit = if leb n (max_int64 / unit) then some (n * unit) else none

unfoldable pub multiply_duration : (digits : String) (unit : ℕ) → Option ℕ
unfolding parse_int multiply
multiply_duration digits unit = multiply (parse_int digits) unit

-- rest[:digitsEnd] and rest[digitsEnd:]
unfoldable pub span_digits : String → String × String
unfolding is_digit
span_digits [] = ([], [])
span_digits (c ∷ s) =
    let (digits, rest) = span_digits s in if is_digit c then (c ∷ digits, rest) else ([], c ∷ s)

-- one round of the loop: the segment's duration and the text after it
unfoldable pub segment : String × String → Option (ℕ × String)
unfolding unit_of multiply_duration
segment ([], rest) = none
segment (c ∷ s, []) = none
segment (c ∷ s, u ∷ rest) = elim (unit_of u) [
  | none ↦ none
  | some unit ↦ elim (multiply_duration (c ∷ s) unit) [
    | none ↦ none
    | some part ↦ some (part, rest)
  ]
]

add_part : (total : ℕ) → (part : ℕ) → Option ℕ
add_part total part = if ltb (max_int64 - part) total then none else some (total + part)

unfoldable pub segments : (fuel : ℕ) (total : ℕ) → String → Option ℕ
unfolding segment span_digits add_part
segments zero total [] = some total
segments zero total (c ∷ s) = none
segments (suc fuel) total [] = some total
segments (suc fuel) total (c ∷ s) = elim (segment (span_digits (c ∷ s))) [
  | none ↦ none
  | some (part, rest) ↦ elim (add_part total part) [
    | none ↦ none
    | some total' ↦ segments fuel total' rest
  ]
]

abbrev pub text_length : String → ℕ
text_length [] = zero
text_length (c ∷ s) = suc (text_length s)

unfoldable pub parse_normalized : String → (bare_unit : ℕ) → Option ℕ
unfolding is_digits multiply_duration segments
parse_normalized value bare_unit =
    if value == ""
    then none
    else if is_digits value
    then (if eqb bare_unit 0 then none else multiply_duration value bare_unit)
    else segments (text_length value) 0 value

-- parseDuration
unfoldable pub parse_duration : (value : String) (bare_unit : ℕ) → Option ℕ
unfolding parse_normalized to_lower trim_space
parse_duration value bare_unit = parse_normalized (to_lower (trim_space value)) bare_unit
