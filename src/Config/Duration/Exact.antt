-- ===== src/Config/Duration/Exact.antt =====
-- parseDuration of server/internal/config/duration.go against arithmetic without bounds.
use Prim.Native.Char.{Char}
use Prim.Native.String.{[], ◌∷◌}
use native.Mathlib.Nat.{le-div_iff_mul-le, le-mul_of_pos_right}
use auth_middleware.Prelude.{
  ℕ, zero, suc, ◌+◌, ◌*◌, ◌≤◌, ◌<◌, String, ◌≡◌, refl, inl, inr, Option, none, some, leb, eqb, ◌==◌,
  if◌then◌else◌, arith, Option-cases, Bool-cases,
}
use auth_middleware.Text.{to_lower, trim_space}
use auth_middleware.Config.Duration.{
  max_int64, unit_of, is_digits, digits_value, multiply_duration, multiply, parse_int, span_digits,
  segment, add_part, segments, text_length, parse_normalized, parse_duration,
}

-- The sum of the segments, each the value of its digits times its unit.
unfoldable pub exact_segment : String × String → Option (ℕ × String)
exact_segment ([], rest) = none
exact_segment (c ∷ s, []) = none
exact_segment (c ∷ s, u ∷ rest) = elim (unit_of u) [
  | none ↦ none
  | some unit ↦ some (digits_value 0 (c ∷ s) * unit, rest)
]

abbrev pub plus : ℕ → Option ℕ → Option ℕ
plus n none = none
plus n (some m) = some (n + m)

unfoldable pub exact_total : (fuel : ℕ) → String → Option ℕ
exact_total zero [] = some 0
exact_total zero (c ∷ s) = none
exact_total (suc fuel) [] = some 0
exact_total (suc fuel) (c ∷ s) = elim (exact_segment (span_digits (c ∷ s))) [
  | none ↦ none
  | some (part, rest) ↦ plus part (exact_total fuel rest)
]

unfoldable pub exact_duration : (value : String) (bare_unit : ℕ) → Option ℕ
unfolding exact_total
exact_duration value bare_unit =
    if value == ""
    then none
    else if is_digits value
    then (if eqb bare_unit 0 then none else some (digits_value 0 value * bare_unit))
    else exact_total (text_length value) value

-- A duration that an int64 can hold.
abbrev pub in_range : Option ℕ → Option ℕ
in_range none = none
in_range (some n) = if leb n max_int64 then some n else none

multiply_duration-exact :
    (digits : String) (unit : ℕ)
    → 0 < unit
    → multiply_duration digits unit ≡ in_range (some (digits_value 0 digits * unit))
unfolding multiply_duration multiply parse_int
multiply_duration-exact digits unit positive =
    let n = digits_value 0 digits in
    ground (
      arith,
      le-div_iff_mul-le {k = unit} {x = n} {y = max_int64} positive,
      le-mul_of_pos_right n positive,
    )

unit_of-positive : (u : Char) (unit : ℕ) → unit_of u ≡ some unit → 0 < unit
unfolding unit_of
unit_of-positive u unit h = ground arith

-- A segment in range, with the text after it.
abbrev in_range_part : Option (ℕ × String) → Option (ℕ × String)
in_range_part none = none
in_range_part (some (n, rest)) = if leb n max_int64 then some (n, rest) else none

segment-exact : (p : String × String) → segment p ≡ in_range_part (exact_segment p)
unfolding segment exact_segment
segment-exact ([], rest) = refl
segment-exact (c ∷ s, []) = refl
segment-exact (c ∷ s, u ∷ rest) = elim (Option-cases (unit_of u)) [
  | inl missing ↦ ground arith
  | inr (unit, found) ↦
      ground (arith, multiply_duration-exact (c ∷ s) unit (unit_of-positive u unit found))
]

-- With any fuel, the loop computes the exact sum, and fails exactly when that is out of range.
segments-exact :
    (fuel total : ℕ) (s : String)
    → total ≤ max_int64
    → segments fuel total s ≡ in_range (plus total (exact_total fuel s))
unfolding segments add_part exact_total
segments-exact zero total [] h = ground arith
segments-exact zero total (c ∷ s) h = refl
segments-exact (suc fuel) total [] h = ground arith
segments-exact (suc fuel) total (c ∷ s) h =
    elim (Option-cases (exact_segment (span_digits (c ∷ s)))) [
      | inl bad ↦ ground (arith, segment-exact (span_digits (c ∷ s)))
      | inr ((part, rest), found) ↦
          ground
            (arith, segment-exact (span_digits (c ∷ s)), segments-exact fuel (total + part) rest)
    ]

plus-zero : (o : Option ℕ) → plus 0 o ≡ o
plus-zero none = refl
plus-zero (some n) = ground arith

parse_normalized-exact :
    (v : String) (bare_unit : ℕ)
    → parse_normalized v bare_unit ≡ in_range (exact_duration v bare_unit)
unfolding parse_normalized exact_duration
parse_normalized-exact v bare_unit =
    let total = segments-exact (text_length v) 0 v (omega arith) in
    let zero_first = plus-zero (exact_total (text_length v) v) in
    elim (Bool-cases (eqb bare_unit 0)) [
      | inl unitless ↦ ground arith
      | inr united ↦ ground (arith, multiply_duration-exact v bare_unit (ground arith))
    ]

-- parseDuration computes the exact sum of the segments, or the exact value of a bare number with
-- the unit for bare numbers, and fails exactly when the text has not this form or when that number
-- is beyond the largest int64: no step of it overflows.
pub parse_duration-exact :
    (value : String) (bare_unit : ℕ)
    → parse_duration value bare_unit
      ≡ in_range (exact_duration (to_lower (trim_space value)) bare_unit)
unfolding parse_duration
parse_duration-exact value bare_unit =
    parse_normalized-exact (to_lower (trim_space value)) bare_unit

-- The text after the digits is no longer than the text, and after a segment it is shorter.
span_digits-length : (s : String) → text_length (span_digits s).1 ≤ text_length s
unfolding span_digits
span_digits-length [] = omega arith
span_digits-length (c ∷ s) = ground (arith, span_digits-length s)

segment-length :
    (p : String × String) (part : ℕ) (rest : String)
    → segment p ≡ some (part, rest)
    → text_length rest < text_length p.1
unfolding segment
segment-length ([], after) part rest h = absurd (ground arith)
segment-length (c ∷ s, []) part rest h = absurd (ground arith)
segment-length (c ∷ s, u ∷ after) part rest h = ground arith

-- More fuel than the length of the text changes nothing.
segments-enough :
    (fuel total : ℕ) (s : String)
    → text_length s ≤ fuel
    → segments (suc fuel) total s ≡ segments fuel total s
unfolding segments
segments-enough zero total [] h = refl
segments-enough zero total (c ∷ s) h = absurd (omega arith)
segments-enough (suc fuel) total [] h = refl
segments-enough (suc fuel) total (c ∷ s) h = elim (Option-cases (segment (span_digits (c ∷ s)))) [
  | inl bad ↦ ground arith
  | inr ((part, rest), found) ↦
      let shorter = segment-length (span_digits (c ∷ s)) part rest found in
      let bound = span_digits-length (c ∷ s) in
      elim (Option-cases (add_part total part)) [
        | inl over ↦ ground arith
        | inr (total', sum) ↦ ground (arith, segments-enough fuel total' rest)
      ]
]

-- The loop of parseDuration ends: a round that is followed by another one leaves a shorter text, so
-- that there are no more rounds than characters, and with this number as its fuel the loop does not
-- run out: more fuel changes nothing.
pub segments-fuel :
    (fuel total : ℕ) (s : String)
    → ((part : ℕ) (rest : String)
        → segment (span_digits s) ≡ some (part, rest)
        → text_length rest < text_length s)
      × (text_length s ≤ fuel → segments (suc fuel) total s ≡ segments fuel total s)
segments-fuel fuel total s = (
  λ part rest h.
      let shorter = segment-length (span_digits s) part rest h in
      let bound = span_digits-length s in omega (arith, shorter, bound),
  segments-enough fuel total s,
)
