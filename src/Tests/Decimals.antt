-- ===== src/Tests/Decimals.antt =====
-- A printer of decimal digits, as strconv.Itoa is documented.
use Prim.Native.Char.{Char, code}
use Prim.Native.String.{[], ◌∷◌}
use auth_middleware.Prelude.{
  ℕ, zero, suc, ◌+◌, ◌-◌, ◌*◌, ◌/◌, ◌%◌, ◌<◌, ◌≤◌, String, ◌≡◌, ◌≢◌, refl, sym, ap, ◌∙◌, true, ltb,
  if◌then◌else◌, arith, Bool-cases, inl, inr,
}
use auth_middleware.Text.{append}
use auth_middleware.Config.Duration.{is_digit, is_digits, digits_value, text_length}
use auth_middleware.Cache.Redis.Secrets.Entries.{Decimal}

abbrev digit : ℕ → Char
digit zero = "0"
digit (suc zero) = "1"
digit (suc (suc zero)) = "2"
digit (suc (suc (suc zero))) = "3"
digit (suc (suc (suc (suc zero)))) = "4"
digit (suc (suc (suc (suc (suc zero))))) = "5"
digit (suc (suc (suc (suc (suc (suc zero)))))) = "6"
digit (suc (suc (suc (suc (suc (suc (suc zero))))))) = "7"
digit (suc (suc (suc (suc (suc (suc (suc (suc zero)))))))) = "8"
digit n = "9"

abbrev last : String → ℕ → String
last w n = append w (digit n ∷ [])

abbrev print : (fuel n : ℕ) → String
print zero n = ""
print (suc fuel) n =
    let rest = print fuel (n / 10) in if ltb n 10 then last "" n else last rest (n % 10)

abbrev pub itoa : ℕ → String
itoa n = print (suc n) n

code-digit : (n : ℕ) → n < 10 → code (digit n) ≡ 48 + n
code-digit zero small = omega arith
code-digit (suc zero) small = omega arith
code-digit (suc (suc zero)) small = omega arith
code-digit (suc (suc (suc zero))) small = omega arith
code-digit (suc (suc (suc (suc zero)))) small = omega arith
code-digit (suc (suc (suc (suc (suc zero))))) small = omega arith
code-digit (suc (suc (suc (suc (suc (suc zero)))))) small = omega arith
code-digit (suc (suc (suc (suc (suc (suc (suc zero))))))) small = omega arith
code-digit (suc (suc (suc (suc (suc (suc (suc (suc zero)))))))) small = omega arith
code-digit (suc (suc (suc (suc (suc (suc (suc (suc (suc zero))))))))) small = omega arith
code-digit (suc (suc (suc (suc (suc (suc (suc (suc (suc (suc n)))))))))) small =
    absurd (omega arith)

digits_value-last :
    (k : ℕ) (w : String) (n : ℕ) → n < 10 → digits_value k (last w n) ≡ digits_value k w * 10 + n
unfolding digits_value
digits_value-last k [] n small = ap (λ m. k * 10 + (m - 48)) (code-digit n small) ∙ omega arith
digits_value-last k (c ∷ w) n small = digits_value-last (k * 10 + (code c - b'0')) w n small

digit-is_digit : (c : Char) (n : ℕ) → n < 10 → code c ≡ 48 + n → is_digit c ≡ true
unfolding is_digit
digit-is_digit c n small h = ground arith

is_digits-last : (w : String) (n : ℕ) → n < 10 → is_digits w ≡ true → is_digits (last w n) ≡ true
unfolding is_digits
is_digits-last [] n small h =
    let e = digit-is_digit (digit n) n small (code-digit n small) in ground arith
is_digits-last (c ∷ w) n small h = ground (arith, is_digits-last w n small)

last-present : (w : String) (n : ℕ) → last w n ≢ ""
last-present [] n e = absurd (omega (arith, ap text_length e))
last-present (c ∷ w) n e = absurd (omega (arith, ap text_length e))

print-small : (fuel n : ℕ) → n < 10 → print (suc fuel) n ≡ last "" n
print-small fuel n h = ground arith

print-large : (fuel n : ℕ) → 10 ≤ n → print (suc fuel) n ≡ last (print fuel (n / 10)) (n % 10)
print-large fuel n h = ground arith

print_value : (fuel n : ℕ) → n < fuel → digits_value 0 (print fuel n) ≡ n
unfolding digits_value
print_value zero n h = absurd (omega arith)
print_value (suc fuel) n h = elim (Bool-cases (ltb n 10)) [
  | inl small ↦
      ap (digits_value 0) (print-small fuel n (ground arith))
      ∙ digits_value-last 0 "" n (ground arith)
      ∙ omega arith
  | inr large ↦
      let e : 10 ≤ n = ground arith in
      let below : n / 10 < fuel = omega arith in
      ap (digits_value 0) (print-large fuel n e)
      ∙ digits_value-last 0 (print fuel (n / 10)) (n % 10) (omega arith)
      ∙ ap (λ m. m * 10 + n % 10) (print_value fuel (n / 10) below)
      ∙ omega arith
]

print-digits : (fuel n : ℕ) → is_digits (print fuel n) ≡ true
unfolding is_digits
print-digits zero n = refl
print-digits (suc fuel) n = elim (Bool-cases (ltb n 10)) [
  | inl small ↦
      ap is_digits (print-small fuel n (ground arith)) ∙ is_digits-last "" n (ground arith) refl
  | inr large ↦
      let e : 10 ≤ n = ground arith in
      ap is_digits (print-large fuel n e)
      ∙ is_digits-last (print fuel (n / 10)) (n % 10) (omega arith) (print-digits fuel (n / 10))
]

itoa-present : (n : ℕ) → itoa n ≢ ""
itoa-present n e = elim (Bool-cases (ltb n 10)) [
  | inl small ↦ last-present "" n (sym (print-small n n (ground arith)) ∙ e)
  | inr large ↦
      let big : 10 ≤ n = ground arith in
      last-present (print n (n / 10)) (n % 10) (sym (print-large n n big) ∙ e)
]

pub itoa-Decimal : Decimal itoa
itoa-Decimal = record {
  digits = λ n. print-digits (suc n) n;
  present = itoa-present;
  value_of = λ n. print_value (suc n) n (omega arith);
}
