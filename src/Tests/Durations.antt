-- ===== src/Tests/Durations.antt =====
-- The theorems on durations at concrete texts.
use auth_middleware.Prelude.{ℕ, String, ◌≡◌, ◌≤◌, ◌<◌, refl, some, none}
use auth_middleware.Config.Duration.{segments, segment, span_digits, text_length, parse_duration}
use auth_middleware.Config.Duration.Exact.{exact_duration, parse_duration-exact, segments-fuel}

parse_duration-exact_example : parse_duration " 1D12h " 0 ≡ some 129600000000000
unfolding exact_duration auth_middleware.Text.to_lower auth_middleware.Text.trim_space
    auth_middleware.Config.Duration.is_digits auth_middleware.Config.Duration.Exact.exact_segment
    auth_middleware.Config.Duration.span_digits auth_middleware.Config.Duration.unit_of
    auth_middleware.Config.Duration.digits_value
parse_duration-exact_example = parse_duration-exact " 1D12h " 0

segments-fuel_example :
    ((part : ℕ) (rest : String)
      → segment (span_digits "1d12h") ≡ some (part, rest)
      → text_length rest < text_length "1d12h")
    × (text_length "1d12h" ≤ 5 → segments 6 0 "1d12h" ≡ segments 5 0 "1d12h")
segments-fuel_example = segments-fuel 5 0 "1d12h"

too_long : parse_duration "106751d106751d" 0 ≡ none
unfolding parse_duration
too_long = refl

trailing_digits : parse_duration "1h30" 0 ≡ none
unfolding parse_duration
trailing_digits = refl
