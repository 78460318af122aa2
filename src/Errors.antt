-- ===== src/Errors.antt =====
-- The errors of the program and `errors.Is`: jwt/jwt.go, database/device.go and
-- server/internal/usersdb/usersdb.go declare the sentinels. An error that the program only passes
-- on is told apart by where it comes from.
use mathlib.Core.Bool.{Bool, true, false, ◌||◌}
use Prim.Native.String.{String}

pub data Error : Type 0 where
  -- jwt
  invalid_token unexpected_signing_method token_revoked device_not_found invalid_signature : Error
  sign_failed : String → Error
  -- database/sql and pgx
  no_rows : Error
  driver : String → Error
  pg : (code constraint : String) → Error
  -- database and usersdb
  user_not_found external_users : Error
  -- context.DeadlineExceeded
  deadline_exceeded : Error
  -- what a handler passes on from a parser, a provider or a cache
  other : String → Error
  -- errors.Join of two errors
  joined : Error → Error → Error

-- The value of a sentinel is what its constructor says; `ErrTokenRevoked`, `ErrDeviceNotFound` and
-- `ErrInvalidSignature` wrap `ErrInvalidToken` by `%w`.
abbrev pub is_invalid_token : Error → Bool
is_invalid_token invalid_token = true
is_invalid_token token_revoked = true
is_invalid_token device_not_found = true
is_invalid_token invalid_signature = true
is_invalid_token (joined a b) = is_invalid_token a || is_invalid_token b
is_invalid_token _ = false

abbrev pub is_token_revoked : Error → Bool
is_token_revoked token_revoked = true
is_token_revoked (joined a b) = is_token_revoked a || is_token_revoked b
is_token_revoked _ = false

abbrev pub is_device_not_found : Error → Bool
is_device_not_found device_not_found = true
is_device_not_found (joined a b) = is_device_not_found a || is_device_not_found b
is_device_not_found _ = false

abbrev pub is_invalid_signature : Error → Bool
is_invalid_signature invalid_signature = true
is_invalid_signature (joined a b) = is_invalid_signature a || is_invalid_signature b
is_invalid_signature _ = false

abbrev pub is_no_rows : Error → Bool
is_no_rows no_rows = true
is_no_rows (joined a b) = is_no_rows a || is_no_rows b
is_no_rows _ = false

abbrev pub is_user_not_found : Error → Bool
is_user_not_found user_not_found = true
is_user_not_found (joined a b) = is_user_not_found a || is_user_not_found b
is_user_not_found _ = false

-- `err == context.DeadlineExceeded`
abbrev pub is_deadline_exceeded : Error → Bool
is_deadline_exceeded deadline_exceeded = true
is_deadline_exceeded _ = false
