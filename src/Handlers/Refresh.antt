-- ===== src/Handlers/Refresh.antt =====
-- server/internal/handlers/refresh/refresh.go
pub mod Rotation
use auth_middleware.Prelude.{ℕ, String, Bool, true, false, Option, none, some, eqb, if◌then◌else◌}
use auth_middleware.Prelude.State.{Result, ok, err, M, pure, ◌>>=◌}
use auth_middleware.Errors.{Error, is_invalid_token, is_token_revoked, is_user_not_found}
use auth_middleware.Jwt.{
  Database, RefreshClaims, Options, JwtLib, Verified, verified, refused, verify_refresh,
}
use auth_middleware.Jwt.Issue.{Rotated, rotated, not_rotated, generate_access, rotate_refresh}
use auth_middleware.Flight.{Outcome, Stored, Group, do_flight}
use auth_middleware.Handlers.Response.{
  TokenPair, Writer, fresh, text, pair, set_header, json, set_auth_error, unauthorized,
  no_store_json, bearer_challenge, invalid_token_challenge,
}
use auth_middleware.Handlers.RefreshToken.{Request, from_request, set_cookie}
use auth_middleware.Handlers.Options.{DeviceDb, UsersDb}
use Prim.Native.String.{◌++◌}

-- rotateError
pub record RotateError : Type 0 where
  pub message : String
  pub status : ℕ
  pub cause : Error

-- What `flight.Do` may return as the error: one that `errors.As` finds to be a rotateError, or not.
pub data Failure : Type 0 where
  rotate_error : RotateError → Failure
  plain : Error → Failure

pub record Handler (W V : Type 0) : Type 1 where
  pub db : DeviceDb W
  pub users : UsersDb W
  -- the JWTManager
  pub jwt_db : Database W
  pub jwt_options : Options
  pub flight : Group W V
  pub hash_key : String → String
  pub stored : Stored V TokenPair
  pub secure_cookie : Bool

abbrev pub no_tokens : TokenPair
no_tokens = record { access_token = ""; refresh_token = "" }

abbrev pub fail : String → ℕ → Error → Outcome Failure TokenPair
fail message status cause = record {
  value = no_tokens;
  failure = some (rotate_error (record { message = message; status = status; cause = cause }));
}

module _ {W V : Type 0} (lib : JwtLib) (h : Handler W V) (now : ℕ) where
  -- a failure of the deletion is only logged
  delete_device_on_reuse : RefreshClaims → Error → M W (Unit {0})
  delete_device_on_reuse claims e =
      if is_token_revoked e
      then (do _ ← h.db.delete_device claims.registered.subject claims.device_id; pure tt)
      else pure tt

  paired : (refresh_token : String) → Result String → Outcome Failure TokenPair
  paired refresh_token (err e) = fail "Access token generation failed" 500 e
  paired refresh_token (ok access_token) = record {
    value = record { access_token = access_token; refresh_token = refresh_token };
    failure = none;
  }

  after_rotation : (username : String) → Rotated → M W (Outcome Failure TokenPair)
  unfolding delete_device_on_reuse paired
  after_rotation username (rotated token claims) = do
    access ← generate_access lib h.jwt_options now h.jwt_db token username
    pure (paired token access)
  after_rotation username (not_rotated claims e) =
      if is_invalid_token e
      then (do
        _ ← delete_device_on_reuse claims e
        pure (fail "Invalid session or expired refresh token" 401 e))
      else pure (fail "Failed to rotate refresh token" 500 e)

  after_username : (refresh_token : String) → Result String → M W (Outcome Failure TokenPair)
  unfolding after_rotation
  after_username refresh_token (err e) = pure (
      if is_user_not_found e
      then fail "User not found" 401 e
      else fail "Failed to fetch username" 500 e)
  after_username refresh_token (ok username) = do
    r ← rotate_refresh lib h.jwt_options now h.jwt_db refresh_token
    after_rotation username r

  after_verify : (refresh_token : String) → Verified RefreshClaims → M W (Outcome Failure TokenPair)
  unfolding after_username delete_device_on_reuse
  after_verify refresh_token (refused claims e) = do
    _ ← delete_device_on_reuse claims e
    pure (fail "Invalid session or expired refresh token" 401 e)
  after_verify refresh_token (verified claims _) = do
    username ← h.users.get_username claims.registered.subject
    after_username refresh_token username

  unfoldable pub rotate : String → M W (Outcome Failure TokenPair)
  unfolding after_verify
  rotate refresh_token = do
    v ← verify_refresh h.jwt_db lib h.jwt_options now refresh_token
    after_verify refresh_token v

  -- the part of Refresh after `flight.Do`
  unfoldable pub answer_refresh : Outcome Failure TokenPair → Writer
  unfolding set_header set_auth_error json no_store_json set_cookie
  answer_refresh o = elim o.failure [
    | none ↦
        no_store_json true (pair o.value) 200
          (set_cookie lib.registered o.value.refresh_token h.secure_cookie fresh)
    | some (plain e) ↦ json false (text "Failed to rotate refresh token") 500 fresh
    | some (rotate_error e) ↦ json false (text e.message) e.status (
        if eqb e.status 401
        then set_auth_error e.cause (set_header "WWW-Authenticate" invalid_token_challenge fresh)
        else fresh)
  ]

  refresh_token_of : Result String → M W Writer
  unfolding unauthorized answer_refresh do_flight
  refresh_token_of (err e) = pure (unauthorized bearer_challenge "Invalid refresh token" fresh)
  refresh_token_of (ok token) = do
    o ← do_flight h.stored h.hash_key h.flight ("refresh:" ++ token) false (rotate token)
    pure (answer_refresh o)

  unfoldable pub refresh : Request → M W Writer
  unfolding refresh_token_of from_request
  refresh r = refresh_token_of (from_request r)

  answer_access : Result String → Writer
  unfolding no_store_json unauthorized json set_auth_error
  answer_access (ok token) = no_store_json true (text token) 200 fresh
  answer_access (err e) =
      if is_invalid_token e
      then unauthorized invalid_token_challenge "Invalid session or expired refresh token"
          (set_auth_error e fresh)
      else json false (text "Refresh failed") 500 fresh

  access_for : (refresh_token : String) → Result String → M W Writer
  unfolding answer_access unauthorized json
  access_for refresh_token (err e) = pure (
      if is_user_not_found e
      then unauthorized invalid_token_challenge "User not found" fresh
      else json false (text "Failed to fetch username") 500 fresh)
  access_for refresh_token (ok username) = do
    r ← generate_access lib h.jwt_options now h.jwt_db refresh_token username
    pure (answer_access r)

  access_of : (refresh_token : String) → Verified RefreshClaims → M W Writer
  unfolding access_for delete_device_on_reuse unauthorized set_auth_error
  access_of refresh_token (refused claims e) = do
    _ ← delete_device_on_reuse claims e
    pure (
        unauthorized invalid_token_challenge "Invalid session or expired refresh token"
          (set_auth_error e fresh))
  access_of refresh_token (verified claims _) = do
    username ← h.users.get_username claims.registered.subject
    access_for refresh_token username

  access_token_of : Result String → M W Writer
  unfolding access_of unauthorized
  access_token_of (err e) = pure (unauthorized bearer_challenge "Invalid refresh token" fresh)
  access_token_of (ok token) = do
    v ← verify_refresh h.jwt_db lib h.jwt_options now token
    access_of token v

  unfoldable pub refresh_access : Request → M W Writer
  unfolding access_token_of from_request
  refresh_access r = access_token_of (from_request r)
