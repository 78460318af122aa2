-- ===== src/Jwt/Issue.antt =====
-- jwt/jwt.go: GenerateRefresh, GenerateAccess and RotateRefresh.
use auth_middleware.Prelude.{ℕ, ◌+◌, String, some, [], ◌∷◌, pos}
use auth_middleware.Prelude.State.{Result, ok, err, M, pure, ◌>>=◌}
use auth_middleware.Errors.{Error}
use auth_middleware.Jwt.Library.{Registered}
use auth_middleware.Jwt.{
  Database, AccessClaims, RefreshClaims, Options, JwtLib, Verified, verified, refused,
  access_token_type, refresh_token_type, verify_refresh,
}

-- `(token, claims, err)` of RotateRefresh; the token is empty beside an error
pub data Rotated : Type 0 where
  rotated : String → RefreshClaims → Rotated
  not_rotated : RefreshClaims → Error → Rotated

module _ (lib : JwtLib) (m : Options) (now : ℕ) where
  registered_claims : (subject : String) (duration : ℕ) → Registered
  registered_claims subject duration = record {
    issuer = m.issuer;
    audience = m.audience ∷ [];
    subject = subject;
    expires_at = some (lib.new_numeric_date (now + duration));
    issued_at = some (lib.new_numeric_date now);
  }

  unfoldable pub new_refresh_claims : (user_email device_id : String) (gen : ℕ) → RefreshClaims
  unfolding registered_claims
  new_refresh_claims user_email device_id gen = record {
    device_id = device_id;
    generation = pos gen;
    registered = registered_claims user_email m.refresh_token_duration;
  }

  unfoldable pub new_access_claims : RefreshClaims → (username : String) → AccessClaims
  unfolding registered_claims
  new_access_claims claims username = record {
    username = username;
    user_email = claims.registered.subject;
    device_id = claims.device_id;
    generation = claims.generation;
    registered = registered_claims claims.registered.subject m.access_token_duration;
  }

  -- signToken, at each type of claims
  unfoldable pub sign_refresh : RefreshClaims → String → Result String
  sign_refresh = lib.refresh.signed_string refresh_token_type

  unfoldable pub sign_access : AccessClaims → String → Result String
  sign_access = lib.access.signed_string access_token_type

  unfoldable pub generate_refresh : (user_email device_id secret : String) (gen : ℕ) → Result String
  unfolding sign_refresh
  generate_refresh user_email device_id secret gen =
      sign_refresh (new_refresh_claims user_email device_id gen) secret

  unfoldable pub finish_rotation : RefreshClaims → Result String → Rotated
  finish_rotation claims (ok token) = rotated token claims
  finish_rotation claims (err e) = not_rotated claims e

  -- RotateRefresh, after the generation was raised
  unfoldable pub rotate_at : RefreshClaims → String → Result ℕ → Rotated
  unfolding finish_rotation sign_refresh
  rotate_at claims secret (err e) = not_rotated claims e
  rotate_at claims secret (ok gen) =
      let new_claims = new_refresh_claims claims.registered.subject claims.device_id gen in
      finish_rotation new_claims (sign_refresh new_claims secret)

  sign_verified : (username : String) → Verified RefreshClaims → Result String
  unfolding sign_access
  sign_verified username (refused _ e) = err e
  sign_verified username (verified claims secret) =
      sign_access (new_access_claims claims username) secret

  module _ {W : Type 0} (db : Database W) where
    unfoldable pub generate_access : (refresh_token username : String) → M W (Result String)
    unfolding sign_verified verify_refresh
    generate_access refresh_token username = do
      v ← verify_refresh db lib m now refresh_token
      pure (sign_verified username v)

    unfoldable pub raise_generation : Verified RefreshClaims → M W Rotated
    unfolding rotate_at
    raise_generation (refused claims e) = pure (not_rotated claims e)
    raise_generation (verified claims secret) = do
      gen ← db.update_device_secret claims.device_id
      pure (rotate_at claims secret gen)

    unfoldable pub rotate_refresh : String → M W Rotated
    unfolding raise_generation verify_refresh
    rotate_refresh refresh_token = do
      v ← verify_refresh db lib m now refresh_token
      raise_generation v
