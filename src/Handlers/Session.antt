-- ===== src/Handlers/Session.antt =====
-- server/internal/handlers/session/session.go
pub mod Access
use auth_middleware.Prelude.{
  ℕ, String, Bool, true, false, not, Option, none, some, ◌==◌, if◌then◌else◌,
}
use auth_middleware.Prelude.State.{Result, ok, err, M, pure, ◌>>=◌}
use auth_middleware.Text.{cut, equal_fold_ascii}
use auth_middleware.Jwt.{
  Database, AccessClaims, RefreshClaims, Options, JwtLib, Verified, verified, refused,
  verify_access, verify_refresh,
}
use auth_middleware.Jwt.Library.{TokenLib}
use auth_middleware.Identity.{Claims, Signer, sign}
use auth_middleware.Handlers.Response.{
  Writer, fresh, text, set_header, write_header, json, set_auth_error, unauthorized,
  bearer_challenge, invalid_token_challenge,
}
use auth_middleware.Handlers.RefreshToken.{Request, from_request, clear_cookie}
use auth_middleware.Handlers.Options.{DeviceDb, UsersDb}

unfoldable pub scheme_token : Option (String × String) → Option String
unfolding equal_fold_ascii
scheme_token none = none
scheme_token (some (scheme, token)) = if equal_fold_ascii scheme "bearer" then some token else none

-- bearerToken, its Boolean as an option
unfoldable pub bearer_token : Request → Option String
unfolding scheme_token cut
bearer_token r = scheme_token (cut r.authorization b' ')

pub record Handler (W : Type 0) : Type 0 where
  pub db : DeviceDb W
  pub users_db : UsersDb W
  -- the JWTManager
  pub jwt_db : Database W
  pub jwt_options : Options
  pub identity_signer : Option Signer

module _ {W : Type 0} (lib : JwtLib) (identity_lib : TokenLib Claims) (h : Handler W)
    (now : ℕ) where
  plain_headers : AccessClaims → Writer → Writer
  unfolding set_header
  plain_headers claims w =
      let w' =
        set_header "X-Forwarded-Device-ID" claims.device_id
          (set_header "X-Forwarded-User-Email" claims.user_email w) in
      if not (claims.username == "")
      then set_header "X-Forwarded-Username" claims.username w'
      else w'

  signed_header : Result String → Writer → Writer
  unfolding json set_header write_header
  signed_header (err e) w = json false (text "Failed to sign identity token") 500 w
  signed_header (ok token) w = write_header 204 (set_header "X-Forwarded-Identity" token w)

  forward : AccessClaims → Option Signer → Writer → Writer
  unfolding plain_headers signed_header sign
  forward claims none w = write_header 204 (plain_headers claims w)
  forward claims (some signer) w =
      signed_header
        (sign lib.new_numeric_date identity_lib signer now claims.user_email claims.username
          claims.device_id claims.registered.expires_at)
        w

  invalid_access : Verified AccessClaims → (AccessClaims → M W Writer) → M W Writer
  unfolding set_auth_error unauthorized
  invalid_access (refused _ e) k =
      pure (unauthorized invalid_token_challenge "Invalid access token" (set_auth_error e fresh))
  invalid_access (verified claims _) k = k claims

  -- the two guards that Verify and DeleteMe begin with
  with_access : Option String → (AccessClaims → M W Writer) → M W Writer
  unfolding invalid_access unauthorized
  with_access none k = pure (unauthorized bearer_challenge "Missing Bearer token" fresh)
  with_access (some token) k = do
    v ← verify_access h.jwt_db lib h.jwt_options now token
    invalid_access v k

  unfoldable pub verify : Request → M W Writer
  unfolding with_access forward bearer_token
  verify r = with_access (bearer_token r) (λ claims. pure (forward claims h.identity_signer fresh))

  delete_session : Verified RefreshClaims → M W (Result (Unit {0}))
  delete_session (refused _ _) = pure (ok tt)
  delete_session (verified claims _) = h.db.delete_device claims.registered.subject claims.device_id

  logout_token : Result String → M W (Result (Unit {0}))
  unfolding delete_session
  logout_token (err _) = pure (ok tt)
  logout_token (ok token) = do
    v ← verify_refresh h.jwt_db lib h.jwt_options now token
    delete_session v

  unfoldable pub logout : Request → M W Writer
  unfolding logout_token clear_cookie json from_request
  logout r = do
    _ ← logout_token (from_request r)
    pure (json true (text "Logged out and device session revoked") 200 (clear_cookie fresh))

  finish_delete : Result (Unit {0}) → Writer
  unfolding json clear_cookie
  finish_delete (err _) = json false (text "Failed to delete account") 500 fresh
  finish_delete (ok _) = json true (text "Account deleted") 200 (clear_cookie fresh)

  delete_user : (user_email : String) → Result (Unit {0}) → M W Writer
  unfolding finish_delete json
  delete_user user_email (err _) =
      pure (json false (text "Failed to remove device sessions") 500 fresh)
  delete_user user_email (ok _) = do r ← h.users_db.delete_user user_email; pure (finish_delete r)

  unfoldable pub delete_me : Request → M W Writer
  unfolding with_access delete_user bearer_token
  delete_me r = with_access (bearer_token r) λ claims. do
    removed ← h.db.delete_all_devices claims.user_email
    delete_user claims.user_email removed
