-- ===== src/Handlers/Login.antt =====
-- server/internal/handlers/login/login.go: Login, and the function that handleExchange hands to flight.Do
pub mod Entry
pub mod Exchange
pub mod Rollback
use auth_middleware.Prelude.{
  ℕ, String, Bool, true, false, not, ◌&&◌, ◌||◌, Option, none, some, ◌==◌, if◌then◌else◌,
}
use auth_middleware.Prelude.State.{Result, ok, err, M, pure, ◌>>=◌}
use auth_middleware.Errors.{Error, is_user_not_found, is_deadline_exceeded, joined}
use auth_middleware.Cache.States.{StateCache}
use auth_middleware.Flight.{Outcome}
use auth_middleware.Providers.{Userinfo, ProviderToken}
use auth_middleware.Jwt.{Database, JwtLib}
use auth_middleware.Jwt
use auth_middleware.Jwt.Issue.{generate_refresh, generate_access}
use auth_middleware.Handlers.Response.{
  TokenPair, Writer, fresh, text, pair, login, set_header, json, no_store_json,
}
use auth_middleware.Handlers.RefreshToken.{Request, set_cookie}
use auth_middleware.Handlers.Options.{DeviceDb, UsersDb, Options}

-- The interface OAuth2Client; ValidateIssuer gives the error, if there is one
pub record OAuth2Client (W : Type 0) : Type 0 where
  pub auth_url : (state verifier : String) → String
  pub validate_issuer : (iss : String) → Option Error
  pub exchange : (code verifier : String) → M W (Result ProviderToken)
  pub get_user : ProviderToken → M W (Result Userinfo)
  pub revoke : ProviderToken → M W (Result (Unit {0}))

-- crypto/rand, in the texts that the program makes of its bytes
pub record Random (W : Type 0) : Type 0 where
  pub generate_verifier : M W String
  pub generate_state : M W String
  pub generate_device_secret : M W String

pub record Handler (W : Type 0) : Type 0 where
  -- nil in the stateless mode
  pub db : Option (DeviceDb W)
  pub users : UsersDb W
  -- the JWTManager
  pub jwt_db : Database W
  pub jwt_options : Jwt.Options
  pub state_cache : StateCache W
  pub oauth2_client : OAuth2Client W
  pub options : Options
  pub random : Random W

pub record ExchangeResponse : Type 0 where
  pub success : Bool
  pub message : String
  pub state : ℕ
  pub oauth2_token : Option TokenPair
  pub auth_token : Option TokenPair

abbrev pub Exchanged : Type 0
Exchanged = Outcome Error ExchangeResponse

abbrev pub failed : String → ℕ → Option Error → Exchanged
failed message state failure = record {
  value = record {
    success = false;
    message = message;
    state = state;
    oauth2_token = none;
    auth_token = none;
  };
  failure = failure;
}

abbrev pub provider_pair : ProviderToken → TokenPair
provider_pair t = record { access_token = t.access_token; refresh_token = t.refresh_token }

abbrev pub succeeded : ProviderToken → Option TokenPair → Exchanged
succeeded t auth_token = record {
  value = record {
    success = true;
    message = "Login successful";
    state = 200;
    oauth2_token = some (provider_pair t);
    auth_token = auth_token;
  };
  failure = none;
}

unfoldable pub provider_error_status : String → ℕ
provider_error_status e =
    if e == "access_denied"
    then 403
    else if e == "server_error"
    then 502
    else if e == "temporarily_unavailable"
    then 503
    else 400

-- errors.Join of an error with what a deletion returned
unfoldable pub join_errors : Error → Result (Unit {0}) → Error
join_errors e (ok done) = e
join_errors e (err why) = joined e why

module _ {W : Type 0} (lib : JwtLib) (h : Handler W) (now : ℕ) where
  answer_login : (state verifier : String) → Result (Unit {0}) → Writer
  unfolding json no_store_json
  answer_login state verifier (err _) =
      json false (text "Failed to initialize login session") 500 fresh
  answer_login state verifier (ok _) =
      no_store_json true
        (login (if h.options.client_pkce then verifier else "")
          (h.oauth2_client.auth_url state verifier))
        200 fresh

  -- Login
  unfoldable pub start_login : M W Writer
  unfolding answer_login
  start_login = do
    verifier ← h.random.generate_verifier
    state ← h.random.generate_state
    r ← h.state_cache.set state verifier
    pure (answer_login state verifier r)

  -- The steps of handleExchange's function, the last one first.
  issued :
      DeviceDb W
      → ProviderToken
      → (email device_id refresh_token : String) → Result String
      → M W Exchanged
  unfolding join_errors
  issued db t email device_id refresh_token (err e) = do
    deletion ← db.delete_device email device_id
    pure (failed "Access token generation failed" 500 (some (join_errors e deletion)))
  issued db t email device_id refresh_token (ok access_token) =
      let done =
        succeeded t
          (some (record { access_token = access_token; refresh_token = refresh_token })) in
      if not h.options.pass_oauth_token
      then (do _ ← h.oauth2_client.revoke t; pure done)
      else pure done

  refresh_issued :
      DeviceDb W
      → ProviderToken
      → (email username device_id : String) → Result String
      → M W Exchanged
  unfolding issued join_errors
  refresh_issued db t email username device_id (err e) = do
    deletion ← db.delete_device email device_id
    pure (failed "Refresh token generation failed" 500 (some (join_errors e deletion)))
  refresh_issued db t email username device_id (ok refresh_token) = do
    access ← generate_access lib h.jwt_options now h.jwt_db refresh_token username
    issued db t email device_id refresh_token access

  pub device_saved :
      DeviceDb W → ProviderToken → (email username secret : String) → Result String → M W Exchanged
  unfolding refresh_issued
  device_saved db t email username secret (err e) = pure (
      if is_user_not_found e
      then failed "User not found" 401 none
      else failed "Failed to register device session" 500 (some e))
  device_saved db t email username secret (ok device_id) =
      refresh_issued db t email username device_id
        (generate_refresh lib h.jwt_options now email device_id secret 1)

  username_known :
      DeviceDb W → ProviderToken → (device email : String) → Result String → M W Exchanged
  unfolding device_saved
  username_known db t device email (err e) = pure (
      if is_user_not_found e
      then failed "User not found" 401 none
      else failed "Failed to fetch username" 500 (some e))
  username_known db t device email (ok username) = do
    secret ← h.random.generate_device_secret
    saved ← db.save_device_secret email device secret
    device_saved db t email username secret saved

  registered : DeviceDb W → ProviderToken → (device email : String) → Result String → M W Exchanged
  unfolding username_known
  registered db t device email (err e) = pure (failed "Failed to create user" 500 (some e))
  registered db t device email (ok username) = username_known db t device email (ok username)

  may_register : Result String → Bool
  may_register (ok _) = false
  may_register (err e) = is_user_not_found e && not h.users.external && h.options.allow_registration

  username_read :
      DeviceDb W → ProviderToken → (device : String) → Userinfo → Result String → M W Exchanged
  unfolding may_register registered
  username_read db t device user r =
      if may_register r
      then (do
        created ← h.users.create_user user.name user.email
        registered db t device user.email created)
      else username_known db t device user.email r

  pub user_fetched :
      DeviceDb W → ProviderToken → (device : String) → Result Userinfo → M W Exchanged
  unfolding username_read
  user_fetched db t device (err e) = pure (failed "Failed to fetch user info" 500 (some e))
  user_fetched db t device (ok user) = do
    username ← h.users.get_username user.email
    username_read db t device user username

  session_for : ProviderToken → (device : String) → Option (DeviceDb W) → M W Exchanged
  unfolding user_fetched
  session_for t device none = pure (succeeded t none)
  session_for t device (some db) = do
    user ← h.oauth2_client.get_user t
    user_fetched db t device user

  code_exchanged : (device : String) → Result ProviderToken → M W Exchanged
  unfolding session_for
  code_exchanged device (err e) = pure (
      if is_deadline_exceeded e
      then failed "OAuth2 provider timeout" 504 (some e)
      else failed "Code exchange failed" 500 (some e))
  code_exchanged device (ok t) = session_for t device h.db

  verifier_taken : (code device header_verifier : String) → Result String → M W Exchanged
  unfolding code_exchanged
  verifier_taken code device header_verifier (err e) =
      pure (failed "Failed to retrieve login session" 500 (some e))
  verifier_taken code device header_verifier (ok verifier) =
      if verifier == ""
      then pure (failed "Invalid or expired state" 400 none)
      else if h.options.client_pkce && not (header_verifier == verifier)
      then pure (failed "Invalid PKCE verifier" 400 none)
      else (do t ← h.oauth2_client.exchange code verifier; code_exchanged device t)

  -- the function that handleExchange hands to flight.Do
  unfoldable pub exchange : (code state device header_verifier : String) → M W Exchanged
  unfolding verifier_taken
  exchange code state device header_verifier = do
    verifier ← h.state_cache.take state
    verifier_taken code device header_verifier verifier
