-- ===== src/Config/Load.antt =====
-- server/internal/config/config.go: Load. The environment is a function from names to values, where
-- a missing variable is empty, as for os.Getenv. Load collects its errors and goes on: the errors so
-- far are the state here, in their order, and Load fails if there is one in the end.
pub mod Sound
pub mod Valid
use Prim.Native.String.{[], ◌∷◌, len}
use auth_middleware.Prelude.{
  ℕ, zero, suc, ◌-◌, ◌*◌, String, Bool, true, false, not, ◌&&◌, ◌||◌, Option, none, some, List, ltb,
  leb, eqb, ◌==◌, if◌then◌else◌, ℤ, pos, negsuc, one_of, no_items, is_empty, ◌++◌,
}
use auth_middleware.Prelude.State.{M, pure, ◌>>=◌, ◌>>◌}
use auth_middleware.Text.{to_lower, trim_space}
use auth_middleware.Config.Duration.{
  second, max_int64, is_digits, digits_value, parse_int, parse_duration,
}
use auth_middleware.Identity.{min_secret_length}
use auth_middleware.Schema.{is_identifier, parse_user_email_reference}
use auth_middleware.Providers.{is_builtin}
use auth_middleware.Config.Items.{split_list}
use Prim.Native.Char.{Char, code}

pub record Http : Type 0 where
  pub address : String
  pub mode : String

pub record DatabaseConfig : Type 0 where
  pub url : String
  pub max_open_conns : ℕ
  pub max_idle_conns : ℕ
  pub conn_max_lifetime : ℕ
  pub conn_max_idle_time : ℕ
  pub cleanup_interval : ℕ
  pub auto_create_schema : Bool
  pub user_email_reference : String
  pub user_username_column : String

pub record JwtConfig : Type 0 where
  pub access_token_duration : ℕ
  pub refresh_token_duration : ℕ
  pub issuer : String
  pub audience : String
  pub identity_secret : String

pub record Redis : Type 0 where
  pub url : String

pub record Client : Type 0 where
  pub id : String
  pub secret : String
  pub redirect_url : String
  pub pkce : Bool

pub record Oidc : Type 0 where
  pub issuer_url : String

pub record Provider : Type 0 where
  pub name : String
  pub auth_url : String
  pub token_url : String
  pub userinfo_url : String
  pub revoke_url : String

pub record OAuth2 : Type 0 where
  pub client : Client
  pub scopes : List String
  pub oidc : Option Oidc
  pub provider : Option Provider

pub record Auth : Type 0 where
  pub allow_registration : Bool
  pub pass_oauth_token : Bool
  pub allow_unverified_email : Bool

pub record Config : Type 0 where
  pub http : Http
  pub database : Option DatabaseConfig
  pub jwt : JwtConfig
  pub redis : Option Redis
  pub oauth2 : Option OAuth2
  pub auth : Auth

-- DevMode
unfoldable pub dev_mode : Http → Bool
dev_mode h = h.mode == "development"

-- The defaults; durations in nanoseconds
abbrev pub default_db_max_open_conns : ℕ
default_db_max_open_conns = 20

abbrev pub default_db_max_idle_conns : ℕ
default_db_max_idle_conns = 15

abbrev pub default_db_conn_max_lifetime : ℕ
default_db_conn_max_lifetime = 5 * 60 * second

abbrev pub default_db_conn_max_idle_time : ℕ
default_db_conn_max_idle_time = 2 * 60 * second

abbrev pub default_db_cleanup_interval : ℕ
default_db_cleanup_interval = 24 * 60 * 60 * second

abbrev pub default_jwt_access_duration : ℕ
default_jwt_access_duration = 15 * 60 * second

abbrev pub default_jwt_refresh_duration : ℕ
default_jwt_refresh_duration = 7 * 24 * 60 * 60 * second

-- The errors of the file, each with the variable or the value that its text quotes
pub data Problem : Type 0 where
  invalid_integer : (key value : String) → Problem
  invalid_duration : (key value : String) → Problem
  non_positive_duration : (key : String) → Problem
  invalid_user_email_reference : Problem
  invalid_username_column : (column : String) → Problem
  username_column_without_reference : Problem
  identity_secret_too_short : Problem
  oidc_missing_client : Problem
  generic_provider_missing_urls : Problem

pub data Loaded : Type 0 where
  loaded : Config → Loaded
  failed : List Problem → Loaded

abbrev pub Reader : Type 0 → Type 0
Reader = M (List Problem)

-- fail: errors.Join
unfoldable pub fail : Problem → Reader (Unit {0})
fail p problems = (tt, problems ++ one_of p)

-- strconv.Atoi: digits with a sign or none, in the range of an int64
unfoldable pub unsigned : String → Option ℕ
unfolding is_digits parse_int
unsigned s = if s == "" then none else if is_digits s then parse_int s else none

abbrev pub negated : ℕ → Option ℤ
negated zero = some (pos zero)
negated (suc n) = if leb n max_int64 then some (negsuc n) else none

unfoldable pub negative : String → Option ℤ
unfolding is_digits digits_value
negative s = if s == "" then none else if is_digits s then negated (digits_value 0 s) else none

abbrev pub positive : Option ℕ → Option ℤ
positive none = none
positive (some n) = some (pos n)

unfoldable pub atoi : String → Option ℤ
unfolding unsigned negative
atoi [] = none
atoi (c ∷ s) =
    if eqb (code c) b'-'
    then negative s
    else if eqb (code c) b'+'
    then positive (unsigned s)
    else positive (unsigned (c ∷ s))

unfoldable pub read_integer : (key value : String) (fallback : ℕ) → Option ℤ → Reader ℕ
unfolding fail
read_integer key value fallback none = fail (invalid_integer key value) >> pure fallback
read_integer key value fallback (some (pos n)) = pure n
read_integer key value fallback (some (negsuc n)) =
    fail (invalid_integer key value) >> pure fallback

unfoldable pub read_duration : (key value : String) (fallback : ℕ) → Option ℕ → Reader ℕ
unfolding fail
read_duration key value fallback none = fail (invalid_duration key value) >> pure fallback
read_duration key value fallback (some d) = pure d

-- `if c { env.fail(p) }`
unfoldable pub fail_if : Bool → Problem → Reader (Unit {0})
unfolding fail
fail_if c p = if c then fail p else pure tt

unfoldable pub check_column : (reference column : String) → Reader (Unit {0})
unfolding fail_if is_identifier
check_column reference column =
    if column == ""
    then pure tt
    else if reference == ""
    then fail username_column_without_reference
    else fail_if (not (is_identifier column)) (invalid_username_column column)

unfoldable pub is_reference : (sanitize : List String → String) → String → Bool
unfolding parse_user_email_reference
is_reference sanitize s = elim (parse_user_email_reference sanitize s) [
  | none ↦ false
  | some _ ↦ true
]

abbrev pub lacks_url : Provider → Bool
lacks_url p =
    not (is_builtin p.name) && ((p.auth_url == "") || (p.token_url == "") || (p.userinfo_url == ""))

module _ (env : String → String) where
  -- os.Getenv of `key`, or the fallback
  unfoldable pub string_or : (key fallback : String) → String
  string_or key fallback = if env key == "" then fallback else env key

  unfoldable pub is_true : (key : String) → Bool
  is_true key = env key == "true"

  unfoldable pub integer : (key : String) (fallback : ℕ) → Reader ℕ
  unfolding read_integer atoi trim_space
  integer key fallback =
      if env key == ""
      then pure fallback
      else read_integer key (env key) fallback (atoi (trim_space (env key)))

  unfoldable pub duration : (key : String) (fallback bare_unit : ℕ) → Reader ℕ
  unfolding read_duration parse_duration
  duration key fallback bare_unit =
      if env key == ""
      then pure fallback
      else read_duration key (env key) fallback (parse_duration (env key) bare_unit)

  unfoldable pub username_column : String
  unfolding to_lower trim_space
  username_column = to_lower (trim_space (env "DB_USER_USERNAME_COLUMN"))

  -- the record that loadDatabase returns
  unfoldable pub database_of :
      (max_open_conns max_idle_conns conn_max_lifetime conn_max_idle_time cleanup_interval : ℕ)
      → DatabaseConfig
  unfolding is_true username_column
  database_of max_open_conns max_idle_conns conn_max_lifetime conn_max_idle_time cleanup_interval =
      record {
        url = env "DATABASE_URL";
        max_open_conns = max_open_conns;
        max_idle_conns = max_idle_conns;
        conn_max_lifetime = conn_max_lifetime;
        conn_max_idle_time = conn_max_idle_time;
        cleanup_interval = cleanup_interval;
        auto_create_schema = is_true "DB_AUTO_CREATE_SCHEMA";
        user_email_reference = env "DB_USER_EMAIL_REFERENCE";
        user_username_column = username_column;
      }

  module _ (sanitize : List String → String) where
    unfoldable pub load_database : Reader (Option DatabaseConfig)
    unfolding integer duration fail_if is_true is_reference check_column to_lower trim_space
    load_database = if env "DATABASE_URL" == "" then pure none else do
      max_open_conns ← integer "DB_MAX_OPEN_CONNS" default_db_max_open_conns
      max_idle_conns ← integer "DB_MAX_IDLE_CONNS" default_db_max_idle_conns
      conn_max_lifetime ← duration "DB_CONN_MAX_LIFETIME" default_db_conn_max_lifetime (60 * second)
      conn_max_idle_time ←
          duration "DB_CONN_MAX_IDLE_TIME" default_db_conn_max_idle_time (60 * second)
      cleanup_interval ←
          duration "DB_CLEANUP_INTERVAL" default_db_cleanup_interval (60 * 60 * second)
      let reference = env "DB_USER_EMAIL_REFERENCE"
      _ ←
          fail_if (not (reference == "") && not (is_reference sanitize reference))
            invalid_user_email_reference
      _ ← check_column reference username_column
      pure (
          some (
            database_of max_open_conns max_idle_conns conn_max_lifetime conn_max_idle_time
              cleanup_interval))

  unfoldable pub jwt_of : (access refresh : ℕ) → JwtConfig
  jwt_of access refresh = record {
    access_token_duration = access;
    refresh_token_duration = refresh;
    issuer = env "JWT_ISSUER";
    audience = env "JWT_AUDIENCE";
    identity_secret = env "IDENTITY_JWT_SECRET";
  }

  unfoldable pub load_jwt : Reader JwtConfig
  unfolding duration fail_if jwt_of
  load_jwt = do
    access ← duration "JWT_ACCESS_TOKEN_DURATION" default_jwt_access_duration 0
    refresh ← duration "JWT_REFRESH_TOKEN_DURATION" default_jwt_refresh_duration 0
    let secret = env "IDENTITY_JWT_SECRET"
    _ ← fail_if (leb access 0) (non_positive_duration "JWT_ACCESS_TOKEN_DURATION")
    _ ← fail_if (leb refresh 0) (non_positive_duration "JWT_REFRESH_TOKEN_DURATION")
    _ ← fail_if (not (secret == "") && ltb (len secret) min_secret_length) identity_secret_too_short
    pure (jwt_of access refresh)

  unfoldable pub load_redis : Option Redis
  load_redis = if env "REDIS_URL" == "" then none else some (record { url = env "REDIS_URL" })

  unfoldable pub client_of : Client
  unfolding is_true
  client_of = record {
    id = env "OAUTH2_CLIENT_ID";
    secret = env "OAUTH2_CLIENT_SECRET";
    redirect_url = env "OAUTH2_REDIRECT_URL";
    pkce = is_true "OAUTH2_CLIENT_PKCE";
  }

  unfoldable pub provider_of : Provider
  provider_of = record {
    name = env "OAUTH2_PROVIDER";
    auth_url = env "OAUTH2_AUTH_URL";
    token_url = env "OAUTH2_TOKEN_URL";
    userinfo_url = env "OAUTH2_USERINFO_URL";
    revoke_url = env "OAUTH2_REVOKE_URL";
  }

  unfoldable pub oauth2_of : Client → Option Oidc → Option Provider → OAuth2
  unfolding split_list
  oauth2_of client oidc provider = record {
    client = client;
    scopes = split_list (env "OAUTH2_SCOPES");
    oidc = oidc;
    provider = provider;
  }

  -- the part after the client, for a client whose three values are there
  unfoldable pub load_provider : Client → (issuer_url : String) → Reader (Option OAuth2)
  unfolding fail_if provider_of oauth2_of is_builtin
  load_provider client issuer_url =
      if not (issuer_url == "")
      then pure (some (oauth2_of client (some (record { issuer_url = issuer_url })) none))
      else do
        _ ← fail_if (lacks_url provider_of) generic_provider_missing_urls
        pure (some (oauth2_of client none (some provider_of)))

  unfoldable pub load_oauth2 : Reader (Option OAuth2)
  unfolding client_of load_provider fail_if
  load_oauth2 =
      let client = client_of in
      let issuer_url = env "OIDC_ISSUER_URL" in
      if (client.id == "") || (client.secret == "") || (client.redirect_url == "")
      then fail_if (not (issuer_url == "")) oidc_missing_client >> pure none
      else load_provider client issuer_url

  unfoldable pub config_of : Option DatabaseConfig → JwtConfig → Option OAuth2 → Config
  unfolding string_or is_true load_redis
  config_of database jwt oauth2 = record {
    http = record {
      address = string_or "HTTP_ADDRESS" ":80";
      mode = string_or "HTTP_MODE" "production";
    };
    database = database;
    jwt = jwt;
    redis = load_redis;
    oauth2 = oauth2;
    auth = record {
      allow_registration = is_true "ALLOW_REGISTRATION";
      pass_oauth_token = is_true "PASS_OAUTH_TOKEN";
      allow_unverified_email = is_true "ALLOW_UNVERIFIED_EMAIL";
    };
  }

  module _ (sanitize : List String → String) where
    unfoldable pub read_config : Reader Config
    unfolding string_or is_true load_database load_jwt load_redis load_oauth2
    read_config = do
      database ← load_database sanitize
      jwt ← load_jwt
      oauth2 ← load_oauth2
      pure (config_of database jwt oauth2)

    -- Load: a configuration, or else every error
    unfoldable pub load : Loaded
    unfolding read_config
    load =
        let (config, problems) = read_config no_items in
        if is_empty problems then loaded config else failed problems
