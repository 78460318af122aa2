-- ===== src/Config/Load/Valid.antt =====
-- What server/internal/config/config.go promises of a configuration that Load returns.
use Prim.Native.String.{len}
use auth_middleware.Prelude.{
  not-empty, is-empty, ◌*◌, ◌≤◌, ◌<◌, String, ◌≡◌, refl, sym, subst, ap, ◌∙◌, ◌≢◌, ◌⊎◌, inl, inr,
  Bool, true, false, false≢true, not, ◌&&◌, ◌||◌, Option, none, some, List, ltb, leb, ◌==◌,
  if◌then◌else◌, arith, Bool-cases, no_items, is_empty, is_empty-no_items,
}
use auth_middleware.Config.Duration.{max_int64, second}
use auth_middleware.Config.Load.{
  DatabaseConfig, JwtConfig, Redis, Client, Oidc, Provider, OAuth2, Config, Problem, string_or,
  is_reference, check_column, load_database, load_jwt, load_redis, load_provider, load_oauth2,
  read_config, load, lacks_url, jwt_of, loaded, failed, config_of, database_of, oauth2_of,
  client_of, provider_of, username_column, default_db_max_open_conns, default_db_max_idle_conns,
  default_db_conn_max_lifetime, default_db_conn_max_idle_time, default_db_cleanup_interval,
  default_jwt_access_duration, default_jwt_refresh_duration, non_positive_duration,
  identity_secret_too_short, invalid_user_email_reference, username_column_without_reference,
  invalid_username_column, oidc_missing_client, generic_provider_missing_urls,
}
use auth_middleware.Config.Load.Sound.{
  Sound, pure-Sound, bind-Sound, map-Sound, if-Sound, fail_if-Sound, integer-Sound, duration-Sound,
}
use auth_middleware.Schema.{is_identifier}
use auth_middleware.Providers.{is_builtin}

abbrev pub ValidJwt : JwtConfig → Type 0
ValidJwt j =
    ((0 < j.access_token_duration) × (j.access_token_duration ≤ max_int64))
    × ((0 < j.refresh_token_duration) × (j.refresh_token_duration ≤ max_int64))
    × ((j.identity_secret ≡ "") ⊎ (32 ≤ len j.identity_secret))

module _ (sanitize : List String → String) where
  abbrev pub ValidColumn : (reference column : String) → Type 0
  ValidColumn reference column = (column ≡ "") ⊎ ((reference ≢ "") × (is_identifier column ≡ true))

  -- Every number is in the range of its Go type; a reference parses.
  abbrev pub ValidDatabase : DatabaseConfig → Type 0
  ValidDatabase d =
      (d.url ≢ "")
      × ((d.max_open_conns ≤ max_int64) × (d.max_idle_conns ≤ max_int64))
      × ((d.conn_max_lifetime ≤ max_int64)
          × (d.conn_max_idle_time ≤ max_int64)
          × (d.cleanup_interval ≤ max_int64))
      × ((d.user_email_reference ≡ "") ⊎ (is_reference sanitize d.user_email_reference ≡ true))
      × ValidColumn d.user_email_reference d.user_username_column

abbrev pub ValidProvider : Provider → Type 0
ValidProvider p =
    (is_builtin p.name ≡ true) ⊎ ((p.auth_url ≢ "") × (p.token_url ≢ "") × (p.userinfo_url ≢ ""))

-- One provider: that of an issuer, or a named or generic one.
pub data ValidSource : Option Oidc → Option Provider → Type 0 where
  issuer : (o : Oidc) → o.issuer_url ≢ "" → ValidSource (some o) none
  provider : (p : Provider) → ValidProvider p → ValidSource none (some p)

abbrev pub ValidOAuth2 : OAuth2 → Type 0
ValidOAuth2 o =
    ((o.client.id ≢ "") × (o.client.secret ≢ "") × (o.client.redirect_url ≢ ""))
    × ValidSource o.oidc o.provider

abbrev pub Each : {A : Type 0} → (A → Type 0) → Option A → Type 0
Each Good none = Unit
Each Good (some a) = Good a

abbrev pub ValidConfig : (List String → String) → Config → Type 0
ValidConfig sanitize c =
    ((c.http.address ≢ "") × (c.http.mode ≢ ""))
    × Each (ValidDatabase sanitize) c.database
    × ValidJwt c.jwt
    × Each (λ (r : Redis). r.url ≢ "") c.redis
    × Each ValidOAuth2 c.oauth2

not-true : (b : Bool) → not b ≡ true → b ≡ false
not-true b h = ground arith

not-false : (b : Bool) → not b ≡ false → b ≡ true
not-false b h = ground arith

secret-long : (s : String) → (not (s == "") && ltb (len s) 32) ≡ false → (s ≡ "") ⊎ (32 ≤ len s)
secret-long s h = elim (Bool-cases (s == "")) [
  | inl e ↦ inl (is-empty s e)
  | inr e ↦ inr (ground arith)
]

reference-known : (s : String) (b : Bool) → (not (s == "") && not b) ≡ false → (s ≡ "") ⊎ (b ≡ true)
reference-known s b h = elim (Bool-cases (s == "")) [
  | inl e ↦ inl (is-empty s e)
  | inr e ↦ inr (ground arith)
]

three-given :
    (a b c : String)
    → ((a == "") || (b == "") || (c == "")) ≡ false
    → (a ≢ "") × (b ≢ "") × (c ≢ "")
three-given a b c h =
    (not-empty a (ground arith), not-empty b (ground arith), not-empty c (ground arith))

urls-given : (p : Provider) → lacks_url p ≡ false → ValidProvider p
urls-given p h = elim (Bool-cases (is_builtin p.name)) [
  | inl e ↦ inl e
  | inr e ↦ inr (three-given p.auth_url p.token_url p.userinfo_url (ground arith))
]

load_jwt-Sound : (env : String → String) → Sound (load_jwt env) ValidJwt
unfolding load_jwt jwt_of
load_jwt-Sound env =
    let secret = env "IDENTITY_JWT_SECRET" in
    bind-Sound (duration-Sound env "JWT_ACCESS_TOKEN_DURATION" default_jwt_access_duration 0 refl)
      λ access.
        bind-Sound
          (duration-Sound env "JWT_REFRESH_TOKEN_DURATION" default_jwt_refresh_duration 0 refl)
          λ refresh.
            bind-Sound
              (fail_if-Sound (leb access 0) (non_positive_duration "JWT_ACCESS_TOKEN_DURATION"))
              λ _.
                bind-Sound
                  (fail_if-Sound (leb refresh 0)
                    (non_positive_duration "JWT_REFRESH_TOKEN_DURATION"))
                  λ _.
                    bind-Sound
                      (fail_if-Sound (not (secret == "") && ltb (len secret) 32)
                        identity_secret_too_short)
                      λ _.
                        pure-Sound (jwt_of env access refresh)
                          λ long refresh_positive access_positive refresh_small access_small. (
                            (ground arith, access_small),
                            (ground arith, refresh_small),
                            secret-long secret long,
                          )

check_column-Sound :
    (sanitize : List String → String) (reference column : String)
    → Sound (check_column reference column) (λ _. ValidColumn sanitize reference column)
unfolding check_column
check_column-Sound sanitize reference column =
    if-Sound (column == "") (λ e. pure-Sound tt (inl (is-empty column e)))
      λ _.
        if-Sound (reference == "")
          (λ _.
            map-Sound (fail_if-Sound true username_column_without_reference)
              λ _ h. absurd (false≢true (sym h)))
          λ present.
            map-Sound (fail_if-Sound (not (is_identifier column)) (invalid_username_column column))
              λ _ h. inr (not-empty reference present, not-false (is_identifier column) h)

load_database-Sound :
    (env : String → String) (sanitize : List String → String)
    → Sound (load_database env sanitize) (Each (ValidDatabase sanitize))
unfolding load_database database_of
load_database-Sound env sanitize =
    let reference = env "DB_USER_EMAIL_REFERENCE" in
    if-Sound (env "DATABASE_URL" == "") (λ _. pure-Sound none tt)
      λ url.
        bind-Sound (integer-Sound env "DB_MAX_OPEN_CONNS" default_db_max_open_conns refl)
          λ open_conns.
            bind-Sound (integer-Sound env "DB_MAX_IDLE_CONNS" default_db_max_idle_conns refl)
              λ idle_conns.
                bind-Sound
                  (duration-Sound env "DB_CONN_MAX_LIFETIME" default_db_conn_max_lifetime
                    (60 * second) refl)
                  λ lifetime.
                    bind-Sound
                      (duration-Sound env "DB_CONN_MAX_IDLE_TIME" default_db_conn_max_idle_time
                        (60 * second) refl)
                      λ idle_time.
                        bind-Sound
                          (duration-Sound env "DB_CLEANUP_INTERVAL" default_db_cleanup_interval
                            (60 * 60 * second) refl)
                          λ interval.
                            bind-Sound
                              (fail_if-Sound
                                (not (reference == "") && not (is_reference sanitize reference))
                                invalid_user_email_reference)
                              λ _.
                                bind-Sound
                                  (check_column-Sound sanitize reference (username_column env))
                                  λ _.
                                    pure-Sound
                                      (some (
                                        database_of env open_conns idle_conns lifetime idle_time
                                          interval))
                                      λ column known interval_small idle_small life_small idle
                                          opened.
                                        (
                                          not-empty (env "DATABASE_URL") url,
                                          (opened, idle),
                                          (life_small, idle_small, interval_small),
                                          reference-known reference
                                              (is_reference sanitize reference) known,
                                          column,
                                        )

load_provider-Sound :
    (env : String → String) (client : Client) (issuer_url : String)
    → ((client.id ≢ "") × (client.secret ≢ "") × (client.redirect_url ≢ ""))
    → Sound (load_provider env client issuer_url) (Each ValidOAuth2)
unfolding load_provider oauth2_of
load_provider-Sound env client issuer_url given =
    if-Sound (not (issuer_url == ""))
      (λ present.
        pure-Sound (some (oauth2_of env client (some (record { issuer_url = issuer_url })) none)) (
          given,
          issuer (record { issuer_url = issuer_url }) (not-empty issuer_url (not-true _ present)),
        ))
      λ _.
        bind-Sound (fail_if-Sound (lacks_url (provider_of env)) generic_provider_missing_urls) λ _.
          pure-Sound (some (oauth2_of env client none (some (provider_of env))))
            λ h. (given, provider (provider_of env) (urls-given (provider_of env) h))

load_oauth2-Sound : (env : String → String) → Sound (load_oauth2 env) (Each ValidOAuth2)
unfolding load_oauth2
load_oauth2-Sound env =
    let client = client_of env in
    if-Sound ((client.id == "") || (client.secret == "") || (client.redirect_url == ""))
      (λ _.
        bind-Sound (fail_if-Sound (not (env "OIDC_ISSUER_URL" == "")) oidc_missing_client)
          λ _. pure-Sound none λ _. tt)
      (λ given.
        load_provider-Sound env client (env "OIDC_ISSUER_URL")
          (three-given client.id client.secret client.redirect_url given))

string_or-nonempty :
    (env : String → String) (key fallback : String)
    → (fallback == "") ≡ false
    → string_or env key fallback ≢ ""
unfolding string_or
string_or-nonempty env key fallback given = elim (Bool-cases (env key == "")) [
  | inl missing ↦
      λ e. not-empty fallback given (sym (ap (λ b. if b then fallback else env key) missing) ∙ e)
  | inr present ↦
      λ e. not-empty (env key) present (sym (ap (λ b. if b then fallback else env key) present) ∙ e)
]

load_redis-valid : (env : String → String) → Each (λ (r : Redis). r.url ≢ "") (load_redis env)
unfolding load_redis
load_redis-valid env = elim (Bool-cases (env "REDIS_URL" == "")) [
  | inl missing ↦
      subst
        (λ b.
          Each (λ (r : Redis). r.url ≢ "")
            (if b then none else some (record { url = env "REDIS_URL" })))
        (sym missing) tt
  | inr present ↦
      subst
        (λ b.
          Each (λ (r : Redis). r.url ≢ "")
            (if b then none else some (record { url = env "REDIS_URL" })))
        (sym present) (not-empty _ present)
]

module _ (env : String → String) (sanitize : List String → String) where
  read_config-Sound : Sound (read_config env sanitize) (ValidConfig sanitize)
  unfolding read_config config_of
  read_config-Sound = bind-Sound (load_database-Sound env sanitize) λ database.
      bind-Sound (load_jwt-Sound env) λ jwt. bind-Sound (load_oauth2-Sound env) λ oauth2.
        pure-Sound (config_of env database jwt oauth2) λ valid_oauth2 valid_jwt valid_database. (
          (
            string_or-nonempty env "HTTP_ADDRESS" ":80" refl,
            string_or-nonempty env "HTTP_MODE" "production" refl,
          ),
          valid_database,
          valid_jwt,
          load_redis-valid env,
          valid_oauth2,
        )

  loaded-quiet :
      (c : Config) (problems : List Problem) (c' : Config)
      → (if is_empty problems then loaded c else failed problems) ≡ loaded c'
      → (is_empty problems ≡ true) × (c ≡ c')
  loaded-quiet c problems c' h = ground arith

  -- Whatever the environment, a configuration that Load returns is valid: numbers and durations are
  -- in the range of an int64, the token durations are positive, an identity secret that is set has at
  -- least 32 bytes, the reference to the users table parses, the username column is an identifier and
  -- comes with a reference, the addresses are not empty, and an OAuth2 client has its three values
  -- and either an issuer or a provider that is built in or has its three addresses.
  pub load-ValidConfig : (c : Config) → load env sanitize ≡ loaded c → ValidConfig sanitize c
  unfolding load
  load-ValidConfig c h =
      let (config, problems) = read_config env sanitize no_items in
      let (empty, same) = loaded-quiet config problems c h in
      subst (ValidConfig sanitize) same
        (read_config-Sound.result_of no_items (is_empty-no_items problems empty)).1
