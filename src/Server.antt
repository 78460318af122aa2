-- ===== src/Server.antt =====
-- server/cmd/main.go and server/internal/handlers/handlers.go: what the server is put together from.
-- The listener, the life cycle and the log are not modelled.
pub mod Client
use auth_middleware.Prelude.{
  ℕ, String, Bool, true, false, not, ◌&&◌, Option, none, some, List, [], ◌∷◌, ◌++◌, ◌==◌,
  if◌then◌else◌,
}
use auth_middleware.Prelude.State.{Result, ok, err, M, pure, ◌>>=◌}
use auth_middleware.Providers.{Web, Options, with_allow_unverified_email}
use auth_middleware.Providers.Oidc.{Discovery, ClaimsCodec}
use auth_middleware.Providers.Select.{Endpoints, Codecs}
use auth_middleware.Providers.Discovery.{Context}
use auth_middleware.OAuthClient
use auth_middleware.Config.Load
use auth_middleware.Config.Load.{dev_mode}
use auth_middleware.Handlers
use auth_middleware.Identity.{Signer, new_signer}
use auth_middleware.Jwt
use auth_middleware.Users.Setup
use auth_middleware.Database.Setup.{with_cleanup_interval}

-- The handlers of the routes
pub data Endpoint : Type 0 where
  health refresh refresh_access verify logout delete_me login callback : Endpoint

-- RegisterRoutes: the patterns in their order; `db` says of the users' store, if there is one,
-- whether it is external
unfoldable pub database_routes : (db : Option Bool) → List (String × Endpoint)
database_routes none = []
database_routes (some external) =
    ("POST /refresh", refresh)
    ∷ ("POST /refresh-access", refresh_access)
    ∷ ("GET /verify", verify)
    ∷ ("POST /logout", logout)
    ∷ (if external then [] else ("DELETE /users/me", delete_me) ∷ [])

unfoldable pub register_routes : (db : Option Bool) (has_client : Bool) → List (String × Endpoint)
unfolding database_routes
register_routes db has_client =
    ("GET /health", health)
    ∷ (database_routes db
        ++ (if has_client then ("GET /login", login) ∷ ("GET /callback", callback) ∷ [] else []))

-- run: registration is off where the users are external
unfoldable pub registration : Load.Config → (store_external : Option Bool) → Bool
registration cfg none = cfg.auth.allow_registration
registration cfg (some external) = cfg.auth.allow_registration && not external

unfoldable pub has_pkce : Option Load.OAuth2 → Bool
has_pkce none = false
has_pkce (some o) = o.client.pkce

-- run: the options of the handlers
unfoldable pub auth_options :
    Load.Config
    → (store_external : Option Bool) → List (Handlers.Options.Options → Handlers.Options.Options)
unfolding registration has_pkce dev_mode
auth_options cfg external =
    Handlers.Options.with_dev_mode (dev_mode cfg.http)
    ∷ Handlers.Options.with_allow_registration (registration cfg external)
    ∷ Handlers.Options.with_pass_oauth_token cfg.auth.pass_oauth_token
    ∷ Handlers.Options.with_client_pkce (has_pkce cfg.oauth2)
    ∷ []

-- run: the options of the token manager, and the signer of the identity header
unfoldable pub jwt_options : Load.JwtConfig → List (Jwt.Options → Jwt.Options)
jwt_options cfg =
    Jwt.with_access_token_duration cfg.access_token_duration
    ∷ Jwt.with_refresh_token_duration cfg.refresh_token_duration
    ∷ Jwt.with_option_issuer cfg.issuer
    ∷ Jwt.with_option_audience cfg.audience
    ∷ []

unfoldable pub identity_signer : Load.JwtConfig → Option Signer
unfolding new_signer
identity_signer cfg =
    if cfg.identity_secret == ""
    then none
    else some (new_signer cfg.identity_secret cfg.issuer cfg.audience)

-- openDatabase: the options of the users' store
unfoldable pub users_options : Load.DatabaseConfig → List (Setup.Options → Setup.Options)
unfolding Setup.with_auto_create Setup.with_database_options Setup.with_external
users_options cfg =
    Setup.with_auto_create cfg.auto_create_schema
    ∷ Setup.with_database_options (with_cleanup_interval cfg.cleanup_interval ∷ [])
    ∷ (if cfg.user_email_reference == ""
        then []
        else Setup.with_external cfg.user_email_reference cfg.user_username_column ∷ [])

-- The end of newOAuth2Client: a client, no client or an error; the discovery has not ended; or the
-- provider is nil and is read.
pub data Made (W : Type 0) : Type 0 where
  made : Option (OAuthClient.Client W) → Made W
  failed : Made W
  running : Made W
  nil_dereference : Made W

unfoldable pub oidc_made : {W : Type 0} → Option (Result (OAuthClient.Client W)) → Made W
oidc_made none = running
oidc_made (some (err e)) = failed
oidc_made (some (ok c)) = made (some c)

unfoldable pub oidc_config : Load.OAuth2 → (issuer_url : String) → OAuthClient.OidcConfig
oidc_config o issuer_url = record {
  issuer_url = issuer_url;
  client_id = o.client.id;
  client_secret = o.client.secret;
  redirect_url = o.client.redirect_url;
  scopes = o.scopes;
}

unfoldable pub client_config : Load.OAuth2 → Load.Provider → OAuthClient.Config
client_config o p = record {
  provider = p.name;
  client_id = o.client.id;
  client_secret = o.client.secret;
  redirect_url = o.client.redirect_url;
  auth_url = p.auth_url;
  token_url = p.token_url;
  userinfo_url = p.userinfo_url;
  revoke_url = p.revoke_url;
  scopes = o.scopes;
}

-- the options of the provider
unfoldable pub provider_options : Load.Auth → Options
unfolding with_allow_unverified_email
provider_options auth =
    with_allow_unverified_email auth.allow_unverified_email
      (record { allow_unverified_email = false })

module _ {W : Type 0} (web : Web W) (context : Context W) (endpoints : Endpoints) (codecs : Codecs)
    (decode : String → Result Discovery) (codec : ClaimsCodec) (fuel now : ℕ) where
  -- where there is no issuer
  unfoldable pub plain_client : Load.Auth → Load.OAuth2 → Option Load.Provider → Made W
  unfolding client_config provider_options OAuthClient.new
  plain_client auth o none = nil_dereference
  plain_client auth o (some p) =
      made (some (OAuthClient.new web endpoints codecs (client_config o p) (provider_options auth)))

  unfoldable pub client_for : Load.Auth → Load.OAuth2 → Option Load.Oidc → M W (Made W)
  unfolding plain_client oidc_made oidc_config provider_options
  client_for auth o none = pure (plain_client auth o o.provider)
  client_for auth o (some oidc) = do
    r ←
        OAuthClient.new_oidc web context decode codec fuel now (oidc_config o oidc.issuer_url)
          (provider_options auth)
    pure (oidc_made r)

  unfoldable pub configured_client : Load.Auth → Option Load.OAuth2 → M W (Made W)
  unfolding client_for
  configured_client auth none = pure (made none)
  configured_client auth (some o) = client_for auth o o.oidc

  -- newOAuth2Client
  unfoldable pub new_oauth2_client : Load.Config → M W (Made W)
  unfolding configured_client
  new_oauth2_client cfg = configured_client cfg.auth cfg.oauth2
