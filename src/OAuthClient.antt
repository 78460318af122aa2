-- ===== src/OAuthClient.antt =====
-- oauth2/oauthclient/client.go: the OAuth2 client of the login, over the providers. The requests to
-- the authorization server are golang.org/x/oauth2's and are parameters.
pub mod Issuer
use auth_middleware.Prelude.{
  ℕ, String, Bool, true, false, not, ◌&&◌, Option, none, some, List, [], ◌∷◌, ◌++◌, ◌==◌, contains,
  if◌then◌else◌,
}
use auth_middleware.Prelude.State.{Result, ok, err, M, pure, ◌>>=◌}
use auth_middleware.Errors.{Error, other}
use auth_middleware.Providers.{Userinfo, ProviderToken, OAuthConfig, Web, Options, Provider}
use auth_middleware.Providers.Oidc.{Discovery, ClaimsCodec}
use auth_middleware.Providers.Oidc
use auth_middleware.Providers.Select.{Endpoints, Codecs, new_provider}
use auth_middleware.Providers.Discovery.{Context, fetch_discovery}

pub record Config : Type 0 where
  pub provider : String
  pub client_id : String
  pub client_secret : String
  pub redirect_url : String
  pub auth_url : String
  pub token_url : String
  pub userinfo_url : String
  pub revoke_url : String
  pub scopes : List String

pub record OidcConfig : Type 0 where
  pub issuer_url : String
  pub client_id : String
  pub client_secret : String
  pub redirect_url : String
  pub scopes : List String

-- oauth2.AuthCodeOption
pub data AuthOption : Type 0 where
  access_type_offline : AuthOption
  set_param : (name value : String) → AuthOption
  s256_challenge : (verifier : String) → AuthOption

pub record Client (W : Type 0) : Type 0 where
  pub config : OAuthConfig
  pub provider : Provider W
  pub auth_options : List AuthOption
  pub issuer : String
  pub require_issuer : Bool

-- AuthCodeURL and Exchange of golang.org/x/oauth2; the latter with the verifier's option
pub record Authorization (W : Type 0) : Type 0 where
  pub auth_code_url : OAuthConfig → (state : String) → List AuthOption → String
  pub exchange : OAuthConfig → (code verifier : String) → M W (Result ProviderToken)

unfoldable pub oauth_config_of : Config → OAuthConfig
oauth_config_of cfg = record {
  client_id = cfg.client_id;
  client_secret = cfg.client_secret;
  redirect_url = cfg.redirect_url;
  scopes = cfg.scopes;
  auth_url = cfg.auth_url;
  token_url = cfg.token_url;
}

-- the scopes of NewOIDC
unfoldable pub oidc_scopes : List String → List String
unfolding contains
oidc_scopes scopes = if contains scopes "openid" then scopes else "openid" ∷ scopes

unfoldable pub oidc_auth_options : (scopes : List String) → List AuthOption
unfolding contains
oidc_auth_options scopes =
    if contains scopes "offline_access" then set_param "prompt" "consent" ∷ [] else []

unfoldable pub oidc_config_of : OidcConfig → Discovery → OAuthConfig
unfolding oidc_scopes
oidc_config_of cfg d = record {
  client_id = cfg.client_id;
  client_secret = cfg.client_secret;
  redirect_url = cfg.redirect_url;
  scopes = oidc_scopes cfg.scopes;
  auth_url = d.authorization_endpoint;
  token_url = d.token_endpoint;
}

module _ {W : Type 0} (web : Web W) where
  -- New
  unfoldable pub new : Endpoints → Codecs → Config → Options → Client W
  unfolding new_provider oauth_config_of
  new endpoints codecs cfg o =
      let made =
        new_provider web endpoints codecs cfg.provider (oauth_config_of cfg) cfg.userinfo_url
          cfg.revoke_url o in
      record {
        config = made.1;
        provider = made.0;
        auth_options = if cfg.provider == "google" then access_type_offline ∷ [] else [];
        issuer = "";
        require_issuer = false;
      }

  -- NewOIDC after the discovery; `now` is the time of the calls of GetUser
  unfoldable pub oidc_client : ClaimsCodec → (now : ℕ) → OidcConfig → Options → Discovery → Client W
  unfolding oidc_config_of oidc_scopes oidc_auth_options
  oidc_client codec now cfg o d = record {
    config = oidc_config_of cfg d;
    provider = Oidc.new_provider web codec (oidc_config_of cfg d) o d now;
    auth_options = oidc_auth_options (oidc_scopes cfg.scopes);
    issuer = d.issuer;
    require_issuer = d.iss_parameter_supported;
  }

  unfoldable pub discovered :
      ClaimsCodec
      → (now : ℕ) → OidcConfig
      → Options
      → Option (Result Discovery)
      → Option (Result (Client W))
  unfolding oidc_client
  discovered codec now cfg o none = none
  discovered codec now cfg o (some (err e)) = some (err e)
  discovered codec now cfg o (some (ok d)) = some (ok (oidc_client codec now cfg o d))

  -- NewOIDC; `none` if the discovery has not ended within the fuel
  unfoldable pub new_oidc :
      Context W
      → (String → Result Discovery)
      → ClaimsCodec
      → (fuel now : ℕ) → OidcConfig
      → Options
      → M W (Option (Result (Client W)))
  unfolding discovered fetch_discovery
  new_oidc context decode codec fuel now cfg o = do
    r ← fetch_discovery web context decode fuel cfg.issuer_url
    pure (discovered codec now cfg o r)

module _ {W : Type 0} (c : Client W) where
  -- AuthURL
  unfoldable pub auth_url : Authorization W → (state verifier : String) → String
  auth_url authorization state verifier =
      authorization.auth_code_url c.config state (c.auth_options ++ (s256_challenge verifier ∷ []))

  -- ValidateIssuer, its error if there is one
  unfoldable pub validate_issuer : (iss : String) → Option Error
  validate_issuer iss =
      if iss == ""
      then (if c.require_issuer
          then some (other "authorization response missing iss parameter")
          else none)
      else if not (c.issuer == "") && not (iss == c.issuer)
      then some (other "authorization response iss mismatch")
      else none

  -- Exchange, GetUser and Revoke
  unfoldable pub exchange : Authorization W → (code verifier : String) → M W (Result ProviderToken)
  exchange authorization = authorization.exchange c.config

  unfoldable pub get_user : ProviderToken → M W (Result Userinfo)
  get_user = c.provider.get_user

  unfoldable pub revoke : ProviderToken → M W (Result (Unit {0}))
  revoke = c.provider.revoke
