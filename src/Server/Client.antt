-- ===== src/Server/Client.antt =====
-- newOAuth2Client of server/cmd/main.go at a configuration that Load returned.
use mathlib.Core.Option.{none-ne-some}
use auth_middleware.Prelude.{ℕ, String, ◌≡◌, refl, sym, ◌≢◌, Option, none, some, List, arith}
use auth_middleware.Prelude.State.{Result, ok, err}
use auth_middleware.Providers.{Web}
use auth_middleware.Providers.Oidc.{Discovery, ClaimsCodec}
use auth_middleware.Providers.Select.{Endpoints, Codecs}
use auth_middleware.Providers.Discovery.{Context}
use auth_middleware.OAuthClient
use auth_middleware.Config.Load.{Config, Auth, OAuth2, Oidc, Provider, loaded, load}
use auth_middleware.Config.Load.Valid.{
  Each, ValidOAuth2, ValidSource, issuer, provider, load-ValidConfig,
}
use auth_middleware.Server.{
  nil_dereference, oidc_made, plain_client, client_for, configured_client, new_oauth2_client,
}

oidc_made_safe :
    {W : Type 0} (r : Option (Result (OAuthClient.Client W))) → oidc_made r ≢ nil_dereference
unfolding oidc_made
oidc_made_safe none h = absurd (ground arith)
oidc_made_safe (some (err e)) h = absurd (ground arith)
oidc_made_safe (some (ok c)) h = absurd (ground arith)

-- A valid source without an issuer is a provider.
source-provider :
    (oidc : Option Oidc) (p : Option Provider)
    → ValidSource oidc p
    → oidc ≡ none
    → (x : Provider) × (p ≡ some x)
source-provider _ _ (issuer o named) e = absurd (none-ne-some o (sym e))
source-provider _ _ (provider x valid) e = (x, refl)

module _ {W : Type 0} (web : Web W) (context : Context W) (endpoints : Endpoints) (codecs : Codecs)
    (decode : String → Result Discovery) (codec : ClaimsCodec) (fuel now : ℕ) where
  plain_client_safe :
      (auth : Auth) (o : OAuth2) (x : Provider) (p : Option Provider)
      → p ≡ some x
      → plain_client web context endpoints codecs decode codec fuel now auth o p ≢ nil_dereference
  unfolding plain_client
  plain_client_safe auth o x none e h = none-ne-some x e
  plain_client_safe auth o x (some p) e h = absurd (ground arith)

  client_for_safe :
      (auth : Auth) (o : OAuth2) (oidc : Option Oidc) (w : W)
      → ValidSource oidc o.provider
      → (client_for web context endpoints codecs decode codec fuel now auth o oidc w).0
        ≢ nil_dereference
  unfolding client_for
  client_for_safe auth o (some oidc) w source = oidc_made_safe _
  client_for_safe auth o none w source =
      let (x, given) = source-provider none o.provider source refl in
      plain_client_safe auth o x o.provider given

  configured_client_safe :
      (auth : Auth) (o : Option OAuth2) (w : W)
      → Each ValidOAuth2 o
      → (configured_client web context endpoints codecs decode codec fuel now auth o w).0
        ≢ nil_dereference
  unfolding configured_client
  configured_client_safe auth none w valid = λ h. absurd (ground arith)
  configured_client_safe auth (some o) w (given, source) = client_for_safe auth o o.oidc w source

  -- At a configuration that Load returned, newOAuth2Client reads no provider that is nil.
  pub new_oauth2_client_safe :
      (env : String → String) (sanitize : List String → String) (c : Config) (w : W)
      → load env sanitize ≡ loaded c
      → (new_oauth2_client web context endpoints codecs decode codec fuel now c w).0
        ≢ nil_dereference
  unfolding new_oauth2_client
  new_oauth2_client_safe env sanitize c w h =
      let (_, _, _, _, valid) = load-ValidConfig env sanitize c h in
      configured_client_safe c.auth c.oauth2 w valid
