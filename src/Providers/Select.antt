-- ===== src/Providers/Select.antt =====
-- oauth2/providers/providers.go: New
pub mod Emails
use auth_middleware.Prelude.{String, Bool, List, if◌then◌else◌, ◌==◌}
use auth_middleware.Prelude.State.{Result}
use auth_middleware.Providers.{OAuthConfig, Web, Options, Provider}
use auth_middleware.Providers
use auth_middleware.Providers.Google.{GoogleUser}
use auth_middleware.Providers.Google
use auth_middleware.Providers.Discord.{DiscordUser}
use auth_middleware.Providers.Discord
use auth_middleware.Providers.GitHub.{GitHubCodec}
use auth_middleware.Providers.GitHub
use auth_middleware.Providers.Generic.{GenericUser}
use auth_middleware.Providers.Generic

-- What the providers take from other packages: endpoints, scopes and decoders
pub record Endpoints : Type 0 where
  pub google : String × String
  pub github : String × String
  pub discord : String × String
  pub discord_scopes : List String

pub record Codecs : Type 0 where
  pub google : String → Result GoogleUser
  pub discord : String → Result DiscordUser
  pub github : GitHubCodec
  pub to_bool : String → Result Bool
  pub to_string : String → Result String
  pub generic : (email_verified : String → Result Bool) → String → Result GenericUser
  pub basic_auth : (name password : String) → String × String

-- the decoder of a GenericUser, with the program's own decoder of `email_verified`
unfoldable pub generic_user : Codecs → String → Result GenericUser
unfolding Generic.flexible_bool
generic_user codecs = codecs.generic (Generic.flexible_bool codecs.to_bool codecs.to_string)

-- the cases of the switch
pub data Kind : Type 0 where
  discord github google generic : Kind

unfoldable pub kind_of : (name : String) → Kind
kind_of name =
    if name == "discord"
    then discord
    else if name == "github"
    then github
    else if name == "google"
    then google
    else generic

module _ {W : Type 0} (web : Web W) (endpoints : Endpoints) (codecs : Codecs) where
  -- what each case makes of the configuration, which it shares with the caller
  unfoldable pub configured : Kind → OAuthConfig → OAuthConfig
  unfolding Google.configure Discord.configure GitHub.configure
  configured discord config =
      Discord.configure endpoints.discord_scopes endpoints.discord.0 endpoints.discord.1 config
  configured github config = GitHub.configure endpoints.github.0 endpoints.github.1 config
  configured google config = Google.configure endpoints.google.0 endpoints.google.1 config
  configured generic config = config

  unfoldable pub provider_at :
      Kind → OAuthConfig → (userinfo_url revoke_url : String) → Options → Provider W
  provider_at discord config userinfo_url revoke_url o =
      Discord.new_provider web codecs.discord config o
  provider_at github config userinfo_url revoke_url o =
      GitHub.new_provider web codecs.github config o codecs.basic_auth
  provider_at google config userinfo_url revoke_url o =
      Google.new_provider web codecs.google config o
  provider_at generic config userinfo_url revoke_url o =
      Generic.new_provider web (generic_user codecs) config o userinfo_url revoke_url

  -- New: the provider, and the configuration as it left it
  unfoldable pub new_provider :
      (name : String)
      → OAuthConfig
      → (userinfo_url revoke_url : String) → Options
      → Provider W × OAuthConfig
  unfolding configured provider_at kind_of
  new_provider name config userinfo_url revoke_url o =
      let config' = configured (kind_of name) config in
      (provider_at (kind_of name) config' userinfo_url revoke_url o, config')
