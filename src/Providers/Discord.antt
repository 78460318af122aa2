-- ===== src/Providers/Discord.antt =====
-- oauth2/providers/discord.go
use auth_middleware.Prelude.{ℤ, String, Bool, List, [], ◌∷◌, eqb}
use auth_middleware.Prelude.State.{Result, ok, err, M, pure, ◌>>=◌}
use auth_middleware.Providers.{
  Userinfo, ProviderToken, OAuthConfig, Web, Options, Provider, get, send_new, decode_ok, accepted,
  check_email, checked, form_header, post_form,
}

pub record DiscordUser : Type 0 where
  pub id : String
  pub username : String
  pub discriminator : String
  pub avatar : String
  pub bot : Bool
  pub is_system : Bool
  pub mfa_enabled : Bool
  pub locale : String
  pub verified : Bool
  pub email : String
  pub flags : ℤ
  pub premium_type : ℤ
  pub public_flags : ℤ

-- what NewDiscordProvider sets in the configuration; the scopes and the endpoint are the package's
unfoldable pub configure :
    (scopes : List String) (auth_url token_url : String) → OAuthConfig → OAuthConfig
configure scopes auth_url token_url config = record config {
  scopes = scopes;
  auth_url = auth_url;
  token_url = token_url;
}

unfoldable pub user_of : Options → Result DiscordUser → Result Userinfo
unfolding check_email checked
user_of o (err e) = err e
user_of o (ok user) =
    checked (check_email o user.email user.verified)
      (record { id = user.id; email = user.email; name = user.username })

module _ {W : Type 0} (web : Web W) (decode : String → Result DiscordUser) where
  -- GetUser
  unfoldable pub get_user : OAuthConfig → Options → ProviderToken → M W (Result Userinfo)
  unfolding user_of decode_ok
  get_user config o token = do
    r ← web.authorized config token (get "https://discord.com/api/users/@me")
    pure (user_of o (decode_ok "discord api returned status" decode r))

  -- Revoke
  unfoldable pub revoke : OAuthConfig → ProviderToken → M W (Result (Unit {0}))
  unfolding send_new accepted
  revoke config token = do
    r ← send_new web (
        post_form "https://discord.com/api/oauth2/token/revoke" (form_header ∷ []) (
          ("client_id", config.client_id)
          ∷ ("client_secret", config.client_secret)
          ∷ ("token", token.access_token)
          ∷ []))
    pure (accepted (λ status. eqb status 200) "discord api returned status" r)

  -- NewDiscordProvider
  abbrev pub new_provider : OAuthConfig → Options → Provider W
  new_provider config o = record { get_user = get_user config o; revoke = revoke config }
