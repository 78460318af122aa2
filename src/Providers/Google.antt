-- ===== src/Providers/Google.antt =====
-- oauth2/providers/google.go
use auth_middleware.Prelude.{String, Bool, [], ◌∷◌, eqb}
use auth_middleware.Prelude.State.{Result, ok, err, M, pure, ◌>>=◌}
use auth_middleware.Providers.{
  Userinfo, ProviderToken, OAuthConfig, Web, Options, Provider, get, send_new, decode_ok, accepted,
  check_email, checked, revocable_token, form_header, post_form,
}

pub record GoogleUser : Type 0 where
  pub sub : String
  pub email : String
  pub email_verified : Bool
  pub name : String
  pub given_name : String
  pub family_name : String
  pub picture : String
  pub locale : String

-- what NewGoogleProvider sets in the configuration; the endpoint is google.Endpoint
unfoldable pub configure : (auth_url token_url : String) → OAuthConfig → OAuthConfig
configure auth_url token_url config = record config {
  scopes = "openid" ∷ "email" ∷ "profile" ∷ [];
  auth_url = auth_url;
  token_url = token_url;
}

unfoldable pub user_of : Options → Result GoogleUser → Result Userinfo
unfolding check_email checked
user_of o (err e) = err e
user_of o (ok user) =
    checked (check_email o user.email user.email_verified)
      (record { id = user.sub; email = user.email; name = user.name })

module _ {W : Type 0} (web : Web W) (decode : String → Result GoogleUser) where
  -- GetUser
  unfoldable pub get_user : OAuthConfig → Options → ProviderToken → M W (Result Userinfo)
  unfolding user_of decode_ok
  get_user config o token = do
    r ← web.authorized config token (get "https://openidconnect.googleapis.com/v1/userinfo")
    pure (user_of o (decode_ok "google api returned status" decode r))

  -- Revoke
  unfoldable pub revoke : ProviderToken → M W (Result (Unit {0}))
  unfolding send_new accepted
  revoke token = do
    r ← send_new web (
        post_form "https://oauth2.googleapis.com/revoke" (form_header ∷ [])
          (("token", revocable_token token) ∷ []))
    pure (accepted (λ status. eqb status 200) "google revoke failed" r)

  -- NewGoogleProvider
  abbrev pub new_provider : OAuthConfig → Options → Provider W
  new_provider config o = record { get_user = get_user config o; revoke = revoke }
