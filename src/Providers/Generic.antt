-- ===== src/Providers/Generic.antt =====
-- oauth2/providers/generic.go, and flexibleBool of oidc.go
use auth_middleware.Prelude.{String, Bool, [], ◌∷◌, ◌==◌, if◌then◌else◌}
use auth_middleware.Prelude.State.{Result, ok, err, M, pure, ◌>>=◌}
use auth_middleware.Errors.{other}
use auth_middleware.Providers.{
  Userinfo, ProviderToken, OAuthConfig, Web, Options, Provider, get, send_new, decode_ok, accepted,
  is_success, check_email, checked, revocable_token, form_header, post_form,
}

-- flexibleBool.UnmarshalJSON; the parameters are json.Unmarshal into a bool and into a string
flexible_text : Result String → Result Bool
flexible_text (err e) = err e
flexible_text (ok s) = ok (s == "true")

unfoldable pub flexible_bool :
    (to_bool : String → Result Bool) (to_string : String → Result String)
    → (data_text : String) → Result Bool
unfolding flexible_text
flexible_bool to_bool to_string data_text = elim (to_bool data_text) [
  | ok b ↦ ok b
  | err _ ↦ flexible_text (to_string data_text)
]

pub record GenericUser : Type 0 where
  pub id : String
  pub email : String
  pub email_verified : Bool
  pub name : String

unfoldable pub user_of : Options → Result GenericUser → Result Userinfo
unfolding check_email checked
user_of o (err e) = err e
user_of o (ok user) =
    checked (check_email o user.email user.email_verified)
      (record { id = user.id; email = user.email; name = user.name })

module _ {W : Type 0} (web : Web W) where
  -- GetUser
  unfoldable pub get_user :
      (String → Result GenericUser)
      → OAuthConfig
      → Options
      → (userinfo_url : String) → ProviderToken
      → M W (Result Userinfo)
  unfolding user_of decode_ok
  get_user decode config o userinfo_url token = do
    r ← web.authorized config token (get userinfo_url)
    pure (user_of o (decode_ok "provider api returned status" decode r))

  -- The revocation of RFC 7009, which the OIDC provider uses too.
  unfoldable pub revoke_at :
      OAuthConfig → (revoke_url missing : String) → ProviderToken → M W (Result (Unit {0}))
  unfolding send_new accepted is_success revocable_token
  revoke_at config revoke_url missing token =
      if revoke_url == "" then pure (err (other missing)) else do
        r ← send_new web (
            post_form revoke_url (form_header ∷ []) (
              ("token", revocable_token token)
              ∷ ("client_id", config.client_id)
              ∷ ("client_secret", config.client_secret)
              ∷ []))
        pure (accepted is_success "revoke failed" r)

  -- Revoke
  unfoldable pub revoke :
      OAuthConfig → (revoke_url : String) → ProviderToken → M W (Result (Unit {0}))
  unfolding revoke_at
  revoke config revoke_url =
      revoke_at config revoke_url "revocation URL is not configured for this provider"

  -- NewGenericProvider
  abbrev pub new_provider :
      (String → Result GenericUser)
      → OAuthConfig
      → Options
      → (userinfo_url revoke_url : String) → Provider W
  new_provider decode config o userinfo_url revoke_url = record {
    get_user = get_user decode config o userinfo_url;
    revoke = revoke config revoke_url;
  }
