-- ===== src/Providers/GitHub.antt =====
-- oauth2/providers/github.go
use auth_middleware.Prelude.{
  ℤ, String, Bool, Option, none, some, List, [], ◌∷◌, eqb, ◌==◌, if◌then◌else◌,
}
use auth_middleware.Prelude.State.{Result, ok, err, M, pure, ◌>>=◌}
use auth_middleware.Errors.{Error}
use auth_middleware.Providers.{
  Userinfo, ProviderToken, OAuthConfig, Request, Web, Options, Provider, access_token_json, get,
  send_new, decode_ok, accepted, missing_email, check_email,
}
use auth_middleware.Text.{append}

pub record GitHubUser : Type 0 where
  pub id : ℤ
  pub login : String
  pub name : String
  pub email : String

pub record GitHubEmail : Type 0 where
  pub email : String
  pub is_primary : Bool
  pub verified : Bool

-- what NewGitHubProvider sets in the configuration; the endpoint is github.Endpoint
unfoldable pub configure : (auth_url token_url : String) → OAuthConfig → OAuthConfig
configure auth_url token_url config = record config {
  scopes = "read:user" ∷ "user:email" ∷ [];
  auth_url = auth_url;
  token_url = token_url;
}

abbrev pub accept_header : String × String
accept_header = ("Accept", "application/vnd.github+json")

unfoldable pub get_json : (url : String) → Request
unfolding get
get_json url = record (get url) { headers = accept_header ∷ [] }

-- strconv.FormatInt(…, 10), and the decoders of the two bodies
pub record GitHubCodec : Type 0 where
  pub format_int : ℤ → String
  pub user : String → Result GitHubUser
  pub emails : String → Result (List GitHubEmail)

-- the email that checkEmail let pass
unfoldable pub email_checked : Option Error → (email : String) → Result String
email_checked none email = ok email
email_checked (some e) email = err e

-- the loop of fetchPrimaryEmail
unfoldable pub primary_email : Options → List GitHubEmail → Result String
unfolding check_email email_checked
primary_email o [] = err missing_email
primary_email o (e ∷ emails) =
    let rest = primary_email o emails in
    if e.is_primary then email_checked (check_email o e.email e.verified) e.email else rest

unfoldable pub email_of : Options → Result (List GitHubEmail) → Result String
unfolding primary_email
email_of o (err e) = err e
email_of o (ok emails) = primary_email o emails

unfoldable pub user_of : GitHubCodec → GitHubUser → Result String → Result Userinfo
user_of codec user (err e) = err e
user_of codec user (ok email) = ok (record {
  id = codec.format_int user.id;
  email = email;
  name = if user.name == "" then user.login else user.name;
})

module _ {W : Type 0} (web : Web W) (codec : GitHubCodec) (config : OAuthConfig) (o : Options) where
  -- fetchPrimaryEmail
  unfoldable pub fetch_primary_email : ProviderToken → M W (Result String)
  unfolding email_of decode_ok get_json
  fetch_primary_email token = do
    r ← web.authorized config token (get_json "https://api.github.com/user/emails")
    pure (email_of o (decode_ok "GitHub emails API returned status" codec.emails r))

  unfoldable pub with_email : ProviderToken → Result GitHubUser → M W (Result Userinfo)
  unfolding user_of fetch_primary_email
  with_email token (err e) = pure (err e)
  with_email token (ok user) =
      if user.email == ""
      then (do email ← fetch_primary_email token; pure (user_of codec user email))
      else pure (user_of codec user (ok user.email))

  -- GetUser
  unfoldable pub get_user : ProviderToken → M W (Result Userinfo)
  unfolding with_email decode_ok get_json
  get_user token = do
    r ← web.authorized config token (get_json "https://api.github.com/user")
    with_email token (decode_ok "GitHub API returned status" codec.user r)

  -- Revoke; `authorization` is the header of SetBasicAuth
  module _ (authorization : (name password : String) → String × String) where
    unfoldable pub revoke : ProviderToken → M W (Result (Unit {0}))
    unfolding send_new accepted
    revoke token = do
      r ← send_new web (record {
        method = "DELETE";
        url = append "https://api.github.com/applications/" (append config.client_id "/token");
        headers =
            accept_header
            ∷ ("Content-Type", "application/json")
            ∷ authorization config.client_id config.client_secret
            ∷ [];
        body = access_token_json token.access_token;
      })
      pure (accepted (λ status. eqb status 204) "GitHub revoke returned status" r)

    -- NewGitHubProvider
    abbrev pub new_provider : Provider W
    new_provider = record { get_user = get_user; revoke = revoke }
