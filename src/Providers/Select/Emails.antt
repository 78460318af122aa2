-- ===== src/Providers/Select/Emails.antt =====
-- The emails of the users that the providers of New in oauth2/providers/providers.go return.
use auth_middleware.Prelude.{
  String, ◌≡◌, ◌≢◌, ◌⊎◌, refl, sym, ap, ◌∙◌, inl, inr, Bool, true, false, false≢true, List, [], ◌∷◌,
  ◌==◌, eq_iff, if◌then◌else◌, arith, Bool-cases, Option, none, some,
}
use auth_middleware.Prelude.State.{Result, ok, err, M, pure, ◌>>=◌}
use auth_middleware.Errors.{Error}
use auth_middleware.Providers.{
  Userinfo, ProviderToken, OAuthConfig, Web, Options, Response, get, check_email, checked,
  decode_body, decode_ok,
}
use auth_middleware.Providers.Answers.{check_email-Vouched, checked-ok, decode_ok-ok}
use auth_middleware.Providers.Google.{GoogleUser}
use auth_middleware.Providers.Google
use auth_middleware.Providers.Discord.{DiscordUser}
use auth_middleware.Providers.Discord
use auth_middleware.Providers.GitHub.{
  GitHubUser, GitHubEmail, GitHubCodec, primary_email, email_checked, email_of,
}
use auth_middleware.Providers.GitHub
use auth_middleware.Providers.Generic.{GenericUser}
use auth_middleware.Providers.Generic
use auth_middleware.Providers.Select.{
  Kind, discord, github, google, generic, Endpoints, Codecs, generic_user, kind_of, configured,
  provider_at, new_provider,
}

email_checked-ok :
    (o : Option Error) (email e : String) → email_checked o email ≡ ok e → (o ≡ none) × (email ≡ e)
unfolding email_checked
email_checked-ok none email e h = (refl, ground arith)
email_checked-ok (some x) email e h = absurd (ground arith)

primary_email-nonempty :
    (o : Options) (emails : List GitHubEmail) (email : String)
    → primary_email o emails ≡ ok email
    → email ≢ ""
unfolding primary_email
primary_email-nonempty o [] email h = absurd (ground arith)
primary_email-nonempty o (e ∷ emails) email h = elim (Bool-cases e.is_primary) [
  | inl primary ↦
      let (passed, same) =
        email_checked-ok (check_email o e.email e.verified) e.email email (ground arith) in
      λ missing. (check_email-Vouched o e.email e.verified passed).0 (same ∙ missing)
  | inr other ↦ primary_email-nonempty o emails email (ground arith)
]

email_of-nonempty :
    (o : Options) (r : Result (List GitHubEmail)) (email : String)
    → email_of o r ≡ ok email
    → email ≢ ""
unfolding email_of
email_of-nonempty o (err e) email h = absurd (ground arith)
email_of-nonempty o (ok emails) email h = primary_email-nonempty o emails email h

module _ {W : Type 0} (web : Web W) (codecs : Codecs) (config : OAuthConfig) (token : ProviderToken)
    (w : W) where
  -- The provider answered this token with status 200 and a user who has this email, marked as
  -- verified.
  pub data Attested (userinfo_url email : String) : Type 0 where
    by_google :
        (answer : Response) (user : GoogleUser)
        → (web.authorized config token (get "https://openidconnect.googleapis.com/v1/userinfo") w).0
          ≡ ok answer
        → answer.status ≡ 200
        → decode_body codecs.google answer.body ≡ ok user
        → user.email ≡ email
        → user.email_verified ≡ true
        → Attested userinfo_url email
    by_discord :
        (answer : Response) (user : DiscordUser)
        → (web.authorized config token (get "https://discord.com/api/users/@me") w).0 ≡ ok answer
        → answer.status ≡ 200
        → decode_body codecs.discord answer.body ≡ ok user
        → user.email ≡ email
        → user.verified ≡ true
        → Attested userinfo_url email
    by_generic :
        (answer : Response) (user : GenericUser)
        → (web.authorized config token (get userinfo_url) w).0 ≡ ok answer
        → answer.status ≡ 200
        → decode_body (generic_user codecs) answer.body ≡ ok user
        → user.email ≡ email
        → user.email_verified ≡ true
        → Attested userinfo_url email

  -- What is known of a returned email, for any provider but GitHub's.
  abbrev Known : Options → (userinfo_url email : String) → Type 0
  Known o userinfo_url email =
      (email ≢ "") × ((o.allow_unverified_email ≡ true) ⊎ Attested userinfo_url email)

  known :
      (o : Options) (userinfo_url : String) (email : String) (verified : Bool) (user u : Userinfo)
      → checked (check_email o email verified) user ≡ ok u
      → user.email ≡ email
      → (email ≡ u.email → verified ≡ true → Attested userinfo_url u.email)
      → Known o userinfo_url u.email
  known o userinfo_url email verified user u h named attest =
      let (passed, same) = checked-ok (check_email o email verified) user u h in
      let (present, why) = check_email-Vouched o email verified passed in
      let email_same = sym named ∙ ap (λ (u : Userinfo). u.email) same in
      (
        λ e. present (email_same ∙ e),
        elim why [ inl verified ↦ inr (attest email_same verified) | inr allowed ↦ inl allowed ],
      )

  google_user-Known :
      (o : Options) (userinfo_url : String) (r : Result GoogleUser) (u : Userinfo)
      → Google.user_of o r ≡ ok u
      → ((x : GoogleUser)
          → r ≡ ok x
          → x.email ≡ u.email
          → x.email_verified ≡ true
          → Attested userinfo_url u.email)
      → Known o userinfo_url u.email
  unfolding Google.user_of
  google_user-Known o userinfo_url (err e) u h attest = absurd (ground arith)
  google_user-Known o userinfo_url (ok x) u h attest =
      known o userinfo_url x.email x.email_verified _ u h refl (attest x refl)

  google-Known :
      (o : Options) (userinfo_url : String) (u : Userinfo)
      → (Google.get_user web codecs.google config o token w).0 ≡ ok u
      → Known o userinfo_url u.email
  unfolding Google.get_user
  google-Known o userinfo_url u h =
      let r =
        (web.authorized config token (get "https://openidconnect.googleapis.com/v1/userinfo")
          w).0 in
      google_user-Known o userinfo_url (decode_ok "google api returned status" codecs.google r) u h
        λ x decoded email verified.
          let (answer, got, status, body) =
            decode_ok-ok "google api returned status" codecs.google r x decoded in
          by_google answer x got status body email verified

  discord_user-Known :
      (o : Options) (userinfo_url : String) (r : Result DiscordUser) (u : Userinfo)
      → Discord.user_of o r ≡ ok u
      → ((x : DiscordUser)
          → r ≡ ok x
          → x.email ≡ u.email
          → x.verified ≡ true
          → Attested userinfo_url u.email)
      → Known o userinfo_url u.email
  unfolding Discord.user_of
  discord_user-Known o userinfo_url (err e) u h attest = absurd (ground arith)
  discord_user-Known o userinfo_url (ok x) u h attest =
      known o userinfo_url x.email x.verified _ u h refl (attest x refl)

  discord-Known :
      (o : Options) (userinfo_url : String) (u : Userinfo)
      → (Discord.get_user web codecs.discord config o token w).0 ≡ ok u
      → Known o userinfo_url u.email
  unfolding Discord.get_user
  discord-Known o userinfo_url u h =
      let r = (web.authorized config token (get "https://discord.com/api/users/@me") w).0 in
      discord_user-Known o userinfo_url (decode_ok "discord api returned status" codecs.discord r) u
        h
        λ x decoded email verified.
          let (answer, got, status, body) =
            decode_ok-ok "discord api returned status" codecs.discord r x decoded in
          by_discord answer x got status body email verified

  generic_user-Known :
      (o : Options) (userinfo_url : String) (r : Result GenericUser) (u : Userinfo)
      → Generic.user_of o r ≡ ok u
      → ((x : GenericUser)
          → r ≡ ok x
          → x.email ≡ u.email
          → x.email_verified ≡ true
          → Attested userinfo_url u.email)
      → Known o userinfo_url u.email
  unfolding Generic.user_of
  generic_user-Known o userinfo_url (err e) u h attest = absurd (ground arith)
  generic_user-Known o userinfo_url (ok x) u h attest =
      known o userinfo_url x.email x.email_verified _ u h refl (attest x refl)

  generic-Known :
      (o : Options) (userinfo_url : String) (u : Userinfo)
      → (Generic.get_user web (generic_user codecs) config o userinfo_url token w).0 ≡ ok u
      → Known o userinfo_url u.email
  unfolding Generic.get_user
  generic-Known o userinfo_url u h =
      let r = (web.authorized config token (get userinfo_url) w).0 in
      generic_user-Known o userinfo_url
        (decode_ok "provider api returned status" (generic_user codecs) r) u h
        λ x decoded email verified.
          let (answer, got, status, body) =
            decode_ok-ok "provider api returned status" (generic_user codecs) r x decoded in
          by_generic answer x got status body email verified

  user_of-email :
      (user : GitHubUser) (r : Result String) (u : Userinfo)
      → GitHub.user_of codecs.github user r ≡ ok u
      → (email : String) × (r ≡ ok email) × (email ≡ u.email)
  unfolding GitHub.user_of
  user_of-email user (err e) u h = absurd (ground arith)
  user_of-email user (ok email) u h = (email, refl, ground arith)

  -- the user with the email that was found, public or fetched
  found-nonempty :
      (o : Options) (b : Bool) (user : GitHubUser) (w : W) (u : Userinfo)
      → (user.email == "") ≡ b
      → (if◌then◌else◌ {A = M W (Result Userinfo)} b
          (GitHub.fetch_primary_email web codecs.github config o token >>= λ email.
            pure (GitHub.user_of codecs.github user email))
          (pure (GitHub.user_of codecs.github user (ok user.email)))
          w).0
        ≡ ok u
      → u.email ≢ ""
  unfolding GitHub.fetch_primary_email
  found-nonempty o true user w u public h =
      let (email, found, same) = user_of-email user _ u h in
      λ missing.
        email_of-nonempty o
          (decode_ok "GitHub emails API returned status" codecs.github.emails
            (web.authorized config token (GitHub.get_json "https://api.github.com/user/emails")
              w).0)
          email found (same ∙ missing)
  found-nonempty o false user w u public h =
      let (email, found, same) = user_of-email user (ok user.email) u h in
      let public_email : user.email ≡ email = ground arith in
      λ missing. false≢true (sym public ∙ (eq_iff user.email "").1 (public_email ∙ same ∙ missing))

  with_email-nonempty :
      (o : Options) (r : Result GitHubUser) (w : W) (u : Userinfo)
      → (GitHub.with_email web codecs.github config o token r w).0 ≡ ok u
      → u.email ≢ ""
  unfolding GitHub.with_email
  with_email-nonempty o (err e) w u h = absurd (ground arith)
  with_email-nonempty o (ok user) w u h = found-nonempty o (user.email == "") user w u refl h

  github-nonempty :
      (o : Options) (u : Userinfo)
      → (GitHub.get_user web codecs.github config o token w).0 ≡ ok u
      → u.email ≢ ""
  unfolding GitHub.get_user
  github-nonempty o u h =
      let answer = web.authorized config token (GitHub.get_json "https://api.github.com/user") w in
      with_email-nonempty o (decode_ok "GitHub API returned status" codecs.github.user answer.0)
        answer.1 u h

kind_of-github : (name : String) → kind_of name ≡ github → name ≡ "github"
unfolding kind_of
kind_of-github name h = elim (Bool-cases (name == "github")) [
  | inl yes_github ↦ (eq_iff name "github").0 yes_github
  | inr other ↦ absurd (ground arith)
]

module _ {W : Type 0} (web : Web W) (endpoints : Endpoints) (codecs : Codecs) where
  provider_at-email :
      (k : Kind) (config : OAuthConfig) (userinfo_url revoke_url : String) (o : Options)
      (token : ProviderToken) (w : W) (u : Userinfo)
      → ((provider_at web endpoints codecs k config userinfo_url revoke_url o).get_user token w).0
        ≡ ok u
      → (u.email ≢ "")
        × ((k ≡ github)
            ⊎ ((o.allow_unverified_email ≡ true)
                ⊎ Attested web codecs config token w userinfo_url u.email))
  unfolding provider_at
  provider_at-email discord config userinfo_url revoke_url o token w u h =
      let (present, why) = discord-Known web codecs config token w o userinfo_url u h in
      (present, inr why)
  provider_at-email github config userinfo_url revoke_url o token w u h =
      (github-nonempty web codecs config token w o u h, inl refl)
  provider_at-email google config userinfo_url revoke_url o token w u h =
      let (present, why) = google-Known web codecs config token w o userinfo_url u h in
      (present, inr why)
  provider_at-email generic config userinfo_url revoke_url o token w u h =
      let (present, why) = generic-Known web codecs config token w o userinfo_url u h in
      (present, inr why)

  -- A user that the provider made by New returns has an email. Unless the provider is GitHub's, or
  -- unverified emails are allowed, the provider's userinfo endpoint answered the token with status
  -- 200 and a user with this email, marked as verified.
  pub new_provider-email :
      (name : String) (config : OAuthConfig) (userinfo_url revoke_url : String) (o : Options)
      (token : ProviderToken) (w : W) (u : Userinfo)
      → (((new_provider web endpoints codecs name config userinfo_url revoke_url o).0).get_user
          token w).0
        ≡ ok u
      → (u.email ≢ "")
        × ((name ≡ "github")
            ⊎ ((o.allow_unverified_email ≡ true)
                ⊎ Attested web codecs
                    (new_provider web endpoints codecs name config userinfo_url revoke_url o).1
                    token
                    w
                    userinfo_url
                    u.email))
  unfolding new_provider
  new_provider-email name config userinfo_url revoke_url o token w u h =
      let (present, why) =
        provider_at-email (kind_of name) (configured web endpoints codecs (kind_of name) config)
          userinfo_url revoke_url o token w u h in
      (
        present,
        elim why [ inl is_github ↦ inl (kind_of-github name is_github) | inr known ↦ inr known ],
      )
