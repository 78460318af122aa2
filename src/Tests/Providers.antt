-- ===== src/Tests/Providers.antt =====
-- The theorems on the providers and the OAuth2 client at concrete answers. The world counts rounds:
-- at 0 the network fails, later every request is answered.
use auth_middleware.Prelude.{
  ℕ, suc, String, ◌≡◌, ◌≢◌, ◌⊎◌, refl, true, false, none, some, [], ◌∷◌, if◌then◌else◌, eqb, ltb,
  pos, arith, not-empty,
}
use auth_middleware.Prelude.State.{Result, ok, err}
use auth_middleware.Errors.{other, deadline_exceeded}
use auth_middleware.Providers.{Web, ProviderToken, OAuthConfig, Options, Userinfo}
use auth_middleware.Providers.Google.{GoogleUser}
use auth_middleware.Providers.Oidc.{Discovery, IdTokenClaims, ClaimsCodec, get_user}
use auth_middleware.Providers.Oidc.Users.{FromToken, FromEndpoint, get_user-Described}
use auth_middleware.Providers.Select.{Endpoints, Codecs, new_provider}
use auth_middleware.Providers.Select.Emails.{Attested, new_provider-email}
use auth_middleware.Providers.Discovery.{Context, fetch_discovery}
use auth_middleware.Providers.Discovery.Rounds.{
  fetch_discovery-IsUsable, IsUsable, unsent, Recovers, EndsWithin, fetch_discovery-Recovers,
  fetch_discovery-EndsWithin,
}
use auth_middleware.OAuthClient.{OidcConfig, oidc_client, new_oidc}
use auth_middleware.OAuthClient.Issuer.{Follows, new_oidc-Accepts}

abbrev web : Web ℕ
web = record {
  refuses = λ url. none;
  send = λ r w.
      (if eqb w 0 then err (other "no network") else ok (record { status = 200; body = ok "" }), w);
  authorized = λ config token r w. (ok (record { status = 200; body = ok "" }), w);
}

abbrev context : Context ℕ
context = record {
  done = λ w. if ltb w 5 then none else some deadline_exceeded;
  wait = suc;
  limited = λ m. m;
}

abbrev document : Discovery
document = record {
  issuer = "https://i";
  authorization_endpoint = "https://i/auth";
  token_endpoint = "https://i/token";
  userinfo_endpoint = "https://i/me";
  revocation_endpoint = "";
  iss_parameter_supported = true;
}

abbrev decode : String → Result Discovery
decode body = ok document

document-IsUsable : IsUsable document
unfolding IsUsable
document-IsUsable =
    (not-empty "https://i/auth" refl, not-empty "https://i/token" refl, not-empty "https://i" refl)

fetch_discovery-Recovers_example :
    (fetch_discovery web context decode 2 "https://i/" 0).0 ≡ some (ok document)
unfolding Recovers auth_middleware.Providers.Discovery.try_fetch_discovery
fetch_discovery-Recovers_example =
    fetch_discovery-Recovers web context decode 2 1 "https://i/" 0 document (omega arith)
      document-IsUsable
      (
        refl,
        refl,
        unsent (other "no network"),
        (refl, refl, record { status = 200; body = ok "" }, refl, refl, "", refl, refl),
      )

fetch_discovery-EndsWithin_example :
    (r : Result Discovery) × ((fetch_discovery web context decode 2 "https://i/" 4).0 ≡ some r)
unfolding EndsWithin auth_middleware.Providers.Discovery.try_fetch_discovery
fetch_discovery-EndsWithin_example =
    fetch_discovery-EndsWithin web context decode 1 "https://i/" 4 (deadline_exceeded, refl)

fetch_discovery-IsUsable_example : IsUsable document
unfolding fetch_discovery
fetch_discovery-IsUsable_example =
    fetch_discovery-IsUsable web context decode 1 "https://i" 1 document refl

abbrev claims : IdTokenClaims
claims = record {
  sub = "7";
  email = "a@b.c";
  email_verified = true;
  name = "ann";
  iss = "https://i";
  aud = "us" ∷ [];
  exp = pos 50;
}

abbrev codec : ClaimsCodec
codec = record {
  base64 = ok;
  to_bool = λ text. ok true;
  to_string = ok;
  to_strings = λ text. ok [];
  claims = λ email_verified aud text. ok claims;
}

abbrev oauth_config : OAuthConfig
oauth_config = record {
  client_id = "us";
  client_secret = "hush";
  redirect_url = "https://a.b";
  scopes = [];
  auth_url = "";
  token_url = "";
}

abbrev strict : Options
strict = record { allow_unverified_email = false }

abbrev token : ProviderToken
token = record { access_token = "t"; refresh_token = ""; id_token = some "h.p.s" }

abbrev ann : Userinfo
ann = record { id = "7"; email = "a@b.c"; name = "ann" }

get_user-Described_example :
    FromToken web codec oauth_config strict document 10 token ann
    ⊎ FromEndpoint web codec oauth_config strict document token 1 ann
unfolding get_user auth_middleware.Providers.Oidc.claims_of
get_user-Described_example =
    get_user-Described web codec oauth_config strict document 10 token 1 ann refl

abbrev google_user : GoogleUser
google_user = record {
  sub = "7";
  email = "a@b.c";
  email_verified = true;
  name = "ann";
  given_name = "";
  family_name = "";
  picture = "";
  locale = "";
}

abbrev google : String
google = "google"

abbrev endpoints : Endpoints
endpoints = record { google = ("", ""); github = ("", ""); discord = ("", ""); discord_scopes = [] }

abbrev codecs : Codecs
codecs = record {
  google = λ text. ok google_user;
  discord = λ text. err (other "no user");
  github = record {
    format_int = λ n. "7";
    user = λ text. err (other "no user");
    emails = λ text. ok [];
  };
  to_bool = λ text. ok true;
  to_string = ok;
  generic = λ email_verified text. err (other "no user");
  basic_auth = λ name password. ("Authorization", name);
}

new_provider-email_example :
    (ann.email ≢ "")
    × ((google ≡ "github")
        ⊎ ((strict.allow_unverified_email ≡ true)
            ⊎ Attested web codecs
                (new_provider web endpoints codecs google oauth_config "" "" strict).1
                token
                1
                ""
                "a@b.c"))
unfolding new_provider auth_middleware.Providers.Google.get_user
new_provider-email_example =
    new_provider-email web endpoints codecs google oauth_config "" "" strict token 1 ann refl

abbrev oidc : OidcConfig
oidc = record {
  issuer_url = "https://i";
  client_id = "us";
  client_secret = "hush";
  redirect_url = "https://a.b";
  scopes = "email" ∷ [];
}

new_oidc-Accepts_example :
    (d : Discovery) × ((fetch_discovery web context decode 1 "https://i" 1).0 ≡ some (ok d))
    × Follows d (oidc_client web codec 10 oidc strict document) "https://j"
unfolding new_oidc
new_oidc-Accepts_example =
    new_oidc-Accepts web context decode codec 1 10 oidc strict 1
      (oidc_client web codec 10 oidc strict document) "https://j" refl
