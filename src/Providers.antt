-- ===== src/Providers.antt =====
-- oauth2/providers/providers.go: the login providers, and what they all use. HTTP, JSON, base64 and
-- golang.org/x/oauth2 are parameters. `W` is the world with the request's context.
pub mod Google
pub mod Discord
pub mod Generic
pub mod GitHub
pub mod Discovery
pub mod Oidc
pub mod Select
pub mod Answers
use auth_middleware.Prelude.{
  ℕ, String, Bool, true, false, not, ◌&&◌, ◌||◌, Option, none, some, List, [], eqb, ltb, ◌==◌, ℤ,
  if◌then◌else◌,
}
use auth_middleware.Prelude.State.{Result, ok, err, M}
use auth_middleware.Errors.{Error, other}

pub record Userinfo : Type 0 where
  pub id : String
  pub email : String
  pub name : String

-- oauth2.Token, what the program reads; the last is Extra("id_token").(string)
pub record ProviderToken : Type 0 where
  pub access_token : String
  pub refresh_token : String
  pub id_token : Option String

-- oauth2.Config
pub record OAuthConfig : Type 0 where
  pub client_id : String
  pub client_secret : String
  pub redirect_url : String
  pub scopes : List String
  pub auth_url : String
  pub token_url : String

pub data Body : Type 0 where
  empty : Body
  form : List (String × String) → Body
  access_token_json : String → Body

pub record Request : Type 0 where
  pub method : String
  pub url : String
  pub headers : List (String × String)
  pub body : Body

-- The body is what reading it gives.
pub record Response : Type 0 where
  pub status : ℕ
  pub body : Result String

-- net/http and golang.org/x/oauth2
pub record Web (W : Type 0) : Type 0 where
  -- the error of http.NewRequestWithContext at a URL
  pub refuses : (url : String) → Option Error
  -- http.DefaultClient.Do
  pub send : Request → M W (Result Response)
  -- config.Client(ctx, token).Do, which may refresh the token
  pub authorized : OAuthConfig → ProviderToken → Request → M W (Result Response)

unfoldable pub get : (url : String) → Request
get url = record { method = "GET"; url = url; headers = []; body = empty }

-- A new request that is sent, if it can be made.
unfoldable pub send_new : {W : Type 0} → Web W → Request → M W (Result Response)
send_new web r w = elim (web.refuses r.url) [ none ↦ web.send r w | some e ↦ (err e, w) ]

-- json.UnmarshalRead(resp.Body, …)
unfoldable pub decode_body : {A : Type 0} → (String → Result A) → Result String → Result A
decode_body decode (err e) = err e
decode_body decode (ok text) = decode text

-- A response of status 200, decoded.
unfoldable pub decode_ok :
    {A : Type 0} → (refusal : String) → (String → Result A) → Result Response → Result A
unfolding decode_body
decode_ok refusal decode (err e) = err e
decode_ok refusal decode (ok r) =
    if eqb r.status 200 then decode_body decode r.body else err (other refusal)

-- The outcome of a revocation: the status is one of those accepted.
unfoldable pub accepted : (ℕ → Bool) → (refusal : String) → Result Response → Result (Unit {0})
accepted good refusal (err e) = err e
accepted good refusal (ok r) = if good r.status then ok tt else err (other refusal)

-- resp.StatusCode < 200 || resp.StatusCode >= 300, negated
unfoldable pub is_success : ℕ → Bool
is_success status = not (ltb status 200 || not (ltb status 300))

abbrev pub missing_email : Error
missing_email = other "provider returned no email"

abbrev pub unverified_email : Error
unverified_email = other "provider email is not verified"

-- Options and newOptions: WithAllowUnverifiedEmail sets the one field, and the last one counts
pub record Options : Type 0 where
  pub allow_unverified_email : Bool

unfoldable pub with_allow_unverified_email : (allowed : Bool) → Options → Options
with_allow_unverified_email allowed o = record o { allow_unverified_email = allowed }

-- checkEmail
unfoldable pub check_email : Options → (email : String) (verified : Bool) → Option Error
check_email o email verified =
    if email == ""
    then some missing_email
    else if not verified && not o.allow_unverified_email
    then some unverified_email
    else none

-- a user whose email was checked
unfoldable pub checked : Option Error → Userinfo → Result Userinfo
checked none user = ok user
checked (some e) user = err e

-- revocableToken
unfoldable pub revocable_token : ProviderToken → String
revocable_token t = if t.refresh_token == "" then t.access_token else t.refresh_token

-- The interface Provider
pub record Provider (W : Type 0) : Type 0 where
  pub get_user : ProviderToken → M W (Result Userinfo)
  pub revoke : ProviderToken → M W (Result (Unit {0}))

-- IsBuiltin
unfoldable pub is_builtin : (name : String) → Bool
is_builtin name = (name == "discord") || (name == "github") || (name == "google")

abbrev pub form_header : String × String
form_header = ("Content-Type", "application/x-www-form-urlencoded")

-- a form that is posted
unfoldable pub post_form :
    (url : String) → List (String × String) → List (String × String) → Request
post_form url headers fields = record {
  method = "POST";
  url = url;
  headers = headers;
  body = form fields;
}
