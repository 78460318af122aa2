-- ===== src/Providers/Oidc.antt =====
-- oauth2/providers/oidc.go: the OIDC provider
pub mod Users
use auth_middleware.Prelude.{
  ℕ, ℤ, pos, negsuc, String, Bool, true, false, not, ◌&&◌, Option, none, some, List, [], ◌∷◌, ltb,
  eqb, ◌==◌, if◌then◌else◌, contains,
}
use auth_middleware.Prelude.State.{Result, ok, err, M, pure, ◌>>=◌}
use auth_middleware.Errors.{Error, other}
use auth_middleware.Text.{split}
use auth_middleware.Providers.{
  Userinfo, ProviderToken, OAuthConfig, Web, Options, Provider, get, decode_ok, check_email,
  checked,
}
use auth_middleware.Providers.Generic.{flexible_bool, revoke_at}

pub record Discovery : Type 0 where
  pub issuer : String
  pub authorization_endpoint : String
  pub token_endpoint : String
  pub userinfo_endpoint : String
  pub revocation_endpoint : String
  pub iss_parameter_supported : Bool

pub record IdTokenClaims : Type 0 where
  pub sub : String
  pub email : String
  pub email_verified : Bool
  pub name : String
  pub iss : String
  pub aud : List String
  pub exp : ℤ

-- audienceClaim.UnmarshalJSON; the parameters are json.Unmarshal into a string and into a list
unfoldable pub audience_claim :
    (to_string : String → Result String) (to_strings : String → Result (List String))
    → (data_text : String) → Result (List String)
audience_claim to_string to_strings data_text = elim (to_string data_text) [
  | ok s ↦ ok (s ∷ [])
  | err _ ↦ to_strings data_text
]

-- base64.RawURLEncoding.DecodeString, json.Unmarshal into the plain types, and into the claims with
-- the program's own decoders of `email_verified` and `aud`
pub record ClaimsCodec : Type 0 where
  pub base64 : String → Result String
  pub to_bool : String → Result Bool
  pub to_string : String → Result String
  pub to_strings : String → Result (List String)
  pub claims :
      (email_verified : String → Result Bool) (aud : String → Result (List String))
      → String
      → Result IdTokenClaims

unfoldable pub claims_of : ClaimsCodec → String → Result IdTokenClaims
unfolding flexible_bool audience_claim
claims_of codec =
    codec.claims (flexible_bool codec.to_bool codec.to_string)
      (audience_claim codec.to_string codec.to_strings)

-- parts[1], if there are three parts
unfoldable pub payload_part : String × List String → Option String
payload_part (header, payload ∷ signature ∷ []) = some payload
payload_part (header, _) = none

-- claims.Exp > 0 && time.Now().Unix() > claims.Exp
unfoldable pub is_expired : (now : ℕ) (exp : ℤ) → Bool
is_expired now (pos exp) = ltb 0 exp && ltb exp now
is_expired now (negsuc _) = false

unfoldable pub claims_in_time : (now : ℕ) → Result IdTokenClaims → Result IdTokenClaims
unfolding is_expired
claims_in_time now (err e) = err e
claims_in_time now (ok c) = if is_expired now c.exp then err (other "id_token is expired") else ok c

unfoldable pub payload_claims : ClaimsCodec → Option String → Result IdTokenClaims
payload_claims codec none = err (other "invalid id_token format")
payload_claims codec (some payload) = elim (codec.base64 payload) [
  | err e ↦ err e
  | ok text ↦ claims_of codec text
]

-- parseIDTokenClaims
unfoldable pub parse_id_token_claims : ClaimsCodec → (now : ℕ) → String → Result IdTokenClaims
unfolding claims_in_time payload_claims payload_part split
parse_id_token_claims codec now id_token =
    claims_in_time now (payload_claims codec (payload_part (split id_token b'.')))

-- validateIDTokenClaims
unfoldable pub validate_id_token_claims : Discovery → OAuthConfig → IdTokenClaims → Option Error
unfolding contains
validate_id_token_claims d config c =
    if not (c.iss == d.issuer)
    then some (other "id_token issuer mismatch")
    else if not (contains c.aud config.client_id)
    then some (other "id_token audience does not contain client_id")
    else none

abbrev pub is_none : Option Error → Bool
is_none none = true
is_none (some _) = false

abbrev pub user_of_claims : IdTokenClaims → Userinfo
user_of_claims c = record { id = c.sub; email = c.email; name = c.name }

unfoldable pub userinfo_user : Options → Result IdTokenClaims → Result Userinfo
unfolding check_email checked
userinfo_user o (err e) = err e
userinfo_user o (ok c) =
    if c.sub == ""
    then err (other "userinfo response missing required claim: sub")
    else checked (check_email o c.email c.email_verified) (user_of_claims c)

module _ {W : Type 0} (web : Web W) (codec : ClaimsCodec) (config : OAuthConfig) (o : Options)
    (d : Discovery) where
  -- fetchUserinfo
  unfoldable pub fetch_userinfo : ProviderToken → M W (Result Userinfo)
  unfolding userinfo_user decode_ok
  fetch_userinfo token = do
    r ← web.authorized config token (get d.userinfo_endpoint)
    pure (userinfo_user o (decode_ok "userinfo endpoint returned status" (claims_of codec) r))

  -- the end of GetUser
  unfoldable pub from_endpoint : ProviderToken → M W (Result Userinfo)
  unfolding fetch_userinfo
  from_endpoint token =
      if d.userinfo_endpoint == ""
      then pure (err (other "no userinfo endpoint available and id_token claims insufficient"))
      else fetch_userinfo token

  unfoldable pub from_claims : ProviderToken → IdTokenClaims → Option Error → M W (Result Userinfo)
  unfolding from_endpoint check_email
  from_claims token c (some e) = pure (err e)
  from_claims token c none =
      if not (c.sub == "") && is_none (check_email o c.email c.email_verified)
      then pure (ok (user_of_claims c))
      else from_endpoint token

  unfoldable pub from_parsed : ProviderToken → Result IdTokenClaims → M W (Result Userinfo)
  unfolding from_claims from_endpoint validate_id_token_claims
  from_parsed token (err _) = from_endpoint token
  from_parsed token (ok c) = from_claims token c (validate_id_token_claims d config c)

  unfoldable pub from_token : (now : ℕ) → ProviderToken → Option String → M W (Result Userinfo)
  unfolding from_parsed from_endpoint parse_id_token_claims
  from_token now token none = from_endpoint token
  from_token now token (some id_token) =
      if id_token == ""
      then from_endpoint token
      else from_parsed token (parse_id_token_claims codec now id_token)

  -- GetUser, at the time `now` in seconds
  unfoldable pub get_user : (now : ℕ) → ProviderToken → M W (Result Userinfo)
  unfolding from_token
  get_user now token = from_token now token token.id_token

  -- Revoke
  unfoldable pub revoke : ProviderToken → M W (Result (Unit {0}))
  unfolding revoke_at
  revoke =
      revoke_at web config d.revocation_endpoint
        "revocation endpoint not available for this provider"

  -- NewOIDCProvider
  abbrev pub new_provider : (now : ℕ) → Provider W
  new_provider now = record { get_user = get_user now; revoke = revoke }
