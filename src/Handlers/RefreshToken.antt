-- ===== src/Handlers/RefreshToken.antt =====
-- server/internal/handlers/refreshtoken/refreshtoken.go
use auth_middleware.Prelude.{ℕ, String, Bool, true, false, Option, none, some}
use auth_middleware.Prelude.State.{Result, ok}
use auth_middleware.Jwt.Library.{Registered, parsed, malformed, TokenLib}
use auth_middleware.Handlers.Response.{Writer, add_cookie}

-- What the handlers read of an http.Request. A header that is absent reads as the empty text.
pub record Request : Type 0 where
  pub authorization : String
  -- the value of the cookie `refresh_token`
  pub cookie : Option String
  -- the field `refresh_token` of the JSON body, or the error in decoding it
  pub body : Result String
  pub code : String
  pub state : String
  pub iss : String
  pub provider_error : String
  pub device_name : String
  pub pkce_verifier : String

abbrev pub cookie_name : String
cookie_name = "refresh_token"

unfoldable pub from_request : Request → Result String
from_request r = elim r.cookie [ some value ↦ ok value | none ↦ r.body ]

module _ (lib : TokenLib Registered) where
  unfoldable pub expiry_of : String → Option ℕ
  expiry_of token = elim (lib.parse_unverified token) [
    | malformed _ ↦ none
    | parsed _ claims ↦ claims.expires_at
  ]

  unfoldable pub set_cookie : String → (secure : Bool) → Writer → Writer
  unfolding expiry_of add_cookie
  set_cookie token secure = add_cookie (record {
    name = cookie_name;
    value = token;
    path = "/";
    delete_now = false;
    expires = expiry_of token;
    http_only = true;
    secure = secure;
    same_site_lax = true;
  })

-- `MaxAge: -1` deletes the cookie
unfoldable pub clear_cookie : Writer → Writer
unfolding add_cookie
clear_cookie = add_cookie (record {
  name = cookie_name;
  value = "";
  path = "/";
  delete_now = true;
  expires = none;
  http_only = true;
  secure = false;
  same_site_lax = false;
})
