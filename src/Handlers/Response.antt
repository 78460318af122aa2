-- ===== src/Handlers/Response.antt =====
-- server/internal/handlers/response/response.go, and what the handlers use of net/http. The log
-- lines are not modelled; a JSON body is the value that is marshalled.
use auth_middleware.Prelude.{
  ℕ, String, Bool, false, Option, none, some, List, [], ◌∷◌, ◌==◌, if◌then◌else◌,
}
use auth_middleware.Errors.{Error, is_device_not_found, is_invalid_signature}

pub record TokenPair : Type 0 where
  pub access_token : String
  pub refresh_token : String

-- The types of `message`
pub data Message : Type 0 where
  text : String → Message
  pair : TokenPair → Message
  -- LoginResponse of login.go: `verifier` is left out where it is empty
  login : (verifier url : String) → Message

-- http.Cookie, the fields that the program sets
pub record Cookie : Type 0 where
  pub name : String
  pub value : String
  pub path : String
  pub delete_now : Bool
  pub expires : Option ℕ
  pub http_only : Bool
  pub secure : Bool
  pub same_site_lax : Bool

-- http.ResponseWriter: the headers, the cookies, the status once it is written, and the body
pub record Writer : Type 0 where
  pub headers : List (String × String)
  pub cookies : List Cookie
  pub status : Option ℕ
  pub body : Option (Bool × Message)

abbrev pub fresh : Writer
fresh = record { headers = []; cookies = []; status = none; body = none }

-- http.Header.Get; none where the header is not set
unfoldable pub get_header : String → List (String × String) → Option String
get_header k [] = none
get_header k ((j, v) ∷ hs) = if j == k then some v else get_header k hs

unfoldable pub put_header : String → String → List (String × String) → List (String × String)
put_header k v [] = (k, v) ∷ []
put_header k v ((j, w) ∷ hs) = if j == k then (k, v) ∷ hs else (j, w) ∷ put_header k v hs

-- w.Header().Set
unfoldable pub set_header : String → String → Writer → Writer
unfolding put_header
set_header k v w = record w { headers = put_header k v w.headers }

-- http.SetCookie
unfoldable pub add_cookie : Cookie → Writer → Writer
add_cookie c w = record w { cookies = c ∷ w.cookies }

-- WriteHeader: a status that is written stays
unfoldable pub write_header : ℕ → Writer → Writer
write_header code w = elim w.status [ none ↦ record w { status = some code } | some _ ↦ w ]

-- JSON
unfoldable pub json : (success : Bool) → Message → (code : ℕ) → Writer → Writer
unfolding set_header write_header
json success message code w =
    record (write_header code (set_header "Content-Type" "application/json" w)) {
      body = some (success, message);
    }

abbrev pub bearer_challenge : String
bearer_challenge = "Bearer"

abbrev pub invalid_token_challenge : String
invalid_token_challenge = "Bearer error=\"invalid_token\""

unfoldable pub set_auth_error : Error → Writer → Writer
unfolding set_header
set_auth_error e w =
    if is_device_not_found e
    then set_header "X-Auth-Error" "device_not_found" w
    else if is_invalid_signature e
    then set_header "X-Auth-Error" "invalid_signature" w
    else w

unfoldable pub unauthorized : (challenge message : String) → Writer → Writer
unfolding set_header json
unauthorized challenge message w =
    json false (text message) 401 (set_header "WWW-Authenticate" challenge w)

unfoldable pub no_store_json : (success : Bool) → Message → (code : ℕ) → Writer → Writer
unfolding set_header json
no_store_json success message code w =
    json success message code (set_header "Cache-Control" "no-store" w)
