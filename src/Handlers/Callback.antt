-- ===== src/Handlers/Callback.antt =====
-- server/internal/handlers/login/login.go: Callback, and handleExchange up to the function that it
-- hands to flight.Do. A timeout is an error of the operation that it ends.
use auth_middleware.Prelude.{ℕ, String, true, false, not, Option, none, some, ◌==◌, if◌then◌else◌}
use auth_middleware.Prelude.State.{M, pure, ◌>>=◌}
use auth_middleware.Errors.{Error}
use auth_middleware.Flight.{Stored, Group, do_flight}
use auth_middleware.Jwt.{JwtLib}
use auth_middleware.Handlers.Response.{
  TokenPair, Writer, fresh, text, pair, set_header, json, no_store_json,
}
use auth_middleware.Handlers.RefreshToken.{Request, set_cookie}
use auth_middleware.Handlers.Login.{
  Handler, ExchangeResponse, Exchanged, exchange, provider_error_status,
}
use Prim.Native.String.{◌++◌}

abbrev pub default_device_name : String
default_device_name = "Unknown Device"

-- the flight group of the handler, and how its results are kept
pub record Flights (W V : Type 0) : Type 1 where
  pub group : Group W V
  pub hash_key : String → String
  pub stored : Stored V ExchangeResponse

abbrev pub flight_key : (code state header_verifier : String) → String
flight_key code state header_verifier =
    "exchange:" ++ code ++ "|" ++ state ++ "|" ++ header_verifier

unfoldable pub device_name_of : Request → String
device_name_of r = if r.device_name == "" then default_device_name else r.device_name

module _ {W V : Type 0} (lib : JwtLib) (h : Handler W) (flights : Flights W V) (now : ℕ) where
  unfoldable pub handle_exchange : (code state device header_verifier : String) → M W Exchanged
  unfolding do_flight
  handle_exchange code state device header_verifier =
      do_flight flights.stored flights.hash_key flights.group
        (flight_key code state header_verifier) true
        (exchange lib h now code state device header_verifier)

  forward_tokens : TokenPair → Writer → Writer
  unfolding set_header
  forward_tokens t w =
      set_header "X-Forwarded-Access-Token" t.access_token
        (set_header "X-Forwarded-Refresh-Token" t.refresh_token w)

  forward_some : Option TokenPair → Writer → Writer
  unfolding forward_tokens
  forward_some none w = w
  forward_some (some t) w = if h.options.pass_oauth_token then forward_tokens t w else w

  -- the answer where there are no tokens of the program's own
  answer_provider : ExchangeResponse → Option TokenPair → Writer
  unfolding forward_tokens no_store_json json
  answer_provider res none = json false (text "") 500 fresh
  answer_provider res (some t) =
      if h.options.pass_oauth_token
      then no_store_json res.success (text "Logged in") res.state (forward_tokens t fresh)
      else no_store_json res.success (pair t) res.state fresh

  answer_tokens : ExchangeResponse → Option TokenPair → Writer
  unfolding answer_provider forward_some no_store_json set_cookie
  answer_tokens res none = answer_provider res res.oauth2_token
  answer_tokens res (some t) = no_store_json res.success (pair t) res.state (
      forward_some res.oauth2_token
        (set_cookie lib.registered t.refresh_token (not h.options.dev_mode) fresh))

  answer_exchange : ExchangeResponse → Option Error → Writer
  unfolding answer_tokens json
  answer_exchange res (some e) = json res.success (text res.message) res.state fresh
  answer_exchange res none =
      if not res.success
      then json res.success (text res.message) res.state fresh
      else answer_tokens res res.auth_token

  -- Callback from the test of `error` on
  authorized : Request → M W Writer
  unfolding handle_exchange answer_exchange json
  authorized r =
      if not (r.provider_error == "")
      then (do
        _ ← h.state_cache.take r.state
        pure (
            json false (text "Authorization failed at provider")
              (provider_error_status r.provider_error) fresh))
      else if r.code == ""
      then pure (json false (text "Missing code parameter") 400 fresh)
      else (do
        o ← handle_exchange r.code r.state (device_name_of r) r.pkce_verifier
        pure (answer_exchange o.value o.failure))

  issuer_checked : Request → Option Error → M W Writer
  unfolding authorized json
  issuer_checked r (some e) = pure (json false (text "Invalid issuer") 400 fresh)
  issuer_checked r none = authorized r

  unfoldable pub callback : Request → M W Writer
  unfolding issuer_checked json
  callback r =
      if r.state == ""
      then pure (json false (text "Missing state parameter") 400 fresh)
      else issuer_checked r (h.oauth2_client.validate_issuer r.iss)
