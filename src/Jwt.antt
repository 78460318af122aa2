-- ===== src/Jwt.antt =====
-- jwt/jwt.go and jwt/options.go: the tokens of a device, signed with the device's secret.
-- github.com/golang-jwt/jwt is a parameter (`JwtLib`), and so is the `Database` interface. `now` is
-- the clock at the call, in nanoseconds; a call reads it as one instant.
pub mod Library
pub mod Issue
pub mod Verify
pub mod Sessions
pub mod RoundTrip
use auth_middleware.Prelude.{
  ℕ, ◌+◌, ◌*◌, String, Bool, true, false, ◌||◌, not, Option, none, some, List, [], ◌∷◌, ◌++◌, ℤ,
  pos, eqb_ℤ, ◌==◌, if◌then◌else◌,
}
use auth_middleware.Prelude.State.{Result, ok, err, M, pure, ◌>>=◌}
use auth_middleware.Errors.{
  Error, invalid_token, unexpected_signing_method, token_revoked, device_not_found,
  invalid_signature, is_device_not_found,
}
use auth_middleware.Text.{to_lower, trim_prefix}
use Library.{
  Registered, Alg, hmac, none_alg, asymmetric, ParserOption, with_issuer, with_audience, LibError,
  token_signature_invalid, other_failure, Parsed, parsed, malformed, Outcome, TokenLib,
}

abbrev pub access_token_type : String
access_token_type = "access+jwt"

abbrev pub refresh_token_type : String
refresh_token_type = "refresh+jwt"

-- jwt.Database
pub record Database (W : Type 0) : Type 0 where
  pub update_device_secret : String → M W (Result ℕ)
  pub get_device_secret : String → M W (Result (String × ℕ))

pub record AccessClaims : Type 0 where
  pub username : String
  pub user_email : String
  pub device_id : String
  pub generation : ℤ
  pub registered : Registered

pub record RefreshClaims : Type 0 where
  pub device_id : String
  pub generation : ℤ
  pub registered : Registered

-- options.go; durations in nanoseconds
pub record Options : Type 0 where
  pub access_token_duration : ℕ
  pub refresh_token_duration : ℕ
  pub issuer : String
  pub audience : String

abbrev minute : ℕ
minute = 60 * 1000000000

pub default_options : Options
default_options = record {
  access_token_duration = 15 * minute;
  refresh_token_duration = 7 * 24 * 60 * minute;
  issuer = "";
  audience = "";
}

unfoldable pub with_access_token_duration : ℕ → Options → Options
with_access_token_duration d o = record o { access_token_duration = d }

unfoldable pub with_refresh_token_duration : ℕ → Options → Options
with_refresh_token_duration d o = record o { refresh_token_duration = d }

unfoldable pub with_option_issuer : String → Options → Options
with_option_issuer issuer o = record o { issuer = issuer }

unfoldable pub with_option_audience : String → Options → Options
with_option_audience audience o = record o { audience = audience }

apply_options : List (Options → Options) → Options → Options
apply_options [] o = o
apply_options (opt ∷ opts) o = apply_options opts (opt o)

-- NewJWTManager: its configuration
unfoldable pub new_jwt_manager : List (Options → Options) → Options
unfolding default_options apply_options
new_jwt_manager opts = apply_options opts default_options

-- The library, at each type of claims.
pub record JwtLib : Type 0 where
  pub new_numeric_date : ℕ → ℕ
  pub access : TokenLib AccessClaims
  pub refresh : TokenLib RefreshClaims
  -- the registered claims alone, which server/internal/handlers/refreshtoken reads
  pub registered : TokenLib Registered

-- The cases of the type switch in `verifyToken`; every call is at one of the two types.
pub record Kind (C : Type 0) : Type 0 where
  pub token_type : String
  pub device_id : C → String
  pub generation : C → ℤ

abbrev pub access_kind : Kind AccessClaims
access_kind = record {
  token_type = access_token_type;
  device_id = λ c. c.device_id;
  generation = λ c. c.generation;
}

abbrev pub refresh_kind : Kind RefreshClaims
refresh_kind = record {
  token_type = refresh_token_type;
  device_id = λ c. c.device_id;
  generation = λ c. c.generation;
}

-- The header's `typ`; `none` where it is missing or no text.
unfoldable pub has_token_type : Option String → String → Bool
unfolding to_lower trim_prefix
has_token_type none expected = trim_prefix (to_lower "") "application/" == expected
has_token_type (some typ) expected = trim_prefix (to_lower typ) "application/" == expected

-- `(claims, secret, err)`; the secret is empty beside an error
pub data Verified (C : Type 0) : Type 0 where
  verified : C → String → Verified C
  refused : C → Error → Verified C

unfoldable pub parser_options : Options → List ParserOption
parser_options m =
    (if m.issuer == "" then [] else with_issuer m.issuer ∷ [])
    ++ (if m.audience == "" then [] else with_audience m.audience ∷ [])

-- the key function that `verifyToken` hands to the parser
unfoldable pub key_of : String → Alg → Result String
key_of secret hmac = ok secret
key_of secret none_alg = err unexpected_signing_method
key_of secret asymmetric = err unexpected_signing_method

is_signature_invalid : Option LibError → Bool
is_signature_invalid (some token_signature_invalid) = true
is_signature_invalid (some other_failure) = false
is_signature_invalid none = false

is_nil : Option LibError → Bool
is_nil none = true
is_nil (some e) = false

module _ {C : Type 0} where
  -- `generation` was read from the claims before the signature was checked
  check_outcome : ℤ → ℕ → String → Outcome C → Verified C
  unfolding is_signature_invalid is_nil
  check_outcome generation gen secret o =
      if is_signature_invalid o.failure
      then refused o.claims invalid_signature
      else if not (is_nil o.failure) || not o.valid
      then refused o.claims invalid_token
      else if not (eqb_ℤ generation (pos gen))
      then refused o.claims token_revoked
      else verified o.claims secret

  check_secret : TokenLib C → Kind C → Options → ℕ → String → C → Result (String × ℕ) → Verified C
  unfolding check_outcome
  check_secret lib kind m now token claims (err e) =
      if is_device_not_found e
      then refused claims device_not_found
      else refused claims invalid_token
  check_secret lib kind m now token claims (ok (secret, gen)) =
      check_outcome (kind.generation claims) gen secret
        (lib.parse_with_claims token claims (key_of secret) (parser_options m) now)

module _ {W : Type 0} (db : Database W) where
  unfoldable pub verify_token :
      {C : Type 0} → TokenLib C → Kind C → Options → ℕ → String → M W (Verified C)
  unfolding check_secret
  verify_token lib kind m now token w = elim (lib.parse_unverified token) [
    | malformed claims ↦ (refused claims invalid_token, w)
    | parsed typ claims ↦
        if not (has_token_type typ kind.token_type)
        then (refused claims invalid_token, w)
        else (do
          r ← db.get_device_secret (kind.device_id claims)
          pure (check_secret lib kind m now token claims r))
            w
  ]

  module _ (lib : JwtLib) (m : Options) (now : ℕ) where
    unfoldable pub verify_access : String → M W (Verified AccessClaims)
    verify_access = verify_token lib.access access_kind m now

    unfoldable pub verify_refresh : String → M W (Verified RefreshClaims)
    verify_refresh = verify_token lib.refresh refresh_kind m now
