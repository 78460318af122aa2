-- ===== src/Identity.antt =====
-- server/internal/identity/identity.go: the signed identity header.
pub mod Expiry
use auth_middleware.Prelude.{
  ℕ, ◌+◌, ◌*◌, String, Bool, Option, none, some, List, [], ◌∷◌, ltb, ◌==◌, if◌then◌else◌,
}
use auth_middleware.Prelude.State.{Result}
use auth_middleware.Jwt.Library.{Registered, TokenLib}

abbrev pub identity_token_type : String
identity_token_type = "identity+jwt"

abbrev pub min_secret_length : ℕ
min_secret_length = 32

abbrev pub token_duration : ℕ
token_duration = 60 * 1000000000

pub record Claims : Type 0 where
  pub username : String
  pub device_id : String
  pub registered : Registered

pub record Signer : Type 0 where
  pub secret : String
  pub issuer : String
  pub audience : List String

-- NewSigner
unfoldable pub new_signer : (secret issuer audience : String) → Signer
new_signer secret issuer audience = record {
  secret = secret;
  issuer = issuer;
  audience = if audience == "" then [] else audience ∷ [];
}

-- `now` plus a minute, or the access token's expiry if that is before
unfoldable pub expiry : ℕ → Option ℕ → ℕ
expiry now none = now + token_duration
expiry now (some access) =
    if ltb access (now + token_duration) then access else now + token_duration

module _ (new_numeric_date : ℕ → ℕ) (lib : TokenLib Claims) where
  unfoldable pub identity_claims :
      Signer → (now : ℕ) (user_email username device_id : String) → Option ℕ → Claims
  unfolding expiry
  identity_claims s now user_email username device_id access_expires_at = record {
    username = username;
    device_id = device_id;
    registered = record {
      issuer = s.issuer;
      audience = s.audience;
      subject = user_email;
      expires_at = some (new_numeric_date (expiry now access_expires_at));
      issued_at = some (new_numeric_date now);
    };
  }

  unfoldable pub sign :
      Signer → (now : ℕ) (user_email username device_id : String) → Option ℕ → Result String
  unfolding identity_claims
  sign s now user_email username device_id access_expires_at =
      lib.signed_string identity_token_type
        (identity_claims s now user_email username device_id access_expires_at) s.secret
