-- ===== src/Jwt/Library.antt =====
-- What jwt/jwt.go uses of github.com/golang-jwt/jwt: the types, and the operations on one type of
-- claims as a record that the model takes as a parameter.
use auth_middleware.Prelude.{ℕ, String, Bool, Option, List}
use auth_middleware.Prelude.State.{Result}

-- jwt.RegisteredClaims, the fields that the program sets or reads; dates are times in nanoseconds
pub record Registered : Type 0 where
  pub issuer : String
  pub audience : List String
  pub subject : String
  pub expires_at : Option ℕ
  pub issued_at : Option ℕ

-- The type of `token.Method`: `SigningMethodHMAC`, the method `none`, and the others.
pub data Alg : Type 0 where
  hmac none_alg asymmetric : Alg

pub data ParserOption : Type 0 where
  with_issuer with_audience : String → ParserOption

-- `errors.Is(err, jwt.ErrTokenSignatureInvalid)`, or any other error
pub data LibError : Type 0 where
  token_signature_invalid other_failure : LibError

-- ParseUnverified: the header's `typ`, if it is a text, and the claims; or an error, with what was
-- decoded before it.
pub data Parsed (C : Type 0) : Type 0 where
  parsed : (typ : Option String) → C → Parsed C
  malformed : C → Parsed C

-- ParseWithClaims: the claims that it decoded into, its error and `token.Valid`
pub record Outcome (C : Type 0) : Type 0 where
  pub claims : C
  pub failure : Option LibError
  pub valid : Bool

pub record TokenLib (C : Type 0) : Type 0 where
  pub parse_unverified : String → Parsed C
  -- the token, the claims to decode into, the key function, the options and the time
  pub parse_with_claims : String → C → (Alg → Result String) → List ParserOption → ℕ → Outcome C
  -- NewWithClaims at HS256, with the header's `typ` set, and SignedString with the secret
  pub signed_string : (typ : String) → C → (secret : String) → Result String
