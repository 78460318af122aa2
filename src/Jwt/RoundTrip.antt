-- ===== src/Jwt/RoundTrip.antt =====
-- A token that jwt/jwt.go issues is one that it accepts.
use auth_middleware.Prelude.{
  ℕ, String, ◌≡◌, refl, sym, subst, ◌+◌, ◌<◌, Bool, true, ◌&&◌, Option, none, some, List, [], ◌∷◌,
  arith, pos, ltb, ◌==◌, eq_refl, contains,
}
use auth_middleware.Prelude.State.{Result, ok}
use auth_middleware.Text.{to_lower, trim_prefix}
use auth_middleware.Jwt.Library.{
  Registered, Alg, hmac, ParserOption, with_issuer, with_audience, parsed, TokenLib,
}
use auth_middleware.Jwt.{
  Database, RefreshClaims, Options, Kind, JwtLib, verified, verify_token, verify_refresh,
  verify_access, access_kind, refresh_kind, access_token_type, has_token_type, parser_options,
  key_of,
}
use auth_middleware.Jwt.Issue.{
  rotated, rotate_refresh, new_refresh_claims, new_access_claims, sign_refresh, sign_access,
  generate_refresh, generate_access,
}
use auth_middleware.Jwt.Sessions.{rotate_refresh-Rotation}
use auth_middleware.Jwt.Verify.{verify_token-accepts_iff}

-- The validation of the registered claims that golang-jwt documents for the options of the program:
-- the issuer, the audience, and the time of expiry where there is one.
meets : Registered → ParserOption → Bool
meets r (with_issuer issuer) = r.issuer == issuer
meets r (with_audience audience) = contains r.audience audience

unexpired : (now : ℕ) → Option ℕ → Bool
unexpired now none = true
unexpired now (some at) = ltb now at

unfoldable pub accepts : List ParserOption → Registered → (now : ℕ) → Bool
unfolding meets unexpired
accepts [] r now = unexpired now r.expires_at
accepts (o ∷ os) r now = meets r o && accepts os r now

-- A date that NewNumericDate leaves as it is: a whole second.
WholeDate : (new_numeric_date : ℕ → ℕ) → Option ℕ → Type 0
WholeDate new_numeric_date none = Unit {0}
WholeDate new_numeric_date (some t) = new_numeric_date t ≡ t

unfoldable pub WholeDates : (new_numeric_date : ℕ → ℕ) → Registered → Type 0
unfolding WholeDate
WholeDates new_numeric_date r =
    WholeDate new_numeric_date r.expires_at × WholeDate new_numeric_date r.issued_at

-- What golang-jwt documents of a text that it signed with HS256 and `secret`, from claims whose dates
-- are whole seconds and whose texts are valid Unicode: the claims are decoded from it, and decoded
-- once more into the same claims, as verifyToken does, they stay as they are.
pub record RoundTrips {C : Type 0} (new_numeric_date : ℕ → ℕ) (lib : TokenLib C)
    (registered : C → Registered) : Type 0 where
  pub cut_once : (t : ℕ) → new_numeric_date (new_numeric_date t) ≡ new_numeric_date t
  pub unverified :
      (typ secret token : String) (c : C)
      → WholeDates new_numeric_date (registered c)
      → lib.signed_string typ c secret ≡ ok token
      → lib.parse_unverified token ≡ parsed (some typ) c
  pub checked :
      (typ secret token : String) (c : C) (key : Alg → Result String) (os : List ParserOption)
      (now : ℕ)
      → WholeDates new_numeric_date (registered c)
      → lib.signed_string typ c secret ≡ ok token
      → key hmac ≡ ok secret
      → accepts os (registered c) now ≡ true
      → lib.parse_with_claims token c key os now
        ≡ record { claims = c; failure = none; valid = true }

-- The claims meet the options of the manager that made them.
options-accepted :
    (m : Options) (r : Registered) (now : ℕ)
    → r.issuer ≡ m.issuer
    → r.audience ≡ m.audience ∷ []
    → unexpired now r.expires_at ≡ true
    → accepts (parser_options m) r now ≡ true
unfolding accepts parser_options contains
options-accepted m r now i a u = ground (arith, eq_refl m.issuer, eq_refl m.audience)

module _ {W C : Type 0} (db : Database W) (lib : TokenLib C) (kind : Kind C) (m : Options)
    (registered : C → Registered) (new_numeric_date : ℕ → ℕ)
    (laws : RoundTrips new_numeric_date lib registered) where
  -- A signed token of the right type, at the device's generation and secret, is accepted.
  signed-accepted :
      (later : ℕ) (token secret : String) (c : C) (gen : ℕ) (w w' : W)
      → has_token_type (some kind.token_type) kind.token_type ≡ true
      → WholeDates new_numeric_date (registered c)
      → lib.signed_string kind.token_type c secret ≡ ok token
      → accepts (parser_options m) (registered c) later ≡ true
      → kind.generation c ≡ pos gen
      → db.get_device_secret (kind.device_id c) w ≡ (ok (secret, gen), w')
      → verify_token db lib kind m later token w ≡ (verified c secret, w')
  unfolding key_of
  signed-accepted later token secret c gen w w' typed whole signed valid current device =
      (verify_token-accepts_iff db lib kind m later token w c secret w').1 (
        c,
        gen,
        record {
          typ = some kind.token_type;
          parses = laws.unverified kind.token_type secret token c whole signed;
          typed = typed;
          device = device;
          checked =
              laws.checked kind.token_type secret token c (key_of secret) (parser_options m) later
                whole signed refl valid;
        },
        current,
      )

module _ (lib : JwtLib) (laws : RoundTrips lib.new_numeric_date lib.refresh (λ c. c.registered))
    (m : Options) {W : Type 0} (db : Database W) where
  refresh_claims-accepted :
      (now later : ℕ) (token email id secret : String) (gen : ℕ) (w w' : W)
      → sign_refresh lib m now (new_refresh_claims lib m now email id gen) secret ≡ ok token
      → later < lib.new_numeric_date (now + m.refresh_token_duration)
      → db.get_device_secret id w ≡ (ok (secret, gen), w')
      → verify_refresh db lib m later token w
        ≡ (verified (new_refresh_claims lib m now email id gen) secret, w')
  unfolding sign_refresh new_refresh_claims verify_refresh unexpired WholeDates has_token_type
      to_lower trim_prefix auth_middleware.Text.cut_prefix
  refresh_claims-accepted now later token email id secret gen w w' signed fresh device =
      let c = new_refresh_claims lib m now email id gen in
      signed-accepted db lib.refresh refresh_kind m (λ x. x.registered) lib.new_numeric_date laws
        later token secret c gen w w' refl (laws.cut_once _, laws.cut_once now) signed
        (options-accepted m c.registered later refl refl (ground arith)) refl device

  -- Where the library reads back what it signed, a token of GenerateRefresh is accepted until it
  -- expires, as long as the database has the secret it was signed with and its generation for the
  -- device.
  pub generate_refresh-accepted :
      (now later : ℕ) (token email id secret : String) (gen : ℕ) (w w' : W)
      → generate_refresh lib m now email id secret gen ≡ ok token
      → later < lib.new_numeric_date (now + m.refresh_token_duration)
      → db.get_device_secret id w ≡ (ok (secret, gen), w')
      → verify_refresh db lib m later token w
        ≡ (verified (new_refresh_claims lib m now email id gen) secret, w')
  unfolding generate_refresh
  generate_refresh-accepted now later token email id secret gen w w' made =
      refresh_claims-accepted now later token email id secret gen w w' made

  -- What a rotation that returned `token'` has done, and that this token is accepted until it
  -- expires, wherever the database has `secret` and `gen` for the device.
  pub record Renewed (now later : ℕ) (token token' : String) (claims' : RefreshClaims) (w w' : W)
      : Type 0 where
    pub claims : RefreshClaims
    pub secret : String
    pub between : W
    pub gen : ℕ
    pub accepted : verify_refresh db lib m now token w ≡ (verified claims secret, between)
    pub raised : db.update_device_secret claims.device_id between ≡ (ok gen, w')
    pub accepted_again :
        (v v' : W)
        → db.get_device_secret claims.device_id v ≡ (ok (secret, gen), v')
        → verify_refresh db lib m later token' v ≡ (verified claims' secret, v')

  -- Where the library reads back what it signed, the new token that RotateRefresh returns is accepted
  -- until it expires, wherever the database has, for the device of the old token, the secret under
  -- which that was accepted and the generation that UpdateDeviceSecret returned.
  pub rotate_refresh-accepted :
      (now later : ℕ) (token token' : String) (claims' : RefreshClaims) (w w' : W)
      → rotate_refresh lib m now db token w ≡ (rotated token' claims', w')
      → later < lib.new_numeric_date (now + m.refresh_token_duration)
      → Renewed now later token token' claims' w w'
  rotate_refresh-accepted now later token token' claims' w w' h fresh =
      let r = rotate_refresh-Rotation lib m now db token w w' token' claims' h in
      let signed = subst (λ x. sign_refresh lib m now x r.secret ≡ ok token') r.renewed r.signed in
      record {
        claims = r.claims;
        secret = r.secret;
        between = r.between;
        gen = r.gen;
        accepted = r.accepted;
        raised = r.raised;
        accepted_again = λ v v' device.
            subst (λ x. verify_refresh db lib m later token' v ≡ (verified x r.secret, v'))
              (sym r.renewed)
              (refresh_claims-accepted now later token' r.claims.registered.subject
                r.claims.device_id r.secret r.gen v v' signed fresh device);
      }

module _ (lib : JwtLib) (laws : RoundTrips lib.new_numeric_date lib.access (λ c. c.registered))
    (m : Options) {W : Type 0} (db : Database W) where
  -- Where the library reads back what it signed, a token of GenerateAccess is accepted until it
  -- expires, as long as the database has the secret under which the refresh token was accepted and
  -- that token's generation for the device. It names the user and the device of the refresh token.
  pub generate_access-accepted :
      (now later : ℕ) (refresh_token username token secret : String) (claims : RefreshClaims)
      (gen : ℕ) (w w1 v v' : W)
      → verify_refresh db lib m now refresh_token w ≡ (verified claims secret, w1)
      → generate_access lib m now db refresh_token username w ≡ (ok token, w1)
      → later < lib.new_numeric_date (now + m.access_token_duration)
      → claims.generation ≡ pos gen
      → db.get_device_secret claims.device_id v ≡ (ok (secret, gen), v')
      → verify_access db lib m later token v
        ≡ (verified (new_access_claims lib m now claims username) secret, v')
  unfolding sign_access new_access_claims verify_access unexpired WholeDates has_token_type to_lower
      trim_prefix generate_access auth_middleware.Text.cut_prefix
  generate_access-accepted now later refresh_token username token secret claims gen w w1 v v' good
        made fresh current device =
      let c = new_access_claims lib m now claims username in
      let signed : lib.access.signed_string access_token_type c secret ≡ ok token = ground arith in
      signed-accepted db lib.access access_kind m (λ x. x.registered) lib.new_numeric_date laws
        later token secret c gen v v' refl (laws.cut_once _, laws.cut_once now) signed
        (options-accepted m c.registered later refl refl (ground arith)) current device
