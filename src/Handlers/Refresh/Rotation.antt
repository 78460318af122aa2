-- ===== src/Handlers/Refresh/Rotation.antt =====
-- What the rotation of server/internal/handlers/refresh/refresh.go did when it succeeds, and what
-- it does about a token that was rotated before.
use auth_middleware.Prelude.{ℕ, String, ◌≡◌, refl, none, arith}
use auth_middleware.Prelude.State.{Result, ok, err}
use auth_middleware.Errors.{token_revoked}
use auth_middleware.Jwt.{RefreshClaims, JwtLib, Verified, verified, refused, verify_refresh}
use auth_middleware.Jwt.Issue.{Rotated, rotated, not_rotated, generate_access, rotate_refresh}
use auth_middleware.Flight.{Outcome}
use auth_middleware.Handlers.Response.{TokenPair}
use auth_middleware.Handlers.Refresh.{
  Failure, Handler, fail, rotate, delete_device_on_reuse, after_verify, after_username,
  after_rotation, paired,
}

module _ {W V : Type 0} (lib : JwtLib) (h : Handler W V) (now : ℕ) (token : String) where
  -- A rotation that succeeded: the token was accepted, its user is known, the token was rotated, and
  -- the access token was made from the new refresh token for that user.
  pub record Renewal (w : W) (p : TokenPair) (w' : W) : Type 0 where
    pub claims : RefreshClaims
    pub secret : String
    pub verified_at : W
    pub username : String
    pub named_at : W
    pub claims' : RefreshClaims
    pub rotated_at : W
    pub accepted :
        verify_refresh h.jwt_db lib h.jwt_options now token w
        ≡ (verified claims secret, verified_at)
    pub named : h.users.get_username claims.registered.subject verified_at ≡ (ok username, named_at)
    pub turned :
        rotate_refresh lib h.jwt_options now h.jwt_db token named_at
        ≡ (rotated p.refresh_token claims', rotated_at)
    pub issued :
        generate_access lib h.jwt_options now h.jwt_db p.refresh_token username rotated_at
        ≡ (ok p.access_token, w')

  module _ (w w' : W) (p : TokenPair) where
    at_issued :
        (claims : RefreshClaims) (secret : String) (w1 w2 w3 : W) (username token' : String)
        (claims' : RefreshClaims)
        → verify_refresh h.jwt_db lib h.jwt_options now token w ≡ (verified claims secret, w1)
        → h.users.get_username claims.registered.subject w1 ≡ (ok username, w2)
        → rotate_refresh lib h.jwt_options now h.jwt_db token w2 ≡ (rotated token' claims', w3)
        → (a : Result String) (w4 : W)
        → generate_access lib h.jwt_options now h.jwt_db token' username w3 ≡ (a, w4)
        → ◌≡◌ {A = Outcome Failure TokenPair × W}
            (paired lib h now token' a, w4)
            (record { value = p; failure = none }, w')
        → Renewal w p w'
    unfolding paired
    at_issued claims secret w1 w2 w3 username token' claims' hv hu hr (err e) w4 ha done =
        absurd (ground arith)
    at_issued claims secret w1 w2 w3 username token' claims' hv hu hr (ok access) w4 ha done =
        record {
          claims = claims;
          secret = secret;
          verified_at = w1;
          username = username;
          named_at = w2;
          claims' = claims';
          rotated_at = w3;
          accepted = hv;
          named = hu;
          turned = ground arith;
          issued = ground arith;
        }

    at_rotated :
        (claims : RefreshClaims) (secret : String) (w1 w2 : W) (username : String)
        → verify_refresh h.jwt_db lib h.jwt_options now token w ≡ (verified claims secret, w1)
        → h.users.get_username claims.registered.subject w1 ≡ (ok username, w2)
        → (r : Rotated) (w3 : W) → rotate_refresh lib h.jwt_options now h.jwt_db token w2 ≡ (r, w3)
        → after_rotation lib h now username r w3 ≡ (record { value = p; failure = none }, w')
        → Renewal w p w'
    unfolding after_rotation
    at_rotated claims secret w1 w2 username hv hu (rotated token' claims') w3 hr done =
        at_issued claims secret w1 w2 w3 username token' claims' hv hu hr
          (generate_access lib h.jwt_options now h.jwt_db token' username w3).0
          (generate_access lib h.jwt_options now h.jwt_db token' username w3).1 refl done
    at_rotated claims secret w1 w2 username hv hu (not_rotated c e) w3 hr done =
        absurd (ground arith)

    at_named :
        (claims : RefreshClaims) (secret : String) (w1 : W)
        → verify_refresh h.jwt_db lib h.jwt_options now token w ≡ (verified claims secret, w1)
        → (u : Result String) (w2 : W) → h.users.get_username claims.registered.subject w1 ≡ (u, w2)
        → after_username lib h now token u w2 ≡ (record { value = p; failure = none }, w')
        → Renewal w p w'
    unfolding after_username
    at_named claims secret w1 hv (err e) w2 hu done = absurd (ground arith)
    at_named claims secret w1 hv (ok username) w2 hu done =
        at_rotated claims secret w1 w2 username hv hu
          (rotate_refresh lib h.jwt_options now h.jwt_db token w2).0
          (rotate_refresh lib h.jwt_options now h.jwt_db token w2).1 refl done

    at_verified :
        (v : Verified RefreshClaims) (w1 : W)
        → verify_refresh h.jwt_db lib h.jwt_options now token w ≡ (v, w1)
        → after_verify lib h now token v w1 ≡ (record { value = p; failure = none }, w')
        → Renewal w p w'
    unfolding after_verify
    at_verified (refused c e) w1 hv done = absurd (ground arith)
    at_verified (verified claims secret) w1 hv done =
        at_named claims secret w1 hv (h.users.get_username claims.registered.subject w1).0
          (h.users.get_username claims.registered.subject w1).1 refl done

  -- `rotate` without an error: both tokens that it returns come from one rotation of the old token.
  pub rotate-Renewal :
      (w w' : W) (p : TokenPair)
      → rotate lib h now token w ≡ (record { value = p; failure = none }, w')
      → Renewal w p w'
  unfolding rotate
  rotate-Renewal w w' p ok_rotation =
      at_verified w w' p (verify_refresh h.jwt_db lib h.jwt_options now token w).0
        (verify_refresh h.jwt_db lib h.jwt_options now token w).1 refl ok_rotation

  -- A token whose generation is not the device's any more was rotated before: the device is
  -- deleted, and the answer is 401.
  pub rotate-reuse :
      (claims : RefreshClaims) (w w1 : W)
      → verify_refresh h.jwt_db lib h.jwt_options now token w ≡ (refused claims token_revoked, w1)
      → rotate lib h now token w ≡ (
        fail "Invalid session or expired refresh token" 401 token_revoked,
        (h.db.delete_device claims.registered.subject claims.device_id w1).1,
      )
  unfolding rotate delete_device_on_reuse
  rotate-reuse claims w w1 seen = rw (seen, rotate) refl
