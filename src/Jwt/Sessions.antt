-- ===== src/Jwt/Sessions.antt =====
-- RotateRefresh and GenerateAccess of jwt/jwt.go in terms of verifyToken and of the database.
use auth_middleware.Prelude.{ℕ, String, ◌≡◌, refl, arith}
use auth_middleware.Prelude.State.{Result, ok, err}
use auth_middleware.Jwt.{
  Database, RefreshClaims, Options, JwtLib, Verified, verified, refused, verify_refresh,
}
use auth_middleware.Jwt.Issue.{
  rotated, new_refresh_claims, sign_refresh, raise_generation, rotate_refresh,
}

module _ {W : Type 0} (lib : JwtLib) (m : Options) (now : ℕ) (db : Database W) where
  -- A rotation that succeeded: the old token was accepted, the generation raised, and the new token
  -- signed with the device's secret for the same user and device at the new generation.
  pub record Rotation (token : String) (w : W) (token' : String) (claims' : RefreshClaims) (w' : W)
      : Type 0 where
    pub claims : RefreshClaims
    pub secret : String
    pub between : W
    pub gen : ℕ
    pub accepted : verify_refresh db lib m now token w ≡ (verified claims secret, between)
    pub raised : db.update_device_secret claims.device_id between ≡ (ok gen, w')
    pub renewed :
        claims' ≡ new_refresh_claims lib m now claims.registered.subject claims.device_id gen
    pub signed : sign_refresh lib m now claims' secret ≡ ok token'

  rotate-Rotation :
      (token : String) (w w' : W) (token' : String) (claims' : RefreshClaims)
      (v : Verified RefreshClaims) (w1 : W)
      → verify_refresh db lib m now token w ≡ (v, w1)
      → raise_generation lib m now db v w1 ≡ (rotated token' claims', w')
      → Rotation token w token' claims' w'
  unfolding raise_generation
  rotate-Rotation token w w' token' claims' (refused c e) w1 hv h = absurd (ground arith)
  rotate-Rotation token w w' token' claims' (verified c s) w1 hv h =
      at (db.update_device_secret c.device_id w1).0 refl
    where
      at :
          (r : Result ℕ)
          → (db.update_device_secret c.device_id w1).0 ≡ r
          → Rotation token w token' claims' w'
      at (err e) hr = absurd (ground arith)
      at (ok g) hr = record {
        claims = c;
        secret = s;
        between = w1;
        gen = g;
        accepted = hv;
        raised = ground arith;
        renewed = ground arith;
        signed = ground arith;
      }

  -- A RotateRefresh that returned a token was a rotation: the old token was accepted, then the
  -- generation of its device was raised, and the new token carries the new generation for the same
  -- user and device and is signed with the secret under which the old one was accepted.
  pub rotate_refresh-Rotation :
      (token : String) (w w' : W) (token' : String) (claims' : RefreshClaims)
      → rotate_refresh lib m now db token w ≡ (rotated token' claims', w')
      → Rotation token w token' claims' w'
  unfolding rotate_refresh
  rotate_refresh-Rotation token w w' token' claims' h =
      rotate-Rotation token w w' token' claims' (verify_refresh db lib m now token w).0
        (verify_refresh db lib m now token w).1 refl h
