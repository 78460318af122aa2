-- ===== src/Handlers/Login/Rollback.antt =====
-- handleExchange of server/internal/handlers/login/login.go once the device is saved.
use auth_middleware.Prelude.{ℕ, String, ◌≡◌, refl, true, false, none, some, arith}
use auth_middleware.Prelude.State.{Result, ok, err}
use auth_middleware.Errors.{Error}
use auth_middleware.Jwt.{JwtLib}
use auth_middleware.Jwt.Issue.{generate_refresh, generate_access}
use auth_middleware.Handlers.Options.{DeviceDb}
use auth_middleware.Providers.{ProviderToken}
use auth_middleware.Handlers.Login.{
  Handler, Exchanged, join_errors, issued, refresh_issued, device_saved,
}

module _ {W : Type 0} (lib : JwtLib) (h : Handler W) (now : ℕ) (db : DeviceDb W) (t : ProviderToken)
    (email username device_id secret : String) where
  -- The tokens that were made for the device `device_id`.
  pub record Tokens (w : W) (x : Exchanged) : Type 0 where
    pub refresh_token : String
    pub access_token : String
    pub issued_at : W
    pub refresh_made :
        generate_refresh lib h.jwt_options now email device_id secret 1 ≡ ok refresh_token
    pub access_made :
        generate_access lib h.jwt_options now h.jwt_db refresh_token username w
        ≡ (ok access_token, issued_at)
    pub returned :
        x.value.auth_token
        ≡ some (record { access_token = access_token; refresh_token = refresh_token })
    pub success : x.value.success ≡ true

  -- The login failed with the error `e` in the state `v`, then asked for the device to be deleted, and
  -- reports both errors, where the deletion has one too.
  pub record Dropped (e : Error) (v : W) (x : Exchanged) (w' : W) : Type 0 where
    pub deletion : Result (Unit {0})
    pub deleted : db.delete_device email device_id v ≡ (deletion, w')
    pub failed : x.value.success ≡ false
    pub untold : x.value.auth_token ≡ none
    pub reported : x.failure ≡ some (join_errors e deletion)

  -- Tokens were returned, or one of them could not be made and the device was deleted.
  pub data Settled (w : W) (x : Exchanged) (w' : W) : Type 0 where
    kept : Tokens w x → Settled w x w'
    no_refresh :
        (e : Error)
        → generate_refresh lib h.jwt_options now email device_id secret 1 ≡ err e
        → Dropped e w x w'
        → Settled w x w'
    no_access :
        (refresh_token : String) (e : Error) (v : W)
        → generate_refresh lib h.jwt_options now email device_id secret 1 ≡ ok refresh_token
        → generate_access lib h.jwt_options now h.jwt_db refresh_token username w ≡ (err e, v)
        → Dropped e v x w'
        → Settled w x w'

  issued-Settled :
      (refresh_token : String) (w : W)
      → generate_refresh lib h.jwt_options now email device_id secret 1 ≡ ok refresh_token
      → (r : Result String) (w1 : W)
      → generate_access lib h.jwt_options now h.jwt_db refresh_token username w ≡ (r, w1)
      → let run = issued lib h now db t email device_id refresh_token r w1 in Settled w run.0 run.1
  unfolding issued
  issued-Settled refresh_token w made (err e) w1 ha = no_access refresh_token e w1 made ha (record {
    deletion = (db.delete_device email device_id w1).0;
    deleted = refl;
    failed = refl;
    untold = refl;
    reported = refl;
  })
  issued-Settled refresh_token w made (ok access_token) w1 ha =
      let x = (issued lib h now db t email device_id refresh_token (ok access_token) w1).0 in
      kept (record {
        refresh_token = refresh_token;
        access_token = access_token;
        issued_at = w1;
        refresh_made = made;
        access_made = ha;
        returned = ground arith;
        success = ground arith;
      })

  refresh_issued-Settled :
      (r : Result String) (w : W)
      → generate_refresh lib h.jwt_options now email device_id secret 1 ≡ r
      → let run = refresh_issued lib h now db t email username device_id r w in
        Settled w run.0 run.1
  unfolding refresh_issued
  refresh_issued-Settled (err e) w made = no_refresh e made (record {
    deletion = (db.delete_device email device_id w).0;
    deleted = refl;
    failed = refl;
    untold = refl;
    reported = refl;
  })
  refresh_issued-Settled (ok token) w made =
      let a = generate_access lib h.jwt_options now h.jwt_db token username w in
      issued-Settled token w made a.0 a.1 refl

  -- Once the device of a login is saved, either the login returns a refresh token of its first
  -- generation and an access token made from it, or one of the two could not be made: then it calls
  -- DeleteDevice of that device as the last thing, returns no tokens, and fails with the error of the
  -- token, joined with that of the deletion, where it has one.
  pub device_saved-Settled :
      (w : W)
      → let run = device_saved lib h now db t email username secret (ok device_id) w in
        Settled w run.0 run.1
  unfolding device_saved
  device_saved-Settled w =
      refresh_issued-Settled (generate_refresh lib h.jwt_options now email device_id secret 1) w
        refl
