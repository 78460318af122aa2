-- ===== src/Handlers/Login/Entry.antt =====
-- What a login needs to give out tokens of its own: handleExchange of
-- server/internal/handlers/login/login.go once it has the provider's token.
use auth_middleware.Prelude.{ℕ, String, ◌≡◌, refl, Bool, true, false, arith, if◌then◌else◌}
use auth_middleware.Prelude.State.{Result, ok, err}
use auth_middleware.Errors.{Error, is_user_not_found}
use auth_middleware.Jwt.{JwtLib}
use auth_middleware.Handlers.Options.{DeviceDb}
use auth_middleware.Providers.{Userinfo, ProviderToken}
use auth_middleware.Handlers.Login.{
  Handler, Exchanged, device_saved, username_known, registered, username_read, user_fetched,
  may_register,
}
use auth_middleware.Handlers.Login.Rollback.{
  Tokens, Settled, kept, no_refresh, no_access, device_saved-Settled,
}

module _ {W : Type 0} (lib : JwtLib) (h : Handler W) (now : ℕ) (db : DeviceDb W)
    (t : ProviderToken) where
  -- How the login got the user's name: from the users table, or by a registration, which is for a
  -- user that is not there and only where the table is the program's own and registration is allowed.
  pub data Named (user : Userinfo) (w : W) (username : String) (w' : W) : Type 0 where
    known : h.users.get_username user.email w ≡ (ok username, w') → Named user w username w'
    created :
        (e : Error) (v : W)
        → h.users.get_username user.email w ≡ (err e, v)
        → is_user_not_found e ≡ true
        → h.users.external ≡ false
        → h.options.allow_registration ≡ true
        → h.users.create_user user.name user.email v ≡ (ok username, w')
        → Named user w username w'

  -- A device with a new secret was saved for the user, and the tokens are those of this device.
  pub record Saved (email username device : String) (w : W) (x : Exchanged) : Type 0 where
    pub secret : String
    pub drawn_at : W
    pub device_id : String
    pub saved_at : W
    pub drawn : h.random.generate_device_secret w ≡ (secret, drawn_at)
    pub saved : db.save_device_secret email device secret drawn_at ≡ (ok device_id, saved_at)
    pub tokens : Tokens lib h now db t email username device_id secret saved_at x

  -- The provider described the user, who has a name, and a device was saved for them.
  pub record Entered (device : String) (w : W) (x : Exchanged) : Type 0 where
    pub user : Userinfo
    pub fetched_at : W
    pub username : String
    pub named_at : W
    pub fetched : h.oauth2_client.get_user t w ≡ (ok user, fetched_at)
    pub named : Named user fetched_at username named_at
    pub session : Saved user.email username device named_at x

  kept-Tokens :
      (email username id secret : String) (w : W) (x : Exchanged) (w' : W)
      → Settled lib h now db t email username id secret w x w'
      → x.value.success ≡ true
      → Tokens lib h now db t email username id secret w x
  kept-Tokens email username id secret w x w' (kept tokens) s = tokens
  kept-Tokens email username id secret w x w' (no_refresh e made d) s =
      let bad = d.failed in absurd (ground arith)
  kept-Tokens email username id secret w x w' (no_access token e v made gone d) s =
      let bad = d.failed in absurd (ground arith)

  device_saved-Saved :
      (email username device secret : String) (w w1 w2 : W) (r : Result String)
      → h.random.generate_device_secret w ≡ (secret, w1)
      → db.save_device_secret email device secret w1 ≡ (r, w2)
      → let x = (device_saved lib h now db t email username secret r w2).0 in
        x.value.success ≡ true → Saved email username device w x
  unfolding device_saved
  device_saved-Saved email username device secret w w1 w2 (err e) drawn saved s =
      absurd (ground arith)
  device_saved-Saved email username device secret w w1 w2 (ok id) drawn saved s =
      let run = device_saved lib h now db t email username secret (ok id) w2 in
      record {
        secret = secret;
        drawn_at = w1;
        device_id = id;
        saved_at = w2;
        drawn = drawn;
        saved = saved;
        tokens =
            kept-Tokens email username id secret w2 run.0 run.1
              (device_saved-Settled lib h now db t email username id secret w2) s;
      }

  username_known-Saved :
      (device email username : String) (w : W)
      → let x = (username_known lib h now db t device email (ok username) w).0 in
        x.value.success ≡ true → Saved email username device w x
  unfolding username_known
  username_known-Saved device email username w =
      let secret = h.random.generate_device_secret w in
      let saved = db.save_device_secret email device secret.0 secret.1 in
      device_saved-Saved email username device secret.0 w secret.1 saved.1 saved.0 refl refl

  unknown-fails :
      (device email : String) (e : Error) (w : W)
      → (username_known lib h now db t device email (err e) w).0.value.success ≡ false
  unfolding username_known
  unknown-fails device email e w = ground arith

  module _ (device : String) (user : Userinfo) (w w1 : W)
      (fetched : h.oauth2_client.get_user t w ≡ (ok user, w1)) where
    entered :
        (username : String) (w2 : W)
        → Named user w1 username w2
        → let x = (username_known lib h now db t device user.email (ok username) w2).0 in
          x.value.success ≡ true → Entered device w x
    entered username w2 named s = record {
      user = user;
      fetched_at = w1;
      username = username;
      named_at = w2;
      fetched = fetched;
      named = named;
      session = username_known-Saved device user.email username w2 s;
    }

    registered-Entered :
        (e : Error) (w2 : W)
        → h.users.get_username user.email w1 ≡ (err e, w2)
        → may_register lib h now (err e) ≡ true
        → (r : Result String) (w3 : W) → h.users.create_user user.name user.email w2 ≡ (r, w3)
        → let x = (registered lib h now db t device user.email r w3).0 in
          x.value.success ≡ true → Entered device w x
    unfolding registered may_register
    registered-Entered e w2 read may (err why) w3 made s = absurd (ground arith)
    registered-Entered e w2 read may (ok username) w3 made s =
        entered username w3 (created e w2 read (ground arith) (ground arith) (ground arith) made) s

    username_read-Entered :
        (r : Result String) (w2 : W)
        → h.users.get_username user.email w1 ≡ (r, w2)
        → let x = (username_read lib h now db t device user r w2).0 in
          x.value.success ≡ true → Entered device w x
    unfolding username_read may_register
    username_read-Entered (ok username) w2 read s = entered username w2 (known read) s
    username_read-Entered (err e) w2 read s = at (may_register lib h now (err e)) refl s
      where
        run : Bool → Exchanged × W
        run b =
            (if b
                then (λ v.
                    let c = h.users.create_user user.name user.email v in
                    registered lib h now db t device user.email c.0 c.1)
                else username_known lib h now db t device user.email (err e))
              w2

        at :
            (b : Bool)
            → may_register lib h now (err e) ≡ b
            → (run b).0.value.success ≡ true
            → Entered device w (run b).0
        at true may s =
            let c = h.users.create_user user.name user.email w2 in
            registered-Entered e w2 read may c.0 c.1 refl s
        at false may s = let bad = unknown-fails device user.email e w2 in absurd (ground arith)

  pub user_fetched-Entered :
      (device : String) (w w1 : W) (r : Result Userinfo)
      → h.oauth2_client.get_user t w ≡ (r, w1)
      → let x = (user_fetched lib h now db t device r w1).0 in
        x.value.success ≡ true → Entered device w x
  unfolding user_fetched
  user_fetched-Entered device w w1 (err e) fetched s = absurd (ground arith)
  user_fetched-Entered device w w1 (ok user) fetched s =
      let name = h.users.get_username user.email w1 in
      username_read-Entered device user w w1 fetched name.0 name.1 refl s
