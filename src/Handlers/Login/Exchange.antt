-- ===== src/Handlers/Login/Exchange.antt =====
-- What a login needs to succeed, and what is left of one that fails: handleExchange of
-- server/internal/handlers/login/login.go.
use auth_middleware.Prelude.{
  ℕ, String, ◌≡◌, ◌≢◌, refl, subst, Bool, true, false, not, ◌&&◌, Option, none, some, arith, ◌==◌,
  eq_iff, if◌then◌else◌,
}
use auth_middleware.Prelude.State.{Result, ok, err, pure}
use auth_middleware.Jwt.{JwtLib}
use auth_middleware.Jwt.Issue.{generate_refresh, generate_access}
use auth_middleware.Handlers.Options.{DeviceDb}
use auth_middleware.Providers.{Userinfo, ProviderToken}
use auth_middleware.Handlers.Login.{
  Handler, Exchanged, provider_pair, failed, exchange, issued, refresh_issued, device_saved,
  username_known, registered, username_read, user_fetched, session_for, may_register,
  code_exchanged, verifier_taken,
}
use auth_middleware.Handlers.Login.Entry.{Entered, user_fetched-Entered}
use mathlib.Core.Option.{none-ne-some, some-injective}

-- If the exchange succeeded, it was with this token of the provider, and there is no error.
Sound : ProviderToken → Exchanged → Type 0
Sound t x =
    x.value.success ≡ true → (x.value.oauth2_token ≡ some (provider_pair t)) × (x.failure ≡ none)

failing : (t : ProviderToken) (x : Exchanged) → x.value.success ≡ false → Sound t x
unfolding Sound
failing t x bad good = absurd (ground arith)

module _ {W : Type 0} (lib : JwtLib) (h : Handler W) (now : ℕ) where
  module _ (db : DeviceDb W) (t : ProviderToken) where
    issued-Sound :
        (email device_id refresh_token : String) (r : Result String) (w : W)
        → Sound t (issued lib h now db t email device_id refresh_token r w).0
    unfolding issued Sound
    issued-Sound email device_id refresh_token (err e) w =
        failing t (issued lib h now db t email device_id refresh_token (err e) w).0 refl
    issued-Sound email device_id refresh_token (ok access) w = λ s. ground arith

    refresh_issued-Sound :
        (email username device_id : String) (r : Result String) (w : W)
        → Sound t (refresh_issued lib h now db t email username device_id r w).0
    unfolding refresh_issued
    refresh_issued-Sound email username device_id (err e) w =
        failing t (refresh_issued lib h now db t email username device_id (err e) w).0 refl
    refresh_issued-Sound email username device_id (ok token) w =
        let a = generate_access lib h.jwt_options now h.jwt_db token username w in
        issued-Sound email device_id token a.0 a.1

    device_saved-Sound :
        (email username secret : String) (r : Result String) (w : W)
        → Sound t (device_saved lib h now db t email username secret r w).0
    unfolding device_saved
    device_saved-Sound email username secret (err e) w =
        failing t (device_saved lib h now db t email username secret (err e) w).0 (ground arith)
    device_saved-Sound email username secret (ok id) w =
        refresh_issued-Sound email username id
          (generate_refresh lib h.jwt_options now email id secret 1) w

    username_known-Sound :
        (device email : String) (r : Result String) (w : W)
        → Sound t (username_known lib h now db t device email r w).0
    unfolding username_known
    username_known-Sound device email (err e) w =
        failing t (username_known lib h now db t device email (err e) w).0 (ground arith)
    username_known-Sound device email (ok username) w =
        let secret = h.random.generate_device_secret w in
        let saved = db.save_device_secret email device secret.0 secret.1 in
        device_saved-Sound email username secret.0 saved.0 saved.1

    registered-Sound :
        (device email : String) (r : Result String) (w : W)
        → Sound t (registered lib h now db t device email r w).0
    unfolding registered
    registered-Sound device email (err e) w =
        failing t (registered lib h now db t device email (err e) w).0 refl
    registered-Sound device email (ok username) w =
        username_known-Sound device email (ok username) w

    username_read-Sound :
        (device : String) (user : Userinfo) (r : Result String) (w : W)
        → Sound t (username_read lib h now db t device user r w).0
    unfolding username_read
    username_read-Sound device user r w = at_test (may_register lib h now r)
      where
        created : Result String × W
        created = h.users.create_user user.name user.email w

        at_test :
            (b : Bool)
            → Sound t
                ((if b
                    then (λ v.
                        let c = h.users.create_user user.name user.email v in
                        registered lib h now db t device user.email c.0 c.1)
                    else username_known lib h now db t device user.email r)
                  w).0
        at_test true = registered-Sound device user.email created.0 created.1
        at_test false = username_known-Sound device user.email r w

    user_fetched-Sound :
        (device : String) (r : Result Userinfo) (w : W)
        → Sound t (user_fetched lib h now db t device r w).0
    unfolding user_fetched
    user_fetched-Sound device (err e) w =
        failing t (user_fetched lib h now db t device (err e) w).0 refl
    user_fetched-Sound device (ok user) w =
        let name = h.users.get_username user.email w in
        username_read-Sound device user name.0 name.1

  session_for-Sound :
      (t : ProviderToken) (device : String) (db : Option (DeviceDb W)) (w : W)
      → Sound t (session_for lib h now t device db w).0
  unfolding session_for Sound
  session_for-Sound t device none w = λ s. (refl, refl)
  session_for-Sound t device (some db) w =
      let user = h.oauth2_client.get_user t w in user_fetched-Sound db t device user.0 user.1

  session_for-Entered :
      (t : ProviderToken) (device : String) (o : Option (DeviceDb W)) (db : DeviceDb W) (w : W)
      → o ≡ some db
      → (session_for lib h now t device o w).0.value.success ≡ true
      → Entered lib h now db t device w (session_for lib h now t device o w).0
  unfolding session_for
  session_for-Entered t device none db w given s = absurd (none-ne-some db given)
  session_for-Entered t device (some d) db w given s =
      let user = h.oauth2_client.get_user t w in
      subst (λ b. Entered lib h now b t device w (session_for lib h now t device (some d) w).0)
        (some-injective _ _ given)
        (user_fetched-Entered lib h now d t device w user.1 user.0 refl s)

  -- What a successful login has been through: the state had a verifier, the header named the same
  -- one where the client does PKCE, the provider gave the token for the code and this verifier, and,
  -- where there is a database, the provider described a user, who was known or registered, and for
  -- whom a device was saved and tokens were made.
  pub record Admitted (code state device header_verifier : String) (w : W) (x : Exchanged)
      : Type 0 where
    pub verifier : String
    pub taken_at : W
    pub token : ProviderToken
    pub exchanged_at : W
    pub taken : h.state_cache.take state w ≡ (ok verifier, taken_at)
    pub known : verifier ≢ ""
    pub same_client : h.options.client_pkce ≡ true → header_verifier ≡ verifier
    pub exchanged : h.oauth2_client.exchange code verifier taken_at ≡ (ok token, exchanged_at)
    pub returned : x.value.oauth2_token ≡ some (provider_pair token)
    pub no_error : x.failure ≡ none
    pub entered :
        (db : DeviceDb W) → h.db ≡ some db → Entered lib h now db token device exchanged_at x

  module _ (code state device header_verifier : String) (w : W) where
    code_exchanged-Admitted :
        (verifier : String) (w1 : W)
        → h.state_cache.take state w ≡ (ok verifier, w1)
        → verifier ≢ ""
        → (h.options.client_pkce ≡ true → header_verifier ≡ verifier)
        → (r : Result ProviderToken) (w2 : W) → h.oauth2_client.exchange code verifier w1 ≡ (r, w2)
        → (code_exchanged lib h now device r w2).0.value.success ≡ true
        → Admitted code state device header_verifier w (code_exchanged lib h now device r w2).0
    unfolding code_exchanged Sound
    code_exchanged-Admitted verifier w1 ht known same (err e) w2 hx s = absurd (ground arith)
    code_exchanged-Admitted verifier w1 ht known same (ok t) w2 hx s =
        let sound = session_for-Sound t device h.db w2 s in
        record {
          verifier = verifier;
          taken_at = w1;
          token = t;
          exchanged_at = w2;
          taken = ht;
          known = known;
          same_client = same;
          exchanged = hx;
          returned = sound.0;
          no_error = sound.1;
          entered = λ db given. session_for-Entered t device h.db db w2 given s;
        }

    verifier_taken-Admitted :
        (r : Result String) (w1 : W)
        → h.state_cache.take state w ≡ (r, w1)
        → let x = (verifier_taken lib h now code device header_verifier r w1).0 in
          x.value.success ≡ true → Admitted code state device header_verifier w x
    unfolding verifier_taken
    verifier_taken-Admitted (err e) w1 ht s = absurd (ground arith)
    verifier_taken-Admitted (ok verifier) w1 ht s =
        at_tests (verifier == "") (h.options.client_pkce && not (header_verifier == verifier)) refl
          refl s
      where
        run : Result ProviderToken × W
        run = h.oauth2_client.exchange code verifier w1

        tested : (empty other : Bool) → Exchanged × W
        tested empty other =
            (if empty
                then pure (failed "Invalid or expired state" 400 none)
                else if other
                then pure (failed "Invalid PKCE verifier" 400 none)
                else (λ v.
                    let r = h.oauth2_client.exchange code verifier v in
                    code_exchanged lib h now device r.0 r.1))
              w1

        at_tests :
            (empty other : Bool)
            → (verifier == "") ≡ empty
            → (h.options.client_pkce && not (header_verifier == verifier)) ≡ other
            → (tested empty other).0.value.success ≡ true
            → Admitted code state device header_verifier w (tested empty other).0
        at_tests true other he ho s = absurd (ground arith)
        at_tests false true he ho s = absurd (ground arith)
        at_tests false false he ho s =
            code_exchanged-Admitted verifier w1 ht (λ no. ground (arith, eq_iff verifier ""))
              (λ on. ground (arith, eq_iff header_verifier verifier)) run.0 run.1 refl s

  -- A login that succeeds reports no error and has been through every check: the state had a
  -- verifier, which the header named too where the client does PKCE, the provider gave its token for
  -- the code and this verifier, and, where there is a database, it described a user, whose name is in
  -- the users table or who was registered, which takes a table of the program's own and the option;
  -- for them a device with a new secret was saved and the tokens of this device were made.
  pub exchange-Admitted :
      (code state device header_verifier : String) (w : W)
      → let x = (exchange lib h now code state device header_verifier w).0 in
        x.value.success ≡ true → Admitted code state device header_verifier w x
  unfolding exchange
  exchange-Admitted code state device header_verifier w =
      let taken = h.state_cache.take state w in
      verifier_taken-Admitted code state device header_verifier w taken.0 taken.1 refl
