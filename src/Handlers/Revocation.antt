-- ===== src/Handlers/Revocation.antt =====
-- The handlers over the cached database, as server/cmd/main.go and
-- server/internal/handlers/handlers.go put them together: what a logout, a reused refresh token and
-- the deletion of an account do to the tokens of a device.
use auth_middleware.Prelude.{
  ℕ, String, ◌≡◌, ◌≢◌, ap, sym, subst, ◌∙◌, Bool, Option, none, some, arith,
}
use auth_middleware.Prelude.State.{ok}
use auth_middleware.Errors.{token_revoked}
use auth_middleware.Database.{Engine}
use auth_middleware.Database.Rows.{Unique}
use auth_middleware.Database.Absence.{Drawn}
use auth_middleware.Cache.Secrets.{SecretCache, SecretCacheLaws}
use auth_middleware.Cache.CachedDb.{CachedDb, save_device_secret, delete_device, delete_all_devices}
use auth_middleware.Cache.Interleaving.{Steps}
use auth_middleware.Cache.Interleaving.Deletion.{Owned}
use auth_middleware.Jwt.{
  Options, RefreshClaims, JwtLib, Kind, verified, refused, verify_token, verify_refresh,
}
use auth_middleware.Jwt.Library.{TokenLib, parsed}
use auth_middleware.Identity.{Claims, Signer}
use auth_middleware.Flight.{Group, Stored}
use auth_middleware.Revocation.{jwt_database, deleted_device_refused}
use auth_middleware.Handlers.Options.{DeviceDb, UsersDb}
use auth_middleware.Handlers.Response.{TokenPair}
use auth_middleware.Handlers.RefreshToken.{Request, from_request}
use auth_middleware.Handlers.Session.{logout}
use auth_middleware.Handlers.Session
use auth_middleware.Handlers.Refresh.{rotate}
use auth_middleware.Handlers.Refresh
use auth_middleware.Handlers.Refresh.Rotation.{rotate-reuse}

module _ {C : Type 0} (e : Engine) (cache : SecretCache C) where
  abbrev pub device_db : DeviceDb (CachedDb C)
  device_db = record {
    save_device_secret = save_device_secret e cache;
    delete_device = delete_device e cache;
    delete_all_devices = delete_all_devices e cache;
  }

  abbrev pub session_handler :
      UsersDb (CachedDb C) → Options → Option Signer → Session.Handler (CachedDb C)
  session_handler users options signer = record {
    db = device_db;
    users_db = users;
    jwt_db = jwt_database e cache;
    jwt_options = options;
    identity_signer = signer;
  }

  abbrev pub refresh_handler :
      {V : Type 0}
      → UsersDb (CachedDb C)
      → Options
      → Group (CachedDb C) V
      → (hash_key : String → String) → Stored V TokenPair
      → (secure_cookie : Bool) → Refresh.Handler (CachedDb C) V
  refresh_handler users options flight hash_key stored secure_cookie = record {
    db = device_db;
    users = users;
    jwt_db = jwt_database e cache;
    jwt_options = options;
    flight = flight;
    hash_key = hash_key;
    stored = stored;
    secure_cookie = secure_cookie;
  }

  -- A device whose deletion was asked for by a handler in the state `w`, where no load of its secret
  -- was under way, and reported no error.
  pub record Deletes (user_email id c : String) (w : CachedDb C) : Type 0 where
    pub canonical : e.parse_uuid id ≡ some c
    pub unique : Unique w.tables.devices
    pub owned : Owned e user_email c w
    pub drawn : Drawn e c (delete_device e cache user_email id w).1.tables
    pub idle : w.loads id ≡ none
    pub done : (delete_device e cache user_email id w).0 ≡ ok tt

  module _ (laws : SecretCacheLaws cache) (lib : JwtLib) (options : Options) (now : ℕ)
      (users : UsersDb (CachedDb C)) where
    Deletes-refused :
        {T : Type 0} (token_lib : TokenLib T) (kind : Kind T) (later : ℕ)
        (user_email id c token : String) (typ : Option String) (claimed claims : T)
        (secret : String) (w v v' : CachedDb C)
        → Deletes user_email id c w
        → kind.device_id claimed ≡ id
        → token_lib.parse_unverified token ≡ parsed typ claimed
        → Steps e cache (delete_device e cache user_email id w).1 v
        → verify_token (jwt_database e cache) token_lib kind options later token v
          ≢ (verified claims secret, v')
    Deletes-refused token_lib kind later user_email id c token typ claimed claims secret w v v' d
          same parses steps =
        let r = delete_device e cache user_email id w in
        deleted_device_refused e cache laws token_lib kind options later token user_email c claimed
          claims secret w r.1 v v' (ap e.parse_uuid same ∙ d.canonical) d.unique d.owned d.drawn
          (ap w.loads same ∙ d.idle)
          (subst (λ x. delete_device e cache user_email x w ≡ (ok tt, r.1)) (sym same)
            (λ i. (d.done i, r.1)))
          steps typ parses

    -- After a logout, one step here, with a valid refresh token no token that names its device is
    -- accepted any more, whatever other callers do in between, if the deletion of the device
    -- reported no error, its identifier is a UUID and drawn no more, identifiers are unique, the
    -- device is the user's, and no load of its secret that a call could join had read the row
    -- before.
    pub logout-refused :
        (identity_lib : TokenLib Claims) (signer : Option Signer) (r : Request) {T : Type 0}
        (token_lib : TokenLib T) (kind : Kind T) (later : ℕ)
        (refresh_token secret c token secret' : String) (session : RefreshClaims)
        (typ : Option String) (claimed claims : T) (w w1 v v' : CachedDb C)
        → from_request r ≡ ok refresh_token
        → verify_refresh (jwt_database e cache) lib options now refresh_token w
          ≡ (verified session secret, w1)
        → Deletes session.registered.subject session.device_id c w1
        → kind.device_id claimed ≡ session.device_id
        → token_lib.parse_unverified token ≡ parsed typ claimed
        → Steps e cache (logout lib identity_lib (session_handler users options signer) now r w).1 v
        → verify_token (jwt_database e cache) token_lib kind options later token v
          ≢ (verified claims secret', v')
    unfolding logout
    logout-refused identity_lib signer r token_lib kind later refresh_token secret c token secret'
          session typ claimed claims w w1 v v' from good d same parses steps =
        Deletes-refused token_lib kind later session.registered.subject session.device_id c token
          typ claimed claims secret' w1 v v' d same parses
          (subst (λ x. Steps e cache x v) (ground arith) steps)

    -- A refresh token that was rotated before ends the session: after the function, one step here,
    -- that the refresh handler gives to Flight, which runs it unless it shares the result of
    -- another call, has seen the token, no token that names its device is accepted any more,
    -- whatever other callers do in between, if the deletion of the device reported no error, its
    -- identifier is a UUID and drawn no more, identifiers are unique, the device is the user's,
    -- and no load of its secret that a call could join had read the row before.
    pub rotate-refused :
        {V : Type 0} (flight : Group (CachedDb C) V) (hash_key : String → String)
        (stored : Stored V TokenPair) (secure_cookie : Bool) {T : Type 0} (token_lib : TokenLib T)
        (kind : Kind T) (later : ℕ) (refresh_token c token secret : String)
        (session : RefreshClaims) (typ : Option String) (claimed claims : T)
        (w w1 v v' : CachedDb C)
        → verify_refresh (jwt_database e cache) lib options now refresh_token w
          ≡ (refused session token_revoked, w1)
        → Deletes session.registered.subject session.device_id c w1
        → kind.device_id claimed ≡ session.device_id
        → token_lib.parse_unverified token ≡ parsed typ claimed
        → Steps e cache
            (rotate lib
              (refresh_handler users options flight hash_key stored secure_cookie)
              now
              refresh_token
              w).1
            v
        → verify_token (jwt_database e cache) token_lib kind options later token v
          ≢ (verified claims secret, v')
    rotate-refused flight hash_key stored secure_cookie token_lib kind later refresh_token c token
          secret session typ claimed claims w w1 v v' seen d same parses steps =
        Deletes-refused token_lib kind later session.registered.subject session.device_id c token
          typ claimed claims secret w1 v v' d same parses
          (subst (λ x. Steps e cache x.1 v)
            (rotate-reuse lib (refresh_handler users options flight hash_key stored secure_cookie)
              now refresh_token session w w1 seen)
            steps)
