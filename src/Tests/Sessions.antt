-- ===== src/Tests/Sessions.antt =====
-- The theorems on the handlers of sessions at the data of the tests.
use auth_middleware.Prelude.{
  String, ◌≡◌, ◌≢◌, ◌↔◌, refl, true, false, Option, none, some, ap, sym, ◌==◌,
}
use auth_middleware.Prelude.State.{ok, err}
use auth_middleware.Errors.{token_revoked, user_not_found}
use auth_middleware.Database.{Device}
use auth_middleware.Database
use auth_middleware.Cache.Interleaving.Deletion.{Owned}
use auth_middleware.Cache.Secrets.{Secret}
use auth_middleware.Cache.CachedDb.{CachedDb, delete_device}
use auth_middleware.Cache.Interleaving.{here}
use auth_middleware.Jwt.{
  AccessClaims, verified, refused, verify_token, verify_access, verify_refresh, refresh_kind,
  access_kind,
}
use auth_middleware.Jwt.Issue.{generate_access, rotate_refresh}
use auth_middleware.Identity.{Claims}
use auth_middleware.Flight.{Stored, memory, Group}
use auth_middleware.Revocation.{jwt_database}
use auth_middleware.Handlers.Options.{UsersDb}
use auth_middleware.Handlers.Response.{TokenPair}
use auth_middleware.Handlers.RefreshToken.{Request, from_request}
use auth_middleware.Handlers.Session.{verify, delete_me, logout}
use auth_middleware.Handlers.Session.Access.{
  Authorized, Forwardable, Removes, verify-allows_iff, delete_me-ok_iff,
}
use auth_middleware.Handlers.Refresh.{rotate, fail}
use auth_middleware.Handlers.Refresh
use auth_middleware.Handlers.Refresh.Rotation.{Renewal, rotate-Renewal, rotate-reuse}
use auth_middleware.Handlers.Revocation.{
  Deletes, session_handler, refresh_handler, logout-refused, rotate-refused,
}
use auth_middleware.Jwt.Library.{TokenLib}
use auth_middleware.Tests.{
  engine, tables-WellFormed, cache, cache-SecretCacheLaws, start, lib, options, function_cache,
  one_token, registered, refresh_claims,
}
use auth_middleware.Tests.Tokens.{at_generation}
use auth_middleware.Tests.Caches.{World, start-Owned}

abbrev identity_lib : TokenLib Claims
identity_lib =
    one_token "identity+jwt"
      (record { username = "ann"; device_id = "d1"; registered = registered })

abbrev pub users : UsersDb World
users = record {
  create_user = λ username email w. (ok username, w);
  get_username = λ email w. (ok "ann", w);
  delete_user = λ email w. (ok tt, w);
  external = false;
}

-- a group whose results are kept in no part of the world
abbrev group : Group World TokenPair
group = memory function_cache (λ w key. none) (λ f w. w)

abbrev kept : Stored TokenPair TokenPair
kept = record {
  as_any = λ v. v;
  assert = some;
  marshal = λ v. ok "";
  unmarshal = λ raw. err user_not_found;
}

abbrev request : Request
request = record {
  authorization = "Bearer a";
  cookie = some "r";
  body = err user_not_found;
  code = "c";
  state = "st";
  iss = "";
  provider_error = "";
  device_name = "";
  pkce_verifier = "v";
}

verify-allows_iff_example :
    ((verify lib identity_lib
        (session_handler engine cache users options none)
        0
        request
        start).0.status
      ≡ some 204)
    ↔ ((claims : AccessClaims) × (w1 : World) × Authorized lib identity_lib
          (session_handler engine cache users options none)
          0
          request
          start
          claims
          w1
        × Forwardable lib identity_lib
            (session_handler engine cache users options none)
            0
            request
            claims)
verify-allows_iff_example =
    verify-allows_iff lib identity_lib (session_handler engine cache users options none) 0 request
      start

delete_me-ok_iff_example :
    ((delete_me lib identity_lib
        (session_handler engine cache users options none)
        0
        request
        start).0.status
      ≡ some 200)
    ↔ ((claims : AccessClaims) × (w1 : World) × (w' : World) × Authorized lib identity_lib
          (session_handler engine cache users options none)
          0
          request
          start
          claims
          w1
        × Removes lib identity_lib
            (session_handler engine cache users options none)
            0
            request
            claims
            w1
            w')
delete_me-ok_iff_example =
    delete_me-ok_iff lib identity_lib (session_handler engine cache users options none) 0 request
      start

after_verify : World
after_verify = (verify_refresh (jwt_database engine cache) lib options 0 "r" start).1

after_verify-Deletes : Deletes engine cache "a@b.c" "d1" "d1" after_verify
unfolding after_verify verify_token verify_refresh auth_middleware.Jwt.has_token_type
    auth_middleware.Text.cut_prefix auth_middleware.Cache.CachedDb.get_device_secret
    auth_middleware.Cache.Secrets.memory_secret_cache Database.get_device_secret
    Database.find_device delete_device Database.delete_device
after_verify-Deletes = record {
  canonical = refl;
  unique = tables-WellFormed.unique;
  owned = start-Owned;
  drawn = λ n later. cc;
  idle = refl;
  done = refl;
}

logged_out : World
logged_out =
    (logout lib identity_lib (session_handler engine cache users options none) 0 request start).1

accepted :
    verify_refresh (jwt_database engine cache) lib options 0 "r" start
    ≡ (verified refresh_claims "s", after_verify)
unfolding after_verify verify_token verify_refresh auth_middleware.Jwt.has_token_type
    auth_middleware.Text.cut_prefix auth_middleware.Cache.CachedDb.get_device_secret
    auth_middleware.Cache.Secrets.memory_secret_cache Database.get_device_secret
    Database.find_device
accepted = refl

logout-refused_example :
    verify_token (jwt_database engine cache) lib.refresh refresh_kind options 5 "r" logged_out
    ≢ (verified refresh_claims "s", logged_out)
unfolding logged_out from_request
logout-refused_example =
    logout-refused engine cache cache-SecretCacheLaws lib options 0 users identity_lib none request
      lib.refresh refresh_kind 5 "r" "s" "d1" "r" "s" refresh_claims (some "refresh+jwt")
      refresh_claims refresh_claims start after_verify logged_out logged_out refl accepted
      after_verify-Deletes refl refl here

-- the row after a rotation, where the token is still of the generation before it
rotated_away : World
rotated_away = record start { tables = (Database.update_device_secret engine "d1" start.tables).1 }

after_reuse : World
after_reuse = (verify_refresh (jwt_database engine cache) lib options 0 "r" rotated_away).1

revoked :
    verify_refresh (jwt_database engine cache) lib options 0 "r" rotated_away
    ≡ (refused refresh_claims token_revoked, after_reuse)
unfolding after_reuse rotated_away verify_token verify_refresh auth_middleware.Jwt.has_token_type
    auth_middleware.Text.cut_prefix auth_middleware.Cache.CachedDb.get_device_secret
    auth_middleware.Cache.Secrets.memory_secret_cache Database.get_device_secret
    Database.update_device_secret Database.find_device Database.raise_generation
revoked = refl

after_reuse-Owned : Owned engine "a@b.c" "d1" after_reuse
unfolding after_reuse rotated_away verify_token Database.find_device verify_refresh
    auth_middleware.Jwt.has_token_type auth_middleware.Text.cut_prefix
    auth_middleware.Cache.CachedDb.get_device_secret
    auth_middleware.Cache.Secrets.memory_secret_cache Database.get_device_secret
    Database.update_device_secret Database.raise_generation
after_reuse-Owned d found = ap (λ (o : Option Device). email o == "a@b.c") (sym found)
  where
    email : Option Device → String
    email none = ""
    email (some x) = x.user_email

after_reuse-Deletes : Deletes engine cache "a@b.c" "d1" "d1" after_reuse
unfolding after_reuse rotated_away verify_token verify_refresh auth_middleware.Jwt.has_token_type
    auth_middleware.Text.cut_prefix auth_middleware.Cache.CachedDb.get_device_secret
    auth_middleware.Cache.Secrets.memory_secret_cache Database.get_device_secret
    Database.update_device_secret Database.find_device Database.raise_generation delete_device
    Database.delete_device
after_reuse-Deletes = record {
  canonical = refl;
  unique = (refl, tt);
  owned = after_reuse-Owned;
  drawn = λ n later. cc;
  idle = refl;
  done = refl;
}

abbrev refreshes : Refresh.Handler World TokenPair
refreshes = refresh_handler engine cache users options group (λ key. key) kept true

rotate-reuse_example : rotate lib refreshes 0 "r" rotated_away ≡ (
  fail "Invalid session or expired refresh token" 401 token_revoked,
  (delete_device engine cache "a@b.c" "d1" after_reuse).1,
)
rotate-reuse_example =
    rotate-reuse lib refreshes 0 "r" refresh_claims rotated_away after_reuse revoked

session_ended : World
session_ended = (rotate lib refreshes 0 "r" rotated_away).1

rotate-refused_example :
    verify_token (jwt_database engine cache) lib.refresh refresh_kind options 5 "r" session_ended
    ≢ (verified refresh_claims "s", session_ended)
unfolding session_ended
rotate-refused_example =
    rotate-refused engine cache cache-SecretCacheLaws lib options 0 users group (λ key. key) kept
      true lib.refresh refresh_kind 5 "r" "d1" "r" "s" refresh_claims (some "refresh+jwt")
      refresh_claims refresh_claims rotated_away after_reuse session_ended session_ended revoked
      after_reuse-Deletes refl refl here

-- a database whose generation does not change
abbrev steady : Refresh.Handler (Unit {0}) TokenPair
steady = record {
  db = record {
    save_device_secret = λ user_email device_name secret w. (ok "d1", w);
    delete_device = λ user_email id w. (ok tt, w);
    delete_all_devices = λ user_email w. (ok tt, w);
  };
  users = record {
    create_user = λ username email w. (ok username, w);
    get_username = λ email w. (ok "ann", w);
    delete_user = λ email w. (ok tt, w);
    external = false;
  };
  jwt_db = at_generation 1;
  jwt_options = options;
  flight = memory function_cache (λ w key. none) (λ f w. w);
  hash_key = λ key. key;
  stored = kept;
  secure_cookie = true;
}

rotate-Renewal_example :
    Renewal lib steady 0 "r" tt (record { access_token = "new"; refresh_token = "new" }) tt
unfolding rotate verify_refresh verify_token auth_middleware.Jwt.has_token_type
    auth_middleware.Text.cut_prefix rotate_refresh generate_access
rotate-Renewal_example =
    rotate-Renewal lib steady 0 "r" tt tt (record { access_token = "new"; refresh_token = "new" })
      refl
