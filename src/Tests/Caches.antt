-- ===== src/Tests/Caches.antt =====
-- The theorems on the caches, and on the tokens over them, at the data of the tests.
use auth_middleware.Prelude.{
  String, ◌≡◌, ◌≢◌, ◌≤◌, refl, ap, sym, arith, false, pos, Option, none, some, ◌==◌, if◌then◌else◌,
}
use auth_middleware.Prelude.State.{ok}
use auth_middleware.Database.{Device, Tables, find_device}
use auth_middleware.Database
use auth_middleware.Database.Absence.{Drawn}
use auth_middleware.Cache.Secrets.{
  Secret, SecretCacheLaws, memory_secret_cache, memory_secret_cache_lem,
}
use auth_middleware.Cache.Redis.Secrets.{encode_secret, set_newer, read_entry}
use auth_middleware.Cache.Redis.Secrets.Entries.{written, set_newer_refines}
use auth_middleware.Config.Duration.{text_length}
use auth_middleware.Tests.Decimals.{itoa, itoa-Decimal}
use auth_middleware.Cache.States.{take, set, take-set}
use auth_middleware.Cache.CachedDb.{
  CachedDb, get_device_secret, update_device_secret, delete_device, set_raised, after_delete,
}
use auth_middleware.Cache.Interleaving.{here, next, stores}
use auth_middleware.Cache.Interleaving.Deletion.{Owned, deleted_stays_deleted}
use auth_middleware.Cache.Interleaving.Rotation.{raised_stays_raised}
use auth_middleware.Cache.Interleaving.Single.{Behind}
use auth_middleware.Jwt.{verified, verify_token, verify_refresh}
use auth_middleware.Jwt.Issue.{rotated, rotate_refresh, new_refresh_claims}
use auth_middleware.Revocation.{jwt_database, rotated_token_refused}
use auth_middleware.Tests.{
  engine, tables, tables-WellFormed, tables-Drawn, function_cache, function_cache-OtterLaws, cache,
  cache-SecretCacheLaws, start, lib, options, refresh_claims,
}

abbrev pub World : Type 0
World = CachedDb (String → Option Secret)

-- the secret that a load read before the deletion
abbrev stale : Secret
stale = record { value = "s"; generation = 1 }

memory_secret_cache_lem_example : SecretCacheLaws (memory_secret_cache function_cache)
memory_secret_cache_lem_example = memory_secret_cache_lem function_cache function_cache-OtterLaws

take-set_example :
    ((take function_cache "st" (set function_cache "st" "v" (λ key. none)).1).0 ≡ ok "v")
    × ((take function_cache "st"
          (take function_cache "st" (set function_cache "st" "v" (λ key. none)).1).1).0
        ≡ ok "")
    × (("st" == "other") ≡ false → ◌≡◌ {A = Option String} none none)
unfolding set take
take-set_example = take-set function_cache function_cache-OtterLaws "st" "v" "other" (λ key. none)

pub start-Owned : Owned engine "a@b.c" "d1" start
unfolding find_device
start-Owned d found = ap (λ (o : Option Device). email o == "a@b.c") (sym found)
  where
    email : Option Device → String
    email none = ""
    email (some x) = x.user_email

after_deletion : World
after_deletion = (delete_device engine cache "a@b.c" "d1" start).1

deleted_tables : Tables
deleted_tables = (Database.delete_device engine "a@b.c" "d1" tables).1

deleted_tables-ok : Database.delete_device engine "a@b.c" "d1" tables ≡ (ok tt, deleted_tables)
unfolding deleted_tables Database.delete_device
deleted_tables-ok = refl

deleted_tables-Drawn : Drawn engine "d1" deleted_tables
unfolding deleted_tables
deleted_tables-Drawn n later = cc

-- between the statement and the end of DeleteDevice, another caller stores the secret that it read
abbrev stored_between : World
stored_between = record start {
  tables = deleted_tables;
  secrets = cache.set_secret "d1" stale start.secrets;
}

abbrev deleted_between : World
deleted_between = (after_delete engine cache "d1" (ok tt) stored_between).1

deleted_stays_deleted_example :
    (get_device_secret engine cache "d1"
      (record deleted_between { secrets = cache.set_secret "d1" stale deleted_between.secrets })).0
    ≢ ok ("s", 1)
deleted_stays_deleted_example =
    deleted_stays_deleted engine cache cache-SecretCacheLaws "a@b.c" "d1" "d1" start stored_between
      (record deleted_between { secrets = cache.set_secret "d1" stale deleted_between.secrets })
      deleted_tables "s" 1 refl tables-WellFormed.unique start-Owned deleted_tables-Drawn refl
      deleted_tables-ok (next here (stores "d1" stale (record start { tables = deleted_tables })))
      (next here (stores "d1" stale deleted_between))

-- UpdateDeviceSecret takes its two steps, and a load stores what it read before them
after_update : World
after_update = record start { tables = (Database.update_device_secret engine "d1" tables).1 }

update-ok :
    Database.update_device_secret engine "d1" tables
    ≡ (ok 2, (Database.update_device_secret engine "d1" tables).1)
unfolding Database.update_device_secret find_device
update-ok = refl

abbrev raised_then_stale : World
raised_then_stale =
    let w = (set_raised engine cache "d1" 2 stale after_update).1 in
    record w { secrets = cache.set_secret "d1" stale w.secrets }

answer-ok : (get_device_secret engine cache "d1" raised_then_stale).0 ≡ ok ("s", 2)
unfolding after_update set_raised get_device_secret memory_secret_cache
answer-ok = refl

raised_stays_raised_example : 2 ≤ 2
unfolding after_update
raised_stays_raised_example =
    raised_stays_raised engine cache cache-SecretCacheLaws "d1" "d1" 2 start after_update
      raised_then_stale (Database.update_device_secret engine "d1" tables).1 stale "s" 2 refl
      tables-WellFormed tables-Drawn refl update-ok here (next here (stores "d1" stale _)) answer-ok

abbrev after_rotation : World
after_rotation = (rotate_refresh lib options 0 (jwt_database engine cache) "old" start).1

start-missing : cache.get_secret "d1" start.secrets ≡ none
unfolding memory_secret_cache
start-missing = refl

start-Behind : Behind engine cache cache-SecretCacheLaws "d1" "d1" start
start-Behind s d hit found =
    absurd (ground (arith, cache-SecretCacheLaws.get_lem "d1" start.secrets, start-missing))

after_rotation-ok :
    rotate_refresh lib options 0 (jwt_database engine cache) "old" start
    ≡ (rotated "new" (new_refresh_claims lib options 0 "a@b.c" "d1" 2), after_rotation)
unfolding rotate_refresh verify_token auth_middleware.Jwt.has_token_type
    auth_middleware.Text.cut_prefix get_device_secret memory_secret_cache Database.get_device_secret
    find_device update_device_secret Database.update_device_secret
after_rotation-ok = refl

rotated_token_refused_example :
    verify_refresh (jwt_database engine cache) lib options 5 "old" after_rotation
    ≢ (verified refresh_claims "s", after_rotation)
rotated_token_refused_example =
    rotated_token_refused engine cache cache-SecretCacheLaws lib options 0 "old"
      (some "refresh+jwt") refresh_claims refl (λ secret. refl) 5 "new" "d1" refresh_claims
      (new_refresh_claims lib options 0 "a@b.c" "d1" 2) "s" start after_rotation after_rotation
      after_rotation refl tables-WellFormed tables-Drawn start-Behind refl after_rotation-ok here

-- the secret of a later generation
abbrev newest : Secret
newest = record { value = "t"; generation = 2 }

set_newer_refines_example :
    let old = some (encode_secret itoa stale) in
    let after = written old (set_newer (λ n. n) (encode_secret itoa newest) 2 old) in
    (after ≡ some "2:t")
    × (read_entry (ok after) ≡ some (record { value = "t"; generation = pos 2 }))
unfolding encode_secret
set_newer_refines_example =
    set_newer_refines (λ n. n) (record { exact = λ n small. refl }) itoa itoa-Decimal (some stale)
      newest (λ e. absurd (omega (arith, ap text_length e))) (omega arith) (omega arith)

-- A load that read the row before the deletion and is still under way is joined after it, and gives out
-- the secret.
abbrev loading : World
loading = record start { loads = λ id. if id == "d1" then some (ok ("s", 1)) else none }

joined_load :
    (get_device_secret engine cache "d1" (delete_device engine cache "a@b.c" "d1" loading).1).0
    ≡ ok ("s", 1)
unfolding delete_device Database.delete_device get_device_secret memory_secret_cache
    auth_middleware.Cache.CachedDb.load_secret auth_middleware.Cache.CachedDb.store_loaded
joined_load = refl
