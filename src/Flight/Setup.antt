-- ===== src/Flight/Setup.antt =====
-- server/internal/flight/flight.go: the options of a group, its creation and its store in Redis. The
-- locker of rueidislock is a parameter.
use auth_middleware.Prelude.{ℕ, ◌*◌, String, true, List, [], ◌∷◌, eqb, ◌==◌, if◌then◌else◌, pos}
use auth_middleware.Prelude.State.{Result, ok, err, M}
use auth_middleware.Text.{append}
use auth_middleware.Cache.{Otter, new_memory_cache}
use auth_middleware.Cache.Redis.{Client, get, set}
use auth_middleware.Flight.{RedisStore, Group, memory, redis}

abbrev lock_key_prefix : String
lock_key_prefix = "flight:lock"

abbrev result_key_prefix : String
result_key_prefix = "flight:result:"

abbrev default_ttl : ℕ
default_ttl = 30 * 1000000000

abbrev memory_max_size : ℕ
memory_max_size = 100000

pub record Config : Type 0 where
  pub redis_url : String
  pub result_ttl : ℕ

-- WithRedis
unfoldable pub with_redis : (url : String) (result_ttl : ℕ) → Config → Config
with_redis url result_ttl c = record { redis_url = url; result_ttl = result_ttl }

apply_options : List (Config → Config) → Config → Config
apply_options [] c = c
apply_options (opt ∷ opts) c = apply_options opts (opt c)

-- the time that New takes for results; a time is not negative here
result_ttl_of : ℕ → ℕ
result_ttl_of ttl = if eqb ttl 0 then default_ttl else ttl

-- rueidislock.Locker: the lock of a key and its release, its client, and the end of it
pub record Locker (W : Type 0) : Type 0 where
  pub with_context : (key : String) → M W (Result (Unit {0}))
  pub release : (key : String) → M W (Unit {0})
  pub client : Client W
  pub shut : W → W

-- redisStore
unfoldable pub redis_store : {W : Type 0} → Locker W → (result_ttl : ℕ) → RedisStore W
unfolding get set
redis_store locker result_ttl = record {
  load = λ key. get locker.client (append result_key_prefix key);
  lock = locker.with_context;
  unlock = locker.release;
  store = λ key raw. set locker.client (append result_key_prefix key) raw result_ttl;
}

-- `connect` is rueidis.ParseURL and rueidislock.NewLocker.
module _ {W : Type 0}
    (connect : (url key_prefix : String) (dial_timeout majority : ℕ)
      → M W (Result (Locker W))) where
  -- newLocker
  unfoldable pub new_locker : (url : String) → M W (Result (Locker W))
  new_locker url = connect url lock_key_prefix (5 * 1000000000) 1

-- The state of the cache in memory is a part of the world; `created` is otter.New.
module _ {W V C : Type 0}
    (connect : (url key_prefix : String) (dial_timeout majority : ℕ) → M W (Result (Locker W)))
    (memory_of : W → C) (change : (C → C) → W → W)
    (created : (maximum_size ttl : ℕ) → Result (Otter C V)) where
  in_memory : Result (Otter C V) → Result (Group W V)
  in_memory (err e) = err e
  in_memory (ok otter) = ok (memory otter memory_of change)

  over_redis : (result_ttl : ℕ) → Result (Locker W) → Result (Group W V)
  unfolding redis_store
  over_redis result_ttl (err e) = err e
  over_redis result_ttl (ok locker) = ok (redis (redis_store locker result_ttl))

  connected : (result_ttl : ℕ) → Result (Locker W) × W → Result (Group W V) × W
  unfolding over_redis
  connected result_ttl (l, w) = (over_redis result_ttl l, w)

  new_configured : Config → W → Result (Group W V) × W
  unfolding in_memory connected result_ttl_of new_locker new_memory_cache
  new_configured c w =
      if c.redis_url == ""
      then (
        in_memory (
            new_memory_cache (pos memory_max_size) true
              (created memory_max_size (result_ttl_of c.result_ttl))),
        w,
      )
      else connected (result_ttl_of c.result_ttl) (new_locker connect c.redis_url w)

  -- New
  unfoldable pub new : List (Config → Config) → W → Result (Group W V) × W
  unfolding new_configured apply_options
  new opts = new_configured (apply_options opts (record { redis_url = ""; result_ttl = 0 }))
