-- ===== src/Cache/Redis.antt =====
-- server/internal/cache/redis.go: the commands that the program sends to Redis. The client rueidis
-- is a parameter; a reply of nil is `none`.
pub mod Secrets
pub mod States
use auth_middleware.Prelude.{ℕ, ◌*◌, String, Option, none, some, ◌==◌, if◌then◌else◌}
use auth_middleware.Prelude.State.{Result, ok, err, M, pure, ◌>>=◌}
use auth_middleware.Errors.{Error}

-- times in nanoseconds
pub data Command : Type 0 where
  get_key get_del_key del_key : (key : String) → Command
  set_key set_nx_key : (key value : String) (px : ℕ) → Command
  ping : Command

pub record Client (W : Type 0) : Type 0 where
  pub perform : Command → M W (Result (Option String))
  -- a Lua script with one key, which runs as one step: from the key's value to the one that it sets,
  -- if it sets one
  pub run_script :
      (key : String) → (Option String → Option String) → (px : ℕ) → M W (Result (Unit {0}))
  pub shut : W → W

-- Error() of a result
unfoldable pub error_of : Result (Option String) → Result (Unit {0})
error_of (err e) = err e
error_of (ok _) = ok tt

module _ {W : Type 0} (client : Client W) where
  unfoldable pub get : (key : String) → M W (Result (Option String))
  get key = client.perform (get_key key)

  unfoldable pub set : (key value : String) (ttl : ℕ) → M W (Result (Unit {0}))
  unfolding error_of
  set key value ttl = do r ← client.perform (set_key key value ttl); pure (error_of r)

  unfoldable pub set_nx : (key value : String) (ttl : ℕ) → M W (Result (Unit {0}))
  unfolding error_of
  set_nx key value ttl = do r ← client.perform (set_nx_key key value ttl); pure (error_of r)

  unfoldable pub get_del : (key : String) → M W (Result (Option String))
  get_del key = client.perform (get_del_key key)

  unfoldable pub del : (key : String) → M W (Result (Unit {0}))
  unfolding error_of
  del key = do r ← client.perform (del_key key); pure (error_of r)

module _ {W : Type 0} where
  pinged : Client W → Result (Option String) → M W (Result (Option (Client W)))
  pinged client (err e) w = (err e, client.shut w)
  pinged client (ok _) w = (ok (some client), w)

  -- NewRedisClient; `connect` is rueidis.ParseURL and rueidis.NewClient, with a dial timeout
  unfoldable pub new_redis_client :
      (connect : (url : String) (dial_timeout : ℕ) → M W (Result (Client W)))
      → (url : String) → M W (Result (Option (Client W)))
  unfolding pinged
  new_redis_client connect url = if url == "" then pure (ok none) else do
    r ← connect url (5 * 1000000000)
    elim r [ err e ↦ pure (err e) | ok client ↦ do p ← client.perform ping; pinged client p ]
