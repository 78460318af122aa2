-- ===== src/Cache/Redis/States.antt =====
-- server/internal/cache/state/redis.go
use auth_middleware.Prelude.{ℕ, String, Option, none, some}
use auth_middleware.Prelude.State.{Result, ok, err, M, pure, ◌>>=◌}
use auth_middleware.Text.{append}
use auth_middleware.Cache.States.{StateCache}
use auth_middleware.Cache.Redis.{Client, get_del}
use auth_middleware.Cache.Redis

abbrev pub redis_key_prefix : String
redis_key_prefix = "oauth2:state:"

taken : Result (Option String) → Result String
taken (err e) = err e
taken (ok none) = ok ""
taken (ok (some verifier)) = ok verifier

module _ {W : Type 0} (client : Client W) (ttl : ℕ) where
  -- Take
  unfoldable pub take : (state : String) → M W (Result String)
  unfolding taken get_del
  take state = do r ← get_del client (append redis_key_prefix state); pure (taken r)

  -- Set
  unfoldable pub set : (state verifier : String) → M W (Result (Unit {0}))
  unfolding Redis.set
  set state verifier = Redis.set client (append redis_key_prefix state) verifier ttl

  unfoldable pub redis_state_cache : StateCache W
  unfolding take set
  redis_state_cache = record { set = set; take = take }
