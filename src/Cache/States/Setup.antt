-- ===== src/Cache/States/Setup.antt =====
-- The choice of a login state cache in server/internal/cache/state/state.go.
use auth_middleware.Prelude.{ℕ, String, true, Option, none, some, List, [], ◌∷◌, pos}
use auth_middleware.Prelude.State.{Result, ok, err}
use auth_middleware.Cache.{Otter, new_memory_cache}
use auth_middleware.Cache.States.{StateCache, Config, default_config, memory_state_cache}
use auth_middleware.Cache.Redis.{Client}
use auth_middleware.Cache.Redis.States.{redis_state_cache}

apply_options : List (Config → Config) → Config → Config
apply_options [] c = c
apply_options (opt ∷ opts) c = apply_options opts (opt c)

-- `created` is otter.New.
module _ {W : Type 0} (created : (maximum_size ttl : ℕ) → Result (Otter W String)) where
  in_memory : Result (Otter W String) → Result (StateCache W)
  in_memory (err e) = err e
  in_memory (ok verifiers) = ok (memory_state_cache verifiers)

  new_configured : Option (Client W) → Config → Result (StateCache W)
  unfolding in_memory new_memory_cache redis_state_cache
  new_configured (some client) c = ok (redis_state_cache client c.ttl)
  new_configured none c =
      in_memory (new_memory_cache (pos c.maximum_size) true (created c.maximum_size c.ttl))

  -- NewCache
  unfoldable pub new_cache : Option (Client W) → List (Config → Config) → Result (StateCache W)
  unfolding new_configured apply_options
  new_cache client opts = new_configured client (apply_options opts default_config)
