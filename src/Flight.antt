-- ===== src/Flight.antt =====
-- server/internal/flight/flight.go: one execution of a function for the callers of one key, with
-- the results kept in memory or shared through Redis. Here a call runs alone: that singleflight
-- runs one function for callers at one time is not modelled. otter, the store in Redis, which
-- Flight/Setup makes, and the JSON of results are parameters.
pub mod Sharing
pub mod Setup
use auth_middleware.Prelude.{
  String, Bool, true, false, not, ◌&&◌, Option, none, some, if◌then◌else◌,
}
use auth_middleware.Prelude.State.{Result, ok, err, M, pure, ◌>>=◌}
use auth_middleware.Errors.{Error}
use auth_middleware.Cache.{Otter}

-- Go's `(T, error)` where both may be set
pub record Outcome (E T : Type 0) : Type 0 where
  pub value : T
  pub failure : Option E

-- How a type of results is kept: `any(v)` with the assertion `cached.(T)`, and its JSON.
pub record Stored (V T : Type 0) : Type 0 where
  pub as_any : T → V
  pub assert : V → Option T
  pub marshal : T → Result String
  pub unmarshal : String → Result T

-- redisStore: `load` gives none where Redis has no value; the lock and its release; `store`
pub record RedisStore (W : Type 0) : Type 0 where
  pub load : String → M W (Result (Option String))
  pub lock : String → M W (Result (Unit {0}))
  pub unlock : String → M W (Unit {0})
  pub store : String → String → M W (Result (Unit {0}))

-- Group: the cache in memory, whose state is a part of the world, or Redis
pub data Group (W V : Type 0) : Type 1 where
  memory : {C : Type 0} → Otter C V → (W → C) → ((C → C) → W → W) → Group W V
  redis : RedisStore W → Group W V

module _ {V T : Type 0} (stored : Stored V T) where
  cached : Option V → Option T
  cached none = none
  cached (some v) = stored.assert v

  -- loadResult: a value that does not parse counts as none
  unmarshalled : Result (Option String) → Result (Option T)
  unmarshalled (err e) = err e
  unmarshalled (ok none) = ok none
  unmarshalled (ok (some raw)) = elim (stored.unmarshal raw) [
    | err _ ↦ ok none
    | ok result ↦ ok (some result)
  ]

module _ {W V T : Type 0} (stored : Stored V T) where
  load_result : RedisStore W → String → M W (Result (Option T))
  unfolding unmarshalled
  load_result r key = do raw ← r.load key; pure (unmarshalled stored raw)

  -- storeResult: a failure is only logged
  store_raw : RedisStore W → String → Result String → M W (Unit {0})
  store_raw r key (err _) = pure tt
  store_raw r key (ok raw) = do _ ← r.store key raw; pure tt

module _ {W V E T : Type 0} (stored : Stored V T) where
  store_local :
      {C : Type 0} → Otter C V → ((C → C) → W → W) → String → Outcome E T → M W (Outcome E T)
  store_local otter change key o w = elim o.failure [
    | some _ ↦ (o, w)
    | none ↦ (o, change (otter.set key (stored.as_any o.value)) w)
  ]

  -- doLocal
  unfoldable pub do_local :
      {C : Type 0}
      → Otter C V
      → (W → C)
      → ((C → C) → W → W)
      → String
      → M W (Outcome E T)
      → M W (Outcome E T)
  unfolding store_local cached
  do_local otter memory_of change key fn w =
      elim (cached stored (otter.get_if_present key (memory_of w))) [
        | some result ↦ (record { value = result; failure = none }, w)
        | none ↦ (do o ← fn; store_local otter change key o) w
      ]

  store_result : RedisStore W → String → Outcome E T → M W (Unit {0})
  unfolding store_raw
  store_result r key o = elim o.failure [
    | some _ ↦ pure tt
    | none ↦ store_raw stored r key (stored.marshal o.value)
  ]

  -- run the function under the lock; its result is stored unless there was one before the call
  run_locked :
      RedisStore W
      → String
      → (completed_before_start : Bool) → M W (Outcome E T)
      → M W (Outcome E T)
  unfolding store_result
  run_locked r key completed fn = do
    o ← fn
    _ ← (if completed then pure tt else store_result r key o)
    _ ← r.unlock key
    pure o

  -- the second look for a result, under the lock
  found_locked : RedisStore W → String → M W (Outcome E T) → Result (Option T) → M W (Outcome E T)
  unfolding run_locked
  found_locked r key fn (ok (some result)) = do
    _ ← r.unlock key
    pure (record { value = result; failure = none })
  found_locked r key fn (ok none) = run_locked r key false fn
  found_locked r key fn (err _) = run_locked r key false fn

  under_lock :
      RedisStore W
      → String
      → (completed_before_start : Bool) → M W (Outcome E T)
      → Result (Unit {0})
      → M W (Outcome E T)
  unfolding found_locked load_result
  under_lock r key completed fn (err _) = fn
  under_lock r key true fn (ok _) = run_locked r key true fn
  under_lock r key false fn (ok _) = do
    again ← load_result stored r key
    found_locked r key fn again

  after_load :
      RedisStore W
      → String
      → (in_flight_only : Bool) → M W (Outcome E T)
      → Result (Option T)
      → M W (Outcome E T)
  unfolding under_lock
  after_load r key in_flight_only fn (err _) = fn
  after_load r key in_flight_only fn (ok none) = do
    locked ← r.lock key
    under_lock r key false fn locked
  after_load r key in_flight_only fn (ok (some result)) =
      if in_flight_only
      then (do locked ← r.lock key; under_lock r key true fn locked)
      else pure (record { value = result; failure = none })

  -- doDistributed, at the hashed key
  unfoldable pub do_distributed :
      RedisStore W
      → (hashed_key : String) → (in_flight_only : Bool) → M W (Outcome E T)
      → M W (Outcome E T)
  unfolding after_load load_result
  do_distributed r key in_flight_only fn = do
    first ← load_result stored r key
    after_load r key in_flight_only fn first

  -- Do
  unfoldable pub do_flight :
      (hash_key : String → String)
      → Group W V
      → String
      → (in_flight_only : Bool) → M W (Outcome E T)
      → M W (Outcome E T)
  unfolding do_local do_distributed
  do_flight hash_key (redis r) key in_flight_only fn =
      do_distributed r (hash_key key) in_flight_only fn
  do_flight hash_key (memory otter memory_of change) key in_flight_only fn =
      if in_flight_only then fn else do_local otter memory_of change key fn
