-- ===== src/Cache/CachedDb.antt =====
-- server/internal/cache/device/cached_db.go: the device database behind the secret cache. Each
-- method is one action here, as for a single caller; Cache/Interleaving takes the methods apart
-- into the steps between which other callers run. A call of GetDeviceSecret that finds a load of its
-- device under way joins it, as singleflight documents: the call returns when that load has ended, with
-- what it read.
use Prim.Native.Nat.{max}
use auth_middleware.Prelude.{ℕ, String, Option, none, some, List, [], ◌∷◌, ◌==◌, if◌then◌else◌}
use auth_middleware.Prelude.State.{Result, ok, err, M, pure, ◌>>=◌, ◌>>◌}
use auth_middleware.Errors.{Error, device_not_found, is_no_rows}
use auth_middleware.Database.{Tables, Engine}
use auth_middleware.Database
use auth_middleware.Cache.Secrets.{Secret, SecretCache}

-- CachedDB: what its parts hold. `loads` is secretLoads: under each device, what the load that other
-- callers have under way has read. A load that has not read yet is not there: to join it is to read
-- now.
pub record CachedDb (C : Type 0) : Type 0 where
  pub tables : Tables
  pub secrets : C
  pub loads : String → Option (Result (String × ℕ))

module _ {C : Type 0} where
  unfoldable pub on_tables : {A : Type 0} → M Tables A → M (CachedDb C) A
  on_tables m w = let (a, t) = m w.tables in (a, record w { tables = t })

  unfoldable pub on_secrets : (C → C) → M (CachedDb C) (Unit {0})
  on_secrets f w = (tt, record w { secrets = f w.secrets })

-- secretLoads with another load, or none, under the device
abbrev pub put_load :
    String
    → Option (Result (String × ℕ))
    → (String → Option (Result (String × ℕ)))
    → String
    → Option (Result (String × ℕ))
put_load device_id load loads j = if device_id == j then load else loads j

-- `errors.Is(err, sql.ErrNoRows)` becomes `jwt.ErrDeviceNotFound`
load_error : Error → Error
load_error e = if is_no_rows e then device_not_found else e

module _ {C : Type 0} (e : Engine) (cache : SecretCache C) where
  -- what the load does with the answer of the database
  unfoldable pub store_loaded :
      (device_id : String) → Result (String × ℕ) → M (CachedDb C) (Result (String × ℕ))
  unfolding load_error on_secrets
  store_loaded device_id (err why) = pure (err (load_error why))
  store_loaded device_id (ok (value, generation)) = do
    on_secrets (cache.set_secret device_id (record { value = value; generation = generation }))
    pure (ok (value, generation))

  -- what the load of the device reads, or has read where one is under way
  unfoldable pub shared_read :
      (device_id : String) → Option (Result (String × ℕ)) → M (CachedDb C) (Result (String × ℕ))
  unfolding on_tables
  shared_read device_id (some r) = pure r
  shared_read device_id none = on_tables (Database.get_device_secret e device_id)

  -- the load ends: it leaves secretLoads
  unfoldable pub end_load : (device_id : String) → M (CachedDb C) (Unit {0})
  end_load device_id w = (tt, record w { loads = put_load device_id none w.loads })

  -- secretLoads.Do
  unfoldable pub load_secret : String → M (CachedDb C) (Result (String × ℕ))
  unfolding shared_read store_loaded end_load
  load_secret device_id w =
      (do
        r ← shared_read device_id (w.loads device_id)
        end_load device_id
        store_loaded device_id r)
        w

  unfoldable pub from_cache :
      (device_id : String) → Option Secret → M (CachedDb C) (Result (String × ℕ))
  unfolding load_secret
  from_cache device_id (some secret) = pure (ok (secret.value, secret.generation))
  from_cache device_id none = load_secret device_id

  unfoldable pub get_device_secret : String → M (CachedDb C) (Result (String × ℕ))
  unfolding from_cache
  get_device_secret device_id w = from_cache device_id (cache.get_secret device_id w.secrets) w

  unfoldable pub set_raised :
      (device_id : String) (generation : ℕ) → Secret → M (CachedDb C) (Unit {0})
  unfolding on_secrets
  set_raised device_id generation secret =
      on_secrets (
        cache.set_secret device_id
          (record secret { generation = max secret.generation generation }))

  -- UpdateDeviceSecret where the cache has no entry: it is read again
  unfoldable pub set_reread :
      (device_id : String) (generation : ℕ) → Result (String × ℕ) → M (CachedDb C) (Unit {0})
  unfolding set_raised
  set_reread device_id generation (err why) = pure tt
  set_reread device_id generation (ok (value, current)) =
      set_raised device_id generation (record { value = value; generation = current })

  unfoldable pub refresh_cache :
      (device_id : String) (generation : ℕ) → Option Secret → M (CachedDb C) (Unit {0})
  unfolding set_reread on_tables
  refresh_cache device_id generation (some secret) = set_raised device_id generation secret
  refresh_cache device_id generation none = do
    r ← on_tables (Database.get_device_secret e device_id)
    set_reread device_id generation r

  unfoldable pub after_update : (device_id : String) → Result ℕ → M (CachedDb C) (Result ℕ)
  unfolding refresh_cache
  after_update device_id (err why) w = (err why, w)
  after_update device_id (ok generation) w =
      (do
        refresh_cache device_id generation (cache.get_secret device_id w.secrets)
        pure (ok generation))
        w

  unfoldable pub update_device_secret : String → M (CachedDb C) (Result ℕ)
  unfolding after_update on_tables
  update_device_secret device_id = do
    r ← on_tables (Database.update_device_secret e device_id)
    after_update device_id r

  unfoldable pub after_delete :
      (device_id : String) → Result (Unit {0}) → M (CachedDb C) (Result (Unit {0}))
  unfolding on_secrets
  after_delete device_id (err why) = pure (err why)
  after_delete device_id (ok done) = do on_secrets (cache.delete_secret device_id); pure (ok done)

  unfoldable pub delete_device :
      (user_email device_id : String) → M (CachedDb C) (Result (Unit {0}))
  unfolding after_delete on_tables
  delete_device user_email device_id = do
    r ← on_tables (Database.delete_device e user_email device_id)
    after_delete device_id r

  unfoldable pub delete_secrets : List String → C → C
  delete_secrets [] c = c
  delete_secrets (id ∷ ids) c = delete_secrets ids (cache.delete_secret id c)

  after_delete_all : Result (List String) → M (CachedDb C) (Result (Unit {0}))
  unfolding delete_secrets on_secrets
  after_delete_all (err why) = pure (err why)
  after_delete_all (ok ids) = do on_secrets (delete_secrets ids); pure (ok tt)

  unfoldable pub delete_all_devices : String → M (CachedDb C) (Result (Unit {0}))
  unfolding after_delete_all on_tables
  delete_all_devices user_email = do
    r ← on_tables (Database.delete_all_devices_returning_ids e user_email)
    after_delete_all r

  -- the embedded method of *database.Database
  pub save_device_secret : (user_email device_name secret : String) → M (CachedDb C) (Result String)
  unfolding on_tables
  save_device_secret user_email device_name secret =
      on_tables (Database.save_device_secret e user_email device_name secret)
