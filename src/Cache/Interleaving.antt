-- ===== src/Cache/Interleaving.antt =====
-- The methods of cached_db.go among those of other callers. Between two steps of one method any
-- number of other steps may run: a statement of the database, a SetSecret with whatever value
-- another load or update read before, a DeleteSecret, a load that starts and reads, or one that ends
-- (callers of the same device join it in between). No entry expires or is evicted on the way:
-- an entry outlives the calls that were under way when it was written.
pub mod Deletion
pub mod Rotation
pub mod Single
use auth_middleware.Prelude.{ℕ, String, ◌≡◌, ◌⊎◌, inl, inr, Option, none, some, arith, Option-cases}
use auth_middleware.Prelude.State.{Result, ok}
use auth_middleware.Database.{Device, Engine}
use auth_middleware.Database
use auth_middleware.Database.Devices.{row, get_device_secret-ok}
use auth_middleware.Database.Invariant.{Call, get, perform}
use auth_middleware.Cache.Secrets.{Secret, SecretCache}
use auth_middleware.Cache.CachedDb.{CachedDb, put_load, shared_read, load_secret, from_cache}

module _ {C : Type 0} (e : Engine) (cache : SecretCache C) where
  -- One atomic step of some caller.
  pub data Step : CachedDb C → CachedDb C → Type 0 where
    statement :
        (call : Call) (w : CachedDb C) → Step w (record w { tables = perform e call w.tables })
    stores :
        (id : String) (s : Secret) (w : CachedDb C)
        → Step w (record w { secrets = cache.set_secret id s w.secrets })
    marks :
        (id : String) (w : CachedDb C)
        → Step w (record w { secrets = cache.delete_secret id w.secrets })
    -- a load starts and reads the row
    begins :
        (id : String) (w : CachedDb C)
        → w.loads id ≡ none
        → Step w (record w {
          tables = perform e (get id) w.tables;
          loads = put_load id (some (Database.get_device_secret e id w.tables).0) w.loads;
        })
    -- a load has ended
    ends : (id : String) (w : CachedDb C) → Step w (record w { loads = put_load id none w.loads })

  pub data Steps (w : CachedDb C) : CachedDb C → Type 0 where
    here : Steps w w
    next : {v u : CachedDb C} → Steps w v → Step v u → Steps w u

  -- A load that succeeds returns what the load under way had read, or else what the database
  -- returned.
  from_cache-ok :
      (id : String) (w : CachedDb C) (s : String) (g : ℕ)
      → (from_cache e cache id none w).0 ≡ ok (s, g)
      → (w.loads id ≡ some (ok (s, g)))
        ⊎ ((w.loads id ≡ none) × ((Database.get_device_secret e id w.tables).0 ≡ ok (s, g)))
  unfolding from_cache load_secret shared_read
  from_cache-ok id w s g h = elim (Option-cases (w.loads id)) [
    | inl idle ↦ inr (ground (arith), ground arith)
    | inr (r, loading) ↦ inl (ground arith)
  ]

  -- What a row has that GetDeviceSecret of the database returned.
  pub read-row :
      (id : String) (w : CachedDb C) (s : String) (g : ℕ)
      → (Database.get_device_secret e id w.tables).0 ≡ ok (s, g)
      → (d : Device) × (row e w.tables id ≡ some d) × (s ≡ d.secret) × (g ≡ d.generation)
  read-row id w s g h =
      let r = Database.get_device_secret e id w.tables in
      get_device_secret-ok e id w.tables r.1 s g (λ i. (h i, r.1))

  -- So it returns what the load under way had read, or the secret and the generation of a row.
  pub from_cache-row :
      (id : String) (w : CachedDb C) (s : String) (g : ℕ)
      → (from_cache e cache id none w).0 ≡ ok (s, g)
      → (w.loads id ≡ some (ok (s, g)))
        ⊎ ((d : Device) × (row e w.tables id ≡ some d) × (s ≡ d.secret) × (g ≡ d.generation))
  from_cache-row id w s g h = elim (from_cache-ok id w s g h) [
    | inl joined ↦ inl joined
    | inr (_, read) ↦ inr (read-row id w s g read)
  ]
