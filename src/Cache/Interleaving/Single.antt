-- ===== src/Cache/Interleaving/Single.antt =====
-- UpdateDeviceSecret as one step of a single caller, after a GetDeviceSecret of the same device:
-- verifyToken and RotateRefresh make these two calls.
use auth_middleware.Prelude.{
  ℕ, ◌+◌, ◌≤◌, String, ◌≡◌, ◌≢◌, refl, sym, subst, ap, ◌∙◌, inl, inr, Option, none, some, arith,
  eq_refl, Option-cases,
}
use auth_middleware.Prelude.State.{Result, ok, err}
use auth_middleware.Database.{Device, Tables, Engine, find_device}
use auth_middleware.Database
use auth_middleware.Database.Devices.{row, get_device_secret-devices, update_device_secret-Raised}
use auth_middleware.Database.Invariant.{get, perform, WellFormed}
use auth_middleware.Database.Absence.{AtLeast, Drawn}
use auth_middleware.Cache.Secrets.{Secret, live, SecretCache, SecretCacheLaws}
use auth_middleware.Cache.CachedDb.{
  CachedDb, put_load, shared_read, load_secret, end_load, on_tables, on_secrets, store_loaded,
  from_cache, get_device_secret, set_raised, set_reread, refresh_cache, after_update,
  update_device_secret,
}
use auth_middleware.Cache.Interleaving.{statement, stores, ends, Steps, here, next, from_cache-row}
use auth_middleware.Cache.Interleaving.Rotation.{
  Settled, StoredAt, Fresh, idle-Fresh, Steps-Fresh, Steps-StoredAt, Steps-Settled,
  set_raised-Settled, update-StoredAt, answer-at_least,
}

module _ {C : Type 0} (e : Engine) (cache : SecretCache C) (laws : SecretCacheLaws cache) where
  open laws use {held}

  set_reread-Settled :
      (id : String) (g : ℕ) (r : Result (String × ℕ)) (w : CachedDb C)
      → Settled e cache laws g (held w.secrets id)
      → Settled e cache laws g (held (set_reread e cache id g r w).1.secrets id)
  unfolding set_reread
  set_reread-Settled id g (err why) w h = h
  set_reread-Settled id g (ok (value, current)) w h = set_raised-Settled e cache laws g id _ w

  hidden-Settled : (g : ℕ) (o : Option Secret) → live o ≡ none → o ≢ none → Settled e cache laws g o
  hidden-Settled g none h present = present refl
  hidden-Settled g (some s) h present = ground arith

  refresh_cache-Settled :
      (id : String) (g : ℕ) (o : Option Secret) (w : CachedDb C)
      → live (held w.secrets id) ≡ o
      → held w.secrets id ≢ none
      → Settled e cache laws g (held (refresh_cache e cache id g o w).1.secrets id)
  unfolding refresh_cache on_tables
  refresh_cache-Settled id g (some s) w answer present = set_raised-Settled e cache laws g id s w
  refresh_cache-Settled id g none w answer present =
      set_reread-Settled id g (Database.get_device_secret e id w.tables).0 _
        (hidden-Settled g (held w.secrets id) answer present)

  -- A cache that has answered for a device, or stored a load of it, has an entry.
  pub get-held :
      (id : String) (w w' : CachedDb C) (p : String × ℕ)
      → get_device_secret e cache id w ≡ (ok p, w')
      → held w'.secrets id ≢ none
  unfolding get_device_secret store_loaded
  get-held id w w' (value, g) h gone = elim (Option-cases (cache.get_secret id w.secrets)) [
    | inl miss ↦
        ground (
          arith,
          laws.set_lem id id (record { value = value; generation = g }) w.secrets,
          eq_refl id,
        )
    | inr (s, hit) ↦ ground (arith, laws.get_lem id w.secrets)
  ]

  refresh_cache-Steps :
      (id : String) (g : ℕ) (o : Option Secret) (w : CachedDb C)
      → Steps e cache w (refresh_cache e cache id g o w).1
  unfolding refresh_cache on_tables set_reread set_raised perform on_secrets
  refresh_cache-Steps id g (some s) w = next here (stores id _ w)
  refresh_cache-Steps id g none w = reread (Database.get_device_secret e id w.tables).0
    where
      w' : CachedDb C
      w' = record w { tables = perform e (get id) w.tables }

      reread : (r : Result (String × ℕ)) → Steps e cache w (set_reread e cache id g r w').1
      reread (err why) = next here (statement (get id) w)
      reread (ok (value, current)) = next (next here (statement (get id) w)) (stores id _ w')

  pub update-result :
      (id : String) (g : ℕ) (w w' : CachedDb C)
      → update_device_secret e cache id w ≡ (ok g, w')
      → let r = Database.update_device_secret e id w.tables in
        (r.0 ≡ ok g)
        × (w'
            ≡ (refresh_cache e cache id g
                (cache.get_secret id w.secrets)
                (record w { tables = r.1 })).1)
  unfolding update_device_secret after_update on_tables
  update-result id g w w' h = (ground arith, ground arith)

  -- UpdateDeviceSecret of a single caller, where the cache has an entry for the device: the
  -- generation that it returns is a lower bound of what GetDeviceSecret gives out afterwards, if no
  -- load of the secret was under way.
  pub single-raised :
      (id c : String) (g : ℕ) (w w' v : CachedDb C) (value : String) (g' : ℕ)
      → e.parse_uuid id ≡ some c
      → WellFormed e w.tables
      → Drawn e c w.tables
      → held w.secrets id ≢ none
      → w.loads id ≡ none
      → update_device_secret e cache id w ≡ (ok g, w')
      → Steps e cache w' v
      → (get_device_secret e cache id v).0 ≡ ok (value, g')
      → g ≤ g'
  single-raised id c g w w' v value g' canonical wf new present idle h steps =
      let (raised, after) = update-result id g w w' h in
      let r = Database.update_device_secret e id w.tables in
      let w1 : CachedDb C = record w { tables = r.1 } in
      let o = cache.get_secret id w.secrets in
      let stored =
        update-StoredAt e cache laws id c g w r.1 canonical wf new (λ i. (raised i, r.1)) in
      let stored' = Steps-StoredAt e cache laws g c (refresh_cache-Steps id g o w1) stored in
      let fresh =
        Steps-Fresh e cache laws g id c canonical (refresh_cache-Steps id g o w1) stored
          (idle-Fresh e cache laws g (w.loads id) idle) in
      let settled = refresh_cache-Settled id g o w1 (sym (laws.get_lem id w.secrets)) present in
      answer-at_least e cache laws g id c v value g' canonical
        (Steps-StoredAt e cache laws g c steps
          (subst (StoredAt e cache laws g c) (sym after) stored'))
        (Steps-Settled e cache laws g id steps (
          subst (λ (x : CachedDb C). Settled e cache laws g (held x.secrets id)) (sym after)
            settled))
        (Steps-Fresh e cache laws g id c canonical steps
          (subst (StoredAt e cache laws g c) (sym after) stored')
          (subst (λ (x : CachedDb C). Fresh e cache laws g (x.loads id)) (sym after) fresh))

  -- What UpdateDeviceSecret returns is one more than the generation of the row.
  pub update-next :
      (id c : String) (g : ℕ) (w w' : CachedDb C)
      → e.parse_uuid id ≡ some c
      → update_device_secret e cache id w ≡ (ok g, w')
      → (d : Device) × (find_device c w.tables.devices ≡ some d) × (g ≡ d.generation + 1)
  unfolding row
  update-next id c g w w' canonical h =
      let r = Database.update_device_secret e id w.tables in
      let (raised, _) = update-result id g w w' h in
      let u = update_device_secret-Raised e id w.tables g r.1 (λ i. (raised i, r.1)) in
      (u.before, ground (arith, u.found), u.next)

  -- A cached generation is not ahead of the row's.
  abbrev pub Behind : String → String → CachedDb C → Type 0
  Behind id c w =
      (s : Secret) (d : Device)
      → live (held w.secrets id) ≡ some s
      → find_device c w.tables.devices ≡ some d
      → s.generation ≤ d.generation

  -- GetDeviceSecret changes no row.
  pub get-devices :
      (id : String) (w : CachedDb C)
      → (get_device_secret e cache id w).1.tables.devices ≡ w.tables.devices
  unfolding get_device_secret on_tables store_loaded
  get-devices id w = ground (arith, get_device_secret-devices e id w.tables)

  pub get-at_most :
      (id c : String) (w w' : CachedDb C) (value : String) (g : ℕ) (d : Device)
      → e.parse_uuid id ≡ some c
      → Behind id c w
      → w.loads id ≡ none
      → get_device_secret e cache id w ≡ (ok (value, g), w')
      → find_device c w'.tables.devices ≡ some d
      → g ≤ d.generation
  unfolding get_device_secret row
  get-at_most id c w w' value g d canonical behind idle h found =
      let same : find_device c w.tables.devices ≡ some d =
        ap (find_device c) (
          sym (get-devices id w)
          ∙ ap (λ (r : Result (String × ℕ) × CachedDb C). r.1.tables.devices) h)
        ∙ found in
      elim (Option-cases (cache.get_secret id w.secrets)) [
        | inl miss ↦
            let answer =
              ap (λ (r : Result (String × ℕ) × CachedDb C). r.0)
                (rw (miss, get_device_secret) at h) in
            elim (from_cache-row e cache id w value g answer) [
              | inl joined ↦ absurd (ground arith)
              | inr (x, at, _, gen) ↦ ground arith
            ]
        | inr (s, hit) ↦ ground (arith, behind s d, laws.get_lem id w.secrets)
      ]

  pub get-Steps :
      (id : String) (w : CachedDb C) → Steps e cache w (get_device_secret e cache id w).1
  unfolding get_device_secret perform on_tables store_loaded on_secrets load_secret shared_read
      end_load
  get-Steps id w = at (cache.get_secret id w.secrets)
    where
      ended : CachedDb C → CachedDb C
      ended x = record x { loads = put_load id none x.loads }

      store :
          {x : CachedDb C} (r : Result (String × ℕ))
          → Steps e cache w x
          → Steps e cache w (store_loaded e cache id r (ended x)).1
      store {x} (err why) s = next s (ends id x)
      store {x} (ok (value, generation)) s = next (next s (ends id x)) (stores id _ (ended x))

      load :
          (o : Option (Result (String × ℕ)))
          → let read = shared_read e cache id o w in
            Steps e cache w (store_loaded e cache id read.0 (ended read.1)).1
      load (some r) = store r here
      load none =
          store (Database.get_device_secret e id w.tables).0 (next here (statement (get id) w))

      at : (o : Option Secret) → Steps e cache w (from_cache e cache id o w).1
      at (some s) = here
      at none = load (w.loads id)

  -- After a call of GetDeviceSecret no load of the secret is under way, if there was none before.
  pub get-loads :
      (id : String) (w : CachedDb C)
      → w.loads id ≡ none
      → (get_device_secret e cache id w).1.loads id ≡ none
  unfolding get_device_secret load_secret on_tables store_loaded on_secrets shared_read
  get-loads id w idle = ground (arith, eq_refl id)

  AtLeast-zero : (o : Option Device) → AtLeast 0 o
  AtLeast-zero none = tt
  AtLeast-zero (some d) = omega arith

  -- The schema's constraints and the freshness of identifiers hold after any steps.
  pub Steps-WellFormed :
      (c : String) {w v : CachedDb C}
      → Steps e cache w v
      → WellFormed e w.tables
      → Drawn e c w.tables
      → StoredAt e cache laws 0 c v
  Steps-WellFormed c {w} steps wf new = Steps-StoredAt e cache laws 0 c steps (record {
    at_least = AtLeast-zero (find_device c w.tables.devices);
    drawn = new;
    well_formed = wf;
  })
