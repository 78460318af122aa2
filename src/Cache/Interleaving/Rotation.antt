-- ===== src/Cache/Interleaving/Rotation.antt =====
-- A generation that was raised stays raised, whatever other callers do meanwhile.
use mathlib.Core.Option.{some-injective}
use Prim.Native.Nat.{max}
use auth_middleware.Prelude.{
  ℕ, ◌≤◌, String, ◌≡◌, refl, sym, ap, subst, ◌⊎◌, inl, inr, true, Option, none, some, arith, eq_iff,
  eq_refl, Option-cases, Bool-cases, ◌==◌,
}
use auth_middleware.Prelude.State.{Result, ok}
use auth_middleware.Database.{Device, Engine, Tables, find_device}
use auth_middleware.Database
use auth_middleware.Database.Devices.{row, same_id, update_device_secret-Raised}
use auth_middleware.Database.Invariant.{get, update, perform, WellFormed, perform-WellFormed}
use auth_middleware.Database.Absence.{AtLeast, Drawn, perform-Keeps}
use auth_middleware.Cache.Secrets.{Secret, deleted, live, newer, SecretCache, SecretCacheLaws}
use auth_middleware.Cache.CachedDb.{CachedDb, get_device_secret, set_raised}
use auth_middleware.Cache.Interleaving.{
  Step, statement, stores, marks, begins, ends, Steps, here, next, read-row, from_cache-row,
}

module _ {C : Type 0} (e : Engine) (cache : SecretCache C) (laws : SecretCacheLaws cache) where
  open laws use {held}

  -- An entry that is deleted, or not older than `g`.
  abbrev pub Settled : ℕ → Option Secret → Type 0
  Settled g none = ⊥
  Settled g (some s) = (deleted s ≡ true) ⊎ (g ≤ s.generation)

  newer-Settled : (g : ℕ) (o : Option Secret) (s : Secret) → Settled g o → Settled g (newer o s)
  newer-Settled g none s h = elim h [ ]
  newer-Settled g (some current) s h = ground arith

  -- The row with the canonical identifier `c`, if there is one, has a generation of at least `g`.
  pub record StoredAt (g : ℕ) (c : String) (w : CachedDb C) : Type 0 where
    pub at_least : AtLeast g (find_device c w.tables.devices)
    pub drawn : Drawn e c w.tables
    pub well_formed : WellFormed e w.tables

  pub Step-StoredAt :
      (g : ℕ) (c : String) {w v : CachedDb C} → Step e cache w v → StoredAt g c w → StoredAt g c v
  Step-StoredAt g c (statement call w) h =
      let k = perform-Keeps e c g call w.tables h.drawn in
      record {
        at_least = k.at_least h.well_formed.unique h.at_least;
        drawn = λ n later. h.drawn n (omega (arith, k.drawn));
        well_formed = perform-WellFormed e call w.tables h.well_formed;
      }
  Step-StoredAt g c (begins j w free) h =
      let k = perform-Keeps e c g (get j) w.tables h.drawn in
      record {
        at_least = k.at_least h.well_formed.unique h.at_least;
        drawn = λ n later. h.drawn n (omega (arith, k.drawn));
        well_formed = perform-WellFormed e (get j) w.tables h.well_formed;
      }
  Step-StoredAt g c (ends j w) h = record {
    at_least = h.at_least;
    drawn = h.drawn;
    well_formed = h.well_formed;
  }
  Step-StoredAt g c (stores j s w) h = record {
    at_least = h.at_least;
    drawn = h.drawn;
    well_formed = h.well_formed;
  }
  Step-StoredAt g c (marks j w) h = record {
    at_least = h.at_least;
    drawn = h.drawn;
    well_formed = h.well_formed;
  }

  pub Steps-StoredAt :
      (g : ℕ) (c : String) {w v : CachedDb C} → Steps e cache w v → StoredAt g c w → StoredAt g c v
  Steps-StoredAt g c here h = h
  Steps-StoredAt g c (next s st) h = Step-StoredAt g c st (Steps-StoredAt g c s h)

  -- A load under way has read a generation of at least `g`, if it has read one.
  abbrev pub Fresh : ℕ → Option (Result (String × ℕ)) → Type 0
  Fresh g o = (value : String) (n : ℕ) → o ≡ some (ok (value, n)) → g ≤ n

  read-Fresh :
      (g : ℕ) (id c : String) (w : CachedDb C)
      → e.parse_uuid id ≡ some c
      → StoredAt g c w
      → Fresh g (some (Database.get_device_secret e id w.tables).0)
  unfolding row
  read-Fresh g id c w canonical stored value n h =
      let (d, found, _, same) = read-row e cache id w value n (some-injective _ _ h) in
      ground (arith, stored.at_least)

  Step-Fresh :
      (g : ℕ) (id c : String)
      → e.parse_uuid id ≡ some c
      → {w v : CachedDb C} → Step e cache w v
      → StoredAt g c w
      → Fresh g (w.loads id)
      → Fresh g (v.loads id)
  Step-Fresh g id c canonical (begins j w free) stored h value n e1 = elim (Bool-cases (j == id)) [
    | inl same ↦ ground (arith, eq_iff j id, read-Fresh g id c w canonical stored value n)
    | inr other ↦ ground (arith, h value n)
  ]
  Step-Fresh g id c canonical (ends j w) stored h value n e1 = ground (arith, h value n)
  Step-Fresh g id c canonical (statement call w) stored h value n e1 = h value n e1
  Step-Fresh g id c canonical (stores j s w) stored h value n e1 = h value n e1
  Step-Fresh g id c canonical (marks j w) stored h value n e1 = h value n e1

  pub Steps-Fresh :
      (g : ℕ) (id c : String)
      → e.parse_uuid id ≡ some c
      → {w v : CachedDb C} → Steps e cache w v
      → StoredAt g c w
      → Fresh g (w.loads id)
      → Fresh g (v.loads id)
  Steps-Fresh g id c canonical here stored h = h
  Steps-Fresh g id c canonical (next s st) stored h =
      Step-Fresh g id c canonical st (Steps-StoredAt g c s stored)
        (Steps-Fresh g id c canonical s stored h)

  pub idle-Fresh : (g : ℕ) (o : Option (Result (String × ℕ))) → o ≡ none → Fresh g o
  idle-Fresh g o idle value n h = absurd (ground arith)

  Step-Settled :
      (g : ℕ) (id : String) {w v : CachedDb C}
      → Step e cache w v
      → Settled g (held w.secrets id)
      → Settled g (held v.secrets id)
  Step-Settled g id (statement call w) h = h
  Step-Settled g id (begins j w free) h = h
  Step-Settled g id (ends j w) h = h
  Step-Settled g id (stores j s w) h = elim (Bool-cases (j == id)) [
    | inl same ↦
        ground (
          arith,
          laws.set_lem j id s w.secrets,
          eq_iff j id,
          newer-Settled g (held w.secrets id) s h,
        )
    | inr other ↦ ground (arith, laws.set_lem j id s w.secrets)
  ]
  Step-Settled g id (marks j w) h = ground (arith, laws.delete_lem j id w.secrets)

  pub Steps-Settled :
      (g : ℕ) (id : String) {w v : CachedDb C}
      → Steps e cache w v
      → Settled g (held w.secrets id)
      → Settled g (held v.secrets id)
  Steps-Settled g id here h = h
  Steps-Settled g id (next s st) h = Step-Settled g id st (Steps-Settled g id s h)

  newer-raised :
      (g n : ℕ) (value : String) (o : Option Secret)
      → Settled g (newer o (record { value = value; generation = max n g }))
  newer-raised g n value none = ground arith
  newer-raised g n value (some current) = ground arith

  pub set_raised-Settled :
      (g : ℕ) (id : String) (s : Secret) (w : CachedDb C)
      → Settled g (held (set_raised e cache id g s w).1.secrets id)
  unfolding set_raised
  set_raised-Settled g id s w = ground (
    arith,
    laws.set_lem id id (record s { generation = max s.generation g }) w.secrets,
    eq_refl id,
    newer-raised g s.generation s.value (held w.secrets id),
  )

  set_raised-loads :
      (id : String) (g : ℕ) (s : Secret) (w : CachedDb C)
      → (set_raised e cache id g s w).1.loads id ≡ w.loads id
  unfolding set_raised
  set_raised-loads id g s w = refl

  set_raised-StoredAt :
      (g : ℕ) (c id : String) (n : ℕ) (s : Secret) (w : CachedDb C)
      → StoredAt g c w
      → StoredAt g c (set_raised e cache id n s w).1
  unfolding set_raised
  set_raised-StoredAt g c id n s w h = record {
    at_least = h.at_least;
    drawn = h.drawn;
    well_formed = h.well_formed;
  }

  pub update-StoredAt :
      (id c : String) (g : ℕ) (w : CachedDb C) (t : Tables)
      → e.parse_uuid id ≡ some c
      → WellFormed e w.tables
      → Drawn e c w.tables
      → Database.update_device_secret e id w.tables ≡ (ok g, t)
      → StoredAt g c (record w { tables = t })
  unfolding row same_id
  update-StoredAt id c g w t canonical wf new h =
      let r = update_device_secret-Raised e id w.tables g t h in
      let same : (perform e (update id) w.tables) ≡ t =
        unfold perform in ap (λ (x : Result ℕ × Tables). x.1) h in
      record {
        at_least = ground (arith, r.rows id, r.found, r.next, eq_refl c);
        drawn = subst (Drawn e c) same (λ n later.
            new n (omega (arith, (perform-Keeps e c 0 (update id) w.tables new).drawn)));
        well_formed = subst (WellFormed e) same (perform-WellFormed e (update id) w.tables wf);
      }

  live-at_least :
      (g : ℕ) (s : Secret) (o : Option Secret) {n : ℕ}
      → Settled g o
      → live o ≡ some s
      → s.generation ≡ n
      → g ≤ n
  live-at_least g s none settled h same = elim settled [ ]
  live-at_least g s (some x) settled h same = ground arith

  pub answer-at_least :
      (g : ℕ) (id c : String) (w : CachedDb C) (value : String) (g' : ℕ)
      → e.parse_uuid id ≡ some c
      → StoredAt g c w
      → Settled g (held w.secrets id)
      → Fresh g (w.loads id)
      → (get_device_secret e cache id w).0 ≡ ok (value, g')
      → g ≤ g'
  unfolding get_device_secret row
  answer-at_least g id c w value g' canonical stored settled fresh h =
      elim (Option-cases (cache.get_secret id w.secrets)) [
        | inl miss ↦
            elim (from_cache-row e cache id w value g' (rw (miss, get_device_secret) at h)) [
              | inl joined ↦ fresh value g' joined
              | inr (d, found, _, same) ↦ ground (arith, stored.at_least)
            ]
        | inr (s, hit) ↦
            live-at_least g s (held w.secrets id) settled
              (ground (arith, laws.get_lem id w.secrets)) (ground arith)
      ]

  -- Once the statement of UpdateDeviceSecret has raised a device's generation to `g`, in tables
  -- that meet the constraints and where the device's identifier is a UUID and drawn no more, and
  -- the result was stored in the cache with any value read, with any steps of other callers in
  -- between and after, a generation that GetDeviceSecret gives out is at least `g`, provided that no
  -- load of the secret that a call could join had read the row before the statement.
  pub raised_stays_raised :
      (id c : String) (g : ℕ) (w w' v : CachedDb C) (t : Tables) (s : Secret) (value : String)
      (g' : ℕ)
      → e.parse_uuid id ≡ some c
      → WellFormed e w.tables
      → Drawn e c w.tables
      → w.loads id ≡ none
      → Database.update_device_secret e id w.tables ≡ (ok g, t)
      → Steps e cache (record w { tables = t }) w'
      → Steps e cache (set_raised e cache id g s w').1 v
      → (get_device_secret e cache id v).0 ≡ ok (value, g')
      → g ≤ g'
  raised_stays_raised id c g w w' v t s value g' canonical wf new idle h before after =
      let raised = update-StoredAt id c g w t canonical wf new h in
      let stored = Steps-StoredAt g c before raised in
      let fresh = Steps-Fresh g id c canonical before raised (idle-Fresh g (w.loads id) idle) in
      let kept = set_raised-StoredAt g c id g s w' stored in
      answer-at_least g id c v value g' canonical (Steps-StoredAt g c after kept)
        (Steps-Settled g id after (set_raised-Settled g id s w'))
        (Steps-Fresh g id c canonical after kept
          (subst (Fresh g) (sym (set_raised-loads id g s w')) fresh))
