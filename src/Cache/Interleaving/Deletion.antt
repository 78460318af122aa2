-- ===== src/Cache/Interleaving/Deletion.antt =====
-- A deleted device stays deleted, whatever other callers do meanwhile.
use auth_middleware.Prelude.{
  ℕ, String, ◌≡◌, ◌≢◌, ap, subst, sym, ◌∙◌, inl, inr, true, none, some, arith, eq_iff, eq_refl,
  Option-cases, Bool-cases, ◌==◌,
}
use auth_middleware.Prelude.State.{ok}
use auth_middleware.Database.{Device, Engine, Tables, find_device}
use auth_middleware.Database
use auth_middleware.Database.Rows.{Unique, find_device-id}
use auth_middleware.Database.Devices.{row, delete_device-row}
use auth_middleware.Database.Invariant.{get}
use auth_middleware.Database.Absence.{Drawn, perform-Keeps}
use auth_middleware.Cache.Secrets.{tombstone, live, SecretCache, SecretCacheLaws}
use auth_middleware.Cache.CachedDb.{CachedDb, get_device_secret, delete_device, after_delete}
use auth_middleware.Cache.Interleaving.{
  Step, statement, stores, marks, begins, ends, Steps, here, next, read-row, from_cache-row,
}

-- The row with the canonical identifier `c`, if there is one, belongs to the user.
abbrev pub Owned : {C : Type 0} → Engine → String → String → CachedDb C → Type 0
Owned e user_email c w =
    (d : Device)
    → find_device c w.tables.devices ≡ some d
    → e.same_email d.user_email user_email ≡ true

module _ {C : Type 0} (e : Engine) (cache : SecretCache C) (laws : SecretCacheLaws cache) where
  open laws use {held}

  -- The device with the identifier `id`, `c` in canonical form, has no row.
  pub record Absent (id c : String) (w : CachedDb C) : Type 0 where
    pub absent : find_device c w.tables.devices ≡ none
    pub drawn : Drawn e c w.tables
    -- a load that is under way gives out no secret
    pub unread : (s : String) (g : ℕ) → w.loads id ≢ some (ok (s, g))

  -- The secret cache knows that it is deleted.
  abbrev pub Marked : String → CachedDb C → Type 0
  Marked id w = held w.secrets id ≡ some tombstone

  absent-unread :
      (id c : String) (w : CachedDb C) (s : String) (g : ℕ)
      → e.parse_uuid id ≡ some c
      → find_device c w.tables.devices ≡ none
      → (Database.get_device_secret e id w.tables).0 ≢ ok (s, g)
  unfolding row
  absent-unread id c w s g canonical absent h =
      let (d, found, _, _) = read-row e cache id w s g h in ground arith

  Step-Absent :
      (id c : String)
      → e.parse_uuid id ≡ some c
      → {w v : CachedDb C} → Step e cache w v
      → Absent id c w
      → Absent id c v
  Step-Absent id c canonical (begins j w free) h =
      let k = perform-Keeps e c 0 (get j) w.tables h.drawn in
      record {
        absent = k.absent h.absent;
        drawn = λ n later. h.drawn n (omega (arith, k.drawn));
        unread = λ s g. elim (Bool-cases (j == id)) [
          | inl same ↦ ground (arith, eq_iff j id, absent-unread id c w s g canonical h.absent)
          | inr other ↦ ground (arith, h.unread s g)
        ];
      }
  Step-Absent id c canonical (ends j w) h = record {
    absent = h.absent;
    drawn = h.drawn;
    unread = λ s g. ground (arith, h.unread s g);
  }
  Step-Absent id c canonical (statement call w) h =
      let k = perform-Keeps e c 0 call w.tables h.drawn in
      record {
        absent = k.absent h.absent;
        drawn = λ n later. h.drawn n (omega (arith, k.drawn));
        unread = h.unread;
      }
  Step-Absent id c canonical (stores j s w) h = record {
    absent = h.absent;
    drawn = h.drawn;
    unread = h.unread;
  }
  Step-Absent id c canonical (marks j w) h = record {
    absent = h.absent;
    drawn = h.drawn;
    unread = h.unread;
  }

  Steps-Absent :
      (id c : String)
      → e.parse_uuid id ≡ some c
      → {w v : CachedDb C} → Steps e cache w v
      → Absent id c w
      → Absent id c v
  Steps-Absent id c canonical here h = h
  Steps-Absent id c canonical (next s st) h =
      Step-Absent id c canonical st (Steps-Absent id c canonical s h)

  Step-Marked : (id : String) {w v : CachedDb C} → Step e cache w v → Marked id w → Marked id v
  Step-Marked id (stores j s w) h = ground (arith, laws.set_lem j id s w.secrets, eq_iff j id)
  Step-Marked id (marks j w) h = ground (arith, laws.delete_lem j id w.secrets)
  Step-Marked id (statement call w) h = h
  Step-Marked id (begins j w free) h = h
  Step-Marked id (ends j w) h = h

  Steps-Marked : (id : String) {w v : CachedDb C} → Steps e cache w v → Marked id w → Marked id v
  Steps-Marked id here h = h
  Steps-Marked id (next s st) h = Step-Marked id st (Steps-Marked id s h)

  gone-refused :
      (id c : String) (w : CachedDb C) (s : String) (g : ℕ)
      → e.parse_uuid id ≡ some c
      → Absent id c w
      → Marked id w
      → (get_device_secret e cache id w).0 ≢ ok (s, g)
  unfolding get_device_secret row
  gone-refused id c w s g canonical gone marked h =
      let answer : cache.get_secret id w.secrets ≡ none =
        laws.get_lem id w.secrets ∙ ap live marked in
      elim (from_cache-row e cache id w s g (rw (answer, get_device_secret) at h)) [
        | inl joined ↦ absurd (gone.unread s g joined)
        | inr (d, found, _, _) ↦ ground (arith, gone.absent)
      ]

  statement-Absent :
      (user_email id c : String) (w : CachedDb C) (t : Tables)
      → e.parse_uuid id ≡ some c
      → Unique w.tables.devices
      → Owned e user_email c w
      → Drawn e c t
      → w.loads id ≡ none
      → Database.delete_device e user_email id w.tables ≡ (ok tt, t)
      → Absent id c (record w { tables = t })
  unfolding row
  statement-Absent user_email id c w t canonical u o n idle h =
      let (c', canonical', rows) = delete_device-row e user_email id w.tables t u h in
      record {
        absent = elim (Option-cases (find_device c w.tables.devices)) [
          | inl missing ↦ ground (arith, rows id)
          | inr (d, found) ↦
              ground
                (arith, rows id, o d, find_device-id c w.tables.devices d, eq_iff d.device_id c)
        ];
        drawn = n;
        unread = λ s g. ground arith;
      }

  after_delete-Marked :
      (id : String) (w : CachedDb C) → Marked id (after_delete e cache id (ok tt) w).1
  unfolding after_delete
  after_delete-Marked id w = ground (arith, laws.delete_lem id id w.secrets, eq_refl id)

  after_delete-Absent :
      (id c : String) (w : CachedDb C)
      → Absent id c w
      → Absent id c (after_delete e cache id (ok tt) w).1
  unfolding after_delete
  after_delete-Absent id c w h = record { absent = h.absent; drawn = h.drawn; unread = h.unread }

  -- Once the statement of DeleteDevice has deleted a user's device without an error, where the
  -- identifier is a UUID, identifiers are unique, the device is the user's and its identifier is drawn
  -- no more, and DeleteDevice has then deleted the secret in the cache, with any steps of other
  -- callers in between and after, no call of GetDeviceSecret gives out a secret for the device: also
  -- where others had read the secret before the deletion and store it afterwards. The condition is
  -- that no load of the secret that a call could join had read the row before the statement.
  pub deleted_stays_deleted :
      (user_email id c : String) (w w1 v : CachedDb C) (t : Tables) (s : String) (g : ℕ)
      → e.parse_uuid id ≡ some c
      → Unique w.tables.devices
      → Owned e user_email c w
      → Drawn e c t
      → w.loads id ≡ none
      → Database.delete_device e user_email id w.tables ≡ (ok tt, t)
      → Steps e cache (record w { tables = t }) w1
      → Steps e cache (after_delete e cache id (ok tt) w1).1 v
      → (get_device_secret e cache id v).0 ≢ ok (s, g)
  deleted_stays_deleted user_email id c w w1 v t s g canonical u o n idle h before after =
      let gone = statement-Absent user_email id c w t canonical u o n idle h in
      let kept = after_delete-Absent id c w1 (Steps-Absent id c canonical before gone) in
      gone-refused id c v s g canonical (Steps-Absent id c canonical after kept)
        (Steps-Marked id after (after_delete-Marked id w1))

  -- DeleteDevice without an error: the statement had none, and then the secret was deleted.
  delete_device-ok :
      (user_email id : String) (w w' : CachedDb C)
      → delete_device e cache user_email id w ≡ (ok tt, w')
      → let r = Database.delete_device e user_email id w.tables in
        (r.0 ≡ ok tt) × ((after_delete e cache id (ok tt) (record w { tables = r.1 })).1 ≡ w')
  unfolding delete_device
  delete_device-ok user_email id w w' h = (ground arith, ground arith)

  -- The same of DeleteDevice where no other caller comes between its statement and its end.
  pub delete_device-refused :
      (user_email id c : String) (w w' v : CachedDb C) (s : String) (g : ℕ)
      → e.parse_uuid id ≡ some c
      → Unique w.tables.devices
      → Owned e user_email c w
      → Drawn e c w'.tables
      → w.loads id ≡ none
      → delete_device e cache user_email id w ≡ (ok tt, w')
      → Steps e cache w' v
      → (get_device_secret e cache id v).0 ≢ ok (s, g)
  unfolding after_delete
  delete_device-refused user_email id c w w' v s g canonical u o n idle h steps =
      let r = Database.delete_device e user_email id w.tables in
      let (done, after) = delete_device-ok user_email id w w' h in
      deleted_stays_deleted user_email id c w (record w { tables = r.1 }) v r.1 s g canonical u o
        (subst (λ (x : CachedDb C). Drawn e c x.tables) (sym after) n) idle (λ i. (done i, r.1))
        here (subst (λ x. Steps e cache x v) (sym after) steps)
