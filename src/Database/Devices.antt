-- ===== src/Database/Devices.antt =====
-- What the methods of database/device.go do to the rows, with every fault of a statement.
use auth_middleware.Prelude.{
  ℕ, ◌+◌, ◌<◌, String, ◌≡◌, refl, ◌∙◌, ap, inl, inr, Bool, false, ◌&&◌, Option, none, some, List,
  [], ◌∷◌, arith, ◌==◌, Option-cases, contains,
}
use auth_middleware.Prelude.State.{Result, ok, err}
use auth_middleware.Errors.{no_rows, driver}
use auth_middleware.Database.{
  Device, Fault, fine, not_run, reply_lost, Tables, Engine, Statement, with_faults, run, with_uuid,
  find_device, int4_max, update_generation, select_secret, removed, delete_where, discard,
  update_device_secret, get_device_secret, owned_by, delete_device,
  delete_all_devices_returning_ids,
}
use auth_middleware.Database.Rows.{
  Unique, raised, find_device-raise_generation, unless, find_device-keep, taken, contains-removed,
}

-- A call runs its statement, or reports a failure with the statement run or not.
module _ {A : Type 0} (P : Result A × Tables → Type 0) (stmt : Statement A) (t : Tables) where
  pub run_cases :
      ((fs : List Fault) → P (stmt (record t { faults = fs })))
      → ((fs : List Fault) (why : String) → P (err (driver why), record t { faults = fs }))
      → ((fs : List Fault) (why : String)
          → P (err (driver why), (stmt (record t { faults = fs })).1))
      → P (run stmt t)
  unfolding run
  run_cases done early late = at t.faults
    where
      at : (fs : List Fault) → P (with_faults fs stmt t)
      at [] = done t.faults
      at (fine ∷ fs) = done fs
      at (not_run why ∷ fs) = early fs why
      at (reply_lost why ∷ fs) = late fs why

-- The row that a device's identifier, as a text, stands for.
unfoldable pub row : Engine → Tables → String → Option Device
row e t id = elim (e.parse_uuid id) [ none ↦ none | some c ↦ find_device c t.devices ]

-- `id` and `j` are texts of one identifier.
unfoldable pub same_id : Engine → String → String → Bool
same_id e id j = elim (e.parse_uuid id) [
  | none ↦ false
  | some c ↦ elim (e.parse_uuid j) [ none ↦ false | some d ↦ c == d ]
]

module _ (e : Engine) (id : String) where
  -- What a successful UPDATE has done.
  pub record Raised (g : ℕ) (t t' : Tables) : Type 0 where
    pub before : Device
    pub found : row e t id ≡ some before
    pub in_range : before.generation < int4_max
    pub next : g ≡ before.generation + 1
    pub rows : (j : String) → row e t' j ≡ raised (same_id e id j) t.clock (row e t j)

  update_statement-Raised :
      (t : Tables) (g : ℕ) (t' : Tables)
      → with_uuid (e.parse_uuid id) update_generation t ≡ (ok g, t')
      → Raised g t t'
  unfolding with_uuid update_generation row same_id
  update_statement-Raised t g t' h = elim (Option-cases (e.parse_uuid id)) [
    | inl bad ↦ absurd (ground arith)
    | inr (c, good) ↦ elim (Option-cases (find_device c t.devices)) [
      | inl missing ↦ absurd (ground arith)
      | inr (d, found) ↦ record {
        before = d;
        found = ground arith;
        in_range = ground arith;
        next = ground arith;
        rows = λ j. elim (Option-cases (e.parse_uuid j)) [
          | inl none_at ↦ ground arith
          | inr (cj, at) ↦ ground (arith, find_device-raise_generation c cj t.clock t.devices)
        ];
      }
    ]
  ]

  -- UpdateDeviceSecret without an error has raised the generation of the row by one, which was in
  -- the range of INT, and returns the new value; every other row is as it was.
  pub update_device_secret-Raised :
      (t : Tables) (g : ℕ) (t' : Tables) → update_device_secret e id t ≡ (ok g, t') → Raised g t t'
  unfolding update_device_secret row
  update_device_secret-Raised t g t' =
      run_cases (λ r. r ≡ (ok g, t') → Raised g t t')
        (with_uuid (e.parse_uuid id) update_generation) t
        (λ fs h.
          let u = update_statement-Raised (record t { faults = fs }) g t' h in
          record {
            before = u.before;
            found = u.found;
            in_range = u.in_range;
            next = u.next;
            rows = u.rows;
          })
        (λ fs why h. absurd (cc)) (λ fs why h. absurd (cc))

  select_statement-rows : (t : Tables) → (with_uuid (e.parse_uuid id) select_secret t).1 ≡ t
  unfolding with_uuid select_secret
  select_statement-rows t = ground arith

  select_statement-ok :
      (t t' : Tables) (s : String) (g : ℕ)
      → with_uuid (e.parse_uuid id) select_secret t ≡ (ok (s, g), t')
      → (d : Device) × (row e t id ≡ some d) × (s ≡ d.secret) × (g ≡ d.generation)
  unfolding with_uuid select_secret row
  select_statement-ok t t' s g h = elim (Option-cases (row e t id)) [
    | inl missing ↦ absurd (ground arith)
    | inr (d, found) ↦ (d, found, ground arith, ground arith)
  ]

  -- GetDeviceSecret changes no row; what it returns is the secret and the generation of the row.
  pub get_device_secret-devices : (t : Tables) → (get_device_secret e id t).1.devices ≡ t.devices
  unfolding get_device_secret
  get_device_secret-devices t =
      run_cases (λ r. r.1.devices ≡ t.devices) (with_uuid (e.parse_uuid id) select_secret) t
        (λ fs. ap (λ (u : Tables). u.devices) (select_statement-rows (record t { faults = fs })))
        (λ fs why. refl)
        (λ fs why.
          ap (λ (u : Tables). u.devices) (select_statement-rows (record t { faults = fs })))

  pub get_device_secret-ok :
      (t t' : Tables) (s : String) (g : ℕ)
      → get_device_secret e id t ≡ (ok (s, g), t')
      → (d : Device) × (row e t id ≡ some d) × (s ≡ d.secret) × (g ≡ d.generation)
  unfolding get_device_secret row
  get_device_secret-ok t t' s g =
      run_cases
        (λ r.
          r ≡ (ok (s, g), t')
          → (d : Device) × (row e t id ≡ some d) × (s ≡ d.secret) × (g ≡ d.generation))
        (with_uuid (e.parse_uuid id) select_secret) t
        (λ fs h. select_statement-ok (record t { faults = fs }) t' s g h) (λ fs why h. absurd (cc))
        (λ fs why h. absurd (cc))

  select_statement-no_rows :
      (t t' : Tables)
      → with_uuid (e.parse_uuid id) select_secret t ≡ (err no_rows, t')
      → row e t id ≡ none
  unfolding with_uuid select_secret row
  select_statement-no_rows t t' h = ground arith

  -- `sql.ErrNoRows` means that there is no row.
  pub get_device_secret-no_rows :
      (t t' : Tables) → get_device_secret e id t ≡ (err no_rows, t') → row e t id ≡ none
  unfolding get_device_secret row
  get_device_secret-no_rows t t' =
      run_cases (λ r. r ≡ (err no_rows, t') → row e t id ≡ none)
        (with_uuid (e.parse_uuid id) select_secret) t
        (λ fs h. select_statement-no_rows (record t { faults = fs }) t' h) (λ fs why h. absurd (cc))
        (λ fs why h. absurd (cc))

module _ (e : Engine) (gone : Device → Bool) where
  delete_statement-row :
      (t : Tables)
      → Unique t.devices
      → (j : String) → row e (delete_where gone t).1 j ≡ unless gone (row e t j)
  unfolding delete_where row
  delete_statement-row t u j = elim (Option-cases (e.parse_uuid j)) [
    | inl none_at ↦ ground arith
    | inr (c, at) ↦ ground (arith, find_device-keep gone c t.devices u)
  ]

abbrev pub this_device : Engine → (user_email canonical : String) → Device → Bool
this_device e user_email c d = owned_by e user_email d && d.device_id == c

module _ (e : Engine) (user_email : String) where
  delete_device_statement :
      (id : String) (t t' : Tables)
      → Unique t.devices
      → (r : Result (List String))
      → with_uuid (e.parse_uuid id) (λ c. delete_where (this_device e user_email c)) t ≡ (r, t')
      → discard r ≡ ok tt
      → (c : String) × (e.parse_uuid id ≡ some c)
        × ((j : String) → row e t' j ≡ unless (this_device e user_email c) (row e t j))
  unfolding with_uuid discard
  delete_device_statement id t t' u r h good = elim (Option-cases (e.parse_uuid id)) [
    | inl bad ↦ absurd (ground arith)
    | inr (c, at) ↦ (
      c,
      at,
      λ j.
          ap (λ (x : Tables). row e x j) (ground arith)
          ∙ delete_statement-row e (this_device e user_email c) t u j,
    )
  ]

  -- Where identifiers are unique, DeleteDevice without an error has deleted the device with this
  -- identifier, which is a UUID, if it is the user's, and no other row.
  pub delete_device-row :
      (id : String) (t t' : Tables)
      → Unique t.devices
      → delete_device e user_email id t ≡ (ok tt, t')
      → (c : String) × (e.parse_uuid id ≡ some c)
        × ((j : String) → row e t' j ≡ unless (this_device e user_email c) (row e t j))
  unfolding delete_device discard row
  delete_device-row id t t' u =
      run_cases
        (λ (r : Result (List String) × Tables).
          ◌≡◌ {A = Result (Unit {0}) × Tables} (discard r.0, r.1) (ok tt, t')
          → (c : String) × (e.parse_uuid id ≡ some c)
            × ((j : String) → row e t' j ≡ unless (this_device e user_email c) (row e t j)))
        (with_uuid (e.parse_uuid id) (λ c. delete_where (this_device e user_email c))) t
        (λ fs h.
          let r =
            with_uuid (e.parse_uuid id) (λ c. delete_where (this_device e user_email c))
              (record t { faults = fs }) in
          let same : r.1 ≡ t' = ap (λ (x : Result (Unit {0}) × Tables). x.1) h in
          delete_device_statement id (record t { faults = fs }) t' u r.0 (λ i. (r.0, same i))
            (ap (λ (x : Result (Unit {0}) × Tables). x.0) h))
        (λ fs why h. absurd (cc h)) (λ fs why h. absurd (cc h))

  delete_all_statement :
      (t t' : Tables) (ids : List String)
      → Unique t.devices
      → delete_all_devices_returning_ids e user_email t ≡ (ok ids, t')
      → ((j : String) → row e t' j ≡ unless (owned_by e user_email) (row e t j))
        × (ids ≡ removed (owned_by e user_email) t.devices)
  unfolding delete_all_devices_returning_ids delete_where row
  delete_all_statement t t' ids u =
      run_cases
        (λ r.
          r ≡ (ok ids, t')
          → ((j : String) → row e t' j ≡ unless (owned_by e user_email) (row e t j))
            × (ids ≡ removed (owned_by e user_email) t.devices))
        (delete_where (owned_by e user_email)) t
        (λ fs h.
          let same : t' ≡ (delete_where (owned_by e user_email) (record t { faults = fs })).1 =
            ground arith in
          (
            λ j.
                ap (λ (x : Tables). row e x j) same
                ∙ delete_statement-row e (owned_by e user_email) (record t { faults = fs }) u j,
            ground arith,
          ))
        (λ fs why h. absurd (cc)) (λ fs why h. absurd (cc))

  -- Where identifiers are unique, DeleteAllDevicesReturningIDs without an error has deleted the
  -- rows of the user and no other, and an identifier is among those that it returns exactly if it
  -- is that of a row of the user.
  pub delete_all-rows :
      (t t' : Tables) (ids : List String)
      → Unique t.devices
      → delete_all_devices_returning_ids e user_email t ≡ (ok ids, t')
      → ((j : String) → row e t' j ≡ unless (owned_by e user_email) (row e t j))
        × ((c : String) → contains ids c ≡ taken (owned_by e user_email) (find_device c t.devices))
  delete_all-rows t t' ids u h =
      let (rows, listed) = delete_all_statement t t' ids u h in
      (
        rows,
        λ c. ap (λ x. contains x c) listed ∙ contains-removed (owned_by e user_email) c t.devices u,
      )
