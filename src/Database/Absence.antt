-- ===== src/Database/Absence.antt =====
-- What any call of the packages database and usersdb does to the row of one identifier: a row that is gone stays gone,
-- and a generation never falls.
use auth_middleware.Prelude.{
  ℕ, ◌≤◌, String, ◌≡◌, ◌≢◌, inl, inr, Bool, Option, none, some, List, arith, eq_iff, Option-cases,
  Bool-cases,
}
use auth_middleware.Database.{
  Device, Fault, Tables, Engine, Statement, run, with_uuid, find_device, insert_device,
  update_generation, select_secret, delete_where, save_device_secret, update_device_secret,
  get_device_secret, delete_device, delete_all_devices, delete_all_devices_returning_ids,
  cleanup_old_devices,
}
use auth_middleware.Database.Rows.{
  Unique, find_device-raise_generation, find_device-keep-none, find_device-keep,
}
use auth_middleware.Database.Devices.{run_cases}
use auth_middleware.Users.{Store, insert_user, removed_users, owned_by_removed, delete_users}
use auth_middleware.Users
use auth_middleware.Database.Invariant.{
  Call, save, update, get, delete, delete_all, delete_all_returning, cleanup, create_user,
  remove_user, perform,
}

-- A generation that does not fall while the row is there; `none` is a row that is gone.
abbrev pub AtLeast : ℕ → Option Device → Type 0
AtLeast g none = Unit {0}
AtLeast g (some d) = g ≤ d.generation

-- No identifier drawn from now on is `c`: gen_random_uuid() gives no identifier twice.
abbrev pub Drawn : Engine → String → Tables → Type 0
Drawn e c t = (n : ℕ) → t.drawn ≤ n → e.new_uuid n ≢ c

module _ (e : Engine) (c : String) (g : ℕ) where
  pub record Keeps (t t' : Tables) : Type 0 where
    pub absent : find_device c t.devices ≡ none → find_device c t'.devices ≡ none
    pub at_least :
        Unique t.devices
        → AtLeast g (find_device c t.devices)
        → AtLeast g (find_device c t'.devices)
    pub drawn : t.drawn ≤ t'.drawn

  run-Keeps :
      {A : Type 0} (stmt : Statement A)
      → ((t : Tables) → Drawn e c t → Keeps t (stmt t).1)
      → (t : Tables) → Drawn e c t
      → Keeps t (run stmt t).1
  run-Keeps stmt keeps t new =
      run_cases (λ r. Keeps t r.1) stmt t after
        (λ fs why. record { absent = λ h. h; at_least = λ u h. h; drawn = omega arith })
        (λ fs why. after fs)
    where
      after : (fs : List Fault) → Keeps t (stmt (record t { faults = fs })).1
      after fs =
          let k = keeps (record t { faults = fs }) new in
          record { absent = k.absent; at_least = k.at_least; drawn = k.drawn }

  insert_device-Keeps :
      (user_email device_name secret : String) (t : Tables)
      → Drawn e c t
      → Keeps t (insert_device e user_email device_name secret t).1
  unfolding insert_device find_device
  insert_device-Keeps user_email device_name secret t new = record {
    absent = λ h. ground (arith, eq_iff (e.new_uuid t.drawn) c, new t.drawn);
    at_least = λ u h. ground (arith, eq_iff (e.new_uuid t.drawn) c, new t.drawn);
    drawn = ground arith;
  }

  update_generation-Keeps :
      (id : String) (t : Tables) → Drawn e c t → Keeps t (update_generation id t).1
  unfolding update_generation
  update_generation-Keeps id t new = record {
    absent = λ h. ground (arith, find_device-raise_generation id c t.clock t.devices);
    at_least = λ u h. elim (Option-cases (find_device c t.devices)) [
      | inl gone ↦ ground (arith, find_device-raise_generation id c t.clock t.devices)
      | inr (d, found) ↦ ground (arith, find_device-raise_generation id c t.clock t.devices)
    ];
    drawn = ground arith;
  }

  delete_where-Keeps :
      (gone : Device → Bool) (t : Tables) → Drawn e c t → Keeps t (delete_where gone t).1
  unfolding delete_where
  delete_where-Keeps gone t new = record {
    absent = find_device-keep-none gone c t.devices;
    at_least = λ u h. elim (Option-cases (find_device c t.devices)) [
      | inl none_at ↦ ground (arith, find_device-keep gone c t.devices u)
      | inr (d, found) ↦ ground (arith, find_device-keep gone c t.devices u)
    ];
    drawn = omega arith;
  }

  select_secret-Keeps : (id : String) (t : Tables) → Drawn e c t → Keeps t (select_secret id t).1
  unfolding select_secret
  select_secret-Keeps id t new = record {
    absent = λ h. ground arith;
    at_least = λ u h. ground arith;
    drawn = ground arith;
  }

  with_uuid-Keeps :
      {A : Type 0} (id : Option String) (stmt : String → Statement A)
      → ((i : String) (t : Tables) → Drawn e c t → Keeps t (stmt i t).1)
      → (t : Tables) → Drawn e c t
      → Keeps t (with_uuid id stmt t).1
  unfolding with_uuid
  with_uuid-Keeps none stmt keeps t new = record {
    absent = λ h. h;
    at_least = λ u h. h;
    drawn = omega arith;
  }
  with_uuid-Keeps (some i) stmt keeps t new = keeps i t new

  insert_user-Keeps :
      (username email : String) (t : Tables)
      → Drawn e c t
      → Keeps t (insert_user e username email t).1
  unfolding insert_user
  insert_user-Keeps username email t new = record {
    absent = λ h. ground arith;
    at_least = λ u h. ground arith;
    drawn = ground arith;
  }

  delete_users-Keeps :
      (email : String) (t : Tables) → Drawn e c t → Keeps t (delete_users e email t).1
  unfolding delete_users delete_where
  delete_users-Keeps email t new =
      let k =
        delete_where-Keeps
          (owned_by_removed e (removed_users (λ u. e.same_email u.email email) t.users)) t new in
      record { absent = k.absent; at_least = k.at_least; drawn = k.drawn }

  same-Keeps : (t : Tables) → Keeps t t
  same-Keeps t = record { absent = λ h. h; at_least = λ u h. h; drawn = omega arith }

  create_user-Keeps :
      (s : Store) (username email : String) (t : Tables)
      → Drawn e c t
      → Keeps t (Users.create_user e s username email t).1
  unfolding Users.create_user
  create_user-Keeps s username email t new = elim (Bool-cases s.external) [
    | inl elsewhere ↦ rw (elsewhere, Users.create_user) (same-Keeps t)
    | inr managed ↦
        rw (managed, Users.create_user) (run-Keeps _ (insert_user-Keeps username email) t new)
  ]

  delete_user-Keeps :
      (s : Store) (email : String) (t : Tables)
      → Drawn e c t
      → Keeps t (Users.delete_user e s email t).1
  unfolding Users.delete_user
  delete_user-Keeps s email t new = elim (Bool-cases s.external) [
    | inl elsewhere ↦ rw (elsewhere, Users.delete_user) (same-Keeps t)
    | inr managed ↦ rw (managed, Users.delete_user) (run-Keeps _ (delete_users-Keeps email) t new)
  ]

  -- No method, CreateUser and DeleteUser of the users' store among them, brings the row of an
  -- identifier back that is gone, if gen_random_uuid() gives out that identifier no more; where
  -- identifiers are unique, no method lowers a row's generation below a bound that it meets; and the
  -- number of draws does not fall.
  pub perform-Keeps : (call : Call) (t : Tables) → Drawn e c t → Keeps t (perform e call t)
  unfolding perform save_device_secret update_device_secret get_device_secret delete_device
      delete_all_devices delete_all_devices_returning_ids cleanup_old_devices
  perform-Keeps (save user_email device_name secret) =
      run-Keeps _ (insert_device-Keeps user_email device_name secret)
  perform-Keeps (update device_id) =
      run-Keeps _ (with_uuid-Keeps (e.parse_uuid device_id) _ update_generation-Keeps)
  perform-Keeps (get device_id) =
      run-Keeps _ (with_uuid-Keeps (e.parse_uuid device_id) _ select_secret-Keeps)
  perform-Keeps (delete user_email device_id) =
      run-Keeps _ (with_uuid-Keeps (e.parse_uuid device_id) _ (λ i. delete_where-Keeps _))
  perform-Keeps (delete_all user_email) = run-Keeps _ (delete_where-Keeps _)
  perform-Keeps (delete_all_returning user_email) = run-Keeps _ (delete_where-Keeps _)
  perform-Keeps cleanup = run-Keeps _ (λ t. delete_where-Keeps _ t)
  perform-Keeps (create_user s username email) = create_user-Keeps s username email
  perform-Keeps (remove_user s email) = delete_user-Keeps s email
