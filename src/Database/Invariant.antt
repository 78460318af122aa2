-- ===== src/Database/Invariant.antt =====
-- The schema's constraints hold after every method of the packages database and usersdb: the primary key, the range of
-- the generation, and the foreign key to the users table.
use auth_middleware.Prelude.{
  String, inl, inr, Bool, Option, none, some, List, arith, All, Option-cases, Bool-cases,
}
use auth_middleware.Database.{
  Device, Fault, Tables, Engine, Statement, run, with_uuid, find_device, insert_device,
  update_generation, select_secret, delete_where, save_device_secret, update_device_secret,
  get_device_secret, delete_device, delete_all_devices, delete_all_devices_returning_ids,
  cleanup_old_devices, User,
}
use auth_middleware.Database.Rows.{
  Unique, InRange, HasOwner, raise_generation-Unique, raise_generation-InRange,
  raise_generation-HasOwner, keep-Unique, keep-All,
}
use auth_middleware.Database.Devices.{run_cases}
use auth_middleware.Users.{
  Store, find_user, insert_user, removed_users, owned_by_removed, delete_users,
}
use auth_middleware.Users
use auth_middleware.Users.Cascade.{keep-HasOwner, cons-HasOwner}

pub record WellFormed (e : Engine) (t : Tables) : Type 0 where
  pub unique : Unique t.devices
  pub in_range : All InRange t.devices
  pub owned : All (HasOwner e t.users) t.devices

-- A call of the package database, or of the users' store beside it.
pub data Call : Type 0 where
  save : (user_email device_name secret : String) → Call
  update get : (device_id : String) → Call
  delete : (user_email device_id : String) → Call
  delete_all delete_all_returning : (user_email : String) → Call
  cleanup : Call
  create_user : Store → (username email : String) → Call
  remove_user : Store → (email : String) → Call

module _ (e : Engine) where
  -- A statement that keeps the constraints keeps them under every fault.
  run-WellFormed :
      {A : Type 0} (stmt : Statement A)
      → ((t : Tables) → WellFormed e t → WellFormed e (stmt t).1)
      → (t : Tables) → WellFormed e t
      → WellFormed e (run stmt t).1
  run-WellFormed stmt keeps t v =
      run_cases (λ r. WellFormed e r.1) stmt t (λ fs. keeps _ (faulty fs)) (λ fs why. faulty fs)
        (λ fs why. keeps _ (faulty fs))
    where
      faulty : (fs : List Fault) → WellFormed e (record t { faults = fs })
      faulty fs = record { unique = v.unique; in_range = v.in_range; owned = v.owned }

  insert_device-WellFormed :
      (user_email device_name secret : String) (t : Tables)
      → WellFormed e t
      → WellFormed e (insert_device e user_email device_name secret t).1
  unfolding insert_device
  insert_device-WellFormed user_email device_name secret t v = record {
    unique = ground (arith, v.unique);
    in_range = ground (arith, v.in_range);
    owned = ground (arith, v.owned);
  }

  update_generation-WellFormed :
      (id : String) (t : Tables) → WellFormed e t → WellFormed e (update_generation id t).1
  unfolding update_generation
  update_generation-WellFormed id t v = elim (Option-cases (find_device id t.devices)) [
    | inl missing ↦ rw (missing, update_generation) v
    | inr (d, found) ↦ record {
      unique = ground (arith, raise_generation-Unique id t.clock t.devices v.unique);
      in_range =
          ground
            (arith, raise_generation-InRange id t.clock t.devices d v.unique found, v.in_range);
      owned =
          ground (arith, raise_generation-HasOwner e t.users id t.clock t.devices v.owned, v.owned);
    }
  ]

  delete_where-WellFormed :
      (gone : Device → Bool) (t : Tables) → WellFormed e t → WellFormed e (delete_where gone t).1
  unfolding delete_where
  delete_where-WellFormed gone t v = record {
    unique = keep-Unique gone t.devices v.unique;
    in_range = keep-All InRange gone t.devices v.in_range;
    owned = keep-All (HasOwner e t.users) gone t.devices v.owned;
  }

  with_uuid-WellFormed :
      {A : Type 0} (id : Option String) (stmt : String → Statement A)
      → ((c : String) (t : Tables) → WellFormed e t → WellFormed e (stmt c t).1)
      → (t : Tables) → WellFormed e t
      → WellFormed e (with_uuid id stmt t).1
  unfolding with_uuid
  with_uuid-WellFormed none stmt keeps t v = v
  with_uuid-WellFormed (some c) stmt keeps t v = keeps c t v

  select_secret-WellFormed :
      (id : String) (t : Tables) → WellFormed e t → WellFormed e (select_secret id t).1
  unfolding select_secret
  select_secret-WellFormed id t v = elim (Option-cases (find_device id t.devices)) [
    | inl missing ↦ rw (missing, select_secret) v
    | inr (d, found) ↦ rw (found, select_secret) v
  ]

  insert_user-WellFormed :
      (username email : String) (t : Tables)
      → WellFormed e t
      → WellFormed e (insert_user e username email t).1
  unfolding insert_user
  insert_user-WellFormed username email t v = elim (Option-cases (find_user e email t.users)) [
    | inr (u, found) ↦
        rw (found, insert_user)
          (record { unique = v.unique; in_range = v.in_range; owned = v.owned })
    | inl missing ↦ record {
      unique = ground (arith, v.unique);
      in_range = ground (arith, v.in_range);
      owned = ground (
        arith,
        v.owned,
        cons-HasOwner e
            (record { user_id = e.new_uuid t.drawn; username = some username; email = email })
            t.users t.devices v.owned,
      );
    }
  ]

  delete_users-WellFormed :
      (email : String) (t : Tables) → WellFormed e t → WellFormed e (delete_users e email t).1
  unfolding delete_users
  delete_users-WellFormed email t v =
      let gone : User → Bool = λ u. e.same_email u.email email in
      let lost = owned_by_removed e (removed_users gone t.users) in
      record {
        unique = keep-Unique lost t.devices v.unique;
        in_range = keep-All InRange lost t.devices v.in_range;
        owned = keep-HasOwner e gone t.users t.devices v.owned;
      }

  -- The store's methods, which do nothing where the users are external.
  create_user-WellFormed :
      (s : Store) (username email : String) (t : Tables)
      → WellFormed e t
      → WellFormed e (Users.create_user e s username email t).1
  unfolding Users.create_user
  create_user-WellFormed s username email t v = elim (Bool-cases s.external) [
    | inl elsewhere ↦ rw (elsewhere, Users.create_user) v
    | inr managed ↦
        rw (managed, Users.create_user)
          (run-WellFormed _ (insert_user-WellFormed username email) t v)
  ]

  delete_user-WellFormed :
      (s : Store) (email : String) (t : Tables)
      → WellFormed e t
      → WellFormed e (Users.delete_user e s email t).1
  unfolding Users.delete_user
  delete_user-WellFormed s email t v = elim (Bool-cases s.external) [
    | inl elsewhere ↦ rw (elsewhere, Users.delete_user) v
    | inr managed ↦
        rw (managed, Users.delete_user) (run-WellFormed _ (delete_users-WellFormed email) t v)
  ]

  unfoldable pub perform : Call → Tables → Tables
  perform (save user_email device_name secret) t =
      (save_device_secret e user_email device_name secret t).1
  perform (update device_id) t = (update_device_secret e device_id t).1
  perform (get device_id) t = (get_device_secret e device_id t).1
  perform (delete user_email device_id) t = (delete_device e user_email device_id t).1
  perform (delete_all user_email) t = (delete_all_devices e user_email t).1
  perform (delete_all_returning user_email) t = (delete_all_devices_returning_ids e user_email t).1
  perform cleanup t = (cleanup_old_devices t).1
  perform (create_user s username email) t = (Users.create_user e s username email t).1
  perform (remove_user s email) t = (Users.delete_user e s email t).1

  -- Every method of the package database, and CreateUser and DeleteUser of the users' store, keep the
  -- constraints, whatever fault their statement meets: identifiers of devices are unique, generations
  -- lie between 1 and the largest INT, and every device belongs to a user.
  pub perform-WellFormed : (c : Call) (t : Tables) → WellFormed e t → WellFormed e (perform c t)
  unfolding perform save_device_secret update_device_secret get_device_secret delete_device
      delete_all_devices delete_all_devices_returning_ids cleanup_old_devices
  perform-WellFormed (save user_email device_name secret) =
      run-WellFormed _ (insert_device-WellFormed user_email device_name secret)
  perform-WellFormed (update device_id) =
      run-WellFormed _
        (with_uuid-WellFormed (e.parse_uuid device_id) _ update_generation-WellFormed)
  perform-WellFormed (get device_id) =
      run-WellFormed _ (with_uuid-WellFormed (e.parse_uuid device_id) _ select_secret-WellFormed)
  perform-WellFormed (delete user_email device_id) =
      run-WellFormed _
        (with_uuid-WellFormed (e.parse_uuid device_id) _ (λ c. delete_where-WellFormed _))
  perform-WellFormed (delete_all user_email) = run-WellFormed _ (delete_where-WellFormed _)
  perform-WellFormed (delete_all_returning user_email) =
      run-WellFormed _ (delete_where-WellFormed _)
  perform-WellFormed cleanup = run-WellFormed _ (λ t. delete_where-WellFormed _ t)
  perform-WellFormed (create_user s username email) = create_user-WellFormed s username email
  perform-WellFormed (remove_user s email) = delete_user-WellFormed s email
