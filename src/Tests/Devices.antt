-- ===== src/Tests/Devices.antt =====
-- The theorems on database/device.go at the tables of the tests.
use auth_middleware.Prelude.{contains, String, ◌≡◌, refl, some, [], ◌∷◌, false, true, eq_iff}
use auth_middleware.Database.{
  update_device_secret, delete_device, delete_all_devices_returning_ids, owned_by, removed,
  find_device,
}
use auth_middleware.Database.Rows.{unless, taken}
use auth_middleware.Database.Devices.{
  row, Raised, this_device, update_device_secret-Raised, delete_device-row, delete_all-rows,
}
use auth_middleware.Database.Invariant.{WellFormed, update, save, perform, perform-WellFormed}
use auth_middleware.Database.Absence.{Keeps, perform-Keeps}
use auth_middleware.Users.{Store, delete_user}
use auth_middleware.Users.Deletion.{Gone, delete_user-Gone}
use auth_middleware.Tests.{engine, tables, tables-WellFormed, tables-Drawn}

update_device_secret-Raised_example :
    Raised engine "d1" 2 tables (update_device_secret engine "d1" tables).1
unfolding update_device_secret auth_middleware.Database.find_device
update_device_secret-Raised_example =
    update_device_secret-Raised engine "d1" tables 2 (update_device_secret engine "d1" tables).1
      refl

delete_device-row_example :
    (c : String) × (engine.parse_uuid "d1" ≡ some c)
    × ((j : String)
        → row engine (delete_device engine "a@b.c" "d1" tables).1 j
          ≡ unless (this_device engine "a@b.c" c) (row engine tables j))
unfolding delete_device
delete_device-row_example =
    delete_device-row engine "a@b.c" "d1" tables (delete_device engine "a@b.c" "d1" tables).1
      tables-WellFormed.unique refl

delete_all-rows_example :
    ((j : String)
      → row engine (delete_all_devices_returning_ids engine "a@b.c" tables).1 j
        ≡ unless (owned_by engine "a@b.c") (row engine tables j))
    × ((c : String)
        → contains ("d1" ∷ []) c ≡ taken (owned_by engine "a@b.c") (find_device c tables.devices))
unfolding delete_all_devices_returning_ids removed
delete_all-rows_example =
    delete_all-rows engine "a@b.c" tables (delete_all_devices_returning_ids engine "a@b.c" tables).1
      ("d1" ∷ []) tables-WellFormed.unique refl

perform-WellFormed_example : WellFormed engine (perform engine (save "a@b.c" "laptop" "s2") tables)
perform-WellFormed_example =
    perform-WellFormed engine (save "a@b.c" "laptop" "s2") tables tables-WellFormed

perform-Keeps_example : Keeps engine "d1" 1 tables (perform engine (update "d1") tables)
perform-Keeps_example = perform-Keeps engine "d1" 1 (update "d1") tables tables-Drawn

abbrev managed : Store
managed = record { external = false; selects_username = true }

delete_user-Gone_example : Gone engine "a@b.c" (delete_user engine managed "a@b.c" tables).1
unfolding delete_user
delete_user-Gone_example =
    delete_user-Gone engine "a@b.c" (λ a b. eq_iff a b) managed tables
      (delete_user engine managed "a@b.c" tables).1 refl tables-WellFormed refl
