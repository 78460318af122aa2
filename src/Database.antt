-- ===== src/Database.antt =====
-- database/device.go, database/database.go and database/schema/schema.sql: the table
-- `auth_user_devices`, each statement of the package as a function on the tables, and what the
-- methods make of a statement's error. PostgreSQL itself is a parameter (`Engine`): how it reads a
-- UUID, compares emails and draws new identifiers. A statement may fail for reasons of the server
-- or the network before it runs, or after it ran with its reply lost: `faults` says which do.
pub mod Cleanup
pub mod Rows
pub mod Devices
pub mod Invariant
pub mod Absence
pub mod Setup
use auth_middleware.Prelude.{
  ℕ, suc, ◌+◌, ◌*◌, String, Bool, true, false, ◌&&◌, Option, none, some, List, [], ◌∷◌, leb, ltb,
  ◌==◌, if◌then◌else◌,
}
use auth_middleware.Prelude.State.{Result, ok, err, M, pure, ◌>>=◌}
use auth_middleware.Errors.{Error, no_rows, driver, pg, user_not_found}

-- A row of `auth_user_devices`
pub record Device : Type 0 where
  pub device_id : String
  pub device_name : String
  pub user_email : String
  pub secret : String
  pub generation : ℕ
  pub updated_at : ℕ

-- A row of the users table: usersdb/schema.sql, or the external table that is referenced
pub record User : Type 0 where
  pub user_id : String
  pub username : Option String
  pub email : String

-- What happens to one statement
pub data Fault : Type 0 where
  fine : Fault
  not_run reply_lost : String → Fault

pub record Tables : Type 0 where
  pub devices : List Device
  pub users : List User
  -- CURRENT_TIMESTAMP, in seconds
  pub clock : ℕ
  -- how many identifiers gen_random_uuid() has given out
  pub drawn : ℕ
  pub faults : List Fault

pub record Engine : Type 0 where
  -- the canonical form of a text that the type UUID accepts
  pub parse_uuid : String → Option String
  -- the equality of the email column's type
  pub same_email : String → String → Bool
  -- the identifiers that gen_random_uuid() gives, in canonical form
  pub new_uuid : ℕ → String

abbrev pub Statement : Type 0 → Type 0
Statement A = Tables → Result A × Tables

module _ {A : Type 0} where
  with_faults : List Fault → Statement A → Statement A
  with_faults [] stmt t = stmt t
  with_faults (fine ∷ fs) stmt t = stmt (record t { faults = fs })
  with_faults (not_run why ∷ fs) stmt t = (err (driver why), record t { faults = fs })
  with_faults (reply_lost why ∷ fs) stmt t = (err (driver why), (stmt (record t { faults = fs })).1)

  -- One call of Exec, Query or QueryRow
  unfoldable pub run : Statement A → M Tables (Result A)
  unfolding with_faults
  run stmt t = with_faults t.faults stmt t

-- A statement with a UUID parameter: `invalid_text_representation` if the text is none
with_uuid : {A : Type 0} → Option String → (String → Statement A) → Statement A
with_uuid none stmt t = (err (pg "22P02" ""), t)
with_uuid (some id) stmt t = stmt id t

unfoldable pub find_device : String → List Device → Option Device
find_device id [] = none
find_device id (d ∷ ds) = if d.device_id == id then some d else find_device id ds

unfoldable pub has_user : Engine → String → List User → Bool
has_user e email [] = false
has_user e email (u ∷ us) = if e.same_email u.email email then true else has_user e email us

-- INSERT INTO auth_user_devices, with the defaults of the schema
insert_device : Engine → (user_email device_name secret : String) → Statement String
insert_device e user_email device_name secret t =
    let id = e.new_uuid t.drawn in
    let t' = record t { drawn = suc t.drawn } in
    let row : Device = record {
      device_id = id;
      device_name = device_name;
      user_email = user_email;
      secret = secret;
      generation = 1;
      updated_at = t.clock;
    } in
    elim (find_device id t.devices) [
      | some _ ↦ (err (pg "23505" "auth_user_devices_pkey"), t')
      | none ↦
          if has_user e user_email t.users
          then (ok id, record t' { devices = row ∷ t.devices })
          else (err (pg "23503" "fk_auth_user_devices"), t')
    ]

-- The largest value of the column type INT
abbrev pub int4_max : ℕ
int4_max = 2147483647

unfoldable pub raise_generation : String → ℕ → List Device → List Device
raise_generation id now [] = []
raise_generation id now (d ∷ ds) =
    (if d.device_id == id then record d { generation = d.generation + 1; updated_at = now } else d)
    ∷ raise_generation id now ds

-- UPDATE … SET generation = generation + 1 … RETURNING generation
update_generation : String → Statement ℕ
update_generation id t = elim (find_device id t.devices) [
  | none ↦ (err no_rows, t)
  | some d ↦
      if ltb d.generation int4_max
      then (ok (d.generation + 1), record t { devices = raise_generation id t.clock t.devices })
      else (err (pg "22003" ""), t)
]

-- SELECT secret, generation
select_secret : String → Statement (String × ℕ)
select_secret id t = elim (find_device id t.devices) [
  | none ↦ (err no_rows, t)
  | some d ↦ (ok (d.secret, d.generation), t)
]

-- DELETE: the rows that stay, and the identifiers of the others, both in the table's order
unfoldable pub keep : (Device → Bool) → List Device → List Device
keep gone [] = []
keep gone (d ∷ ds) = if gone d then keep gone ds else d ∷ keep gone ds

unfoldable pub removed : (Device → Bool) → List Device → List String
removed gone [] = []
removed gone (d ∷ ds) = if gone d then d.device_id ∷ removed gone ds else removed gone ds

delete_where : (Device → Bool) → Statement (List String)
delete_where gone t = (ok (removed gone t.devices), record t { devices = keep gone t.devices })

-- `errors.As(err, &pgErr) && pgErr.Code == … && pgErr.ConstraintName == …`
is_user_violation : Error → Bool
is_user_violation (pg code constraint) = code == "23503" && constraint == "fk_auth_user_devices"
is_user_violation _ = false

saved : Result String → Result String
unfolding is_user_violation
saved (ok id) = ok id
saved (err e) = if is_user_violation e then err user_not_found else err e

discard : Result (List String) → Result (Unit {0})
discard (ok _) = ok tt
discard (err e) = err e

module _ (e : Engine) where
  unfoldable pub save_device_secret :
      (user_email device_name secret : String) → M Tables (Result String)
  unfolding run insert_device saved
  save_device_secret user_email device_name secret = do
    r ← run (insert_device e user_email device_name secret)
    pure (saved r)

  unfoldable pub update_device_secret : String → M Tables (Result ℕ)
  unfolding run with_uuid update_generation
  update_device_secret device_id = run (with_uuid (e.parse_uuid device_id) update_generation)

  unfoldable pub get_device_secret : String → M Tables (Result (String × ℕ))
  unfolding run with_uuid select_secret
  get_device_secret device_id = run (with_uuid (e.parse_uuid device_id) select_secret)

  abbrev pub owned_by : String → Device → Bool
  owned_by user_email d = e.same_email d.user_email user_email

  unfoldable pub delete_device : (user_email device_id : String) → M Tables (Result (Unit {0}))
  unfolding run with_uuid delete_where discard
  delete_device user_email device_id = do
    r ← run (
        with_uuid (e.parse_uuid device_id)
          (λ id. delete_where (λ d. owned_by user_email d && d.device_id == id)))
    pure (discard r)

  unfoldable pub delete_all_devices : String → M Tables (Result (Unit {0}))
  unfolding run delete_where discard
  delete_all_devices user_email = do r ← run (delete_where (owned_by user_email)); pure (discard r)

  unfoldable pub delete_all_devices_returning_ids : String → M Tables (Result (List String))
  unfolding run delete_where
  delete_all_devices_returning_ids user_email = run (delete_where (owned_by user_email))

-- cleanupOldDevices: sessions that were not refreshed for seven days
abbrev seven_days : ℕ
seven_days = 7 * 24 * 60 * 60

unfoldable pub cleanup_old_devices : M Tables (Result (List String))
unfolding run delete_where
cleanup_old_devices = run (λ t. delete_where (λ d. ltb (d.updated_at + seven_days) t.clock) t)
