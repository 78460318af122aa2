-- ===== src/Users.antt =====
-- server/internal/usersdb/usersdb.go: the store of the users. The managed table's email is of type
-- TEXT, so that equal emails are one text, and DO UPDATE leaves the row as it was. A deletion takes
-- the devices of the user with it (ON DELETE CASCADE in database/schema/schema.sql).
pub mod Cascade
pub mod Deletion
pub mod Setup
use auth_middleware.Prelude.{
  ℕ, suc, ◌+◌, String, Bool, true, false, not, Option, none, some, List, [], ◌∷◌, ◌==◌,
  if◌then◌else◌,
}
use auth_middleware.Prelude.State.{Result, ok, err, M, pure, ◌>>=◌}
use auth_middleware.Errors.{Error, no_rows, driver, pg, user_not_found, external_users}
use auth_middleware.Database.{Device, User, Tables, Engine, Statement, run, has_user, keep}

-- A user as the methods return it
pub record StoredUser : Type 0 where
  pub id : String
  pub username : String
  pub email : String

pub record Store : Type 0 where
  pub external : Bool
  -- selectUsernameQuery is not empty
  pub selects_username : Bool

unfoldable pub find_user : Engine → String → List User → Option User
find_user e email [] = none
find_user e email (u ∷ us) = if e.same_email u.email email then some u else find_user e email us

unfoldable pub has_id : String → List User → Bool
has_id id [] = false
has_id id (u ∷ us) = if u.user_id == id then true else has_id id us

-- Scan into strings, which refuses NULL
unfoldable pub scan_user : User → Result StoredUser
scan_user u = elim u.username [
  | none ↦ err (driver "converting NULL to string is unsupported")
  | some username ↦ ok (record { id = u.user_id; username = username; email = u.email })
]

-- INSERT INTO users … ON CONFLICT (email) DO UPDATE … RETURNING …
unfoldable pub insert_user : Engine → (username email : String) → Statement User
unfolding find_user has_id
insert_user e username email t =
    let id = e.new_uuid t.drawn in
    let t' = record t { drawn = suc t.drawn } in
    let row : User = record { user_id = id; username = some username; email = email } in
    elim (find_user e email t.users) [
      | some u ↦ (ok u, t')
      | none ↦
          if has_id id t.users
          then (err (pg "23505" "users_pkey"), t')
          else (ok row, record t' { users = row ∷ t.users })
    ]

-- SELECT user_id, username, email
unfoldable pub select_user : Engine → String → Statement User
unfolding find_user
select_user e email t = elim (find_user e email t.users) [
  | none ↦ (err no_rows, t)
  | some u ↦ (ok u, t)
]

unfoldable pub keep_users : (User → Bool) → List User → List User
keep_users gone [] = []
keep_users gone (u ∷ us) = if gone u then keep_users gone us else u ∷ keep_users gone us

unfoldable pub removed_users : (User → Bool) → List User → List User
removed_users gone [] = []
removed_users gone (u ∷ us) = if gone u then u ∷ removed_users gone us else removed_users gone us

abbrev pub owned_by_removed : Engine → List User → Device → Bool
owned_by_removed e users d = has_user e d.user_email users

-- DELETE FROM users WHERE email = …, with the cascade
unfoldable pub delete_users : Engine → (email : String) → Statement (Unit {0})
unfolding keep_users removed_users keep has_user
delete_users e email t =
    let gone : User → Bool = λ u. e.same_email u.email email in
    (
      ok tt,
      record t {
        users = keep_users gone t.users;
        devices = keep (owned_by_removed e (removed_users gone t.users)) t.devices;
      },
    )

scanned : Result User → Result StoredUser
unfolding scan_user
scanned (err e) = err e
scanned (ok u) = scan_user u

username_of : Result User → Result String
username_of (err no_rows) = err user_not_found
username_of (err e) = err e
username_of (ok u) = elim u.username [ none ↦ ok "" | some username ↦ ok username ]

module _ (e : Engine) (s : Store) where
  -- CreateUser
  unfoldable pub create_user : (username email : String) → M Tables (Result StoredUser)
  unfolding run insert_user scanned
  create_user username email =
      if s.external
      then pure (err external_users)
      else (do r ← run (insert_user e username email); pure (scanned r))

  -- GetUser
  unfoldable pub get_user : (email : String) → M Tables (Result StoredUser)
  unfolding run select_user scanned
  get_user email =
      if s.external
      then pure (err external_users)
      else (do r ← run (select_user e email); pure (scanned r))

  -- GetUsername
  unfoldable pub get_username : (email : String) → M Tables (Result String)
  unfolding run select_user username_of
  get_username email =
      if s.selects_username
      then (do r ← run (select_user e email); pure (username_of r))
      else pure (ok "")

  -- DeleteUser
  unfoldable pub delete_user : (email : String) → M Tables (Result (Unit {0}))
  unfolding run delete_users
  delete_user email = if s.external then pure (err external_users) else run (delete_users e email)
