-- ===== src/Users/Setup.antt =====
-- server/internal/usersdb/options.go, and how server/internal/usersdb/usersdb.go makes its store.
use auth_middleware.Prelude.{
  ℕ, String, Bool, true, false, Option, none, some, List, [], ◌∷◌, ◌++◌, ◌==◌, if◌then◌else◌,
}
use auth_middleware.Prelude.State.{Result, ok, err, M, pure, ◌>>=◌}
use auth_middleware.Errors.{Error, other}
use auth_middleware.Text.{append}
use auth_middleware.Schema.{Params, default_params, parse_user_email_reference}
use auth_middleware.Database.Setup.{
  Sql, Opened, create_schema, with_auto_create_schema, with_user_email_reference, new,
}
use auth_middleware.Database.Setup
use auth_middleware.Users.{Store}

pub record ExternalOptions : Type 0 where
  pub user_email_reference : String
  pub username_column : String

pub record Options : Type 0 where
  pub external : Option ExternalOptions
  pub auto_create_schema : Bool
  pub database_options : List (Setup.Options → Setup.Options)

apply_options : List (Options → Options) → Options → Options
apply_options [] o = o
apply_options (opt ∷ opts) o = apply_options opts (opt o)

unfoldable pub new_options : List (Options → Options) → Options
unfolding apply_options
new_options opts =
    apply_options opts
      (record { external = none; auto_create_schema = false; database_options = [] })

unfoldable pub with_database_options : List (Setup.Options → Setup.Options) → Options → Options
with_database_options opts o = record o { database_options = o.database_options ++ opts }

unfoldable pub with_auto_create : Bool → Options → Options
with_auto_create enabled o = record o { auto_create_schema = enabled }

unfoldable pub with_external : (user_email_reference username_column : String) → Options → Options
with_external user_email_reference username_column o = record o {
  external =
      some
        (record { user_email_reference = user_email_reference; username_column = username_column });
}

-- schemaAdvisoryLockKey
abbrev pub schema_advisory_lock_key : ℕ
schema_advisory_lock_key = 0x6175746875736572

abbrev pub invalid_reference : Error
invalid_reference = other "invalid user email reference, expected <table>(<column>)[:<type>]"

store_or : Option Error → Store → Result Store
store_or none s = ok s
store_or (some e) s = err e

module _ {W : Type 0} (sql : Sql W) (sanitize : List String → String)
    (generate_users : Params → Result String) (generate : Params → Result String) where
  -- probe: `query` has the error of Query or of Close
  probe : (query : String) → M W (Option Error)
  probe query = sql.query query

  -- createSchema: the transaction of the package database, with another key and another text
  create_users_schema : M W (Option Error)
  unfolding create_schema default_params
  create_users_schema =
      create_schema sql schema_advisory_lock_key (generate_users (default_params sanitize))

  -- newExternal, where there is a username column
  probe_external : (column : String) → Option Params → M W (Result Store)
  unfolding store_or probe
  probe_external column none = pure (err invalid_reference)
  probe_external column (some params) = do
    e ← probe (
        append "SELECT " (
          append (sanitize (column ∷ [])) (append " FROM " (append params.users_table " LIMIT 0"))))
    pure (store_or e (record { external = true; selects_username = true }))

  -- newExternal
  unfoldable pub new_external : ExternalOptions → M W (Result Store)
  unfolding probe_external parse_user_email_reference
  new_external cfg =
      if cfg.username_column == ""
      then pure (ok (record { external = true; selects_username = false }))
      else probe_external cfg.username_column
          (parse_user_email_reference sanitize cfg.user_email_reference)

  managed_store : (auto_create_schema : Bool) → M W (Result Store)
  unfolding store_or create_users_schema probe
  managed_store auto_create_schema = do
    e ←
        if auto_create_schema
        then create_users_schema
        else probe "SELECT user_id, username, email FROM users LIMIT 0"
    pure (store_or e (record { external = false; selects_username = true }))

  -- newStore
  unfoldable pub new_store : Options → M W (Result Store)
  unfolding new_external managed_store
  new_store cfg = elim cfg.external [
    | some external ↦ new_external external
    | none ↦ managed_store cfg.auto_create_schema
  ]

  -- the options of the database, or no option where the reference does not parse
  unfoldable pub database_options : Options → Option (List (Setup.Options → Setup.Options))
  unfolding with_user_email_reference
  database_options cfg =
      let given = cfg.database_options ++ (with_auto_create_schema cfg.auto_create_schema ∷ []) in
      elim cfg.external [
        | none ↦ some given
        | some external ↦ elim (with_user_email_reference sanitize external.user_email_reference) [
          | none ↦ none
          | some opt ↦ some (given ++ (opt ∷ []))
        ]
      ]

  opened_store : Store → Result Opened → Result (Store × Opened)
  opened_store s (err e) = err e
  opened_store s (ok d) = ok (s, d)

  with_store : Options → Result Store → M W (Result (Store × Opened))
  unfolding database_options opened_store new
  with_store cfg (err e) = pure (err e)
  with_store cfg (ok s) = elim (database_options cfg) [
    | none ↦ pure (err invalid_reference)
    | some opts ↦ do d ← new sql sanitize generate opts; pure (opened_store s d)
  ]

  -- New: the store with its database
  unfoldable pub new_users : List (Options → Options) → M W (Result (Store × Opened))
  unfolding with_store new_store new_options
  new_users opts = do s ← new_store (new_options opts); with_store (new_options opts) s
