-- ===== src/Database/Setup.antt =====
-- database/options.go, and how database/database.go opens a database. database/sql is a parameter,
-- with the driver of pgx and the text that database/schema generates.
use auth_middleware.Prelude.{
  ℕ, ◌*◌, String, Bool, true, false, Option, none, some, List, [], ◌∷◌, ltb, if◌then◌else◌,
}
use auth_middleware.Prelude.State.{Result, ok, err, M, pure, ◌>>=◌}
use auth_middleware.Errors.{Error, other}
use auth_middleware.Schema.{Params, default_params, parse_user_email_reference}
use auth_middleware.Config.Duration.{second}

-- options
pub record Options : Type 0 where
  pub max_open_conns : ℕ
  pub max_idle_conns : ℕ
  pub conn_max_lifetime : ℕ
  pub conn_max_idle_time : ℕ
  pub cleanup_interval : ℕ
  pub schema : Params
  pub auto_create_schema : Bool

module _ (sanitize : List String → String) where
  unfoldable pub default_options : Options
  unfolding default_params
  default_options = record {
    max_open_conns = 20;
    max_idle_conns = 15;
    conn_max_lifetime = 5 * 60 * second;
    conn_max_idle_time = 2 * 60 * second;
    cleanup_interval = 24 * 60 * 60 * second;
    schema = default_params sanitize;
    auto_create_schema = false;
  }

  apply_options : List (Options → Options) → Options → Options
  apply_options [] o = o
  apply_options (opt ∷ opts) o = apply_options opts (opt o)

  unfoldable pub new_options : List (Options → Options) → Options
  unfolding apply_options default_options
  new_options opts = apply_options opts default_options

  -- WithUserEmailReference; its error is ErrInvalidUserEmailReference
  unfoldable pub with_user_email_reference : String → Option (Options → Options)
  unfolding parse_user_email_reference
  with_user_email_reference reference = elim (parse_user_email_reference sanitize reference) [
    | none ↦ none
    | some params ↦ some (λ o. record o { schema = params })
  ]

unfoldable pub with_max_open_conns : ℕ → Options → Options
with_max_open_conns n o = record o { max_open_conns = n }

unfoldable pub with_max_idle_conns : ℕ → Options → Options
with_max_idle_conns n o = record o { max_idle_conns = n }

unfoldable pub with_cleanup_interval : ℕ → Options → Options
with_cleanup_interval d o = record o { cleanup_interval = d }

unfoldable pub with_conn_max_lifetime : ℕ → Options → Options
with_conn_max_lifetime d o = record o { conn_max_lifetime = d }

unfoldable pub with_conn_max_idle_time : ℕ → Options → Options
with_conn_max_idle_time d o = record o { conn_max_idle_time = d }

unfoldable pub with_auto_create_schema : Bool → Options → Options
with_auto_create_schema enabled o = record o { auto_create_schema = enabled }

-- a database that is open: whether it owns the connections, and the interval of its worker
abbrev pub Opened : Type 0
Opened = Bool × Option ℕ

-- What the program calls of *sql.DB and of a transaction; each gives its error, if there is one.
pub record Sql (W : Type 0) : Type 0 where
  pub is_pgx : Bool
  pub configure : Options → W → W
  pub ping : M W (Option Error)
  pub query : String → M W (Option Error)
  pub begin : M W (Option Error)
  pub lock : (key : ℕ) → M W (Option Error)
  pub exec : String → M W (Option Error)
  pub commit : M W (Option Error)
  pub rollback : W → W
  pub close : M W (Option Error)

module _ {W : Type 0} where
  -- `if err := m; err != nil { return err }`, then `n`
  unfoldable pub and_then : M W (Option Error) → M W (Option Error) → M W (Option Error)
  and_then m n = do e ← m; elim e [ some e ↦ pure (some e) | none ↦ n ]

  module _ (sql : Sql W) where
    -- the transaction of createSchema; the deferred Rollback comes last, also after a Commit
    unfoldable pub create_schema : (key : ℕ) → (text : Result String) → M W (Option Error)
    unfolding and_then
    create_schema key (err e) = pure (some e)
    create_schema key (ok text) = and_then sql.begin (do
      e ← and_then (sql.lock key) (and_then (sql.exec text) sql.commit)
      λ w. (e, sql.rollback w))

    -- schemaAdvisoryLockKey
    abbrev pub schema_advisory_lock_key : ℕ
    schema_advisory_lock_key = 0x6175746864657669

    opened : Options → (owns_db : Bool) → Option Error → Result Opened
    opened cfg owns_db (some e) = err e
    opened cfg owns_db none =
        ok (owns_db, if ltb 0 cfg.cleanup_interval then some cfg.cleanup_interval else none)

    -- open
    unfoldable pub open_database :
        (generate : Params → Result String) → Options → (owns_db : Bool) → M W (Result Opened)
    unfolding and_then create_schema opened
    open_database generate cfg owns_db = do
      e ← and_then sql.ping (
          if cfg.auto_create_schema
          then create_schema schema_advisory_lock_key (generate cfg.schema)
          else pure none)
      pure (opened cfg owns_db e)

    -- New
    unfoldable pub new :
        (sanitize : List String → String) (generate : Params → Result String)
        → List (Options → Options)
        → M W (Result Opened)
    unfolding open_database new_options
    new sanitize generate opts =
        if sql.is_pgx
        then open_database generate (new_options sanitize opts) false
        else pure (err (other "database requires a *sql.DB backed by the pgx stdlib driver"))

  closed_on_error : Sql W → Result Opened → M W (Result Opened)
  closed_on_error sql (err e) w = (err e, (sql.close w).1)
  closed_on_error sql (ok d) w = (ok d, w)

  -- NewDatabase; `connect` is sql.Open
  unfoldable pub new_database :
      (sanitize : List String → String) (generate : Params → Result String)
      (connect : (dsn : String) → Result (Sql W))
      → (dsn : String) → List (Options → Options)
      → M W (Result Opened)
  unfolding open_database new_options closed_on_error
  new_database sanitize generate connect dsn opts = elim (connect dsn) [
    | err e ↦ pure (err e)
    | ok sql ↦
        let cfg = new_options sanitize opts in
        λ w.
          let (r, w') = open_database sql generate cfg true (sql.configure cfg w) in
          closed_on_error sql r w'
  ]

  -- Close: the connections are closed if they are owned; the worker ends too
  unfoldable pub close : Sql W → Opened → M W (Option Error)
  close sql (owns_db, worker) = if owns_db then sql.close else pure none
