-- ===== src/Tests/Configs.antt =====
-- The theorems on the configuration and on the schema's references at concrete texts.
use auth_middleware.Prelude.{String, ◌≡◌, ◌↔◌, refl, none, some, List, [], ◌∷◌, ◌==◌, if◌then◌else◌}
use auth_middleware.Schema.{Reference, find_reference}
use auth_middleware.Schema.References.{IsValid, print_reference, find_reference_iff}
use auth_middleware.Config.Load.{
  Config, Client, Provider, loaded, load, config_of, database_of, jwt_of, oauth2_of, client_of,
  provider_of, default_db_max_open_conns,
}
use auth_middleware.Config.Load.Valid.{ValidConfig, load-ValidConfig}

abbrev members : Reference
members = record {
  schema_name = "auth";
  table_name = "members";
  column = "mail";
  column_type = "varchar(80)";
}

find_reference_iff_example :
    (find_reference "auth.members(mail):varchar(80)" ≡ some members)
    ↔ (IsValid members × ("auth.members(mail):varchar(80)" ≡ print_reference members))
find_reference_iff_example = find_reference_iff "auth.members(mail):varchar(80)" members

not_a_type : find_reference "users(email):text;drop" ≡ none
unfolding find_reference
not_a_type = refl

no_column : find_reference "users" ≡ none
unfolding find_reference
no_column = refl

-- An environment, as its settings
setting : List (String × String) → String → String
setting [] key = ""
setting ((name, value) ∷ rest) key = if name == key then value else setting rest key

abbrev env : String → String
env = setting (
    ("DATABASE_URL", "postgres://db")
    ∷ ("DB_MAX_OPEN_CONNS", " 7 ")
    ∷ ("DB_USER_EMAIL_REFERENCE", "members(mail)")
    ∷ ("DB_USER_USERNAME_COLUMN", "Nick")
    ∷ ("JWT_ACCESS_TOKEN_DURATION", "5m")
    ∷ ("IDENTITY_JWT_SECRET", "0123456789abcdef0123456789abcdef")
    ∷ ("OAUTH2_CLIENT_ID", "id")
    ∷ ("OAUTH2_CLIENT_SECRET", "hush")
    ∷ ("OAUTH2_REDIRECT_URL", "https://a.b/callback")
    ∷ ("OAUTH2_PROVIDER", "github")
    ∷ ("OAUTH2_SCOPES", "a,b")
    ∷ [])

abbrev sanitize : List String → String
sanitize names = "quoted"

abbrev config : Config
config =
    config_of env (some (database_of env 7 15 300000000000 120000000000 86400000000000))
      (jwt_of env 300000000000 604800000000000)
      (some (oauth2_of env (client_of env) none (some (provider_of env))))

load-ValidConfig_example : ValidConfig sanitize config
unfolding load setting auth_middleware.Config.Load.username_column
load-ValidConfig_example = load-ValidConfig env sanitize config refl
