-- ===== src/Handlers/Options.antt =====
-- server/internal/handlers/options/options.go: the interfaces of the handlers, and their options.
use auth_middleware.Prelude.{String, Bool, false, List, [], ◌∷◌}
use auth_middleware.Prelude.State.{Result, M}

-- options.DB
pub record DeviceDb (W : Type 0) : Type 0 where
  pub save_device_secret : (user_email device_name secret : String) → M W (Result String)
  pub delete_device : (user_email device_id : String) → M W (Result (Unit {0}))
  pub delete_all_devices : (user_email : String) → M W (Result (Unit {0}))

-- options.UsersDB; CreateUser gives the username of the user that it returns
pub record UsersDb (W : Type 0) : Type 0 where
  pub create_user : (username email : String) → M W (Result String)
  pub get_username : (email : String) → M W (Result String)
  pub delete_user : (email : String) → M W (Result (Unit {0}))
  pub external : Bool

pub record Options : Type 0 where
  pub dev_mode : Bool
  pub allow_registration : Bool
  pub pass_oauth_token : Bool
  pub client_pkce : Bool

unfoldable pub with_dev_mode : Bool → Options → Options
with_dev_mode enabled o = record o { dev_mode = enabled }

unfoldable pub with_allow_registration : Bool → Options → Options
with_allow_registration enabled o = record o { allow_registration = enabled }

unfoldable pub with_pass_oauth_token : Bool → Options → Options
with_pass_oauth_token enabled o = record o { pass_oauth_token = enabled }

unfoldable pub with_client_pkce : Bool → Options → Options
with_client_pkce enabled o = record o { client_pkce = enabled }

apply_options : List (Options → Options) → Options → Options
apply_options [] o = o
apply_options (opt ∷ opts) o = apply_options opts (opt o)

-- New
unfoldable pub new_options : List (Options → Options) → Options
unfolding apply_options
new_options opts = apply_options opts (record {
  dev_mode = false;
  allow_registration = false;
  pass_oauth_token = false;
  client_pkce = false;
})
