-- ===== src/Tests.antt =====
-- Data for the tests: one user with one device, caches that are functions, and a library of tokens
-- to which every text is the same valid token.
pub mod Tokens
pub mod Devices
pub mod Caches
pub mod RoundTrips
pub mod Sessions
pub mod Logins
pub mod Durations
pub mod Decimals
pub mod Configs
pub mod Providers
use auth_middleware.Prelude.{
  ℕ, String, ◌≡◌, ◌≢◌, refl, Bool, true, false, Option, none, some, List, [], ◌∷◌, ◌==◌,
  if◌then◌else◌, pos, arith,
}
use auth_middleware.Prelude.State.{ok}
use auth_middleware.Database.{Device, User, Tables, Engine}
use auth_middleware.Database.Invariant.{WellFormed}
use auth_middleware.Database.Absence.{Drawn}
use auth_middleware.Cache.{Otter, OtterLaws, decide}
use auth_middleware.Cache.Secrets.{
  Secret, SecretCache, SecretCacheLaws, memory_secret_cache, memory_secret_cache_lem,
}
use auth_middleware.Cache.CachedDb.{CachedDb}
use auth_middleware.Jwt.{Options, RefreshClaims, AccessClaims, JwtLib, new_jwt_manager}
use auth_middleware.Jwt.Library.{Registered, TokenLib, parsed}

abbrev pub engine : Engine
engine = record { parse_uuid = some; same_email = λ a b. a == b; new_uuid = λ n. "drawn" }

abbrev pub device : Device
device = record {
  device_id = "d1";
  device_name = "phone";
  user_email = "a@b.c";
  secret = "s";
  generation = 1;
  updated_at = 0;
}

abbrev pub user : User
user = record { user_id = "u1"; username = some "ann"; email = "a@b.c" }

abbrev pub tables : Tables
tables = record { devices = device ∷ []; users = user ∷ []; clock = 10; drawn = 0; faults = [] }

pub tables-WellFormed : WellFormed engine tables
unfolding auth_middleware.Database.find_device auth_middleware.Database.has_user
tables-WellFormed = record {
  unique = (refl, tt);
  in_range = ((omega arith, omega arith), tt);
  owned = (refl, tt);
}

pub tables-Drawn : Drawn engine "d1" tables
tables-Drawn n later = cc

module _ {V : Type 0} where
  abbrev pub function_cache : Otter (String → Option V) V
  function_cache = record {
    get_if_present = λ k c. c k;
    set = λ k v c j. if k == j then some v else c j;
    compute = λ k f c j. if k == j then decide (f (c k)) some (c k) none else c j;
  }

  pub function_cache-OtterLaws : OtterLaws function_cache
  function_cache-OtterLaws = record { get-set = λ k j v c. refl; get-compute = λ k j f c. refl }

abbrev pub cache : SecretCache (String → Option Secret)
cache = memory_secret_cache function_cache

pub cache-SecretCacheLaws : SecretCacheLaws cache
cache-SecretCacheLaws = memory_secret_cache_lem function_cache function_cache-OtterLaws

abbrev pub start : CachedDb (String → Option Secret)
start = record { tables = tables; secrets = λ id. none; loads = λ id. none }

abbrev pub registered : Registered
registered = record {
  issuer = "";
  audience = "" ∷ [];
  subject = "a@b.c";
  expires_at = some 100;
  issued_at = some 0;
}

abbrev pub refresh_claims : RefreshClaims
refresh_claims = record { device_id = "d1"; generation = pos 1; registered = registered }

abbrev pub access_claims : AccessClaims
access_claims = record {
  username = "ann";
  user_email = "a@b.c";
  device_id = "d1";
  generation = pos 1;
  registered = registered;
}

module _ {T : Type 0} where
  -- every token parses to the claims, and is valid
  abbrev pub one_token : (typ : String) → T → TokenLib T
  one_token typ claims = record {
    parse_unverified = λ token. parsed (some typ) claims;
    parse_with_claims =
        λ token read key options now. record { claims = read; failure = none; valid = true };
    signed_string = λ t c secret. ok "new";
  }

abbrev pub lib : JwtLib
lib = record {
  new_numeric_date = λ t. t;
  access = one_token "access+jwt" access_claims;
  refresh = one_token "refresh+jwt" refresh_claims;
  registered = one_token "JWT" registered;
}

abbrev pub options : Options
options = new_jwt_manager []
