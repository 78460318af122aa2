-- ===== src/Tests/Logins.antt =====
-- The theorems on logins, on shared results and on the identity header at concrete data.
use auth_middleware.Prelude.{
  ℕ, ◌+◌, ◌*◌, ◌/◌, ◌≤◌, String, ◌≡◌, refl, true, false, Option, none, some, [], arith,
}
use auth_middleware.Prelude.State.{ok, M}
use auth_middleware.Errors.{Error, deadline_exceeded}
use auth_middleware.Flight.{Outcome, Stored, RedisStore, do_local}
use auth_middleware.Flight.Sharing.{MemoryLaws, do_local-shares, do_local-failure}
use auth_middleware.Handlers.Options.{DeviceDb}
use auth_middleware.Providers.{ProviderToken}
use auth_middleware.Handlers.Login.{Handler, exchange, device_saved}
use auth_middleware.Handlers.Login.Exchange.{Admitted, exchange-Admitted}
use auth_middleware.Handlers.Login.Rollback.{Settled, device_saved-Settled}
use auth_middleware.Jwt.Library.{TokenLib}
use auth_middleware.Identity.{token_duration, Claims, Signer, identity_claims}
use auth_middleware.Identity.Expiry.{CutsToSeconds, NearLimit, expiry_lem}
use auth_middleware.Tests.{
  one_token, registered, lib, options, function_cache, function_cache-OtterLaws,
}
use auth_middleware.Tests.Tokens.{at_generation}

abbrev Memory : Type 0
Memory = String → Option String

abbrev texts : Stored String String
texts = record { as_any = λ v. v; assert = some; marshal = ok; unmarshal = ok }

memory-MemoryLaws : MemoryLaws {W = Memory} (function_cache {V = String}) (λ w. w) (λ f w. f w)
memory-MemoryLaws = record { otter_laws = function_cache-OtterLaws; memory_of-change = λ f w. refl }

abbrev succeeds : M Memory (Outcome Error String)
succeeds w = (record { value = "x"; failure = none }, w)

abbrev fails : M Memory (Outcome Error String)
fails w = (record { value = ""; failure = some deadline_exceeded }, w)

abbrev local : M Memory (Outcome Error String) → M Memory (Outcome Error String)
local = do_local texts (function_cache {V = String}) (λ w. w) (λ f w. f w) "k"

abbrev nothing : Memory
nothing key = none

do_local-shares_example :
    local fails (function_cache.set "k" "x" nothing)
    ≡ (record { value = "x"; failure = none }, function_cache.set "k" "x" nothing)
unfolding do_local
do_local-shares_example =
    do_local-shares texts (function_cache {V = String}) (λ w. w) (λ f w. f w) memory-MemoryLaws "k"
      succeeds (λ v. refl) fails (record { value = "x"; failure = none }) nothing
      (function_cache.set "k" "x" nothing) refl refl

do_local-failure_example :
    fails nothing ≡ (record { value = ""; failure = some deadline_exceeded }, nothing)
unfolding do_local
do_local-failure_example =
    do_local-failure texts (function_cache {V = String}) (λ w. w) (λ f w. f w) memory-MemoryLaws "k"
      fails (record { value = ""; failure = some deadline_exceeded }) deadline_exceeded nothing
      nothing refl refl

abbrev redis_texts : RedisStore Memory
redis_texts = record {
  load = λ key w. (ok (w key), w);
  lock = λ key w. (ok tt, w);
  unlock = λ key w. (tt, w);
  store = λ key raw w. (ok tt, function_cache.set key raw w);
}

abbrev db : DeviceDb (Unit {0})
db = record {
  save_device_secret = λ user_email device_name secret w. (ok "d1", w);
  delete_device = λ user_email id w. (ok tt, w);
  delete_all_devices = λ user_email w. (ok tt, w);
}

abbrev token : ProviderToken
token = record { access_token = "pa"; refresh_token = "pr"; id_token = none }

abbrev logins : Handler (Unit {0})
logins = record {
  db = some db;
  users = record {
    create_user = λ username email w. (ok username, w);
    get_username = λ email w. (ok "ann", w);
    delete_user = λ email w. (ok tt, w);
    external = false;
  };
  jwt_db = at_generation 1;
  jwt_options = options;
  state_cache = record { set = λ state verifier w. (ok tt, w); take = λ state w. (ok "v", w) };
  oauth2_client = record {
    auth_url = λ state verifier. "url";
    validate_issuer = λ iss. none;
    exchange = λ code verifier w. (ok token, w);
    get_user = λ t w. (ok (record { id = "1"; email = "a@b.c"; name = "ann" }), w);
    revoke = λ t w. (ok tt, w);
  };
  options = record {
    dev_mode = false;
    allow_registration = false;
    pass_oauth_token = false;
    client_pkce = true;
  };
  random = record {
    generate_verifier = λ w. ("v", w);
    generate_state = λ w. ("st", w);
    generate_device_secret = λ w. ("s", w);
  };
}

exchange-Admitted_example :
    Admitted lib logins 0 "c" "st" "phone" "v" tt (exchange lib logins 0 "c" "st" "phone" "v" tt).0
unfolding exchange auth_middleware.Jwt.Issue.generate_refresh
    auth_middleware.Jwt.Issue.generate_access auth_middleware.Jwt.verify_token
    auth_middleware.Jwt.has_token_type auth_middleware.Text.cut_prefix
exchange-Admitted_example = exchange-Admitted lib logins 0 "c" "st" "phone" "v" tt refl

device_saved-Settled_example :
    Settled lib logins 0 db token "a@b.c" "ann" "d1" "s" tt
      (device_saved lib logins 0 db token "a@b.c" "ann" "s" (ok "d1") tt).0
      (device_saved lib logins 0 db token "a@b.c" "ann" "s" (ok "d1") tt).1
device_saved-Settled_example = device_saved-Settled lib logins 0 db token "a@b.c" "ann" "d1" "s" tt

-- whole seconds
abbrev cut : ℕ → ℕ
cut t = t / 1000000000 * 1000000000

cut-CutsToSeconds : CutsToSeconds cut
cut-CutsToSeconds = record { not_later = λ t. omega arith; within = λ t. omega arith }

abbrev signer : Signer
signer = record { secret = "s"; issuer = ""; audience = [] }

abbrev identity_lib : TokenLib Claims
identity_lib =
    one_token "identity+jwt"
      (record { username = "ann"; device_id = "d1"; registered = registered })

expiry_lem_example :
    (t : ℕ) × ((identity_claims cut identity_lib signer 0 "a@b.c" "ann" "d1"
        (some 30500000000)).registered.expires_at
      ≡ some t)
    × (t ≤ 0 + token_duration)
    × ((a : ℕ) → some 30500000000 ≡ some a → t ≤ a)
    × NearLimit 0 (some 30500000000) t
expiry_lem_example =
    expiry_lem cut cut-CutsToSeconds identity_lib signer 0 "a@b.c" "ann" "d1" (some 30500000000)
