-- ===== src/Cache/Redis/Secrets.antt =====
-- server/internal/cache/device/redis.go. `itoa` is strconv.Itoa.
pub mod Entries
use Prim.Native.Char.{Char, code}
use Prim.Native.String.{[], ◌∷◌}
use auth_middleware.Prelude.{
  ℕ, ◌+◌, String, Bool, true, false, not, Option, none, some, leb, eqb, ◌==◌, if◌then◌else◌, ℤ,
}
use auth_middleware.Prelude.State.{Result, ok, err, M, pure, ◌>>=◌, ◌>>◌}
use auth_middleware.Text.{append, cut}
use auth_middleware.Config.Duration.{digits_value, span_digits}
use auth_middleware.Config.Load.{atoi}
use auth_middleware.Cache.Secrets.{Secret, secret_ttl, deleted_secret_extra_ttl}
use auth_middleware.Cache.Redis.{Client, get, set}

abbrev pub secret_key_prefix : String
secret_key_prefix = "oauth2:device:secret:"

-- A secret as it is read: its generation is a text in Redis, and could be negative there.
pub record ReadSecret : Type 0 where
  pub value : String
  pub generation : ℤ

-- encodeSecret
unfoldable pub encode_secret : (itoa : ℕ → String) → Secret → String
encode_secret itoa s = append (itoa s.generation) (append ":" s.value)

unfoldable pub with_generation : (value : String) → Option ℤ → Option ReadSecret
with_generation value none = none
with_generation value (some n) = some (record { value = value; generation = n })

unfoldable pub decoded : Option (String × String) → Option ReadSecret
unfolding atoi with_generation
decoded none = none
decoded (some (generation, value)) =
    if value == "" then none else with_generation value (atoi generation)

-- decodeSecret
unfoldable pub decode_secret : String → Option ReadSecret
unfolding decoded cut
decode_secret raw = decoded (cut raw b':')

-- string.match(current, '^(%d+):'), as the number that its digits write
unfoldable pub matched : String × String → Option ℕ
matched ([], rest) = none
matched (c ∷ digits, []) = none
matched (c ∷ digits, d ∷ rest) =
    if eqb (code d) b':' then some (digits_value 0 (c ∷ digits)) else none

-- What the script reads and compares. `tonumber` is Lua's: the double that is nearest to a number.
module _ (tonumber : ℕ → ℕ) where
  unfoldable pub lua_generation : String → Option ℕ
  unfolding matched span_digits
  lua_generation current = elim (matched (span_digits current)) [
    | none ↦ none
    | some n ↦ some (tonumber n)
  ]

  -- whether the script leaves an entry as it is
  unfoldable pub keeps : (current : String) (generation : ℕ) → Bool
  unfolding lua_generation
  keeps current generation =
      if current == ""
      then true
      else elim (lua_generation current) [ none ↦ false | some g ↦ leb (tonumber generation) g ]

  -- setNewerSecretScript
  unfoldable pub set_newer : (entry : String) (generation : ℕ) → Option String → Option String
  unfolding keeps
  set_newer entry generation none = some entry
  set_newer entry generation (some current) = if keeps current generation then none else some entry

unfoldable pub read_entry : Result (Option String) → Option ReadSecret
unfolding decode_secret
read_entry (err e) = none
read_entry (ok none) = none
read_entry (ok (some raw)) = decode_secret raw

module _ {W : Type 0} (tonumber : ℕ → ℕ) (itoa : ℕ → String) (client : Client W) where
  -- GetSecret: an error is a miss
  unfoldable pub get_secret : (device_id : String) → M W (Option ReadSecret)
  unfolding get read_entry
  get_secret device_id = do r ← get client (append secret_key_prefix device_id); pure (read_entry r)

  -- SetSecret: an error is only logged
  unfoldable pub set_secret : (device_id : String) → Secret → W → W
  unfolding set_newer encode_secret
  set_secret device_id s w =
      (client.run_script (append secret_key_prefix device_id)
        (set_newer tonumber (encode_secret itoa s) s.generation) secret_ttl w).1

  -- DeleteSecret: an error is dropped
  unfoldable pub delete_secret : (device_id : String) → W → W
  unfolding set
  delete_secret device_id w =
      (set client (append secret_key_prefix device_id) "" (secret_ttl + deleted_secret_extra_ttl)
        w).1
