-- ===== src/Cache/Secrets.antt =====
-- server/internal/cache/device/device.go and memory.go: the cache of device secrets.
use auth_middleware.Prelude.{
  ℕ, ◌+◌, ◌*◌, String, ◌≡◌, Bool, ◌||◌, Option, none, some, arith, leb, ◌==◌, if◌then◌else◌,
}
use auth_middleware.Cache.{Decision, write, cancel, Otter, OtterLaws, decide}

pub record Secret : Type 0 where
  pub value : String
  pub generation : ℕ

-- `Secret{}`, which marks a deleted device
abbrev pub tombstone : Secret
tombstone = record { value = ""; generation = 0 }

abbrev pub deleted : Secret → Bool
deleted s = s.value == ""

-- The interface SecretCache
pub record SecretCache (C : Type 0) : Type 0 where
  pub get_secret : String → C → Option Secret
  pub set_secret : String → Secret → C → C
  pub delete_secret : String → C → C

-- What a client may see of an entry.
abbrev pub live : Option Secret → Option Secret
live none = none
live (some s) = if deleted s then none else some s

-- What SetSecret leaves of an entry: it is replaced only by a newer generation, and never once it
-- is deleted.
abbrev pub newer : Option Secret → Secret → Option Secret
newer none s = some s
newer (some current) s =
    if deleted current || leb s.generation current.generation then some current else some s

-- The contract of the interface: there are entries that the operations read and write so.
pub record SecretCacheLaws {C : Type 0} (cache : SecretCache C) : Type 0 where
  pub held : C → String → Option Secret
  pub get_lem : (id : String) (c : C) → cache.get_secret id c ≡ live (held c id)
  pub set_lem :
      (id j : String) (s : Secret) (c : C)
      → held (cache.set_secret id s c) j ≡ (if id == j then newer (held c id) s else held c j)
  pub delete_lem :
      (id j : String) (c : C)
      → held (cache.delete_secret id c) j ≡ (if id == j then some tombstone else held c j)

abbrev second : ℕ
second = 1000000000

abbrev pub secret_ttl : ℕ
secret_ttl = 5 * 60 * second

abbrev pub deleted_secret_extra_ttl : ℕ
deleted_secret_extra_ttl = 60 * second

-- The time that newMemorySecretCache gives an entry.
unfoldable pub entry_ttl : ℕ → Secret → ℕ
entry_ttl ttl secret = if deleted secret then ttl + deleted_secret_extra_ttl else ttl

module _ {C : Type 0} (otter : Otter C Secret) where
  -- the function that SetSecret hands to `Compute`
  keep_newer : Secret → Option Secret → Decision Secret
  keep_newer secret none = write secret
  keep_newer secret (some current) =
      if deleted current || leb secret.generation current.generation then cancel else write secret

  hide_deleted : Option Secret → Option Secret
  hide_deleted none = none
  hide_deleted (some secret) = if deleted secret then none else some secret

  -- memorySecretCache
  unfoldable pub memory_secret_cache : SecretCache C
  unfolding keep_newer hide_deleted
  memory_secret_cache = record {
    get_secret = λ id c. hide_deleted (otter.get_if_present id c);
    set_secret = λ id secret c. otter.compute id (keep_newer secret) c;
    delete_secret = λ id c. otter.set id tombstone c;
  }

  hide_deleted-live : (o : Option Secret) → hide_deleted o ≡ live o
  unfolding hide_deleted
  hide_deleted-live o = ground arith

  keep_newer-newer :
      (s : Secret) (o : Option Secret) → decide (keep_newer s o) some o none ≡ newer o s
  unfolding keep_newer
  keep_newer-newer s o = ground arith

  -- Under the laws of otter, the cache in memory meets the contract of the interface: GetSecret
  -- hides a deleted entry, SetSecret replaces an entry only by a newer generation and never a
  -- deleted one, and DeleteSecret marks the entry as deleted; no other entry is touched.
  pub memory_secret_cache_lem : OtterLaws otter → SecretCacheLaws memory_secret_cache
  unfolding memory_secret_cache
  memory_secret_cache_lem laws = record {
    held = λ c id. otter.get_if_present id c;
    get_lem = λ id c. hide_deleted-live (otter.get_if_present id c);
    set_lem = λ id j s c. ground (
      arith,
      laws.get-compute id j (keep_newer s) c,
      keep_newer-newer s (otter.get_if_present id c),
    );
    delete_lem = λ id j c. laws.get-set id j tombstone c;
  }
