-- ===== src/Cache.antt =====
-- server/internal/cache: the caches in memory, over github.com/maypok86/otter, which is a
-- parameter. An operation on an otter cache is one atomic step. That entries expire and are evicted
-- is no part of an operation: it may happen between any two, and is a step of the environment.
pub mod Secrets
pub mod CachedDb
pub mod Interleaving
pub mod States
pub mod Redis
use auth_middleware.Prelude.{
  zero, suc, String, ◌≡◌, Bool, true, false, Option, none, some, ℤ, pos, negsuc, if◌then◌else◌,
  ◌==◌,
}
use auth_middleware.Prelude.State.{Result, err}
use auth_middleware.Errors.{Error, other}

-- What a function given to `Compute` decides.
pub data Decision (V : Type 0) : Type 0 where
  write : V → Decision V
  cancel : Decision V
  invalidate : Decision V

-- The operations of an otter cache with text keys that the program uses.
pub record Otter (C V : Type 0) : Type 0 where
  pub get_if_present : String → C → Option V
  pub set : String → V → C → C
  pub compute : String → (Option V → Decision V) → C → C

abbrev pub decide {ℓ} : {V : Type 0} {A : Type ℓ} → Decision V → (V → A) → A → A → A
decide (write v) written kept removed = written v
decide cancel written kept removed = kept
decide invalidate written kept removed = removed

-- What otter documents of them, as long as no entry expires or is evicted.
pub record OtterLaws {C V : Type 0} (o : Otter C V) : Type 0 where
  pub get-set :
      (k j : String) (v : V) (c : C)
      → o.get_if_present j (o.set k v c) ≡ (if k == j then some v else o.get_if_present j c)
  pub get-compute :
      (k j : String) (f : Option V → Decision V) (c : C)
      → o.get_if_present j (o.compute k f c) ≡ (
          if k == j
          then decide (f (o.get_if_present k c)) some (o.get_if_present k c) none
          else o.get_if_present j c)

is_positive : ℤ → Bool
is_positive (pos zero) = false
is_positive (pos (suc n)) = true
is_positive (negsuc n) = false

-- NewMemoryCache: its two checks come before otter is asked. `has_ttl` says that the function is
-- not nil.
unfoldable pub new_memory_cache :
    {C : Type 0} → (maximum_size : ℤ) (has_ttl : Bool) → Result C → Result C
unfolding is_positive
new_memory_cache maximum_size has_ttl created =
    if is_positive maximum_size
    then (if has_ttl then created else err (other "memory cache ttl func is required"))
    else err (other "memory cache maximum size must be positive")
