-- ===== src/Cache/States.antt =====
-- server/internal/cache/state: the PKCE verifier of each login that is under way, under its state.
pub mod Setup
use auth_middleware.Prelude.{ℕ, ◌*◌, String, ◌≡◌, false, Option, none, some, arith, ◌==◌, eq_refl}
use auth_middleware.Prelude.State.{Result, ok, M}
use auth_middleware.Cache.{invalidate, Otter, OtterLaws}

-- The interface Cache
pub record StateCache (W : Type 0) : Type 0 where
  pub set : (state verifier : String) → M W (Result (Unit {0}))
  pub take : (state : String) → M W (Result String)

-- config, with the defaults of NewCache
pub record Config : Type 0 where
  pub ttl : ℕ
  pub maximum_size : ℕ

abbrev pub default_config : Config
default_config = record { ttl = 10 * 60 * 1000000000; maximum_size = 100000 }

unfoldable pub with_ttl : ℕ → Config → Config
with_ttl ttl c = record c { ttl = ttl }

unfoldable pub with_maximum_size : ℕ → Config → Config
with_maximum_size size c = record c { maximum_size = size }

module _ {C : Type 0} (verifiers : Otter C String) where
  -- what the function given to `Compute` saw, with the zero value where there was no entry
  seen : Option String → String
  seen none = ""
  seen (some verifier) = verifier

  -- memoryCache.Take: the entry is read and removed in one atomic step
  unfoldable pub take : String → M C (Result String)
  unfolding seen
  take key c =
      (ok (seen (verifiers.get_if_present key c)), verifiers.compute key (λ old. invalidate) c)

  -- memoryCache.Set
  unfoldable pub set : String → String → M C (Result (Unit {0}))
  set key verifier c = (ok tt, verifiers.set key verifier c)

  unfoldable pub memory_state_cache : StateCache C
  unfolding take set
  memory_state_cache = record { set = set; take = take }

  module _ (laws : OtterLaws verifiers) where
    -- Under the laws of otter, a verifier that was set is taken once: the first Take of its state
    -- returns it, the next one returns the empty text, and neither touches another state.
    pub take-set :
        (key verifier other : String) (c : C)
        → let c1 = (set key verifier c).1 in
          let c2 = (take key c1).1 in
          ((take key c1).0 ≡ ok verifier)
          × ((take key c2).0 ≡ ok "")
          × ((key == other) ≡ false
              → verifiers.get_if_present other c2 ≡ verifiers.get_if_present other c)
    unfolding take set
    take-set key verifier other c =
        let removed = laws.get-compute key key (λ old. invalidate) (verifiers.set key verifier c) in
        (
          ground (arith, laws.get-set key key verifier c, eq_refl key),
          ground (arith, removed, eq_refl key),
          λ ne. ground (
            arith,
            laws.get-compute key other (λ old. invalidate) (verifiers.set key verifier c),
            laws.get-set key other verifier c,
          ),
        )
