-- ===== src/Identity/Expiry.antt =====
-- How long an identity header of server/internal/identity/identity.go is valid.
use auth_middleware.Prelude.{
  ℕ, ◌+◌, ◌≤◌, ◌<◌, String, ◌≡◌, refl, ◌⊎◌, inl, inr, Option, none, some, arith, Bool-cases, ltb,
}
use auth_middleware.Jwt.Library.{TokenLib}
use auth_middleware.Identity.{token_duration, expiry, Claims, Signer, identity_claims}

-- NewNumericDate cuts a time down to a whole second.
pub record CutsToSeconds (new_numeric_date : ℕ → ℕ) : Type 0 where
  pub not_later : (t : ℕ) → new_numeric_date t ≤ t
  pub within : (t : ℕ) → t < new_numeric_date t + 1000000000

-- `t` is less than a second before one of the two limits of the token.
unfoldable pub NearLimit : (now : ℕ) (access : Option ℕ) (t : ℕ) → Type 0
NearLimit now access t =
    (now + token_duration < t + 1000000000) ⊎ ((a : ℕ) × (access ≡ some a) × (a < t + 1000000000))

-- The two limits of `expiry`, which it meets.
expiry-limits :
    (now : ℕ) (access : Option ℕ)
    → (expiry now access ≤ now + token_duration)
      × ((a : ℕ) → access ≡ some a → expiry now access ≤ a)
      × ((expiry now access ≡ now + token_duration)
          ⊎ ((a : ℕ) × (access ≡ some a) × (expiry now access ≡ a)))
unfolding expiry
expiry-limits now none = (omega arith, λ a e. absurd (ground arith), inl refl)
expiry-limits now (some x) = elim (Bool-cases (ltb x (now + token_duration))) [
  | inl before ↦ (ground arith, λ a e. ground arith, inr (x, refl, ground arith))
  | inr after ↦ (ground arith, λ a e. ground arith, inl (ground arith))
]

module _ (new_numeric_date : ℕ → ℕ) (cuts : CutsToSeconds new_numeric_date) (lib : TokenLib Claims)
    (s : Signer) (now : ℕ) (user_email username device_id : String) (access : Option ℕ) where
  -- The claims that Sign puts into an identity token, where NewNumericDate cuts a time down to whole
  -- seconds: they expire no later than a minute after they were made, no later than the access token
  -- that they were made for, and less than a second before the first of the two.
  pub expiry_lem :
      (t : ℕ) × ((identity_claims new_numeric_date lib s now user_email username device_id
          access).registered.expires_at
        ≡ some t)
      × (t ≤ now + token_duration)
      × ((a : ℕ) → access ≡ some a → t ≤ a)
      × NearLimit now access t
  unfolding identity_claims NearLimit
  expiry_lem =
      let at = expiry now access in
      let (minute, token, limit) = expiry-limits now access in
      let low = cuts.not_later at in
      let high = cuts.within at in
      (
        new_numeric_date at,
        refl,
        omega (arith, low, minute),
        λ a e. omega (arith, low, token a e),
        elim limit [
          | inl same ↦ inl (omega (arith, high, same))
          | inr (a, given, same) ↦ inr (a, given, omega (arith, high, same))
        ],
      )
