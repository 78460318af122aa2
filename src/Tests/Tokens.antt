-- ===== src/Tests/Tokens.antt =====
-- The theorems on jwt/jwt.go at the one token of the tests.
use auth_middleware.Prelude.{ℕ, String, ◌≡◌, ◌≢◌, ◌↔◌, refl, true, pos}
use auth_middleware.Prelude.State.{ok}
use auth_middleware.Errors.{token_revoked, is_invalid_token}
use auth_middleware.Jwt.{
  Database, RefreshClaims, verified, refused, verify_token, refresh_kind, access_kind,
}
use auth_middleware.Jwt.Issue.{rotate_refresh, new_refresh_claims}
use auth_middleware.Jwt.Sessions.{Rotation, rotate_refresh-Rotation}
use auth_middleware.Jwt.Verify.{
  Passes, verify_token-accepts_iff, verify_token-revoked_iff, verify_token-is_invalid_token,
}
use auth_middleware.Tests.{lib, options, refresh_claims}

-- a database with one secret, and a generation that does not change
abbrev pub at_generation : ℕ → Database (Unit {0})
at_generation gen = record {
  update_device_secret = λ id w. (ok gen, w);
  get_device_secret = λ id w. (ok ("s", gen), w);
}

verify_token-accepts_iff_example :
    (verify_token (at_generation 1) lib.refresh refresh_kind options 0 "old" tt
      ≡ (verified refresh_claims "s", tt))
    ↔ ((claimed : RefreshClaims) × (gen : ℕ) × Passes
          (at_generation 1)
          lib.refresh
          refresh_kind
          options
          0
          "old"
          tt
          claimed
          refresh_claims
          "s"
          gen
          tt
        × (claimed.generation ≡ pos gen))
verify_token-accepts_iff_example =
    verify_token-accepts_iff (at_generation 1) lib.refresh refresh_kind options 0 "old" tt
      refresh_claims "s" tt

verify_token-revoked_iff_example :
    (verify_token (at_generation 2) lib.refresh refresh_kind options 0 "old" tt
      ≡ (refused refresh_claims token_revoked, tt))
    ↔ ((claimed : RefreshClaims) × (secret : String) × (gen : ℕ) × Passes
          (at_generation 2)
          lib.refresh
          refresh_kind
          options
          0
          "old"
          tt
          claimed
          refresh_claims
          secret
          gen
          tt
        × (claimed.generation ≢ pos gen))
verify_token-revoked_iff_example =
    verify_token-revoked_iff (at_generation 2) lib.refresh refresh_kind options 0 "old" tt
      refresh_claims tt

verify_token-is_invalid_token_example : is_invalid_token token_revoked ≡ true
unfolding verify_token auth_middleware.Jwt.has_token_type auth_middleware.Text.cut_prefix
verify_token-is_invalid_token_example =
    verify_token-is_invalid_token (at_generation 2) lib.refresh refresh_kind options 0 "old" tt
      refresh_claims token_revoked tt refl

rotate_refresh-Rotation_example :
    Rotation lib options 0
      (at_generation 1)
      "old"
      tt
      "new"
      (new_refresh_claims lib options 0 "a@b.c" "d1" 1)
      tt
unfolding rotate_refresh verify_token auth_middleware.Jwt.has_token_type
    auth_middleware.Text.cut_prefix
rotate_refresh-Rotation_example =
    rotate_refresh-Rotation lib options 0 (at_generation 1) "old" tt tt "new"
      (new_refresh_claims lib options 0 "a@b.c" "d1" 1) refl
