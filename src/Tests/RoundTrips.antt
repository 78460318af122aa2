-- ===== src/Tests/RoundTrips.antt =====
-- The round trips of tokens with a library that signs one value of claims, with one secret.
use auth_middleware.Prelude.{
  ℕ, ◌*◌, ◌/◌, String, ◌≡◌, refl, ap, Bool, true, false, ◌&&◌, Option, none, some, List, [], ◌∷◌,
  arith, pos, eqb, eqb_ℤ, eqb_ℤ_iff, ◌==◌, eq_iff, if◌then◌else◌,
}
use auth_middleware.Prelude.State.{Result, ok, err}
use auth_middleware.Errors.{sign_failed}
use auth_middleware.Jwt.{
  Database, RefreshClaims, AccessClaims, JwtLib, verified, verify_refresh, verify_access,
}
use auth_middleware.Jwt.Library.{
  Registered, Alg, hmac, ParserOption, token_signature_invalid, parsed, Outcome, TokenLib,
}
use auth_middleware.Jwt.Issue.{new_refresh_claims, new_access_claims}
use auth_middleware.Jwt.RoundTrip.{
  RoundTrips, Renewed, accepts, generate_refresh-accepted, rotate_refresh-accepted,
  generate_access-accepted,
}
use auth_middleware.Tests.{one_token, options, registered}
use auth_middleware.Tests.Tokens.{at_generation}

-- NewNumericDate cuts a time down to a whole second.
abbrev cut : ℕ → ℕ
cut t = t / 1000000000 * 1000000000

is_secret : Result String → Bool
is_secret (err _) = false
is_secret (ok s) = s == "s"

module _ {C : Type 0} (typ : String) (the : C) (registered_of : C → Registered)
    (same : C → Bool) where
  abbrev checks : C → (Alg → Result String) → List ParserOption → ℕ → Outcome C
  checks read key os now =
      if is_secret (key hmac) && accepts os (registered_of the) now
      then record { claims = the; failure = none; valid = true }
      else record { claims = read; failure = some token_signature_invalid; valid = false }

  abbrev signs_one : TokenLib C
  signs_one = record {
    parse_unverified = λ token. parsed (some typ) the;
    parse_with_claims = λ token read key os now. checks read key os now;
    signed_string =
        λ t c secret. if t == typ && secret == "s" && same c then ok "t" else err (sign_failed "");
  }

  signs_one-RoundTrips :
      ((c : C) → same c ≡ true → c ≡ the) → RoundTrips cut signs_one registered_of
  unfolding is_secret
  signs_one-RoundTrips only = record {
    cut_once = λ t. omega arith;
    unverified = λ t secret token c whole h. ground (arith, eq_iff t typ, only c);
    checked = λ t secret token c key os now whole h k a. ground (arith, eq_iff secret "s", only c);
  }

same_audience : List String → Bool
same_audience [] = false
same_audience (a ∷ []) = a == ""
same_audience (a ∷ b ∷ rest) = false

same_time : ℕ → Option ℕ → Bool
same_time t none = false
same_time t (some u) = eqb u t

same_registered : (expires_at : ℕ) → Registered → Bool
same_registered t r =
    r.issuer == ""
    && same_audience r.audience
    && r.subject == "a@b.c"
    && same_time t r.expires_at
    && same_time 0 r.issued_at

abbrev expiring : ℕ → Registered
expiring t = record registered { expires_at = some t }

same_audience-only : (rest : List String) → same_audience rest ≡ true → rest ≡ "" ∷ []
unfolding same_audience
same_audience-only [] h = ground arith
same_audience-only (a ∷ []) h = ap (λ x. x ∷ []) ((eq_iff a "").0 h)
same_audience-only (a ∷ b ∷ rest) h = ground arith

same_time-only : (t : ℕ) (o : Option ℕ) → same_time t o ≡ true → o ≡ some t
unfolding same_time
same_time-only t none h = ground arith
same_time-only t (some u) h = ground arith

same_registered-only : (t : ℕ) (r : Registered) → same_registered t r ≡ true → r ≡ expiring t
unfolding same_registered
same_registered-only t r h = ground (
  arith,
  eq_iff r.issuer "",
  eq_iff r.subject "a@b.c",
  same_audience-only r.audience,
  same_time-only t r.expires_at,
  same_time-only 0 r.issued_at,
)

abbrev week : ℕ
week = 7 * 24 * 60 * 60 * 1000000000

abbrev quarter : ℕ
quarter = 15 * 60 * 1000000000

abbrev refresh_at : ℕ → RefreshClaims
refresh_at gen = record { device_id = "d1"; generation = pos gen; registered = expiring week }

abbrev access_at : ℕ → AccessClaims
access_at gen = record {
  username = "ann";
  user_email = "a@b.c";
  device_id = "d1";
  generation = pos gen;
  registered = expiring quarter;
}

same_refresh : ℕ → RefreshClaims → Bool
same_refresh gen c =
    c.device_id == "d1" && eqb_ℤ c.generation (pos gen) && same_registered week c.registered

same_access : ℕ → AccessClaims → Bool
same_access gen c =
    c.username == "ann"
    && c.user_email == "a@b.c"
    && c.device_id == "d1"
    && eqb_ℤ c.generation (pos gen)
    && same_registered quarter c.registered

same_refresh-only : (gen : ℕ) (c : RefreshClaims) → same_refresh gen c ≡ true → c ≡ refresh_at gen
unfolding same_refresh
same_refresh-only gen c h = ground (
  arith,
  eq_iff c.device_id "d1",
  eqb_ℤ_iff c.generation (pos gen),
  same_registered-only week c.registered,
)

same_access-only : (gen : ℕ) (c : AccessClaims) → same_access gen c ≡ true → c ≡ access_at gen
unfolding same_access
same_access-only gen c h = ground (
  arith,
  eq_iff c.username "ann",
  eq_iff c.user_email "a@b.c",
  eq_iff c.device_id "d1",
  eqb_ℤ_iff c.generation (pos gen),
  same_registered-only quarter c.registered,
)

abbrev registered_refresh : RefreshClaims → Registered
registered_refresh c = c.registered

abbrev registered_access : AccessClaims → Registered
registered_access c = c.registered

abbrev lib_at : ℕ → JwtLib
lib_at gen = record {
  new_numeric_date = cut;
  access = signs_one "access+jwt" (access_at gen) registered_access (same_access gen);
  refresh = signs_one "refresh+jwt" (refresh_at gen) registered_refresh (same_refresh gen);
  registered = one_token "JWT" registered;
}

abbrev refresh_laws : (gen : ℕ) → RoundTrips cut (lib_at gen).refresh registered_refresh
refresh_laws gen =
    signs_one-RoundTrips "refresh+jwt" (refresh_at gen) registered_refresh (same_refresh gen)
      (same_refresh-only gen)

abbrev access_laws : (gen : ℕ) → RoundTrips cut (lib_at gen).access registered_access
access_laws gen =
    signs_one-RoundTrips "access+jwt" (access_at gen) registered_access (same_access gen)
      (same_access-only gen)

generate_refresh-accepted_example :
    verify_refresh (at_generation 1) (lib_at 1) options 7 "t" tt
    ≡ (verified (new_refresh_claims (lib_at 1) options 0 "a@b.c" "d1" 1) "s", tt)
unfolding same_refresh new_refresh_claims auth_middleware.Jwt.Issue.generate_refresh same_registered
    auth_middleware.Jwt.new_jwt_manager same_audience same_time
generate_refresh-accepted_example =
    generate_refresh-accepted (lib_at 1) (refresh_laws 1) options (at_generation 1) 0 7 "t" "a@b.c"
      "d1" "s" 1 tt tt refl (omega arith) refl

abbrev renewed : RefreshClaims
renewed = new_refresh_claims (lib_at 1) options 0 "a@b.c" "d1" 1

rotate_refresh-accepted_example :
    Renewed (lib_at 1) (refresh_laws 1) options (at_generation 1) 0 7 "old" "t" renewed tt tt
unfolding same_refresh new_refresh_claims verify_refresh auth_middleware.Jwt.verify_token
    auth_middleware.Jwt.has_token_type auth_middleware.Text.cut_prefix is_secret
    auth_middleware.Jwt.key_of accepts auth_middleware.Jwt.parser_options
    auth_middleware.Jwt.new_jwt_manager auth_middleware.Jwt.Issue.sign_refresh same_registered
    same_audience same_time auth_middleware.Jwt.Issue.rotate_refresh
rotate_refresh-accepted_example =
    rotate_refresh-accepted (lib_at 1) (refresh_laws 1) options (at_generation 1) 0 7 "old" "t"
      renewed tt tt refl (omega arith)

generate_access-accepted_example :
    verify_access (at_generation 1) (lib_at 1) options 7 "t" tt
    ≡ (verified (new_access_claims (lib_at 1) options 0 (refresh_at 1) "ann") "s", tt)
unfolding same_access new_access_claims verify_refresh auth_middleware.Jwt.verify_token
    auth_middleware.Jwt.has_token_type auth_middleware.Text.cut_prefix is_secret
    auth_middleware.Jwt.key_of accepts auth_middleware.Jwt.parser_options
    auth_middleware.Jwt.new_jwt_manager auth_middleware.Jwt.Issue.generate_access same_registered
    same_audience same_time
generate_access-accepted_example =
    generate_access-accepted (lib_at 1) (access_laws 1) options (at_generation 1) 0 7 "r" "ann" "t"
      "s" (refresh_at 1) 1 tt tt tt tt refl refl (omega arith) refl refl
