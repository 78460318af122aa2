-- ===== src/Jwt/Verify.antt =====
-- What verifyToken of jwt/jwt.go accepts, and which error it gives otherwise.
use auth_middleware.Prelude.{
  ℕ, String, ◌≡◌, refl, subst, ◌∙◌, ◌≢◌, ◌↔◌, inl, inr, true, false, Option, none, arith, pos,
  eqb_ℤ, eqb_ℤ_iff, Bool-cases, ◌&&◌, if◌then◌else◌,
}
use auth_middleware.Prelude.State.{Result, ok, err}
use auth_middleware.Errors.{
  Error, invalid_token, token_revoked, device_not_found, invalid_signature, is_invalid_token,
  is_device_not_found,
}
use auth_middleware.Jwt.Library.{LibError, Parsed, parsed, malformed, Outcome, TokenLib}
use auth_middleware.Jwt.{
  Database, Options, Kind, Verified, verified, refused, has_token_type, key_of, parser_options,
  check_outcome, check_secret, verify_token, is_nil, is_signature_invalid,
}

-- The error for a parser's failure.
failure_error : Option LibError → Error
failure_error f = if is_signature_invalid f then invalid_signature else invalid_token

-- The error for a database's failure.
device_error : Error → Error
device_error e = if is_device_not_found e then device_not_found else invalid_token

-- The errors of the checks before the generation.
abbrev pub IsEarly : Error → Type 0
IsEarly e = (is_invalid_token e ≡ true) × (e ≢ token_revoked)

failure_error-IsEarly : (f : Option LibError) → IsEarly (failure_error f)
unfolding failure_error
failure_error-IsEarly f = ground arith

device_error-IsEarly : (e : Error) → IsEarly (device_error e)
unfolding device_error
device_error-IsEarly e = ground arith

module _ {W C : Type 0} (db : Database W) (lib : TokenLib C) (kind : Kind C) (m : Options) (now : ℕ)
    (token : String) (w : W) where
  -- The checks of `verifyToken` up to the generation: the token's type, the device's secret and
  -- generation, and the parser's verdict under that secret. `claimed` is read before the signature
  -- is checked, and `c` by the check.
  pub record Passes (claimed c : C) (secret : String) (gen : ℕ) (w' : W) : Type 0 where
    pub typ : Option String
    pub parses : lib.parse_unverified token ≡ parsed typ claimed
    pub typed : has_token_type typ kind.token_type ≡ true
    pub device : db.get_device_secret (kind.device_id claimed) w ≡ (ok (secret, gen), w')
    pub checked :
        lib.parse_with_claims token claimed (key_of secret) (parser_options m) now
        ≡ record { claims = c; failure = none; valid = true }

  -- Where the checks pass, the generation decides.
  verify_token-of_Passes :
      {claimed c : C} {secret : String} {gen : ℕ} {w' : W}
      → Passes claimed c secret gen w'
      → verify_token db lib kind m now token w ≡ (
        if eqb_ℤ (kind.generation claimed) (pos gen)
            then verified c secret
            else refused c token_revoked,
        w',
      )
  unfolding verify_token
  verify_token-of_Passes p = ground arith

  -- A run of `verifyToken`: an early error, or the checks pass and the generation decides.
  pub data Inspection (v : Verified C) (w' : W) : Type 0 where
    early : (c : C) (e : Error) → v ≡ refused c e → IsEarly e → Inspection v w'
    passed :
        (claimed c : C) (secret : String) (gen : ℕ)
        → Passes claimed c secret gen w'
        → v ≡ (
            if eqb_ℤ (kind.generation claimed) (pos gen)
            then verified c secret
            else refused c token_revoked)
        → Inspection v w'

  module _ {typ : Option String} {claimed : C}
      (parses : lib.parse_unverified token ≡ parsed typ claimed)
      (typed : has_token_type typ kind.token_type ≡ true) where
    inspect_outcome :
        (secret : String) (gen : ℕ) {w' : W}
        → db.get_device_secret (kind.device_id claimed) w ≡ (ok (secret, gen), w')
        → (o : Outcome C)
        → lib.parse_with_claims token claimed (key_of secret) (parser_options m) now ≡ o
        → Inspection (check_outcome (kind.generation claimed) gen secret o) w'
    unfolding check_outcome failure_error
    inspect_outcome secret gen de o oe = elim (Bool-cases (is_nil o.failure && o.valid)) [
      | inl fine ↦
          passed claimed o.claims secret gen
            (record {
              typ = typ;
              parses = parses;
              typed = typed;
              device = de;
              checked = ground arith;
            })
            (ground arith)
      | inr bad ↦
          early o.claims (failure_error o.failure) (ground arith) (failure_error-IsEarly o.failure)
    ]

    inspect_device :
        (r : Result (String × ℕ)) {w' : W}
        → db.get_device_secret (kind.device_id claimed) w ≡ (r, w')
        → Inspection (check_secret lib kind m now token claimed r) w'
    unfolding check_secret device_error
    inspect_device (err e) de =
        early claimed (device_error e) (ground arith) (device_error-IsEarly e)
    inspect_device (ok (secret, gen)) de = inspect_outcome secret gen de _ refl

  inspect_parsed :
      (p : Parsed C)
      → lib.parse_unverified token ≡ p
      → let run = verify_token db lib kind m now token w in Inspection run.0 run.1
  unfolding verify_token
  inspect_parsed (malformed c) pe = rw (pe, verify_token) (early c invalid_token refl (refl, cc))
  inspect_parsed (parsed typ claimed) pe = elim (Bool-cases (has_token_type typ kind.token_type)) [
    | inl typed ↦ rw (pe, verify_token, typed) (inspect_device pe typed _ refl)
    | inr other ↦ rw (pe, verify_token, other) (early claimed invalid_token refl (refl, cc))
  ]

  pub inspect : let run = verify_token db lib kind m now token w in Inspection run.0 run.1
  inspect = inspect_parsed (lib.parse_unverified token) refl

  inspect_result :
      {v : Verified C} {w' : W} → verify_token db lib kind m now token w ≡ (v, w') → Inspection v w'
  inspect_result h = subst (λ r. Inspection r.0 r.1) h inspect

  accepted :
      {c : C} {secret : String} {w' : W} {v : Verified C}
      → Inspection v w'
      → v ≡ verified c secret
      → (claimed : C) × (gen : ℕ) × Passes claimed c secret gen w'
        × (kind.generation claimed ≡ pos gen)
  accepted (early d e ve _) vc = absurd (ground arith)
  accepted (passed claimed d s gen p ve) vc = (
    claimed,
    gen,
    ground (arith, eqb_ℤ_iff (kind.generation claimed) (pos gen)),
    ground (arith, eqb_ℤ_iff (kind.generation claimed) (pos gen)),
  )

  revoked :
      {c : C} {w' : W} {v : Verified C}
      → Inspection v w'
      → v ≡ refused c token_revoked
      → (claimed : C) × (secret : String) × (gen : ℕ) × Passes claimed c secret gen w'
        × (kind.generation claimed ≢ pos gen)
  revoked (early d e ve (_, ne)) vc = absurd (ne (ground arith))
  revoked (passed claimed d s gen p ve) vc = (
    claimed,
    s,
    gen,
    ground (arith, eqb_ℤ_iff (kind.generation claimed) (pos gen)),
    ground (arith, eqb_ℤ_iff (kind.generation claimed) (pos gen)),
  )

  refused-is_invalid_token :
      {c : C} {w' : W} {v : Verified C} {e : Error}
      → Inspection v w'
      → v ≡ refused c e
      → is_invalid_token e ≡ true
  refused-is_invalid_token (early d e ve (i, _)) vc = ground arith
  refused-is_invalid_token (passed claimed d s gen p ve) vc = ground arith

  -- A token is accepted exactly when its type is the expected one, the database has a secret for
  -- its device, the parser finds it valid under that secret and the configured options, and its
  -- generation is the device's; the secret returned is the device's.
  pub verify_token-accepts_iff :
      (c : C) (secret : String) (w' : W)
      → (verify_token db lib kind m now token w ≡ (verified c secret, w')) ↔ (
          (claimed : C) × (gen : ℕ) × Passes claimed c secret gen w'
          × (kind.generation claimed ≡ pos gen))
  verify_token-accepts_iff c secret w' = (
    λ h. accepted (inspect_result h) refl,
    λ (claimed, gen, p, e).
        verify_token-of_Passes p ∙ ground (arith, eqb_ℤ_iff (kind.generation claimed) (pos gen)),
  )

  -- An accepted token: its device's secret is returned, and its generation is the device's.
  pub verify_token-device :
      (typ : Option String) (claimed c : C) (secret : String) (w' : W)
      → lib.parse_unverified token ≡ parsed typ claimed
      → verify_token db lib kind m now token w ≡ (verified c secret, w')
      → (gen : ℕ) × (db.get_device_secret (kind.device_id claimed) w ≡ (ok (secret, gen), w'))
        × (kind.generation claimed ≡ pos gen)
  verify_token-device typ claimed c secret w' pe h =
      let (claimed', gen, p, current) = accepted (inspect_result h) refl in
      let same : claimed' ≡ claimed = cc (p.parses, pe) in
      (
        gen,
        subst (λ x. db.get_device_secret (kind.device_id x) w ≡ (ok (secret, gen), w')) same
            p.device,
        subst (λ x. kind.generation x ≡ pos gen) same current,
      )

  -- `ErrTokenRevoked` is returned exactly when every other check passes and only the generation
  -- differs from the device's.
  pub verify_token-revoked_iff :
      (c : C) (w' : W)
      → (verify_token db lib kind m now token w ≡ (refused c token_revoked, w')) ↔ (
          (claimed : C) × (secret : String) × (gen : ℕ) × Passes claimed c secret gen w'
          × (kind.generation claimed ≢ pos gen))
  verify_token-revoked_iff c w' = (
    λ h. revoked (inspect_result h) refl,
    λ (claimed, secret, gen, p, e).
        verify_token-of_Passes p ∙ ground (arith, eqb_ℤ_iff (kind.generation claimed) (pos gen)),
  )

  -- Every error that `verifyToken` returns is an `ErrInvalidToken` under `errors.Is`.
  pub verify_token-is_invalid_token :
      (c : C) (e : Error) (w' : W)
      → verify_token db lib kind m now token w ≡ (refused c e, w')
      → is_invalid_token e ≡ true
  verify_token-is_invalid_token c e w' h = refused-is_invalid_token (inspect_result h) refl

  -- A token that parses with another type than the expected one is refused before the database is
  -- asked.
  pub verify_token_of_other_type :
      (typ : Option String) (claimed : C)
      → lib.parse_unverified token ≡ parsed typ claimed
      → has_token_type typ kind.token_type ≡ false
      → verify_token db lib kind m now token w ≡ (refused claimed invalid_token, w)
  unfolding verify_token
  verify_token_of_other_type typ claimed pe te = rw (pe, verify_token, te)
