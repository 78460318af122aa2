-- ===== src/Revocation.antt =====
-- The tokens of jwt/jwt.go over the database of server/internal/cache/device/cached_db.go, among
-- the steps of other callers.
use auth_middleware.Prelude.{
  ℕ, String, ◌≡◌, ◌≢◌, ap, sym, subst, ◌∙◌, true, Option, none, some, arith,
}
use auth_middleware.Prelude.State.{Result, ok}
use auth_middleware.Database.{Engine}
use auth_middleware.Database.Rows.{Unique}
use auth_middleware.Database.Invariant.{WellFormed}
use auth_middleware.Database.Absence.{Drawn}
use auth_middleware.Cache.Secrets.{SecretCache, SecretCacheLaws}
use auth_middleware.Cache.CachedDb.{
  CachedDb, get_device_secret, update_device_secret, delete_device,
}
use auth_middleware.Cache.Interleaving.{Steps}
use auth_middleware.Cache.Interleaving.Rotation.{StoredAt}
use auth_middleware.Cache.Interleaving.Single.{
  single-raised, Behind, get-at_most, get-held, get-Steps, get-loads, update-next, Steps-WellFormed,
}
use auth_middleware.Cache.Interleaving.Deletion.{Owned, delete_device-refused}
use auth_middleware.Jwt.{
  Database, Options, Kind, verified, verify_token, RefreshClaims, JwtLib, refresh_kind, key_of,
  parser_options, verify_refresh,
}
use auth_middleware.Jwt.Issue.{rotated, rotate_refresh}
use auth_middleware.Jwt.Sessions.{rotate_refresh-Rotation}
use auth_middleware.Jwt.Library.{Outcome, TokenLib, parsed}
use auth_middleware.Jwt.Verify.{verify_token-device, verify_token-accepts_iff}

module _ {C : Type 0} (e : Engine) (cache : SecretCache C) where
  -- the `jwt.Database` that main.go hands to NewJWTManager
  abbrev pub jwt_database : Database (CachedDb C)
  jwt_database = record {
    update_device_secret = update_device_secret e cache;
    get_device_secret = get_device_secret e cache;
  }

  pub deleted_device_refused :
      (laws : SecretCacheLaws cache) {T : Type 0} (lib : TokenLib T) (kind : Kind T) (m : Options)
      (now : ℕ) (token user_email c : String) (claimed claims : T) (secret : String)
      (w w' v v' : CachedDb C)
      → e.parse_uuid (kind.device_id claimed) ≡ some c
      → Unique w.tables.devices
      → Owned e user_email c w
      → Drawn e c w'.tables
      → w.loads (kind.device_id claimed) ≡ none
      → delete_device e cache user_email (kind.device_id claimed) w ≡ (ok tt, w')
      → Steps e cache w' v
      → (typ : Option String) → lib.parse_unverified token ≡ parsed typ claimed
      → verify_token jwt_database lib kind m now token v ≢ (verified claims secret, v')
  deleted_device_refused laws lib kind m now token user_email c claimed claims secret w w' v v'
        canonical u o n idle h steps typ pe accepted =
      let (gen, device, _) =
        verify_token-device jwt_database lib kind m now token v typ claimed claims secret v' pe
          accepted in
      delete_device-refused e cache laws user_email (kind.device_id claimed) c w w' v secret gen
        canonical u o n idle h steps (ap (λ (r : Result (String × ℕ) × CachedDb C). r.0) device)

  module _ (laws : SecretCacheLaws cache) (lib : JwtLib) (m : Options) (now : ℕ) (token : String)
      (typ : Option String) (claimed : RefreshClaims)
      (parses : lib.refresh.parse_unverified token ≡ parsed typ claimed)
      -- ParseWithClaims decodes the same claims from the same text.
      (decodes_alike : (secret : String)
        → (lib.refresh.parse_with_claims token claimed
            (key_of secret)
            (parser_options m)
            now).claims
          ≡ claimed) where
    accepted-claimed :
        (claims : RefreshClaims) (secret : String) (w w' : CachedDb C)
        → verify_refresh jwt_database lib m now token w ≡ (verified claims secret, w')
        → claims ≡ claimed
    unfolding verify_refresh
    accepted-claimed claims secret w w' h =
        let (cl, gen, p, _) =
          (verify_token-accepts_iff jwt_database lib.refresh refresh_kind m now token w claims
              secret w').0
            h in
        let at : cl ≡ claimed = cc (p.parses, parses) in
        let checked =
          subst
            (λ (x : RefreshClaims).
              lib.refresh.parse_with_claims token x (key_of secret) (parser_options m) now
              ≡ record { claims = claims; failure = none; valid = true })
            at p.checked in
        sym (ap (λ (o : Outcome RefreshClaims). o.claims) checked) ∙ decodes_alike secret

    -- After RotateRefresh, one step here, has returned a new token, the token it was called with
    -- is not accepted any more, whatever other callers do in between and at any later time. The
    -- conditions: the identifier in the token is a UUID and drawn no more, the tables meet the
    -- constraints, the parser decodes the same claims from the same text, and before the rotation
    -- a cached generation of the device was not ahead of its row's and no load of its secret was
    -- under way.
    pub rotated_token_refused :
        (later : ℕ) (token' c : String) (claims claims' : RefreshClaims) (secret : String)
        (w w' v v' : CachedDb C)
        → e.parse_uuid claimed.device_id ≡ some c
        → WellFormed e w.tables
        → Drawn e c w.tables
        → Behind e cache laws claimed.device_id c w
        → w.loads claimed.device_id ≡ none
        → rotate_refresh lib m now jwt_database token w ≡ (rotated token' claims', w')
        → Steps e cache w' v
        → verify_refresh jwt_database lib m later token v ≢ (verified claims secret, v')
    unfolding verify_refresh
    rotated_token_refused later token' c claims claims' secret w w' v v' canonical wf new behind
          idle h steps again =
        let r = rotate_refresh-Rotation lib m now jwt_database token w w' token' claims' h in
        let (gen0, first, current) =
          verify_token-device jwt_database lib.refresh refresh_kind m now token w typ claimed
            r.claims r.secret r.between parses r.accepted in
        let (gen', second, current') =
          verify_token-device jwt_database lib.refresh refresh_kind m later token v typ claimed
            claims secret v' parses again in
        let id = claimed.device_id in
        let same = accepted-claimed r.claims r.secret w r.between r.accepted in
        let raised =
          subst
            (λ (x : RefreshClaims).
              update_device_secret e cache x.device_id r.between ≡ (ok r.gen, w'))
            same r.raised in
        let sound =
          subst (StoredAt e cache laws 0 c) (λ i. (first i).1)
            (Steps-WellFormed e cache laws c (get-Steps e cache laws id w) wf new) in
        let (d, found, next) = update-next e cache laws id c r.gen r.between w' canonical raised in
        let most =
          get-at_most e cache laws id c w r.between r.secret gen0 d canonical behind idle first
            found in
        let least =
          single-raised e cache laws id c r.gen r.between w' v secret gen' canonical
            sound.well_formed sound.drawn
            (get-held e cache laws id w r.between (r.secret, gen0) first)
            (subst (λ (x : Result (String × ℕ) × CachedDb C). x.1.loads id ≡ none) first
              (get-loads e cache laws id w idle))
            raised steps (λ i. (second i).0) in
        ground arith
