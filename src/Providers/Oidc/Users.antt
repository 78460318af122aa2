-- ===== src/Providers/Oidc/Users.antt =====
-- Whom the OIDC provider of oauth2/providers/oidc.go lets in.
use auth_middleware.Prelude.{
  not-empty, ℕ, String, ◌≡◌, ◌≢◌, ◌⊎◌, refl, sym, ap, ◌∙◌, inl, inr, Bool, true, false, false≢true,
  not, ◌&&◌, Option, none, some, ◌==◌, eq_iff, if◌then◌else◌, arith, Bool-cases, contains,
}
use auth_middleware.Prelude.State.{Result, ok, err, M, pure}
use auth_middleware.Errors.{Error}
use auth_middleware.Text.{split}
use auth_middleware.Providers.{
  Userinfo, ProviderToken, OAuthConfig, Web, Options, Response, get, check_email, decode_body,
  decode_ok,
}
use auth_middleware.Providers.Answers.{Vouched, check_email-Vouched, checked-ok, decode_ok-ok}
use auth_middleware.Providers.Oidc.{
  Discovery, IdTokenClaims, ClaimsCodec, claims_of, is_expired, claims_in_time, payload_claims,
  payload_part, parse_id_token_claims, validate_id_token_claims, user_of_claims, is_none,
  userinfo_user, fetch_userinfo, from_endpoint, from_claims, from_parsed, from_token, get_user,
}

-- A user with these claims, whose email may be used.
abbrev pub Described : Options → IdTokenClaims → Userinfo → Type 0
Described o c u = (c.sub ≢ "") × Vouched o c.email c.email_verified × (user_of_claims c ≡ u)

userinfo_user-Described :
    (o : Options) (r : Result IdTokenClaims) (u : Userinfo)
    → userinfo_user o r ≡ ok u
    → (c : IdTokenClaims) × (r ≡ ok c) × Described o c u
unfolding userinfo_user
userinfo_user-Described o (err e) u h = absurd (ground arith)
userinfo_user-Described o (ok c) u h = elim (Bool-cases (c.sub == "")) [
  | inl missing ↦ absurd (ground arith)
  | inr present ↦
      let (passed, same) =
        checked-ok (check_email o c.email c.email_verified) (user_of_claims c) u (ground arith) in
      let described : Described o c u =
        (not-empty c.sub present, check_email-Vouched o c.email c.email_verified passed, same) in
      (c, refl, described)
]

module _ {W : Type 0} (web : Web W) (codec : ClaimsCodec) (config : OAuthConfig) (o : Options)
    (d : Discovery) where
  -- The claims of the token's id_token: its payload, of three parts the second, decodes to them, they
  -- are in time, and they name the issuer and the client.
  unfoldable pub FromToken : (now : ℕ) → ProviderToken → Userinfo → Type 0
  FromToken now token u =
      (id_token : String) × (c : IdTokenClaims) × (token.id_token ≡ some id_token)
      × (payload_claims codec (payload_part (split id_token b'.')) ≡ ok c)
      × (is_expired now c.exp ≡ false)
      × (c.iss ≡ d.issuer)
      × (contains c.aud config.client_id ≡ true)
      × Described o c u

  -- The claims that the userinfo endpoint answers to the token.
  unfoldable pub FromEndpoint : ProviderToken → W → Userinfo → Type 0
  FromEndpoint token w u =
      (answer : Response) × (c : IdTokenClaims) × ((web.authorized config token
          (get d.userinfo_endpoint) w).0
        ≡ ok answer)
      × (answer.status ≡ 200)
      × (decode_body (claims_of codec) answer.body ≡ ok c)
      × Described o c u

  from_endpoint-present :
      (token : ProviderToken) (w : W)
      → (d.userinfo_endpoint == "") ≡ false
      → (from_endpoint web codec config o d token w).0
        ≡ userinfo_user o (
            decode_ok "userinfo endpoint returned status"
              (claims_of codec)
              (web.authorized config token (get d.userinfo_endpoint) w).0)
  unfolding from_endpoint fetch_userinfo
  from_endpoint-present token w present = rw (present, from_endpoint)

  from_endpoint-FromEndpoint :
      (token : ProviderToken) (w : W) (u : Userinfo)
      → (from_endpoint web codec config o d token w).0 ≡ ok u
      → FromEndpoint token w u
  unfolding from_endpoint fetch_userinfo FromEndpoint
  from_endpoint-FromEndpoint token w u h = elim (Bool-cases (d.userinfo_endpoint == "")) [
    | inl missing ↦ absurd (ground arith)
    | inr present ↦
        let r = (web.authorized config token (get d.userinfo_endpoint) w).0 in
        let (c, decoded, described) =
          userinfo_user-Described o
            (decode_ok "userinfo endpoint returned status" (claims_of codec) r) u
            (sym (from_endpoint-present token w present) ∙ h) in
        let (answer, got, status, body) =
          decode_ok-ok "userinfo endpoint returned status" (claims_of codec) r c decoded in
        (answer, c, got, status, body, described)
  ]

  validate-ok :
      (c : IdTokenClaims)
      → validate_id_token_claims d config c ≡ none
      → (c.iss ≡ d.issuer) × (contains c.aud config.client_id ≡ true)
  unfolding validate_id_token_claims
  validate-ok c h = elim (Bool-cases (c.iss == d.issuer)) [
    | inl same ↦ ((eq_iff c.iss d.issuer).0 same, ground arith)
    | inr other ↦ absurd (ground arith)
  ]

  claims_in_time-ok :
      (now : ℕ) (r : Result IdTokenClaims) (c : IdTokenClaims)
      → claims_in_time now r ≡ ok c
      → (r ≡ ok c) × (is_expired now c.exp ≡ false)
  unfolding claims_in_time
  claims_in_time-ok now (err e) c h = absurd (ground arith)
  claims_in_time-ok now (ok c') c h = elim (Bool-cases (is_expired now c'.exp)) [
    | inl late ↦ absurd (ground arith)
    | inr in_time ↦
        let same : c' ≡ c = ground arith in
        (ap ok same, sym (ap (λ c. is_expired now c.exp) same) ∙ in_time)
  ]

  parse-ok :
      (now : ℕ) (id_token : String) (c : IdTokenClaims)
      → parse_id_token_claims codec now id_token ≡ ok c
      → (payload_claims codec (payload_part (split id_token b'.')) ≡ ok c)
        × (is_expired now c.exp ≡ false)
  unfolding parse_id_token_claims
  parse-ok now id_token c h =
      claims_in_time-ok now (payload_claims codec (payload_part (split id_token b'.'))) c h

  is_none-none : (e : Option Error) → is_none e ≡ true → e ≡ none
  is_none-none none h = refl
  is_none-none (some e) h = absurd (false≢true h)

  sufficient-Described :
      (c : IdTokenClaims) (u : Userinfo)
      → (not (c.sub == "") && is_none (check_email o c.email c.email_verified)) ≡ true
      → ◌≡◌ {A = Result Userinfo} (ok (user_of_claims c)) (ok u)
      → Described o c u
  sufficient-Described c u h same =
      let passed : is_none (check_email o c.email c.email_verified) ≡ true = ground arith in
      let checked_email = is_none-none (check_email o c.email c.email_verified) passed in
      (
        not-empty c.sub (ground arith),
        check_email-Vouched o c.email c.email_verified checked_email,
        ground arith,
      )

  -- The three steps of GetUser, each at the result of the test before it.
  sufficient-ok :
      (b : Bool) (token : ProviderToken) (c : IdTokenClaims) (w : W) (u : Userinfo)
      → (not (c.sub == "") && is_none (check_email o c.email c.email_verified)) ≡ b
      → (if◌then◌else◌ {A = M W (Result Userinfo)} b
          (pure (ok (user_of_claims c)))
          (from_endpoint web codec config o d token)
          w).0
        ≡ ok u
      → Described o c u ⊎ FromEndpoint token w u
  sufficient-ok true token c w u guard h = inl (sufficient-Described c u guard h)
  sufficient-ok false token c w u guard h = inr (from_endpoint-FromEndpoint token w u h)

  from_claims-ok :
      (e : Option Error) (token : ProviderToken) (c : IdTokenClaims) (w : W) (u : Userinfo)
      → (from_claims web codec config o d token c e w).0 ≡ ok u
      → ((e ≡ none) × Described o c u) ⊎ FromEndpoint token w u
  unfolding from_claims
  from_claims-ok (some e) token c w u h = absurd (ground arith)
  from_claims-ok none token c w u h =
      elim (sufficient-ok (not (c.sub == "") && is_none (check_email o c.email c.email_verified))
        token c w u refl h) [ inl described ↦ inl (refl, described) | inr answered ↦ inr answered ]

  from_parsed-ok :
      (now : ℕ) (r : Result IdTokenClaims) (id_token : String) (token : ProviderToken) (w : W)
      (u : Userinfo)
      → token.id_token ≡ some id_token
      → parse_id_token_claims codec now id_token ≡ r
      → (from_parsed web codec config o d token r w).0 ≡ ok u
      → FromToken now token u ⊎ FromEndpoint token w u
  unfolding from_parsed FromToken
  from_parsed-ok now (err e) id_token token w u given parsed h =
      inr (from_endpoint-FromEndpoint token w u h)
  from_parsed-ok now (ok c) id_token token w u given parsed h =
      elim (from_claims-ok (validate_id_token_claims d config c) token c w u h) [
        | inr answered ↦ inr answered
        | inl (valid, described) ↦
            let (decoded, in_time) = parse-ok now id_token c parsed in
            let (issuer, audience) = validate-ok c valid in
            inl (id_token, c, given, decoded, in_time, issuer, audience, described)
      ]

  present-ok :
      (b : Bool) (now : ℕ) (id_token : String) (token : ProviderToken) (w : W) (u : Userinfo)
      → token.id_token ≡ some id_token
      → (if◌then◌else◌ {A = M W (Result Userinfo)} b
          (from_endpoint web codec config o d token)
          (from_parsed web codec config o d token (parse_id_token_claims codec now id_token))
          w).0
        ≡ ok u
      → FromToken now token u ⊎ FromEndpoint token w u
  present-ok true now id_token token w u given h = inr (from_endpoint-FromEndpoint token w u h)
  present-ok false now id_token token w u given h =
      from_parsed-ok now (parse_id_token_claims codec now id_token) id_token token w u given refl h

  from_token-ok :
      (now : ℕ) (t : Option String) (token : ProviderToken) (w : W) (u : Userinfo)
      → token.id_token ≡ t
      → (from_token web codec config o d now token t w).0 ≡ ok u
      → FromToken now token u ⊎ FromEndpoint token w u
  unfolding from_token
  from_token-ok now none token w u given h = inr (from_endpoint-FromEndpoint token w u h)
  from_token-ok now (some t) token w u given h = present-ok (t == "") now t token w u given h

  -- A user that the OIDC provider's GetUser returns has a subject and an email, which is verified or
  -- need not be. The claims that say so come from the token's id_token, and then they are in time and
  -- name the issuer of the discovery document and this client, or they come from the userinfo
  -- endpoint, which answered this token with status 200.
  pub get_user-Described :
      (now : ℕ) (token : ProviderToken) (w : W) (u : Userinfo)
      → (get_user web codec config o d now token w).0 ≡ ok u
      → FromToken now token u ⊎ FromEndpoint token w u
  unfolding get_user
  get_user-Described now token w u h = from_token-ok now token.id_token token w u refl h
