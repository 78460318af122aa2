-- ===== src/OAuthClient/Issuer.antt =====
-- What an OIDC client of oauth2/oauthclient/client.go asks for and accepts.
use mathlib.Core.Option.{none-ne-some}
use auth_middleware.Prelude.{
  is-not-empty, not-empty, ℕ, String, ◌≡◌, ◌≢◌, ◌⊎◌, ◌↔◌, refl, subst, inl, inr, Bool, true, false,
  Option, none, some, List, ◌∷◌, ◌==◌, eq_iff, if◌then◌else◌, arith, Bool-cases, contains,
}
use auth_middleware.Prelude.State.{Result, ok, err}
use auth_middleware.Providers.{Web, Options}
use auth_middleware.Providers.Oidc.{Discovery, ClaimsCodec}
use auth_middleware.Providers.Discovery.{Context, fetch_discovery}
use auth_middleware.Providers.Discovery.Rounds.{IsUsable, fetch_discovery-IsUsable}
use auth_middleware.OAuthClient.{
  Client, OidcConfig, oidc_scopes, oidc_config_of, oidc_client, discovered, new_oidc,
  validate_issuer,
}

openid-first :
    (b : Bool) (scopes : List String)
    → contains scopes "openid" ≡ b
    → contains (if b then scopes else "openid" ∷ scopes) "openid" ≡ true
unfolding contains
openid-first true scopes h = h
openid-first false scopes h = refl

oidc_scopes-openid : (scopes : List String) → contains (oidc_scopes scopes) "openid" ≡ true
unfolding oidc_scopes
oidc_scopes-openid scopes = openid-first (contains scopes "openid") scopes refl

-- An issuer that an authorization response may name, where the server has this document.
unfoldable pub Accepts : Discovery → (iss : String) → Type 0
Accepts d iss = ((iss ≡ "") × (d.iss_parameter_supported ≡ false)) ⊎ ((iss ≢ "") × (iss ≡ d.issuer))

-- What NewOIDC makes of a document.
unfoldable pub Follows : {W : Type 0} → Discovery → Client W → (iss : String) → Type 0
Follows d c iss =
    (contains c.config.scopes "openid" ≡ true)
    × (c.config.auth_url ≡ d.authorization_endpoint)
    × (c.config.token_url ≡ d.token_endpoint)
    × ((validate_issuer c iss ≡ none) ↔ Accepts d iss)

validate_issuer_iff :
    {W : Type 0} (c : Client W) (d : Discovery) (iss : String)
    → d.issuer ≢ ""
    → c.issuer ≡ d.issuer
    → c.require_issuer ≡ d.iss_parameter_supported
    → (validate_issuer c iss ≡ none) ↔ Accepts d iss
unfolding validate_issuer Accepts
validate_issuer_iff c d iss named same_issuer same_flag =
    let issued = is-not-empty d.issuer named in
    elim (Bool-cases (iss == "")) [
      | inl missing ↦
          let none_given = (eq_iff iss "").0 missing in
          (
            λ h. inl (none_given, ground arith),
            λ a. elim a [
              | inl (_, free) ↦ ground arith
              | inr (given, _) ↦ absurd (given none_given)
            ],
          )
      | inr given ↦ (
        λ h. inr (not-empty iss given, (eq_iff iss d.issuer).0 (ground arith)),
        λ a. elim a [
          | inl (e, _) ↦ absurd (not-empty iss given e)
          | inr (_, same) ↦ let equal = (eq_iff iss d.issuer).1 same in ground arith
        ],
      )
    ]

module _ {W : Type 0} (web : Web W) (context : Context W) (decode : String → Result Discovery)
    (codec : ClaimsCodec) where
  discovered-ok :
      (now : ℕ) (cfg : OidcConfig) (o : Options) (r : Option (Result Discovery)) (c : Client W)
      → discovered web codec now cfg o r ≡ some (ok c)
      → (d : Discovery) × (r ≡ some (ok d)) × (oidc_client web codec now cfg o d ≡ c)
  unfolding discovered
  discovered-ok now cfg o none c h = absurd (none-ne-some (ok c) h)
  discovered-ok now cfg o (some (err e)) c h = absurd (ground arith)
  discovered-ok now cfg o (some (ok d)) c h = (d, refl, ground arith)

  client-Accepts :
      (now : ℕ) (cfg : OidcConfig) (o : Options) (d : Discovery) (iss : String)
      → d.issuer ≢ ""
      → Follows d (oidc_client web codec now cfg o d) iss
  unfolding oidc_client oidc_config_of Follows
  client-Accepts now cfg o d iss named = (
    oidc_scopes-openid cfg.scopes,
    refl,
    refl,
    validate_issuer_iff (oidc_client web codec now cfg o d) d iss named refl refl,
  )

  -- A client that NewOIDC makes follows the document that FetchDiscovery returned: it asks for the
  -- scope "openid", has the document's endpoints, and its ValidateIssuer lets a response pass exactly
  -- when it names the issuer of the document, or when it names none and the document does not say that
  -- responses do.
  pub new_oidc-Accepts :
      (fuel now : ℕ) (cfg : OidcConfig) (o : Options) (w : W) (c : Client W) (iss : String)
      → (new_oidc web context decode codec fuel now cfg o w).0 ≡ some (ok c)
      → (d : Discovery) × ((fetch_discovery web context decode fuel cfg.issuer_url w).0
          ≡ some (ok d))
        × Follows d c iss
  unfolding new_oidc IsUsable
  new_oidc-Accepts fuel now cfg o w c iss h =
      let r = (fetch_discovery web context decode fuel cfg.issuer_url w).0 in
      let (d, found, same) = discovered-ok now cfg o r c h in
      let (_, _, named) =
        fetch_discovery-IsUsable web context decode fuel cfg.issuer_url w d found in
      (
        d,
        found,
        subst (λ (c : Client W). Follows d c iss) same (client-Accepts now cfg o d iss named),
      )
