-- ===== src/Providers/Discovery.antt =====
-- oauth2/providers/oidc.go: FetchDiscovery. Its loop runs on fuel, one unit for each round; what
-- ends it in the program is the context, whose state is a part of the world.
pub mod Rounds
use Prim.Native.Char.{code}
use Prim.Native.String.{[], ◌∷◌}
use auth_middleware.Prelude.{
  ℕ, zero, suc, String, Bool, true, false, ◌||◌, Option, none, some, leb, eqb, ◌==◌, if◌then◌else◌,
}
use auth_middleware.Prelude.State.{Result, ok, err, M, pure, ◌>>=◌}
use auth_middleware.Errors.{Error, other}
use auth_middleware.Text.{append}
use auth_middleware.Providers.{Response, Web, get, send_new}
use auth_middleware.Providers.Oidc.{Discovery}

-- strings.TrimRight(s, "/")
unfoldable pub trim_slashes : String → String
trim_slashes [] = []
trim_slashes (c ∷ s) =
    let rest = trim_slashes s in
    if eqb (code c) b'/' then (if rest == "" then "" else c ∷ rest) else c ∷ rest

unfoldable pub discovery_url : (issuer_url : String) → String
unfolding trim_slashes
discovery_url issuer_url = append (trim_slashes issuer_url) "/.well-known/openid-configuration"

-- The three results of tryFetchDiscovery
pub data Fetched : Type 0 where
  fetched : (body : String) → Fetched
  refused : (retryable : Bool) → Error → Fetched

unfoldable pub body_of : Result String → Fetched
body_of (err e) = refused true e
body_of (ok body) = fetched body

unfoldable pub fetched_of : Result Response → Fetched
unfolding body_of
fetched_of (err e) = refused true e
fetched_of (ok r) =
    if eqb r.status 200
    then body_of r.body
    else refused (leb 500 r.status || eqb r.status 429) (other "discovery endpoint returned status")

-- the document that a body holds, with its three checks
unfoldable pub checked_document : Result Discovery → Result Discovery
checked_document (err e) = err e
checked_document (ok d) =
    if (d.authorization_endpoint == "") || (d.token_endpoint == "")
    then err (other "discovery document missing required endpoints")
    else if d.issuer == ""
    then err (other "discovery document missing issuer")
    else ok d

-- The context: its error once it is done, the wait between two rounds, and the limit of 5 seconds
-- for one round, which makes an error of a request, or of the reading of its body, that takes longer.
pub record Context (W : Type 0) : Type 0 where
  pub done : W → Option Error
  pub wait : W → W
  pub limited : M W (Result Response) → M W (Result Response)

module _ {W : Type 0} (web : Web W) (context : Context W) (decode : String → Result Discovery) where
  -- tryFetchDiscovery
  unfoldable pub try_fetch_discovery : (url : String) → M W Fetched
  unfolding fetched_of send_new get
  try_fetch_discovery url w = elim (web.refuses url) [
    | some e ↦ (refused false e, w)
    | none ↦ (do r ← context.limited (web.send (get url)); pure (fetched_of r)) w
  ]

  -- what follows a round: `none` if there is another one
  unfoldable pub verdict : Fetched → Option (Result Discovery)
  unfolding checked_document
  verdict (fetched body) = some (checked_document (decode body))
  verdict (refused true e) = none
  verdict (refused false e) = some (err e)

  -- a round of the loop
  unfoldable pub round : (url : String) → M W (Option (Result Discovery))
  unfolding verdict try_fetch_discovery
  round url w = elim (context.done w) [
    | some e ↦ (some (err e), w)
    | none ↦ let (f, w') = try_fetch_discovery url w in (verdict f, w')
  ]

  -- the loop; `none` if it has not ended yet
  unfoldable pub rounds : (fuel : ℕ) (url : String) → M W (Option (Result Discovery))
  unfolding round
  rounds zero url w = (none, w)
  rounds (suc fuel) url w =
      let (v, w') = round url w in
      elim v [ some d ↦ (some d, w') | none ↦ rounds fuel url (context.wait w') ]

  -- FetchDiscovery
  unfoldable pub fetch_discovery :
      (fuel : ℕ) (issuer_url : String) → M W (Option (Result Discovery))
  unfolding rounds discovery_url
  fetch_discovery fuel issuer_url = rounds fuel (discovery_url issuer_url)
