-- ===== src/Providers/Discovery/Rounds.antt =====
-- When the loop of FetchDiscovery in oauth2/providers/oidc.go ends, and with what.
use mathlib.Core.Option.{some-injective}
use auth_middleware.Prelude.{
  is-not-empty, not-empty, ℕ, zero, suc, ◌<◌, ◌≤◌, refl, String, ◌≡◌, ◌≢◌, sym, ap, subst, ◌∙◌,
  true, false, Option, none, some, arith, Option-cases, inl, inr,
}
use auth_middleware.Prelude.State.{Result, ok, err}
use auth_middleware.Errors.{Error, other}
use auth_middleware.Providers.{Response, Web, get}
use auth_middleware.Providers.Oidc.{Discovery}
use auth_middleware.Providers.Discovery.{
  Context, Fetched, fetched, refused, checked_document, try_fetch_discovery, verdict, round, rounds,
  fetch_discovery, discovery_url, fetched_of, body_of,
}

-- A document that the login can use.
unfoldable pub IsUsable : Discovery → Type 0
IsUsable d = (d.authorization_endpoint ≢ "") × (d.token_endpoint ≢ "") × (d.issuer ≢ "")

checked_document-IsUsable :
    (r : Result Discovery) (d : Discovery) → checked_document r ≡ ok d → IsUsable d
unfolding checked_document IsUsable
checked_document-IsUsable (err e) d h = absurd (ground arith)
checked_document-IsUsable (ok c) d h =
    let same : c ≡ d = ground arith in
    subst IsUsable same (
      not-empty c.authorization_endpoint (ground arith),
      not-empty c.token_endpoint (ground arith),
      not-empty c.issuer (ground arith),
    )

checked_document-ok : (d : Discovery) → IsUsable d → checked_document (ok d) ≡ ok d
unfolding checked_document IsUsable
checked_document-ok d (authorization, token, issuer) =
    let a = is-not-empty d.authorization_endpoint authorization in
    let t = is-not-empty d.token_endpoint token in
    let i = is-not-empty d.issuer issuer in ground arith

-- A round that the loop tries again: no answer, a body that cannot be read, too many requests, or an
-- error of the server.
pub data Passing : Result Response → Type 0 where
  unsent : (e : Error) → Passing (err e)
  unread : (r : Response) (e : Error) → r.status ≡ 200 → r.body ≡ err e → Passing (ok r)
  too_many : (r : Response) → r.status ≡ 429 → Passing (ok r)
  broken : (r : Response) → 500 ≤ r.status → Passing (ok r)

module _ {W : Type 0} (web : Web W) (context : Context W) (decode : String → Result Discovery) where
  module _ (url : String) where
    -- the request of a round
    abbrev pub answer : W → Result Response × W
    answer = context.limited (web.send (get url))

    -- `n` rounds fail in a way that may pass, and the next one brings the document `d`, all before
    -- the context is done.
    unfoldable pub Recovers : (n : ℕ) → W → Discovery → Type 0
    Recovers zero w d =
        (context.done w ≡ none)
        × (web.refuses url ≡ none)
        × (r : Response) × ((answer w).0 ≡ ok r)
        × (r.status ≡ 200)
        × (body : String) × (r.body ≡ ok body)
        × (decode body ≡ ok d)
    Recovers (suc n) w d =
        (context.done w ≡ none)
        × (web.refuses url ≡ none)
        × Passing (answer w).0
        × Recovers n (context.wait (answer w).1) d

    fetched_answer :
        (w : W) (r : Response) (body : String)
        → web.refuses url ≡ none
        → (answer w).0 ≡ ok r
        → r.status ≡ 200
        → r.body ≡ ok body
        → (try_fetch_discovery web context decode url w).0 ≡ fetched body
    unfolding try_fetch_discovery fetched_of body_of
    fetched_answer w r body free got status read = ground arith

    fetched_of-Passing :
        (r : Result Response) → Passing r → (e : Error) × (fetched_of r ≡ refused true e)
    unfolding fetched_of body_of
    fetched_of-Passing _ (unsent e) = (e, refl)
    fetched_of-Passing _ (unread r e status cut) = (e, ground arith)
    fetched_of-Passing _ (too_many r status) =
        (other "discovery endpoint returned status", ground arith)
    fetched_of-Passing _ (broken r status) =
        (other "discovery endpoint returned status", ground arith)

    transient_answer :
        (w : W)
        → web.refuses url ≡ none
        → Passing (answer w).0
        → (e : Error) × (try_fetch_discovery web context decode url w
            ≡ (refused true e, (answer w).1))
    unfolding try_fetch_discovery
    transient_answer w free passing =
        let (e, same) = fetched_of-Passing (answer w).0 passing in (e, ground arith)

    -- The context is done after at most `n` rounds.
    unfoldable pub EndsWithin : (n : ℕ) → W → Type 0
    EndsWithin zero w = (e : Error) × (context.done w ≡ some e)
    EndsWithin (suc n) w =
        EndsWithin n (context.wait (try_fetch_discovery web context decode url w).1)

    -- The equations of a round and of the loop.
    round-running :
        (w : W) (v : Option (Result Discovery))
        → context.done w ≡ none
        → verdict web context decode (try_fetch_discovery web context decode url w).0 ≡ v
        → round web context decode url w ≡ (v, (try_fetch_discovery web context decode url w).1)
    unfolding round
    round-running w v running e = rw (running, e, round)

    round-done :
        (w : W) (e : Error)
        → context.done w ≡ some e
        → round web context decode url w ≡ (some (err e), w)
    unfolding round
    round-done w e done = rw (done, round)

    rounds-some :
        (fuel : ℕ) (w w' : W) (d : Result Discovery)
        → round web context decode url w ≡ (some d, w')
        → rounds web context decode (suc fuel) url w ≡ (some d, w')
    unfolding rounds
    rounds-some fuel w w' d e = rw (e, rounds) (ap (λ p. (some d, p.1)) e)

    rounds-none :
        (fuel : ℕ) (w w' : W)
        → round web context decode url w ≡ (none, w')
        → rounds web context decode (suc fuel) url w
          ≡ rounds web context decode fuel url (context.wait w')
    unfolding rounds
    rounds-none fuel w w' e =
        rw (e, rounds) (ap (λ p. rounds web context decode fuel url (context.wait p.1)) e)

    rounds-Recovers :
        (fuel n : ℕ) (w : W) (d : Discovery)
        → n < fuel
        → IsUsable d
        → Recovers n w d
        → (rounds web context decode fuel url w).0 ≡ some (ok d)
    unfolding rounds round Recovers verdict
    rounds-Recovers zero n w d h usable r = absurd (omega arith)
    rounds-Recovers (suc fuel) zero w d h usable
          (running, free, r, got, status, body, read, decoded) =
        ap (λ p. p.0)
          (rounds-some fuel w _ (ok d) (
            round-running w (some (ok d)) running (
              ap (verdict web context decode) (fetched_answer w r body free got status read)
              ∙ ap (λ r. some (checked_document r)) decoded
              ∙ ap some (checked_document-ok d usable))))
    rounds-Recovers (suc fuel) (suc n) w d h usable (running, free, passing, r) =
        let (e, failed) = transient_answer w free passing in
        ap (λ p. p.0)
          (rounds-none fuel w _ (
            round-running w none running
              (ap (λ (p : Fetched × W). verdict web context decode p.0) failed)))
        ∙ ap (λ (p : Fetched × W). (rounds web context decode fuel url (context.wait p.1)).0) failed
        ∙ rounds-Recovers fuel n _ d (omega arith) usable r

    err-ok :
        (e : Error) (d : Discovery)
        → ◌≡◌ {A = Option (Result Discovery)} (some (err e)) (some (ok d))
        → ⊥
    err-ok e d h = absurd (ground arith)

    verdict-IsUsable :
        (f : Fetched) (d : Discovery) → verdict web context decode f ≡ some (ok d) → IsUsable d
    unfolding verdict
    verdict-IsUsable (fetched body) d h =
        checked_document-IsUsable (decode body) d (some-injective _ _ h)
    verdict-IsUsable (refused true e) d h = absurd (ground arith)
    verdict-IsUsable (refused false e) d h = absurd (err-ok e d h)

    rounds-IsUsable :
        (fuel : ℕ) (w : W) (d : Discovery)
        → (rounds web context decode fuel url w).0 ≡ some (ok d)
        → IsUsable d
    unfolding rounds round verdict
    rounds-IsUsable zero w d h = absurd (ground arith)
    rounds-IsUsable (suc fuel) w d h = elim (Option-cases (context.done w)) [
      | inr (e, done) ↦ absurd (
          err-ok e d (sym (ap (λ p. p.0) (rounds-some fuel w w (err e) (round-done w e done))) ∙ h))
      | inl running ↦
          let f = (try_fetch_discovery web context decode url w).0 in
          elim (Option-cases (verdict web context decode f)) [
            | inr (r, e) ↦ verdict-IsUsable f d (
                e
                ∙ sym (ap (λ p. p.0) (rounds-some fuel w _ r (round-running w (some r) running e)))
                ∙ h)
            | inl e ↦
                rounds-IsUsable fuel _ d
                  (sym (ap (λ p. p.0) (rounds-none fuel w _ (round-running w none running e))) ∙ h)
          ]
    ]

    rounds-EndsWithin :
        (n : ℕ) (w : W)
        → EndsWithin n w
        → (r : Result Discovery) × ((rounds web context decode (suc n) url w).0 ≡ some r)
    unfolding rounds round verdict EndsWithin
    rounds-EndsWithin zero w (e, done) =
        (err e, ap (λ p. p.0) (rounds-some 0 w w (err e) (round-done w e done)))
    rounds-EndsWithin (suc n) w h = elim (Option-cases (context.done w)) [
      | inr (e, done) ↦
          (err e, ap (λ p. p.0) (rounds-some (suc n) w w (err e) (round-done w e done)))
      | inl running ↦
          let f = (try_fetch_discovery web context decode url w).0 in
          elim (Option-cases (verdict web context decode f)) [
            | inr (d, e) ↦
                (d, ap (λ p. p.0) (rounds-some (suc n) w _ d (round-running w (some d) running e)))
            | inl e ↦
                let (r, ended) = rounds-EndsWithin n _ h in
                (
                  r,
                  ap (λ p. p.0) (rounds-none (suc n) w _ (round-running w none running e)) ∙ ended,
                )
          ]
    ]

  -- FetchDiscovery goes on while the endpoint fails in a way that may pass: if in a number of rounds
  -- the request fails, the body cannot be read, or the status is 429 or at least 500, the round after
  -- them brings with status 200 a document with its two endpoints and its issuer, and the context is
  -- not done at the start of any of these rounds, then the loop ends with this document. Any other
  -- status would end the loop with an error, and is not among these rounds.
  pub fetch_discovery-Recovers :
      (fuel n : ℕ) (issuer_url : String) (w : W) (d : Discovery)
      → n < fuel
      → IsUsable d
      → Recovers (discovery_url issuer_url) n w d
      → (fetch_discovery web context decode fuel issuer_url w).0 ≡ some (ok d)
  unfolding fetch_discovery
  fetch_discovery-Recovers fuel n issuer_url w d =
      rounds-Recovers (discovery_url issuer_url) fuel n w d

  -- FetchDiscovery ends: if the context is done after at most a number of rounds, the loop has a
  -- result, a document or an error, by the round after these.
  pub fetch_discovery-EndsWithin :
      (n : ℕ) (issuer_url : String) (w : W)
      → EndsWithin (discovery_url issuer_url) n w
      → (r : Result Discovery) × ((fetch_discovery web context decode (suc n) issuer_url w).0
          ≡ some r)
  unfolding fetch_discovery
  fetch_discovery-EndsWithin n issuer_url = rounds-EndsWithin (discovery_url issuer_url) n

  -- A document that FetchDiscovery returns has an authorization endpoint, a token endpoint and an
  -- issuer, whatever the number of rounds was.
  pub fetch_discovery-IsUsable :
      (fuel : ℕ) (issuer_url : String) (w : W) (d : Discovery)
      → (fetch_discovery web context decode fuel issuer_url w).0 ≡ some (ok d)
      → IsUsable d
  unfolding fetch_discovery
  fetch_discovery-IsUsable fuel issuer_url = rounds-IsUsable (discovery_url issuer_url) fuel
