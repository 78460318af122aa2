-- ===== src/Handlers/Session/Access.antt =====
-- Which requests Verify and DeleteMe of server/internal/handlers/session/session.go let through.
use auth_middleware.Prelude.{
  ℕ, String, ◌≡◌, refl, ◌↔◌, inl, inr, none, some, arith, ap, sym, ◌∙◌, Option-cases, ◌≢◌,
}
use auth_middleware.Prelude.State.{Result, ok, err, M, pure, ◌>>=◌}
use auth_middleware.Jwt.{AccessClaims, JwtLib, Verified, verified, refused, verify_access}
use auth_middleware.Jwt.Library.{TokenLib}
use auth_middleware.Identity.{Claims, Signer, sign}
use auth_middleware.Handlers.Response.{
  Writer, fresh, set_header, write_header, json, set_auth_error, unauthorized,
}
use auth_middleware.Handlers.RefreshToken.{Request, clear_cookie}
use auth_middleware.Handlers.Session.{
  Handler, bearer_token, verify, delete_me, with_access, invalid_access, forward, plain_headers,
  signed_header, delete_user, finish_delete,
}

module _ {W : Type 0} (lib : JwtLib) (identity_lib : TokenLib Claims) (h : Handler W) (now : ℕ)
    (r : Request) where
  -- The request has a bearer token that is accepted.
  pub record Authorized (w : W) (claims : AccessClaims) (w' : W) : Type 0 where
    pub token : String
    pub secret : String
    pub bearer : bearer_token r ≡ some token
    pub accepted :
        verify_access h.jwt_db lib h.jwt_options now token w ≡ (verified claims secret, w')

  -- What becomes of the claims: there is no signer, or it signs.
  pub data Forwardable (claims : AccessClaims) : Type 0 where
    plain : h.identity_signer ≡ none → Forwardable claims
    signed :
        (signer : Signer) (token : String)
        → h.identity_signer ≡ some signer
        → sign lib.new_numeric_date identity_lib signer now claims.user_email claims.username
            claims.device_id claims.registered.expires_at
          ≡ ok token
        → Forwardable claims

  forward-status :
      (claims : AccessClaims)
      → (forward lib identity_lib h now claims h.identity_signer fresh).status ≡ some 204
      → Forwardable claims
  unfolding forward write_header plain_headers signed_header
  forward-status claims s = elim (Option-cases h.identity_signer) [
    | inl missing ↦ plain missing
    | inr (signer, there) ↦ at_signed signer there _ refl
  ]
    where
      at_signed :
          (signer : Signer)
          → h.identity_signer ≡ some signer
          → (t : Result String)
          → sign lib.new_numeric_date identity_lib signer now claims.user_email claims.username
              claims.device_id claims.registered.expires_at
            ≡ t
          → Forwardable claims
      at_signed signer there (ok token) signs = signed signer token there signs
      at_signed signer there (err e) signs = absurd (ground arith)

  forward_of_Forwardable :
      (claims : AccessClaims)
      → Forwardable claims
      → (forward lib identity_lib h now claims h.identity_signer fresh).status ≡ some 204
  unfolding forward write_header plain_headers signed_header set_header
  forward_of_Forwardable claims (plain missing) = ground arith
  forward_of_Forwardable claims (signed signer token there signs) = ground arith

  with_access_of_Authorized :
      (k : AccessClaims → M W Writer) (claims : AccessClaims) (w w1 : W)
      → Authorized w claims w1
      → with_access lib identity_lib h now (bearer_token r) k w ≡ k claims w1
  unfolding with_access invalid_access
  with_access_of_Authorized k claims w w1 a = rw (a.bearer, with_access, a.accepted) refl

  module _ (k : AccessClaims → M W Writer) (x : Writer) (w w' : W)
      (let_through : x.status ≢ some 401) where
    invalid_access-through :
        (token : String)
        → bearer_token r ≡ some token
        → (v : Verified AccessClaims) (w1 : W)
        → verify_access h.jwt_db lib h.jwt_options now token w ≡ (v, w1)
        → invalid_access lib identity_lib h now v k w1 ≡ (x, w')
        → (claims : AccessClaims) × (w2 : W) × Authorized w claims w2 × (k claims w2 ≡ (x, w'))
    unfolding invalid_access unauthorized set_auth_error json write_header set_header
    invalid_access-through token bearer (refused c e) w1 hv done =
        absurd (let_through (ap (λ (y : Writer × W). y.0.status) (sym done) ∙ ground arith))
    invalid_access-through token bearer (verified claims secret) w1 hv done = (
      claims,
      w1,
      record { token = token; secret = secret; bearer = bearer; accepted = hv },
      done,
    )

    -- A request that is not answered with 401 was authorized.
    with_access-through :
        with_access lib identity_lib h now (bearer_token r) k w ≡ (x, w')
        → (claims : AccessClaims) × (w1 : W) × Authorized w claims w1 × (k claims w1 ≡ (x, w'))
    unfolding with_access unauthorized json write_header set_header
    with_access-through done = elim (Option-cases (bearer_token r)) [
      | inl missing ↦ absurd (
          let_through (
            ap (λ (y : Writer × W). y.0.status) (sym (rw (missing, with_access) at done))
            ∙ ground arith))
      | inr (token, bearer) ↦
          let run = verify_access h.jwt_db lib h.jwt_options now token w in
          invalid_access-through token bearer run.0 run.1 refl (rw (bearer, with_access) at done)
    ]

  -- Verify answers 204 exactly when the request has a bearer token that is accepted as an access
  -- token and, where there is a signer, the identity header could be signed.
  pub verify-allows_iff :
      (w : W)
      → ((verify lib identity_lib h now r w).0.status ≡ some 204)
        ↔ ((claims : AccessClaims) × (w1 : W) × Authorized w claims w1 × Forwardable claims)
  unfolding verify
  verify-allows_iff w = (
    λ s.
        let run = verify lib identity_lib h now r w in
        let (claims, w1, a, same) =
          with_access-through (λ c. pure (forward lib identity_lib h now c h.identity_signer fresh))
            run.0 w run.1 (λ no. absurd (ground arith)) refl in
        (claims, w1, a, forward-status claims (ap (λ (y : Writer × W). y.0.status) same ∙ s)),
    λ (claims, w1, a, f).
        ap (λ (y : Writer × W). y.0.status)
          (with_access_of_Authorized
            (λ c. pure (forward lib identity_lib h now c h.identity_signer fresh)) claims w w1 a)
        ∙ forward_of_Forwardable claims f,
  )

  -- The devices and then the user were deleted.
  unfoldable pub Removes : AccessClaims → (w w' : W) → Type 0
  Removes claims w w' =
      (w2 : W) × (h.db.delete_all_devices claims.user_email w ≡ (ok tt, w2))
      × (h.users_db.delete_user claims.user_email w2 ≡ (ok tt, w'))

  abbrev removing : AccessClaims → M W Writer
  removing claims = do
    removed ← h.db.delete_all_devices claims.user_email
    delete_user lib identity_lib h now claims.user_email removed

  delete_user-ok :
      (claims : AccessClaims) (x : Writer) (w w2 w' : W) (removed : Result (Unit {0}))
      → h.db.delete_all_devices claims.user_email w ≡ (removed, w2)
      → delete_user lib identity_lib h now claims.user_email removed w2 ≡ (x, w')
      → x.status ≡ some 200
      → Removes claims w w'
  unfolding delete_user finish_delete json write_header set_header Removes
  delete_user-ok claims x w w2 w' (err e) hr done s = absurd (ground arith)
  delete_user-ok claims x w w2 w' (ok u) hr done s =
      at_deleted (h.users_db.delete_user claims.user_email w2).0 _ refl done
    where
      at_deleted :
          (d : Result (Unit {0})) (w3 : W)
          → h.users_db.delete_user claims.user_email w2 ≡ (d, w3)
          → ◌≡◌ {A = Writer × W} (finish_delete lib identity_lib h now d, w3) (x, w')
          → Removes claims w w'
      at_deleted (err e) w3 hd same = absurd (ground arith)
      at_deleted (ok u) w3 hd same = (w2, hr, hd ∙ ap (λ (y : Writer × W). (ok tt, y.1)) same)

  removing_of_Removes :
      (claims : AccessClaims) (w w' : W)
      → Removes claims w w'
      → (removing claims w).0.status ≡ some 200
  unfolding delete_user finish_delete json write_header set_header Removes clear_cookie
  removing_of_Removes claims w w' (w2, hr, hd) = rw (hr, delete_user, hd) refl

  -- DeleteMe answers 200 exactly when the request is authorized, the deletion of the user's devices
  -- reported no error, and then the deletion of the user reported none.
  pub delete_me-ok_iff :
      (w : W)
      → ((delete_me lib identity_lib h now r w).0.status ≡ some 200) ↔ (
          (claims : AccessClaims) × (w1 : W) × (w' : W) × Authorized w claims w1
          × Removes claims w1 w')
  unfolding delete_me
  delete_me-ok_iff w = (
    λ s.
        let run = delete_me lib identity_lib h now r w in
        let (claims, w1, a, same) =
          with_access-through removing run.0 w run.1 (λ no. absurd (ground arith)) refl in
        let removed = h.db.delete_all_devices claims.user_email w1 in
        (
          claims,
          w1,
          run.1,
          a,
          delete_user-ok claims run.0 w1 removed.1 run.1 removed.0 refl same s,
        ),
    λ (claims, w1, w', a, removes).
        ap (λ (y : Writer × W). y.0.status) (with_access_of_Authorized removing claims w w1 a)
        ∙ removing_of_Removes claims w1 w' removes,
  )
