-- ===== src/Users/Deletion.antt =====
-- What a deletion by server/internal/usersdb/usersdb.go leaves of a user.
use auth_middleware.Prelude.{
  String, ◌≡◌, ◌↔◌, refl, sym, ap, ◌∙◌, subst, Bool, true, false, false≢true, ◌||◌, List, [], ◌∷◌,
  arith, Bool-cases, inl, inr, All,
}
use auth_middleware.Prelude.State.{Result, ok}
use auth_middleware.Database.{Device, User, Tables, Engine, run, has_user, keep}
use auth_middleware.Database.Rows.{HasOwner}
use auth_middleware.Database.Devices.{run_cases}
use auth_middleware.Database.Invariant.{WellFormed}
use auth_middleware.Users.{
  Store, keep_users, removed_users, owned_by_removed, delete_users, delete_user,
}
use auth_middleware.Users.Cascade.{has_user-parts}

module _ (e : Engine) (email : String) where
  abbrev same : User → Bool
  same u = e.same_email u.email email

  no_user_left : (us : List User) → has_user e email (keep_users same us) ≡ false
  unfolding has_user keep_users
  no_user_left [] = refl
  no_user_left (u ∷ us) = ground (arith, no_user_left us)

  -- The email's user and devices are gone.
  pub record Gone (t : Tables) : Type 0 where
    pub user : has_user e email t.users ≡ false
    pub devices : All (λ d. e.same_email d.user_email email ≡ false) t.devices

  module _ (equal : (a b : String) → (e.same_email a b ≡ true) ↔ (a ≡ b)) where
    -- A device of the user goes with the user.
    goes :
        (us : List User) (d : Device)
        → HasOwner e us d
        → e.same_email d.user_email email ≡ true
        → owned_by_removed e (removed_users same us) d ≡ true
    goes us d owned its =
        let its_email = (equal d.user_email email).0 its in
        let removed =
          sym (ap (λ b. b || has_user e email (removed_users same us)) (no_user_left us))
          ∙ sym (has_user-parts e same email us)
          ∙ sym (ap (λ m. has_user e m us) its_email)
          ∙ owned in
        ap (λ m. has_user e m (removed_users same us)) its_email ∙ removed

    no_device_left :
        (us : List User) (ds : List Device)
        → All (HasOwner e us) ds
        → All
            (λ d. e.same_email d.user_email email ≡ false)
            (keep (owned_by_removed e (removed_users same us)) ds)
    unfolding keep
    no_device_left us [] h = tt
    no_device_left us (d ∷ ds) (owned, rest) =
        elim (Bool-cases (owned_by_removed e (removed_users same us) d)) [
          | inl lost ↦ rw (lost, keep) (no_device_left us ds rest)
          | inr stays ↦
              rw (stays, keep)
                (
                  (elim (Bool-cases (e.same_email d.user_email email)) [
                    | inl its ↦ absurd (false≢true (sym stays ∙ goes us d owned its))
                    | inr other ↦ other
                  ]),
                  no_device_left us ds rest,
                )
        ]

    delete_users-Gone : (t : Tables) → WellFormed e t → Gone (delete_users e email t).1
    unfolding delete_users
    delete_users-Gone t v = record {
      user = no_user_left t.users;
      devices = no_device_left t.users t.devices v.owned;
    }

    delete_user-managed :
        (s : Store) (t : Tables)
        → s.external ≡ false
        → run (delete_users e email) t ≡ delete_user e s email t
    unfolding delete_user
    delete_user-managed s t managed = rw (managed, delete_user)

    -- After DeleteUser of a store that manages its users has returned no error, no user with the
    -- email is left, and no device of theirs, if every device had an owner before and equal emails
    -- are equal texts, as they are for the type TEXT of the managed table.
    pub delete_user-Gone :
        (s : Store) (t t' : Tables)
        → s.external ≡ false
        → WellFormed e t
        → delete_user e s email t ≡ (ok tt, t')
        → Gone t'
    unfolding delete_user
    delete_user-Gone s t t' managed v h =
        run_cases (λ (r : Result (Unit {0}) × Tables). r ≡ (ok tt, t') → Gone t')
          (delete_users e email) t
          (λ fs done. subst Gone (ap (λ (x : Result (Unit {0}) × Tables). x.1) done) (
            delete_users-Gone (record t { faults = fs })
              (record { unique = v.unique; in_range = v.in_range; owned = v.owned })))
          (λ fs why done. absurd (cc done)) (λ fs why done. absurd (cc done))
          (delete_user-managed s t managed ∙ h)
