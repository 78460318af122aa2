-- ===== src/Users/Cascade.antt =====
-- What server/internal/usersdb/usersdb.go does to the rows of the users and of their devices.
use auth_middleware.Prelude.{String, ◌≡◌, refl, Bool, ◌||◌, List, [], ◌∷◌, arith, All}
use auth_middleware.Database.{Device, User, Engine, has_user, keep}
use auth_middleware.Database.Rows.{HasOwner}
use auth_middleware.Users.{keep_users, removed_users, owned_by_removed}

-- A user is kept or removed.
pub has_user-parts :
    (e : Engine) (gone : User → Bool) (email : String) (us : List User)
    → has_user e email us
      ≡ (has_user e email (keep_users gone us) || has_user e email (removed_users gone us))
unfolding has_user keep_users removed_users
has_user-parts e gone email [] = refl
has_user-parts e gone email (u ∷ us) = ground (arith, has_user-parts e gone email us)

-- The devices that a deletion leaves belong to users that it leaves.
pub keep-HasOwner :
    (e : Engine) (gone : User → Bool) (us : List User) (ds : List Device)
    → All (HasOwner e us) ds
    → All (HasOwner e (keep_users gone us)) (keep (owned_by_removed e (removed_users gone us)) ds)
unfolding keep
keep-HasOwner e gone us [] h = tt
keep-HasOwner e gone us (d ∷ ds) (owned, rest) =
    ground (arith, has_user-parts e gone d.user_email us, keep-HasOwner e gone us ds rest)

-- A new user takes no device from its owner.
pub cons-HasOwner :
    (e : Engine) (u : User) (us : List User) (ds : List Device)
    → All (HasOwner e us) ds
    → All (HasOwner e (u ∷ us)) ds
unfolding has_user
cons-HasOwner e u us [] h = tt
cons-HasOwner e u us (d ∷ ds) (owned, rest) = (ground arith, cons-HasOwner e u us ds rest)
