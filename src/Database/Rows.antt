-- ===== src/Database/Rows.antt =====
-- The rows of `auth_user_devices` under the statements, read by `find_device`.
use auth_middleware.Prelude.{
  ℕ, ◌+◌, ◌≤◌, ◌<◌, String, ◌≡◌, refl, inl, inr, Bool, true, false, Bool-cases, Option, none, some,
  List, [], ◌∷◌, arith, ◌==◌, eq_iff, eq_refl, All, contains, if◌then◌else◌,
}
use auth_middleware.Database.{
  Device, User, Engine, int4_max, has_user, find_device, raise_generation, keep, removed,
}

-- PRIMARY KEY (device_id)
abbrev pub Unique : List Device → Type 0
Unique [] = Unit {0}
Unique (d ∷ ds) = (find_device d.device_id ds ≡ none) × Unique ds

abbrev pub raised : Bool → ℕ → Option Device → Option Device
raised hit now none = none
raised hit now (some d) =
    if hit then some (record d { generation = d.generation + 1; updated_at = now }) else some d

pub find_device-raise_generation :
    (id j : String) (now : ℕ) (ds : List Device)
    → find_device j (raise_generation id now ds) ≡ raised (id == j) now (find_device j ds)
unfolding find_device raise_generation
find_device-raise_generation id j now [] = refl
find_device-raise_generation id j now (d ∷ ds) = ground (
  arith,
  find_device-raise_generation id j now ds,
  eq_iff id j,
  eq_iff d.device_id id,
  eq_iff d.device_id j,
)

pub raise_generation-Unique :
    (id : String) (now : ℕ) (ds : List Device) → Unique ds → Unique (raise_generation id now ds)
unfolding raise_generation
raise_generation-Unique id now [] u = tt
raise_generation-Unique id now (d ∷ ds) (new, u) =
    ground (
      arith,
      raise_generation-Unique id now ds u,
      find_device-raise_generation id d.device_id now ds,
    )

abbrev pub unless : (Device → Bool) → Option Device → Option Device
unless gone none = none
unless gone (some d) = if gone d then none else some d

pub find_device-keep-none :
    (gone : Device → Bool) (j : String) (ds : List Device)
    → find_device j ds ≡ none
    → find_device j (keep gone ds) ≡ none
unfolding find_device keep
find_device-keep-none gone j [] h = refl
find_device-keep-none gone j (d ∷ ds) h = ground (arith, find_device-keep-none gone j ds)

pub find_device-keep :
    (gone : Device → Bool) (j : String) (ds : List Device)
    → Unique ds
    → find_device j (keep gone ds) ≡ unless gone (find_device j ds)
unfolding find_device keep
find_device-keep gone j [] u = refl
find_device-keep gone j (d ∷ ds) (new, u) = ground (
  arith,
  eq_iff d.device_id j,
  find_device-keep gone j ds u,
  find_device-keep-none gone j ds,
  find_device-keep-none gone d.device_id ds,
)

pub keep-Unique : (gone : Device → Bool) (ds : List Device) → Unique ds → Unique (keep gone ds)
unfolding keep
keep-Unique gone [] u = tt
keep-Unique gone (d ∷ ds) (new, u) =
    ground (arith, keep-Unique gone ds u, find_device-keep-none gone d.device_id ds)

pub find_device-id :
    (j : String) (ds : List Device) (d : Device) → find_device j ds ≡ some d → d.device_id ≡ j
unfolding find_device
find_device-id j [] d h = ground arith
find_device-id j (x ∷ ds) d h = ground (arith, eq_iff x.device_id j, find_device-id j ds d)

-- The range of the column, and the foreign key to the users table.
abbrev pub InRange : Device → Type 0
InRange d = (1 ≤ d.generation) × (d.generation ≤ int4_max)

raise_generation_of_none :
    (id : String) (now : ℕ) (ds : List Device)
    → find_device id ds ≡ none
    → raise_generation id now ds ≡ ds
unfolding find_device raise_generation
raise_generation_of_none id now [] h = refl
raise_generation_of_none id now (d ∷ ds) h = ground (arith, raise_generation_of_none id now ds)

pub raise_generation-InRange :
    (id : String) (now : ℕ) (ds : List Device) (d : Device)
    → Unique ds
    → find_device id ds ≡ some d
    → d.generation < int4_max
    → All InRange ds
    → All InRange (raise_generation id now ds)
unfolding find_device raise_generation
raise_generation-InRange id now [] d u f h a = tt
raise_generation-InRange id now (x ∷ ds) d (new, u) f h (r, a) = ground (
  arith,
  eq_iff x.device_id id,
  raise_generation_of_none id now ds,
  raise_generation-InRange id now ds d u,
)

module _ (e : Engine) (users : List User) where
  abbrev pub HasOwner : Device → Type 0
  HasOwner d = has_user e d.user_email users ≡ true

  pub raise_generation-HasOwner :
      (id : String) (now : ℕ) (ds : List Device)
      → All HasOwner ds
      → All HasOwner (raise_generation id now ds)
  unfolding raise_generation
  raise_generation-HasOwner id now [] a = tt
  raise_generation-HasOwner id now (d ∷ ds) (o, a) =
      ground (arith, raise_generation-HasOwner id now ds a)

pub keep-All {ℓ} :
    (P : Device → Type ℓ) (gone : Device → Bool) (ds : List Device)
    → All P ds
    → All P (keep gone ds)
unfolding keep
keep-All P gone [] a = tt
keep-All P gone (d ∷ ds) (p, a) = elim (Bool-cases (gone d)) [
  | inl out ↦ rw (out, keep) (keep-All P gone ds a)
  | inr stays ↦ rw (stays, keep) (p, keep-All P gone ds a)
]

-- Every row that a DELETE removes is among the identifiers that it returns.
pub removed-mem :
    (gone : Device → Bool) (j : String) (ds : List Device) (d : Device)
    → find_device j ds ≡ some d
    → gone d ≡ true
    → contains (removed gone ds) j ≡ true
unfolding find_device removed contains
removed-mem gone j [] d f h = absurd (ground arith)
removed-mem gone j (x ∷ ds) d f h =
    ground (arith, eq_iff x.device_id j, eq_refl j, removed-mem gone j ds d)

-- The row that a DELETE removes, where there is one.
abbrev pub taken : (Device → Bool) → Option Device → Bool
taken gone none = false
taken gone (some d) = gone d

-- An identifier is returned exactly if its row is removed.
pub contains-removed :
    (gone : Device → Bool) (j : String) (ds : List Device)
    → Unique ds
    → contains (removed gone ds) j ≡ taken gone (find_device j ds)
unfolding find_device removed contains
contains-removed gone j [] u = refl
contains-removed gone j (x ∷ ds) (new, u) =
    ground (arith, eq_iff x.device_id j, eq_refl j, contains-removed gone j ds u)
