-- ===== src/Config/Load/Sound.antt =====
-- The readers of server/internal/config/config.go: what a value is known to satisfy if no error is left.
use Prim.Native.String.{[], ◌∷◌}
use auth_middleware.Prelude.{
  ℕ, ◌≤◌, String, ◌≡◌, refl, sym, ◌∙◌, Bool, true, false, Option, none, some, List, leb, leb→le,
  ◌==◌, if◌then◌else◌, arith, no_items, append-one_of, ℤ, pos, negsuc,
}
use auth_middleware.Prelude.State.{pure, ◌>>=◌, ◌>>◌}
use auth_middleware.Text.{to_lower, trim_space}
use auth_middleware.Config.Duration.{max_int64, parse_duration, parse_int}
use auth_middleware.Config.Duration.Exact.{parse_duration-exact, exact_duration, in_range}
use auth_middleware.Config.Load.{
  Problem, Reader, fail, integer, duration, fail_if, atoi, read_integer, read_duration, unsigned,
  negative, positive, invalid_integer, invalid_duration,
}

-- An action whose errors stay away only if there were none before, and its result is good.
pub record Sound {A : Type 0} (m : Reader A) (Good : A → Type 0) : Type 0 where
  pub result_of :
      (before : List Problem) → (m before).1 ≡ no_items → (before ≡ no_items) × Good (m before).0

module _ {A : Type 0} {Good : A → Type 0} where
  pub pure-Sound : (a : A) → Good a → Sound (pure a) Good
  pure-Sound a good = record { result_of = λ before h. (h, good) }

  module _ {B : Type 0} {Good' : B → Type 0} where
    pub bind-Sound :
        {m : Reader A} {f : A → Reader B}
        → Sound m Good
        → ((a : A) → Sound (f a) (λ b. Good a → Good' b))
        → Sound (m >>= f) Good'
    bind-Sound {m} {f} first next = record {
      result_of = λ before h.
          let (quiet, later) = (next (m before).0).result_of (m before).1 h in
          let (none_before, good) = first.result_of before quiet in (none_before, later good);
    }

pub map-Sound :
    {A : Type 0} {Good Good' : A → Type 0} {m : Reader A}
    → Sound m Good
    → ((a : A) → Good a → Good' a)
    → Sound m Good'
map-Sound {m = m} sound weaken = record {
  result_of =
      λ before h. let (quiet, good) = sound.result_of before h in (quiet, weaken (m before).0 good);
}

module _ {A : Type 0} {Good : A → Type 0} where
  pub fail-Sound : (p : Problem) (a : A) → Sound (fail p >> pure a) Good
  unfolding fail
  fail-Sound p a = record { result_of = λ before h. absurd (append-one_of before p h) }

pub if-Sound :
    {A : Type 0} {Good : A → Type 0} {m n : Reader A} (b : Bool)
    → (b ≡ true → Sound m Good)
    → (b ≡ false → Sound n Good)
    → Sound (if b then m else n) Good
if-Sound true yes_sound no_sound = yes_sound refl
if-Sound false yes_sound no_sound = no_sound refl

pub fail_if-Sound : (c : Bool) (p : Problem) → Sound (fail_if c p) (λ _. c ≡ false)
unfolding fail_if fail
fail_if-Sound true p = record { result_of = λ before h. absurd (append-one_of before p h) }
fail_if-Sound false p = pure-Sound tt refl

read_integer-Sound :
    (key value : String) (fallback : ℕ) (o : Option ℤ)
    → fallback ≤ max_int64
    → ((n : ℕ) → o ≡ some (pos n) → n ≤ max_int64)
    → Sound (read_integer key value fallback o) (λ n. n ≤ max_int64)
unfolding read_integer
read_integer-Sound key value fallback none small _ = fail-Sound (invalid_integer key value) fallback
read_integer-Sound key value fallback (some (pos n)) small bound = pure-Sound n (bound n refl)
read_integer-Sound key value fallback (some (negsuc n)) small _ =
    fail-Sound (invalid_integer key value) fallback

unsigned-bound : (s : String) (n : ℕ) → positive (unsigned s) ≡ some (pos n) → n ≤ max_int64
unfolding unsigned parse_int
unsigned-bound s n h = ground arith

negative-bound : (s : String) (n : ℕ) → negative s ≡ some (pos n) → n ≤ max_int64
unfolding negative
negative-bound s n h = ground arith

atoi-bound : (s : String) (n : ℕ) → atoi s ≡ some (pos n) → n ≤ max_int64
unfolding atoi
atoi-bound [] n h = ground arith
atoi-bound (c ∷ s) n h =
    ground (arith, unsigned-bound s n, unsigned-bound (c ∷ s) n, negative-bound s n)

pub integer-Sound :
    (env : String → String) (key : String) (fallback : ℕ)
    → leb fallback max_int64 ≡ true
    → Sound (integer env key fallback) (λ n. n ≤ max_int64)
unfolding integer
integer-Sound env key fallback small =
    if-Sound (env key == "") (λ _. pure-Sound fallback (leb→le fallback max_int64 small))
      (λ _.
        read_integer-Sound key (env key) fallback (atoi (trim_space (env key)))
          (leb→le fallback max_int64 small) (atoi-bound (trim_space (env key))))

in_range-bound : (o : Option ℕ) (d : ℕ) → in_range o ≡ some d → d ≤ max_int64
in_range-bound none d h = ground arith
in_range-bound (some n) d h = ground arith

read_duration-Sound :
    (key value : String) (fallback : ℕ) (o : Option ℕ)
    → fallback ≤ max_int64
    → ((d : ℕ) → o ≡ some d → d ≤ max_int64)
    → Sound (read_duration key value fallback o) (λ d. d ≤ max_int64)
unfolding read_duration
read_duration-Sound key value fallback none small _ =
    fail-Sound (invalid_duration key value) fallback
read_duration-Sound key value fallback (some d) small bound = pure-Sound d (bound d refl)

parse_duration-bound :
    (value : String) (bare_unit d : ℕ) → parse_duration value bare_unit ≡ some d → d ≤ max_int64
parse_duration-bound value bare_unit d h =
    in_range-bound (exact_duration (to_lower (trim_space value)) bare_unit) d
      (sym (parse_duration-exact value bare_unit) ∙ h)

pub duration-Sound :
    (env : String → String) (key : String) (fallback bare_unit : ℕ)
    → leb fallback max_int64 ≡ true
    → Sound (duration env key fallback bare_unit) (λ d. d ≤ max_int64)
unfolding duration
duration-Sound env key fallback bare_unit small =
    if-Sound (env key == "") (λ _. pure-Sound fallback (leb→le fallback max_int64 small))
      (λ _.
        read_duration-Sound key (env key) fallback (parse_duration (env key) bare_unit)
          (leb→le fallback max_int64 small) (parse_duration-bound (env key) bare_unit))
