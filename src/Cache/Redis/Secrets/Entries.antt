-- ===== src/Cache/Redis/Secrets/Entries.antt =====
-- The entries of server/internal/cache/device/redis.go against the contract of the secret cache.
use Prim.Native.Char.{Char, code}
use Prim.Native.String.{[], ◌∷◌}
use auth_middleware.Prelude.{
  ℕ, ◌≤◌, ◌^◌, ◌||◌, subst, String, ◌≡◌, ◌≢◌, refl, sym, ap, ◌∙◌, true, false, Option, none, some,
  leb, ◌==◌, if◌then◌else◌, ℤ, pos, arith, Bool-cases, inl, inr, not-empty, is-not-empty,
}
use auth_middleware.Prelude.State.{ok}
use auth_middleware.Text.{append, cut}
use auth_middleware.Config.Duration.{
  is_digit, is_digits, digits_value, span_digits, parse_int, max_int64, text_length,
}
use auth_middleware.Config.Load.{atoi, unsigned, positive}
use auth_middleware.Cache.Secrets.{Secret, deleted, newer, live}
use auth_middleware.Cache.Redis.Secrets.{
  ReadSecret, encode_secret, decode_secret, decoded, with_generation, lua_generation, matched,
  keeps, read_entry, set_newer,
}

-- Lua reads a number into a double, which holds every whole number up to 2 ^ 53.
pub record Double (tonumber : ℕ → ℕ) : Type 0 where
  pub exact : (n : ℕ) → n ≤ 2 ^ 53 → tonumber n ≡ n

-- strconv.Itoa prints a natural number in decimal digits.
pub record Decimal (itoa : ℕ → String) : Type 0 where
  pub digits : (n : ℕ) → is_digits (itoa n) ≡ true
  pub present : (n : ℕ) → itoa n ≢ ""
  pub value_of : (n : ℕ) → digits_value 0 (itoa n) ≡ n

digit-bounds : (c : Char) → is_digit c ≡ true → (b'0' ≤ code c) × (code c ≤ b'9')
unfolding is_digit
digit-bounds c h = (ground arith, ground arith)

all-digits :
    (c : Char) (ds : String)
    → is_digits (c ∷ ds) ≡ true
    → (is_digit c ≡ true) × (is_digits ds ≡ true)
unfolding is_digits
all-digits c ds h = (ground arith, ground arith)

cut-digits :
    (ds v : String) → is_digits ds ≡ true → cut (append ds (append ":" v)) b':' ≡ some (ds, v)
unfolding cut is_digits
cut-digits [] v h = refl
cut-digits (c ∷ ds) v h =
    let (digit, rest) = all-digits c ds h in
    let (low, high) = digit-bounds c digit in ground (arith, cut-digits ds v rest)

span_digits-digits :
    (ds v : String)
    → is_digits ds ≡ true
    → span_digits (append ds (append ":" v)) ≡ (ds, append ":" v)
unfolding span_digits is_digits
span_digits-digits [] v h = refl
span_digits-digits (c ∷ ds) v h =
    let (digit, rest) = all-digits c ds h in
    let after = span_digits-digits ds v rest in
    rw digit (ap (λ (p : String × String). (c ∷ p.0, p.1)) after)

matched-digits : (ds v : String) → ds ≢ "" → matched (ds, append ":" v) ≡ some (digits_value 0 ds)
unfolding matched
matched-digits [] v h = absurd (h refl)
matched-digits (c ∷ ds) v h = refl

unsigned-digits :
    (ds : String)
    → is_digits ds ≡ true
    → ds ≢ ""
    → digits_value 0 ds ≤ max_int64
    → unsigned ds ≡ some (digits_value 0 ds)
unfolding unsigned parse_int
unsigned-digits ds h present small = let given = is-not-empty ds present in ground arith

unsigned-atoi :
    (c : Char) (ds : String)
    → code c ≢ b'-'
    → code c ≢ b'+'
    → atoi (c ∷ ds) ≡ positive (unsigned (c ∷ ds))
unfolding atoi
unsigned-atoi c ds minus plus = ground arith

atoi-digits :
    (ds : String)
    → is_digits ds ≡ true
    → ds ≢ ""
    → digits_value 0 ds ≤ max_int64
    → atoi ds ≡ some (pos (digits_value 0 ds))
atoi-digits [] h present small = absurd (present refl)
atoi-digits (c ∷ ds) h present small =
    let (digit, rest) = all-digits c ds h in
    let (low, high) = digit-bounds c digit in
    unsigned-atoi c ds (omega arith) (omega arith)
    ∙ ap positive (unsigned-digits (c ∷ ds) h present small)

decoded-some :
    (generation value : String) (n : ℤ)
    → value ≢ ""
    → atoi generation ≡ some n
    → decoded (some (generation, value)) ≡ some (record { value = value; generation = n })
unfolding decoded with_generation
decoded-some generation value n given read =
    rw (is-not-empty value given, decoded) (ap (with_generation value) read)

append-present : (ds v : String) → append ds (append ":" v) ≢ ""
append-present [] v h = absurd (omega (arith, ap text_length h))
append-present (c ∷ ds) v h = absurd (omega (arith, ap text_length h))

decode_secret-empty : decode_secret "" ≡ none
unfolding decode_secret decoded cut
decode_secret-empty = refl

-- What is in Redis once the script ran.
abbrev pub written : Option String → Option String → Option String
written old none = old
written old (some entry) = some entry

-- A secret as GetSecret decodes it.
abbrev pub as_read : Option Secret → Option ReadSecret
as_read none = none
as_read (some s) = some (record { value = s.value; generation = pos s.generation })

-- a generation that a double holds exactly
abbrev pub InRange : Option Secret → Type 0
InRange none = Unit {0}
InRange (some s) = s.generation ≤ 2 ^ 53

module _ (tonumber : ℕ → ℕ) (double : Double tonumber) (itoa : ℕ → String)
    (decimal : Decimal itoa) where
  -- decodeSecret reads what encodeSecret wrote.
  decode_secret-encode_secret :
      (s : Secret)
      → s.value ≢ ""
      → s.generation ≤ max_int64
      → decode_secret (encode_secret itoa s)
        ≡ some (record { value = s.value; generation = pos s.generation })
  unfolding decode_secret encode_secret decoded
  decode_secret-encode_secret s given small =
      let printed = itoa s.generation in
      let value = decimal.value_of s.generation in
      let read =
        atoi-digits printed (decimal.digits s.generation) (decimal.present s.generation)
          (omega (arith, value, small)) in
      ap decoded (cut-digits printed s.value (decimal.digits s.generation))
      ∙ decoded-some printed s.value (pos s.generation) given (read ∙ ap (λ n. some (pos n)) value)

  lua_generation-encode_secret :
      (s : Secret)
      → s.generation ≤ 2 ^ 53
      → lua_generation tonumber (encode_secret itoa s) ≡ some s.generation
  unfolding lua_generation encode_secret
  lua_generation-encode_secret s small =
      ap number (
        ap matched (span_digits-digits (itoa s.generation) s.value (decimal.digits s.generation))
        ∙ matched-digits (itoa s.generation) s.value (decimal.present s.generation)
        ∙ ap some (decimal.value_of s.generation))
      ∙ ap some (double.exact s.generation small)
    where
      number : Option ℕ → Option ℕ
      number o = elim o [ none ↦ none | some n ↦ some (tonumber n) ]

  -- The text that a secret has in Redis: DeleteSecret leaves the empty text.
  abbrev pub entry_of : Secret → String
  entry_of s = if deleted s then "" else encode_secret itoa s

  abbrev pub entries : Option Secret → Option String
  entries none = none
  entries (some s) = some (entry_of s)

  encode_secret-present : (s : Secret) → (encode_secret itoa s == "") ≡ false
  unfolding encode_secret
  encode_secret-present s =
      is-not-empty (encode_secret itoa s) (append-present (itoa s.generation) s.value)

  keeps-encode_secret :
      (s : Secret) (generation : ℕ)
      → s.generation ≤ 2 ^ 53
      → generation ≤ 2 ^ 53
      → keeps tonumber (encode_secret itoa s) generation ≡ leb generation s.generation
  unfolding keeps
  keeps-encode_secret s generation small bound =
      rw (encode_secret-present s, lua_generation-encode_secret s small, keeps)
        (ap (λ n. leb n s.generation) (double.exact generation bound))

  keeps-empty : (generation : ℕ) → keeps tonumber "" generation ≡ true
  unfolding keeps
  keeps-empty generation = refl

  entry_of-live : (s : Secret) → s.value ≢ "" → entry_of s ≡ encode_secret itoa s
  entry_of-live s given =
      ap (λ b. if b then "" else encode_secret itoa s) (is-not-empty s.value given)

  set_newer-newer :
      (old : Option Secret) (s : Secret)
      → s.value ≢ ""
      → InRange old
      → s.generation ≤ 2 ^ 53
      → written (entries old) (set_newer tonumber (encode_secret itoa s) s.generation (entries old))
        ≡ entries (newer old s)
  unfolding set_newer
  set_newer-newer none s given range bound = ap some (sym (entry_of-live s given))
  set_newer-newer (some c) s given range bound = elim (Bool-cases (deleted c)) [
    | inl gone ↦
        let empty : entry_of c ≡ "" = ap (λ b. if b then "" else encode_secret itoa c) gone in
        let kept : keeps tonumber (entry_of c) s.generation ≡ true =
          ap (λ e. keeps tonumber e s.generation) empty ∙ keeps-empty s.generation in
        ground arith
    | inr live ↦
        let encoded : entry_of c ≡ encode_secret itoa c =
          ap (λ b. if b then "" else encode_secret itoa c) live in
        let kept : keeps tonumber (entry_of c) s.generation ≡ leb s.generation c.generation =
          ap (λ e. keeps tonumber e s.generation) encoded
          ∙ keeps-encode_secret c s.generation range bound in
        let new = entry_of-live s given in
        elim (Bool-cases (leb s.generation c.generation)) [
          | inl older ↦ ground arith
          | inr newest ↦ ground arith
        ]
  ]

  read_entry-live : (o : Option Secret) → InRange o → read_entry (ok (entries o)) ≡ as_read (live o)
  unfolding read_entry
  read_entry-live none small = refl
  read_entry-live (some c) small = elim (Bool-cases (deleted c)) [
    | inl gone ↦
        ap (λ b. decode_secret (if b then "" else encode_secret itoa c)) gone
        ∙ decode_secret-empty
        ∙ sym (ap (λ b. as_read (if b then none else some c)) gone)
    | inr present ↦
        ap (λ b. decode_secret (if b then "" else encode_secret itoa c)) present
        ∙ decode_secret-encode_secret c (not-empty c.value present) (omega (arith, small))
        ∙ sym (ap (λ b. as_read (if b then none else some c)) present)
  ]

  newer-InRange :
      (o : Option Secret) (s : Secret) → InRange o → s.generation ≤ 2 ^ 53 → InRange (newer o s)
  newer-InRange none s range bound = bound
  newer-InRange (some c) s range bound =
      elim (Bool-cases (deleted c || leb s.generation c.generation)) [
        | inl old ↦ subst InRange (sym (ap (λ b. if b then some c else some s) old)) range
        | inr new ↦ subst InRange (sym (ap (λ b. if b then some c else some s) new)) bound
      ]

  -- The secret cache in Redis keeps to the contract of the interface SecretCache at each entry, where
  -- Itoa prints decimal digits, Lua reads numbers into doubles, the generations are at most 2 ^ 53 and
  -- the secret is not empty: the script of SetSecret leaves in Redis the entry of the secret that the
  -- contract says, which is the old one unless the new one has a newer generation, and always the old
  -- one once it is deleted; and GetSecret then decodes that secret, or nothing if it is deleted.
  pub set_newer_refines :
      (old : Option Secret) (s : Secret)
      → s.value ≢ ""
      → InRange old
      → s.generation ≤ 2 ^ 53
      → let after =
          written
            (entries old)
            (set_newer tonumber (encode_secret itoa s) s.generation (entries old)) in
        (after ≡ entries (newer old s)) × (read_entry (ok after) ≡ as_read (live (newer old s)))
  set_newer_refines old s given range bound =
      let same = set_newer-newer old s given range bound in
      (
        same,
        ap (λ e. read_entry (ok e)) same
            ∙ read_entry-live (newer old s) (newer-InRange old s range bound),
      )
