-- ===== src/Schema/References.antt =====
-- The references of database/schema/schema.go: what the pattern accepts is what is printed here.
use Prim.Native.Char.{Char, code}
use Prim.Native.String.{[], ◌∷◌}
use text.Mathlib.TextEquality.{Char-path}
use mathlib.Core.Option.{some-injective, none-ne-some}
use auth_middleware.Prelude.{
  String, ◌↔◌, Bool, true, false, ◌≡◌, refl, sym, subst, ap, ◌∙◌, ◌⊎◌, inl, inr, ◌&&◌, Option, none,
  some, eqb, if◌then◌else◌, arith, false≢true, Bool-cases,
}
use auth_middleware.Text.{append}
use auth_middleware.Config.Duration.{text_length}
use auth_middleware.Schema.{
  is_start, is_part, all_hold, is_identifier, span, take_identifier, expect, is_type, take_type,
  Reference, take_column, after_first, find_reference, ◌>>=◌,
}

-- The text of a reference: [<schema>.]<table>(<column>)[:<type>]
unfoldable pub print_type : String → String
print_type [] = []
print_type (c ∷ t) = ":" ∷ c ∷ t

unfoldable pub print_column : (column column_type : String) → String
print_column column column_type = "(" ∷ append column (")" ∷ print_type column_type)

unfoldable pub qualify : (schema_name rest : String) → String
qualify [] rest = rest
qualify (c ∷ s) rest = append (c ∷ s) ("." ∷ rest)

unfoldable pub print_reference : Reference → String
unfolding print_column qualify
print_reference r =
    qualify r.schema_name (append r.table_name (print_column r.column r.column_type))

-- Every name is an identifier; there may be no schema and no type.
unfoldable pub IsValid : Reference → Type 0
IsValid r =
    ((r.schema_name ≡ "") ⊎ (is_identifier r.schema_name ≡ true))
    × (is_identifier r.table_name ≡ true)
    × (is_identifier r.column ≡ true)
    × ((r.column_type ≡ "") ⊎ (is_type r.column_type ≡ true))

module _ (holds : Char → Bool) where
  span-append :
      (w : String) (c : Char) (s : String)
      → all_hold holds w ≡ true
      → holds c ≡ false
      → span holds (append w (c ∷ s)) ≡ (w, c ∷ s)
  unfolding span all_hold
  span-append [] c s h stop = ground arith
  span-append (d ∷ w) c s h stop = ground (arith, span-append w c s)

  sound_if :
      (b : Bool) (c : Char) (s before after : String)
      → holds c ≡ b
      → all_hold holds before ≡ true
      → s ≡ append before after
      → let p = if◌then◌else◌ {A = String × String} b (c ∷ before, after) ([], c ∷ s) in
        (all_hold holds p.0 ≡ true) × (c ∷ s ≡ append p.0 p.1)
  unfolding all_hold
  sound_if true c s before after h all split = (ground arith, ap (λ t. c ∷ t) split)
  sound_if false c s before after h all split = (refl, refl)

  span_sound :
      (s : String)
      → (all_hold holds (span holds s).0 ≡ true) × (s ≡ append (span holds s).0 (span holds s).1)
  unfolding span all_hold
  span_sound [] = (refl, refl)
  span_sound (c ∷ s) =
      let (all, split) = span_sound s in
      sound_if (holds c) c s (span holds s).0 (span holds s).1 refl all split

take_identifier-append :
    (w : String) (c : Char) (s : String)
    → is_identifier w ≡ true
    → is_part c ≡ false
    → take_identifier (append w (c ∷ s)) ≡ some (w, c ∷ s)
unfolding take_identifier is_identifier
take_identifier-append [] c s h stop = absurd (ground arith)
take_identifier-append (d ∷ w) c s h stop = ground (arith, span-append is_part w c s)

identifier_if :
    (b : Bool) (c : Char) (before after w rest : String)
    → is_start c ≡ b
    → all_hold is_part before ≡ true
    → if◌then◌else◌ {A = Option (String × String)} b (some (c ∷ before, after)) none
      ≡ some (w, rest)
    → (is_identifier w ≡ true) × (c ∷ append before after ≡ append w rest)
unfolding is_identifier
identifier_if true c before after w rest h all e =
    let same = some-injective (c ∷ before, after) (w, rest) e in
    subst (λ p. (is_identifier p.0 ≡ true) × (c ∷ append before after ≡ append p.0 p.1)) same
      (ap (λ b. b && all_hold is_part before) h ∙ all, refl)
identifier_if false c before after w rest h all e = absurd (ground arith)

take_identifier_sound :
    (s w rest : String)
    → take_identifier s ≡ some (w, rest)
    → (is_identifier w ≡ true) × (s ≡ append w rest)
unfolding take_identifier is_identifier
take_identifier_sound [] w rest h = absurd (ground arith)
take_identifier_sound (c ∷ s) w rest h =
    let (all, split) = span_sound is_part s in
    subst (λ t. (is_identifier w ≡ true) × (t ≡ append w rest)) (sym (ap (λ t. c ∷ t) split))
      (identifier_if (is_start c) c (span is_part s).0 (span is_part s).1 w rest refl all h)

cons-nonempty : (c : Char) (s : String) → c ∷ s ≡ "" → ⊥
cons-nonempty c s e = absurd (omega (arith, ap text_length e))

same_char : (c d : Char) → eqb (code c) (code d) ≡ true → c ≡ d
same_char c d h = Char-path c d (ground arith)

-- The characters that end an identifier: `.`, `(` and `)`.
dot_stops : is_part "." ≡ false
unfolding is_part
dot_stops = refl

open_stops : is_part "(" ≡ false
unfolding is_part
open_stops = refl

close_stops : is_part ")" ≡ false
unfolding is_part
close_stops = refl

take_type-print_type :
    (t : String) → (t ≡ "") ⊎ (is_type t ≡ true) → take_type (print_type t) ≡ some t
unfolding take_type print_type
take_type-print_type [] h = refl
take_type-print_type (c ∷ t) (inl e) = absurd (cons-nonempty c t e)
take_type-print_type (c ∷ t) (inr h) = ground arith

take_column-print_column :
    (r : Reference)
    → IsValid r
    → take_column r.schema_name r.table_name (print_column r.column r.column_type) ≡ some r
unfolding IsValid print_column take_column expect
take_column-print_column r (_, _, column, type) = rw (
  take_identifier-append r.column ")" (print_type r.column_type) column close_stops,
  take_type-print_type r.column_type type,
)

find_reference-first :
    (w : String) (c : Char) (s : String)
    → is_identifier w ≡ true
    → is_part c ≡ false
    → find_reference (append w (c ∷ s)) ≡ after_first w (c ∷ s)
unfolding find_reference
find_reference-first w c s h stop = rw (take_identifier-append w c s h stop)

find_reference-qualify :
    (schema_name table_name s : String)
    → (schema_name ≡ "") ⊎ (is_identifier schema_name ≡ true)
    → is_identifier table_name ≡ true
    → find_reference (qualify schema_name (append table_name ("(" ∷ s)))
      ≡ take_column schema_name table_name ("(" ∷ s)
unfolding qualify after_first
find_reference-qualify [] table_name s _ table =
    find_reference-first table_name "(" s table open_stops
find_reference-qualify (c ∷ w) table_name s (inl e) table = absurd (cons-nonempty c w e)
find_reference-qualify (c ∷ w) table_name s (inr h) table =
    find_reference-first (c ∷ w) "." (append table_name ("(" ∷ s)) h dot_stops
    ∙ rw (take_identifier-append table_name "(" s table open_stops)

find_reference-print_reference :
    (r : Reference) → IsValid r → find_reference (print_reference r) ≡ some r
unfolding print_reference IsValid print_column
find_reference-print_reference r valid =
    let (qualifier, table, _, _) = valid in
    find_reference-qualify r.schema_name r.table_name
      (append r.column (")" ∷ print_type r.column_type)) qualifier table
    ∙ take_column-print_column r valid

bind-some {ℓ κ} :
    {A : Type ℓ} {B : Type κ} (m : Option A) (f : A → Option B) (b : B)
    → (m >>= f) ≡ some b
    → (a : A) × (m ≡ some a) × (f a ≡ some b)
bind-some none f b h = absurd (none-ne-some b h)
bind-some (some a) f b h = (a, refl, h)

and-true : (a b : Bool) → (a && b) ≡ true → (a ≡ true) × (b ≡ true)
and-true true b h = (refl, h)
and-true false b h = absurd (false≢true h)

if-some {ℓ} :
    {A : Type ℓ} (b : Bool) (a a' : A)
    → (if b then some a else none) ≡ some a'
    → (b ≡ true) × (a ≡ a')
if-some true a a' h = (refl, some-injective a a' h)
if-some false a a' h = absurd (none-ne-some a' h)

expect_sound : (c : Char) (s rest : String) → expect (code c) s ≡ some rest → s ≡ c ∷ rest
unfolding expect
expect_sound c [] rest h = absurd (none-ne-some rest h)
expect_sound c (d ∷ s) rest h =
    let (same, e) = if-some (eqb (code d) (code c)) s rest h in
    ap (λ x. x ∷ s) (same_char d c same) ∙ ap (λ t. c ∷ t) e

take_type_sound :
    (s t : String) → take_type s ≡ some t → ((t ≡ "") ⊎ (is_type t ≡ true)) × (s ≡ print_type t)
unfolding take_type print_type
take_type_sound [] t h =
    subst (λ t. ((t ≡ "") ⊎ (is_type t ≡ true)) × ("" ≡ print_type t)) (some-injective "" t h)
      (inl refl, refl)
take_type_sound (c ∷ []) t h = absurd (
    false≢true
      (and-true (eqb (code c) b':') (is_type "")
        (if-some (eqb (code c) b':' && is_type "") "" t h).0).1)
take_type_sound (c ∷ d ∷ s) t h =
    let (guard, e) = if-some (eqb (code c) b':' && is_type (d ∷ s)) (d ∷ s) t h in
    subst (λ t. ((t ≡ "") ⊎ (is_type t ≡ true)) × (c ∷ d ∷ s ≡ print_type t)) e
      (
        inr (and-true (eqb (code c) b':') (is_type (d ∷ s)) guard).1,
        ap (λ x. x ∷ d ∷ s)
            (same_char c ":" (and-true (eqb (code c) b':') (is_type (d ∷ s)) guard).0),
      )

take_column_sound :
    (schema_name table_name s : String) (r : Reference)
    → take_column schema_name table_name s ≡ some r
    → (r.schema_name ≡ schema_name)
      × (r.table_name ≡ table_name)
      × (is_identifier r.column ≡ true)
      × ((r.column_type ≡ "") ⊎ (is_type r.column_type ≡ true))
      × (s ≡ print_column r.column r.column_type)
unfolding take_column print_column
take_column_sound schema_name table_name s r h =
    let (s1, opened, h1) = bind-some (expect b'(' s) _ r h in
    let ((column, s2), named, h2) = bind-some (take_identifier s1) _ r h1 in
    let (s3, closed, h3) = bind-some (expect b')' s2) _ r h2 in
    let (t, typed, h4) = bind-some (take_type s3) _ r h3 in
    let (valid, split) = take_identifier_sound s1 column s2 named in
    let (valid_type, rest) = take_type_sound s3 t typed in
    subst
      (λ r.
        (r.schema_name ≡ schema_name)
        × (r.table_name ≡ table_name)
        × (is_identifier r.column ≡ true)
        × ((r.column_type ≡ "") ⊎ (is_type r.column_type ≡ true))
        × (s ≡ print_column r.column r.column_type))
      (some-injective _ r h4)
      (
        refl,
        refl,
        valid,
        valid_type,
        expect_sound "(" s s1 opened
            ∙ ap (λ u. "(" ∷ u)
                (split
                  ∙ ap (append column) (expect_sound ")" s2 s3 closed ∙ ap (λ u. ")" ∷ u) rest)),
      )

qualify-named : (w rest : String) → is_identifier w ≡ true → qualify w rest ≡ append w ("." ∷ rest)
unfolding qualify is_identifier
qualify-named [] rest h = absurd (false≢true h)
qualify-named (c ∷ w) rest h = refl

print_reference-names :
    (r : Reference) (schema_name table_name : String)
    → r.schema_name ≡ schema_name
    → r.table_name ≡ table_name
    → qualify schema_name (append table_name (print_column r.column r.column_type))
      ≡ print_reference r
unfolding print_reference
print_reference-names r a b e1 e2 = rw (e1, e2)

-- A text that was read after its first identifier.
after_first_sound :
    (first s : String) (r : Reference)
    → is_identifier first ≡ true
    → after_first first s ≡ some r
    → IsValid r × (append first s ≡ print_reference r)
unfolding after_first IsValid print_column qualify
after_first_sound first [] r valid h = absurd (none-ne-some r h)
after_first_sound first (c ∷ s) r valid h = elim (Bool-cases (eqb (code c) b'.')) [
  | inl dot ↦
      let ((table, rest), named, h1) = bind-some (take_identifier s) _ r (
        subst
          (λ b.
            if◌then◌else◌ b (take_identifier s >>= λ p. take_column first p.0 p.1)
              (take_column "" first (c ∷ s))
            ≡ some r)
          dot h) in
      let (valid_table, split) = take_identifier_sound s table rest named in
      let (e1, e2, column, type, printed) = take_column_sound first table rest r h1 in
      (
        (inr (ap is_identifier e1 ∙ valid), ap is_identifier e2 ∙ valid_table, column, type),
        ap (append first) (
              ap (λ d. d ∷ s) (same_char c "." dot)
              ∙ ap (λ t. "." ∷ t) (split ∙ ap (append table) printed))
            ∙ sym (qualify-named first (append table (print_column r.column r.column_type)) valid)
            ∙ print_reference-names r first table e1 e2,
      )
  | inr other ↦
      let (e1, e2, column, type, printed) = take_column_sound "" first (c ∷ s) r (
        subst
          (λ b.
            if◌then◌else◌ b (take_identifier s >>= λ p. take_column first p.0 p.1)
              (take_column "" first (c ∷ s))
            ≡ some r)
          other h) in
      (
        (inl e1, ap is_identifier e2 ∙ valid, column, type),
        ap (append first) printed ∙ print_reference-names r "" first e1 e2,
      )
]

find_reference_sound :
    (s : String) (r : Reference) → find_reference s ≡ some r → IsValid r × (s ≡ print_reference r)
unfolding find_reference
find_reference_sound s r h =
    let ((first, rest), named, h1) = bind-some (take_identifier s) _ r h in
    let (valid, split) = take_identifier_sound s first rest named in
    let (all_valid, printed) = after_first_sound first rest r valid h1 in
    (all_valid, split ∙ printed)

-- The pattern accepts a text, with the four groups of a reference, exactly when these groups are
-- identifiers and a type, where the schema and the type may be missing, and the text is the one
-- that these groups print: nothing else reaches the SQL of the schema.
pub find_reference_iff :
    (s : String) (r : Reference)
    → (find_reference s ≡ some r) ↔ (IsValid r × (s ≡ print_reference r))
find_reference_iff s r = (
  find_reference_sound s r,
  λ (valid, printed). ap find_reference printed ∙ find_reference-print_reference r valid,
)
