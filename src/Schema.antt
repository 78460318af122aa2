-- ===== src/Schema.antt =====
-- database/schema/schema.go: the reference to the users table. The regular expression is a parser
-- here, one function for each of its groups: no group can stop at two places of one text, so that
-- the first way to match is the only one. The quoting of pgx is a parameter.
pub mod References
use Prim.Native.Char.{Char, code}
use Prim.Native.String.{[], ◌∷◌}
use auth_middleware.Prelude.{
  ℕ, String, Bool, true, false, ◌&&◌, ◌||◌, Option, none, some, List, leb, eqb, ◌==◌, if◌then◌else◌,
  one_of, two_of,
}
use auth_middleware.Text.{to_lower, trim_space}

infixl 5 ◌>>=◌
abbrev pub ◌>>=◌ {ℓ κ} : {A : Type ℓ} {B : Type κ} → Option A → (A → Option B) → Option B
none >>= f = none
some a >>= f = f a

-- [a-z_] and [a-z0-9_]
unfoldable pub is_start : Char → Bool
is_start c = (leb b'a' (code c) && leb (code c) b'z') || eqb (code c) b'_'

unfoldable pub is_digit : Char → Bool
is_digit c = leb b'0' (code c) && leb (code c) b'9'

unfoldable pub is_part : Char → Bool
unfolding is_start is_digit
is_part c = is_start c || is_digit c

unfoldable pub all_hold : (Char → Bool) → String → Bool
all_hold holds [] = true
all_hold holds (c ∷ s) = holds c && all_hold holds s

-- ^[a-z_][a-z0-9_]*$
unfoldable pub is_identifier : String → Bool
unfolding is_start is_part all_hold
is_identifier [] = false
is_identifier (c ∷ s) = is_start c && all_hold is_part s

-- the longest beginning of characters with a property, and what follows it
unfoldable pub span : (Char → Bool) → String → String × String
span holds [] = ([], [])
span holds (c ∷ s) =
    let (before, after) = span holds s in if holds c then (c ∷ before, after) else ([], c ∷ s)

-- [a-z_][a-z0-9_]*
unfoldable pub take_identifier : String → Option (String × String)
unfolding span is_start is_part
take_identifier [] = none
take_identifier (c ∷ s) =
    let (rest, after) = span is_part s in if is_start c then some (c ∷ rest, after) else none

-- a character that must come next
unfoldable pub expect : ℕ → String → Option String
expect k [] = none
expect k (c ∷ s) = if eqb (code c) k then some s else none

-- (?:\.[a-z_][a-z0-9_]*)?
unfoldable pub skip_qualifier : String → Option String
unfolding take_identifier
skip_qualifier [] = some []
skip_qualifier (c ∷ s) =
    if eqb (code c) b'.' then (do (name, rest) ← take_identifier s; some rest) else some (c ∷ s)

-- \d+ and a closing bracket
unfoldable pub skip_size : String × String → Option String
unfolding expect
skip_size ([], rest) = none
skip_size (c ∷ digits, rest) = expect b')' rest

-- (?:\(\d+\))?
unfoldable pub skip_length : String → Option String
unfolding skip_size span is_digit
skip_length [] = some []
skip_length (c ∷ s) = if eqb (code c) b'(' then skip_size (span is_digit s) else some (c ∷ s)

unfoldable pub is_type : String → Bool
unfolding take_identifier skip_qualifier skip_length
is_type s =
    elim (do (name, rest) ← take_identifier s; after ← skip_qualifier rest; skip_length after) [
      | none ↦ false
      | some rest ↦ rest == ""
    ]

-- (?::(type))?$
unfoldable pub take_type : String → Option String
unfolding is_type
take_type [] = some ""
take_type (c ∷ s) = if eqb (code c) b':' && is_type s then some s else none

-- The four groups; a group that does not take part is empty.
pub record Reference : Type 0 where
  pub schema_name : String
  pub table_name : String
  pub column : String
  pub column_type : String

-- \(([a-z_][a-z0-9_]*)\), and the type
unfoldable pub take_column : (schema_name table_name : String) → String → Option Reference
unfolding expect take_identifier take_type
take_column schema_name table_name s = do
  open_bracket ← expect b'(' s
  (column, rest) ← take_identifier open_bracket
  closed ← expect b')' rest
  column_type ← take_type closed
  some (record {
    schema_name = schema_name;
    table_name = table_name;
    column = column;
    column_type = column_type;
  })

-- after the first identifier: it is the schema's if a dot follows
unfoldable pub after_first : (first : String) → String → Option Reference
unfolding take_column take_identifier
after_first first [] = none
after_first first (c ∷ s) =
    if eqb (code c) b'.'
    then (do (table_name, rest) ← take_identifier s; take_column first table_name rest)
    else take_column "" first (c ∷ s)

-- userEmailReferencePattern.FindStringSubmatch
unfoldable pub find_reference : String → Option Reference
unfolding take_identifier after_first
find_reference s = do (first, rest) ← take_identifier s; after_first first rest

pub record Params : Type 0 where
  pub users_table : String
  pub users_email_column : String
  pub users_email_type : String

module _ (sanitize : List String → String) where
  unfoldable pub default_params : Params
  default_params = record {
    users_table = sanitize (one_of "users");
    users_email_column = sanitize (one_of "email");
    users_email_type = "text";
  }

  unfoldable pub params_of : Reference → Params
  unfolding default_params
  params_of r = record default_params {
    users_table =
        sanitize
          (if r.schema_name == "" then one_of r.table_name else two_of r.schema_name r.table_name);
    users_email_column = sanitize (one_of r.column);
    users_email_type = if r.column_type == "" then "text" else r.column_type;
  }

  -- ParseUserEmailReference; its error is ErrInvalidUserEmailReference
  unfoldable pub parse_user_email_reference : String → Option Params
  unfolding find_reference params_of to_lower trim_space
  parse_user_email_reference reference = do
    r ← find_reference (to_lower (trim_space reference))
    some (params_of r)
