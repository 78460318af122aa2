-- ===== src/Text.antt =====
-- The functions of Go's `strings` that the program calls, over native texts.
use Prim.Native.Char.{Char, code}
use Prim.Native.String.{[], ◌∷◌}
use auth_middleware.Prelude.{
  ℕ, String, Bool, ◌||◌, ◌&&◌, Option, none, some, List, no_items, prepend, leb, eqb, ◌==◌,
  if◌then◌else◌,
}

-- The character at the place of `c` in the first text, read off the second.
translate : Char → String → String → Char
translate c [] _ = c
translate c _ [] = c
translate c (u ∷ us) (l ∷ ls) = if eqb (code c) (code u) then l else translate c us ls

-- `unicode.ToLower`, exact wherever the lower case is ASCII: the capital letters, and U+0130 and
-- U+212A, whose lower cases are `i` and `k`. The other characters are left as they are: their lower
-- cases are outside ASCII, and all that the program does with a lowered text is to compare it with
-- ASCII texts.
abbrev pub uppers : String
uppers = "ABCDEFGHIJKLMNOPQRSTUVWXYZİK"

abbrev pub lowers : String
lowers = "abcdefghijklmnopqrstuvwxyzik"

-- strings.ToLower
unfoldable pub to_lower : String → String
unfolding translate
to_lower [] = []
to_lower (c ∷ s) = translate c uppers lowers ∷ to_lower s

-- strings.CutPrefix, its Boolean as an option
unfoldable pub cut_prefix : (prefix s : String) → Option String
cut_prefix [] s = some s
cut_prefix (c ∷ p) [] = none
cut_prefix (c ∷ p) (d ∷ s) = if eqb (code c) (code d) then cut_prefix p s else none

-- strings.TrimPrefix
unfoldable pub trim_prefix : (s prefix : String) → String
trim_prefix s p = elim (cut_prefix p s) [ none ↦ s | some rest ↦ rest ]

abbrev cons_before : Char → Option (String × String) → Option (String × String)
cons_before c none = none
cons_before c (some (before, after)) = some (c ∷ before, after)

-- strings.Cut at a separator of one character, its Boolean as an option
unfoldable pub cut : (s : String) (separator : ℕ) → Option (String × String)
cut [] sep = none
cut (c ∷ s) sep = if eqb (code c) sep then some ([], s) else cons_before c (cut s sep)

-- unicode.IsSpace
unfoldable pub is_space : Char → Bool
is_space c =
    (leb 9 (code c) && leb (code c) 13)
    || eqb (code c) 32
    || eqb (code c) 0x85
    || eqb (code c) 0xa0
    || eqb (code c) 0x1680
    || (leb 0x2000 (code c) && leb (code c) 0x200a)
    || eqb (code c) 0x2028
    || eqb (code c) 0x2029
    || eqb (code c) 0x202f
    || eqb (code c) 0x205f
    || eqb (code c) 0x3000

unfoldable pub trim_left : String → String
unfolding is_space
trim_left [] = []
trim_left (c ∷ s) = if is_space c then trim_left s else c ∷ s

abbrev drop_blank : Char → String → String
drop_blank c [] = if is_space c then [] else c ∷ []
drop_blank c (d ∷ s) = c ∷ d ∷ s

unfoldable pub trim_right : String → String
unfolding is_space
trim_right [] = []
trim_right (c ∷ s) = drop_blank c (trim_right s)

-- strings.TrimSpace
unfoldable pub trim_space : String → String
unfolding trim_left trim_right
trim_space s = trim_right (trim_left s)

-- strings.EqualFold with an ASCII text in lower case that has no `k` and no `s`, for which folding
-- is lowering.
unfoldable pub equal_fold_ascii : (s lower : String) → Bool
unfolding to_lower
equal_fold_ascii s lower = to_lower s == lower

-- strings.SplitSeq at a separator of one character: the first piece and the others
unfoldable pub split : (s : String) (separator : ℕ) → String × List String
split [] sep = ([], no_items)
split (c ∷ s) sep =
    let (piece, others) = split s sep in
    if eqb (code c) sep then ([], prepend piece others) else (c ∷ piece, others)

-- the operator + of Go on texts
abbrev pub append : (s t : String) → String
append [] t = t
append (c ∷ s) t = c ∷ append s t
