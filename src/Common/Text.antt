-- ===== src/Common/Text.antt =====
-- The methods of Python's `str` that the program uses, character by character.
use Prim.Native.Char.{Char, code}
use Prim.Native.String.{String}
use mathlib.Core.Bool.{Bool, ◌&&◌, ◌||◌}
use text.Mathlib.Text.{◌==◌}
use fastapi_hyperf.Common.Tests.{leb, eqb, if◌then◌else◌}
use Prim.Native.Nat.{ℕ}

-- str.isspace on one character
unfoldable pub is_space : ℕ → Bool
is_space c =
    (leb 9 c && leb c 13)
    || (leb 28 c && leb c 32)
    || eqb c 0x85
    || eqb c 0xa0
    || eqb c 0x1680
    || (leb 0x2000 c && leb c 0x200a)
    || eqb c 0x2028
    || eqb c 0x2029
    || eqb c 0x202f
    || eqb c 0x205f
    || eqb c 0x3000

-- s.lstrip() and s.rstrip() for a class of characters
unfoldable pub lstrip : (ℕ → Bool) → String → String
lstrip p String.[] = String.[]
lstrip p (String.◌∷◌ c s) = let rest = lstrip p s in if p (code c) then rest else String.◌∷◌ c s

unfoldable pub rstrip : (ℕ → Bool) → String → String
rstrip p String.[] = String.[]
rstrip p (String.◌∷◌ c s) =
    let rest = rstrip p s in
    if p (code c) && rest == String.[] then String.[] else String.◌∷◌ c rest

-- s.strip(chars)
unfoldable pub strip : (ℕ → Bool) → String → String
unfolding lstrip rstrip
strip p s = rstrip p (lstrip p s)

-- s.split(sep)[0] for a separator of one character
unfoldable pub before : ℕ → String → String
before sep String.[] = String.[]
before sep (String.◌∷◌ c s) =
    let rest = before sep s in if eqb (code c) sep then String.[] else String.◌∷◌ c rest

-- s[len(prefix):]
unfoldable pub after_prefix : String → String → String
after_prefix String.[] s = s
after_prefix (String.◌∷◌ _ p) String.[] = String.[]
after_prefix (String.◌∷◌ _ p) (String.◌∷◌ _ s) = after_prefix p s

-- s.replace(old, new) for single characters
unfoldable pub replace : ℕ → Char → String → String
replace old new String.[] = String.[]
replace old new (String.◌∷◌ c s) =
    String.◌∷◌ (if eqb (code c) old then new else c) (replace old new s)
