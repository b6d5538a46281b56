-- ===== src/Session/Storage/Pattern.antt =====
-- `_scan_iter` of app/core/auth/session/backends/memory.py turns a pattern into the regular
-- expression `^…$`, with `.*` for each `*` and `.` for each `?`, and keeps the keys that it matches.
-- A `.` takes any character but a line feed, and `$` stands also before a line feed at the end. The
-- other characters that mean something in a regular expression are not modelled: what is said of a
-- pattern is said of one without them (`is_plain`).
use Prim.Native.Char.{Char, code}
use fastapi_hyperf.Common.{
  String, Bool, true, false, ◌&&◌, ◌||◌, Option, none, some, eqb, truthy, if◌then◌else◌,
}

-- what `$` matches
at_end : String → Bool
at_end String.[] = true
at_end (String.◌∷◌ c String.[]) = eqb (code c) 10
at_end (String.◌∷◌ c (String.◌∷◌ d k)) = false

-- `.*` and then the rest
any_run : (String → Bool) → String → Bool
any_run rest String.[] = rest String.[]
any_run rest (String.◌∷◌ c k) =
    rest (String.◌∷◌ c k) || ((if eqb (code c) 10 then false else true) && any_run rest k)

-- `.` and then the rest
any_char : (String → Bool) → String → Bool
any_char rest String.[] = false
any_char rest (String.◌∷◌ c k) = (if eqb (code c) 10 then false else true) && rest k

-- one character as it stands, and then the rest
one_char : (String → Bool) → String → String → Bool
one_char rest String.[] k = false
one_char rest (String.◌∷◌ p _) String.[] = false
one_char rest (String.◌∷◌ p _) (String.◌∷◌ c k) = eqb (code p) (code c) && rest k

abbrev meta_characters : String
meta_characters = ".^$+{}[]()|\\"

is_meta : String → Char → Bool
is_meta String.[] c = false
is_meta (String.◌∷◌ m rest) c = eqb (code m) (code c) || is_meta rest c

-- whether every character is `*`, `?` or stands for itself in a regular expression
unfoldable pub is_plain : String → Bool
unfolding is_meta
is_plain String.[] = true
is_plain (String.◌∷◌ c pattern) =
    (if is_meta meta_characters c then false else true) && is_plain pattern

-- re.compile(f"^{pattern}$").match(key)
unfoldable glob : String → String → Bool
unfolding at_end any_run any_char one_char
glob String.[] = at_end
glob (String.◌∷◌ p pattern) =
    if eqb (code p) b'*'
    then any_run (glob pattern)
    else if eqb (code p) b'?'
    then any_char (glob pattern)
    else one_char (glob pattern) (String.◌∷◌ p String.[])

-- With no pattern, or an empty one, every key is kept.
unfoldable pub matches : Option String → String → Bool
unfolding glob
matches none key = true
matches (some pattern) key = if truthy pattern then glob pattern key else true
