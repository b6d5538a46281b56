-- ===== src/Common/Decimal.antt =====
-- Python's `str` and `int` on the natural numbers: decimal digits. `int` also takes spaces, a sign and
-- underscores, which no text here has.
use Prim.Native.Char.{Char, code}
use Prim.Native.String.{String, ◌++◌ as concat}
use Prim.Native.String.append
use Prim.Native.String.compare
use Prim.Native.Nat.{ℕ, zero, suc, ◌+◌, ◌-◌, ◌*◌, ◌/◌, ◌%◌, ◌<◌}
use mathlib.Core.Path.{◌≡◌, refl}
use mathlib.Core.Logic.{inl, inr}
use mathlib.Core.Bool.{true, false, ◌&&◌}
use mathlib.Core.Option.{Option, none, some}
use native.Mathlib.Omega.{arith}
use text.Mathlib.Text.{◌==◌}
use text.Mathlib.TextEquality.{eq_iff}
use fastapi_hyperf.Common.Slices.{lacks}
use fastapi_hyperf.Common.Tests.{Bool-cases, ltb, leb, eqb, if◌then◌else◌}

abbrev digit : ℕ → Char
digit zero = "0"
digit (suc zero) = "1"
digit (suc (suc zero)) = "2"
digit (suc (suc (suc zero))) = "3"
digit (suc (suc (suc (suc zero)))) = "4"
digit (suc (suc (suc (suc (suc zero))))) = "5"
digit (suc (suc (suc (suc (suc (suc zero)))))) = "6"
digit (suc (suc (suc (suc (suc (suc (suc zero))))))) = "7"
digit (suc (suc (suc (suc (suc (suc (suc (suc zero)))))))) = "8"
digit (suc (suc (suc (suc (suc (suc (suc (suc (suc d))))))))) = "9"

unfoldable str_from : ℕ → ℕ → String → String
str_from zero n tail = tail
str_from (suc fuel) n tail =
    let rest = str_from fuel (n / 10) (String.◌∷◌ (digit (n % 10)) tail) in
    if ltb n 10 then String.◌∷◌ (digit n) tail else rest

unfoldable pub str : ℕ → String
unfolding str_from
str n = str_from (suc n) n ""

unfoldable int_from : ℕ → String → Option ℕ
int_from n String.[] = some n
int_from n (String.◌∷◌ c s) =
    let rest = int_from (n * 10 + (code c - 48)) s in
    if leb 48 (code c) && leb (code c) 57 then rest else none

unfoldable pub int : String → Option ℕ
unfolding int_from
int s = if s == "" then none else int_from 0 s

code-digit : (d : ℕ) → d < 10 → code (digit d) ≡ 48 + d
code-digit zero h = refl
code-digit (suc zero) h = refl
code-digit (suc (suc zero)) h = refl
code-digit (suc (suc (suc zero))) h = refl
code-digit (suc (suc (suc (suc zero)))) h = refl
code-digit (suc (suc (suc (suc (suc zero))))) h = refl
code-digit (suc (suc (suc (suc (suc (suc zero)))))) h = refl
code-digit (suc (suc (suc (suc (suc (suc (suc zero))))))) h = refl
code-digit (suc (suc (suc (suc (suc (suc (suc (suc zero)))))))) h = refl
code-digit (suc (suc (suc (suc (suc (suc (suc (suc (suc zero))))))))) h = refl
code-digit (suc (suc (suc (suc (suc (suc (suc (suc (suc (suc d)))))))))) h = omega arith

int-str_from :
    (fuel n : ℕ) (tail : String) → n < fuel → int_from 0 (str_from fuel n tail) ≡ int_from n tail
unfolding int_from str_from
int-str_from zero n tail h = ground arith
int-str_from (suc fuel) n tail h = ground (
  arith,
  code-digit n,
  code-digit (n % 10),
  int-str_from fuel (n / 10) (String.◌∷◌ (digit (n % 10)) tail),
)

pub cons-nonempty : (c : Char) (s : String) → (String.◌∷◌ c s == "") ≡ false
cons-nonempty c s = rw (compare.cons-nil c s) refl

str_from-nonempty :
    (fuel n : ℕ) (c : Char) (tail : String) → (str_from fuel n (String.◌∷◌ c tail) == "") ≡ false
unfolding str_from
str_from-nonempty zero n c tail = cons-nonempty c tail
str_from-nonempty (suc fuel) n c tail = elim (Bool-cases (ltb n 10)) [
  | inl small ↦ rw small (cons-nonempty (digit n) (String.◌∷◌ c tail))
  | inr large ↦ rw large (str_from-nonempty fuel (n / 10) (digit (n % 10)) (String.◌∷◌ c tail))
]

pub str-nonempty : (n : ℕ) → (str n == "") ≡ false
unfolding str str_from
str-nonempty n = elim (Bool-cases (ltb n 10)) [
  | inl small ↦ rw small (cons-nonempty (digit n) "")
  | inr large ↦ rw large (str_from-nonempty n (n / 10) (digit (n % 10)) "")
]

pub int-str : (n : ℕ) → int (str n) ≡ some n
unfolding int str int_from
int-str n = rw (str-nonempty n) (int-str_from (suc n) n "" (omega arith))

-- `str(n)` after a `:` is read off the end of a text again.
int_from-str : (n : ℕ) → int_from 0 (str n) ≡ some n
unfolding str int_from
int_from-str n = int-str_from (suc n) n "" (omega arith)

-- `str(n)` after a `:` is read off the end of a text again.
tail_found : Char → String → Option (String × ℕ) → Option (String × ℕ)
tail_found c s (some (k, w)) = some (String.◌∷◌ c k, w)
tail_found c s none =
    if eqb (code c) 58 then (elim (int s) [ some w ↦ some ("", w) | none ↦ none ]) else none

tail_number : String → Option (String × ℕ)
tail_number String.[] = none
tail_number (String.◌∷◌ c s) = tail_found c s (tail_number s)

int_from-tail_number : (a n : ℕ) (s : String) → int_from a s ≡ some n → tail_number s ≡ none
unfolding int_from tail_number tail_found
int_from-tail_number a n String.[] h = refl
int_from-tail_number a n (String.◌∷◌ c s) h =
    ground (arith, int_from-tail_number (a * 10 + (code c - 48)) n s)

tail_number-concat :
    (k : String) (w : ℕ) → tail_number (concat k (concat ":" (str w))) ≡ some (k, w)
unfolding tail_number tail_found
tail_number-concat String.[] w =
    rw (append.nil (concat ":" (str w)), append.cons ":" "" (str w), append.nil (str w))
      (rw (int_from-tail_number 0 w (str w) (int_from-str w), int-str w) refl)
tail_number-concat (String.◌∷◌ c k) w =
    rw (append.cons c k (concat ":" (str w)), tail_number-concat k w) refl

-- f"{k}:{v}" determines both of its parts.
pub concat-eq :
    (j k : String) (v w : ℕ)
    → (concat j (concat ":" (str v)) == concat k (concat ":" (str w))) ≡ (j == k && eqb v w)
concat-eq j k v w = ground (
  arith,
  eq_iff j k,
  eq_iff (concat j (concat ":" (str v))) (concat k (concat ":" (str w))),
  tail_number-concat j v,
  tail_number-concat k w,
)

-- digits are not the sign "$", at which hashes are split
digit-dollar : (d : ℕ) → eqb (code (digit d)) 36 ≡ false
digit-dollar zero = refl
digit-dollar (suc zero) = refl
digit-dollar (suc (suc zero)) = refl
digit-dollar (suc (suc (suc zero))) = refl
digit-dollar (suc (suc (suc (suc zero)))) = refl
digit-dollar (suc (suc (suc (suc (suc zero))))) = refl
digit-dollar (suc (suc (suc (suc (suc (suc zero)))))) = refl
digit-dollar (suc (suc (suc (suc (suc (suc (suc zero))))))) = refl
digit-dollar (suc (suc (suc (suc (suc (suc (suc (suc zero)))))))) = refl
digit-dollar (suc (suc (suc (suc (suc (suc (suc (suc (suc d))))))))) = refl

lacks-str_from :
    (fuel n : ℕ) (tail : String) → lacks 36 tail ≡ true → lacks 36 (str_from fuel n tail) ≡ true
unfolding str_from lacks
lacks-str_from zero n tail h = h
lacks-str_from (suc fuel) n tail h = ground (
  arith,
  h,
  digit-dollar n,
  digit-dollar (n % 10),
  lacks-str_from fuel (n / 10) (String.◌∷◌ (digit (n % 10)) tail)
      (ground (arith, h, digit-dollar (n % 10))),
)

pub lacks-str : (n : ℕ) → lacks 36 (str n) ≡ true
unfolding str lacks
lacks-str n = lacks-str_from (suc n) n "" refl
