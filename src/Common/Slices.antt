-- ===== src/Common/Slices.antt =====
-- Slices of Python's `str`, and `split` at one character, with what they do on a concatenation.
use Prim.Native.Char.{Char, code}
use Prim.Native.String.{String, ◌++◌ as concat}
use Prim.Native.String.append
use Prim.Native.Nat.{ℕ, zero, suc, ◌+◌}
use mathlib.Core.Path.{◌≡◌, refl, ap}
use mathlib.Core.Bool.{Bool, true, ◌&&◌, not}
use mathlib.Core.Option.{Option, none, some}
use native.Mathlib.Omega.{arith}
use fastapi_hyperf.Common.Tests.{leb, eqb, if◌then◌else◌}

-- len(s)
unfoldable pub size : String → ℕ
size String.[] = 0
size (String.◌∷◌ c s) = suc (size s)

-- s[:n]
unfoldable pub until : ℕ → String → String
until zero s = String.[]
until (suc n) String.[] = String.[]
until (suc n) (String.◌∷◌ c s) = String.◌∷◌ c (until n s)

-- s[n:]
unfoldable pub from : ℕ → String → String
from zero s = s
from (suc n) String.[] = String.[]
from (suc n) (String.◌∷◌ c s) = from n s

pub size-concat : (a b : String) → size (concat a b) ≡ size a + size b
unfolding size
size-concat String.[] b = rw (append.nil b) (omega arith)
size-concat (String.◌∷◌ c a) b = rw (append.cons c a b) (omega (arith, size-concat a b))

pub until-concat : (a b : String) → until (size a) (concat a b) ≡ a
unfolding size until
until-concat String.[] b = refl
until-concat (String.◌∷◌ c a) b = rw (append.cons c a b) (ap (String.◌∷◌ c) (until-concat a b))

pub from-concat : (a b : String) → from (size a) (concat a b) ≡ b
unfolding size from
from-concat String.[] b = rw (append.nil b) refl
from-concat (String.◌∷◌ c a) b = rw (append.cons c a b) (from-concat a b)

until-from : (n : ℕ) (s : String) → concat (until n s) (from n s) ≡ s
unfolding until from
until-from zero s = rw (append.nil s) refl
until-from (suc n) String.[] = rw (append.nil String.[]) refl
until-from (suc n) (String.◌∷◌ c s) =
    rw (append.cons c (until n s) (from n s)) (ap (String.◌∷◌ c) (until-from n s))

pub size-until : (n : ℕ) (s : String) → leb n (size s) ≡ true → size (until n s) ≡ n
unfolding size until
size-until zero s h = refl
size-until (suc n) String.[] h = ground arith
size-until (suc n) (String.◌∷◌ c s) h = ap suc (size-until n s (ground arith))

-- s.split(sep, 1): the text before the first separator and the text after it, if there is one
unfoldable pub split_once : ℕ → String → Option (String × String)
split_once sep String.[] = none
split_once sep (String.◌∷◌ c s) =
    let rest = split_once sep s in
    if eqb (code c) sep
    then some (String.[], s)
    else (elim rest [ none ↦ none | some (a, b) ↦ some (String.◌∷◌ c a, b) ])

unfoldable pub lacks : ℕ → String → Bool
lacks sep String.[] = true
lacks sep (String.◌∷◌ c s) = not (eqb (code c) sep) && lacks sep s

pub split_once-lacks :
    (sep : ℕ) (a b : String) (c : Char)
    → code c ≡ sep
    → lacks sep a ≡ true
    → split_once sep (concat a (String.◌∷◌ c b)) ≡ some (a, b)
unfolding split_once lacks
split_once-lacks sep String.[] b c h l = rw (append.nil (String.◌∷◌ c b)) (ground (arith, h))
split_once-lacks sep (String.◌∷◌ x a) b c h l =
    rw (append.cons x a (String.◌∷◌ c b)) (ground (arith, h, split_once-lacks sep a b c h))

from-empty : (n : ℕ) → from n "" ≡ ""
unfolding from
from-empty zero = refl
from-empty (suc n) = refl

pub from-from : (m n : ℕ) (s : String) → from n (from m s) ≡ from (m + n) s
unfolding from
from-from zero n s = ap (λ k. from k s) (omega arith)
from-from (suc m) n String.[] = ground (arith, from-empty n, from-empty (suc m + n))
from-from (suc m) n (String.◌∷◌ c s) =
    let sum : suc m + n ≡ suc (m + n) = omega arith in rw (sum) (from-from m n s)
