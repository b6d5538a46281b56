-- ===== src/RateLimit/Path.antt =====
-- app/core/rate_limit/utils.py.
use Prim.Native.Char.{code}
use fastapi_hyperf.Common.{
  ℕ, String, Bool, false, ◌||◌, ◌≡◌, refl, arith, eqb, Bool-cases, inl, inr,
}
use fastapi_hyperf.Common.Text.{strip, lstrip, rstrip, replace}

-- path.strip("/").replace("/", "_")
unfoldable pub sanitize_path : String → String
sanitize_path path = replace 47 "_" (strip (eqb 47) path)

-- whether a text has a character
unfoldable pub has : ℕ → String → Bool
has c String.[] = false
has c (String.◌∷◌ d s) = eqb c (code d) || has c s

has-replace : (s : String) → has 47 (replace 47 "_" s) ≡ false
unfolding has replace
has-replace String.[] = refl
has-replace (String.◌∷◌ d s) = elim (Bool-cases (eqb (code d) 47)) [
  | inl slash ↦ rw slash (has-replace s)
  | inr other ↦ rw other (ground (arith, other, has-replace s))
]

lstrip-without : (s : String) → has 47 s ≡ false → lstrip (eqb 47) s ≡ s
unfolding has lstrip
lstrip-without String.[] h = refl
lstrip-without (String.◌∷◌ d s) h = ground (arith, h)

rstrip-without : (s : String) → has 47 s ≡ false → rstrip (eqb 47) s ≡ s
unfolding has rstrip
rstrip-without String.[] h = refl
rstrip-without (String.◌∷◌ d s) h = ground (arith, h, rstrip-without s)

replace-without : (s : String) → has 47 s ≡ false → replace 47 "_" s ≡ s
unfolding has replace
replace-without String.[] h = refl
replace-without (String.◌∷◌ d s) h = ground (arith, h, replace-without s)

-- A sanitized path has no `/`, and sanitizing it again leaves it.
sanitize_path-sanitize_path :
    (path : String)
    → (has 47 (sanitize_path path) ≡ false)
      × (sanitize_path (sanitize_path path) ≡ sanitize_path path)
unfolding sanitize_path strip
sanitize_path-sanitize_path path =
    let clean = has-replace (strip (eqb 47) path) in
    let s = replace 47 "_" (strip (eqb 47) path) in
    (clean, rw (lstrip-without s clean, rstrip-without s clean) (replace-without s clean))
