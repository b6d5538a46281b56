-- ===== src/Security/Validator.antt =====
-- The critical checks of app/core/security/production_validator.py. A message of the code is a
-- constructor here, with the values that it prints.
use fastapi_hyperf.Common.{
  ℕ, String, Bool, true, false, not, ◌||◌, List, [], ◌∷◌, ◌++◌, ◌≡◌, refl, arith, if◌then◌else◌,
  ◌==◌, ltb, truthy, any, length, Option, none, some, ◌↔◌, ◌≤◌, All, Bool-cases, ◌⊎◌, cons-nonempty,
  inl, inr,
}
use fastapi_hyperf.Common.Text.{strip, lstrip, rstrip, is_space}
use fastapi_hyperf.Security.Characters.{
  characters, lower, occurs, repeats, Occurs, Repeats, occurs_iff, repeats_iff,
}

pub data Environment : Type 0 where
  production staging development local : Environment

pub data Critical : Type 0 where
  insecure_secret_key default_database_credentials empty_database_password : Critical

-- The settings that the critical checks read.
pub record Secrets : Type 0 where
  pub environment : Environment
  pub secret_key : String
  pub postgres_password : String

-- whether a pattern is in a text
abbrev pub has : List ℕ → String → Bool
has s p = occurs (characters p) s

abbrev insecure_patterns : List String
insecure_patterns =
    "insecure-secret-key-change-this"
    ∷ ("change-me"
        ∷ ("change-this"
            ∷ ("default"
                ∷ ("secret"
                    ∷ ("password"
                        ∷ ("secretkey"
                            ∷ ("key"
                                ∷ ("123456"
                                    ∷ ("abc123" ∷ ("test" ∷ ("dev" ∷ ("development" ∷ []))))))))))))

unfoldable pub has_predictable_pattern : List ℕ → Bool
has_predictable_pattern secret =
    if repeats secret
    then true
    else has secret "1234" || has (lower secret) "abcd" || has (lower secret) "qwerty"

unfoldable pub is_insecure_secret_key : String → Bool
is_insecure_secret_key secret =
    if not (truthy secret)
    then true
    else if any (has (lower (characters secret))) insecure_patterns
    then true
    else if ltb (length (characters secret)) 32
    then true
    else has_predictable_pattern (characters secret)

unfoldable pub is_database_using_default_credentials : String → Bool
is_database_using_default_credentials password = password == "postgres"

unfoldable pub is_database_password_empty : String → Bool
is_database_password_empty password = not (truthy password) || strip is_space password == ""

unfoldable pub is_production : Environment → Bool
is_production production = true
is_production _ = false

abbrev pub add_if : {A : Type 0} → Bool → A → List A
add_if true a = a ∷ []
add_if false a = []

unfoldable pub validate_critical_security : Secrets → List Critical
validate_critical_security s =
    add_if (is_insecure_secret_key s.secret_key) insecure_secret_key
    ++ (add_if (is_database_using_default_credentials s.postgres_password)
          default_database_credentials
        ++ add_if (is_database_password_empty s.postgres_password) empty_database_password)

-- the errors that are raised, `none` if nothing is
unfoldable pub validate_production_security : Secrets → Option (List Critical)
validate_production_security s =
    if not (is_production s.environment)
    then none
    else (elim (validate_critical_security s) [ [] ↦ none | e ∷ es ↦ some (e ∷ es) ])

-- What is asked of a secret key: its length, and what does not occur in it.
pub record IsStrong (secret : List ℕ) : Type 0 where
  pub long : 32 ≤ length secret
  pub unknown : All (λ p. ¬ (Occurs (characters p) (lower secret))) insecure_patterns
  pub varied : ¬ (Repeats secret)
  pub unordered : ¬ (Occurs (characters "1234") secret)
  pub unsorted : ¬ (Occurs (characters "abcd") (lower secret))
  pub untyped : ¬ (Occurs (characters "qwerty") (lower secret))

-- a search that finds nothing
refuted : {P : Type 0} (b : Bool) → ((b ≡ true) ↔ P) → (b ≡ false) ↔ (¬ P)
refuted true (there, back) = (λ e. ground (arith, e), λ not. absurd (not (there refl)))
refuted false (there, back) = (λ _ x. ground (arith, back x), λ _. refl)

none_found :
    (s : List ℕ) (ps : List String)
    → (any (has s) ps ≡ false) ↔ All (λ p. ¬ (Occurs (characters p) s)) ps
none_found s [] = (λ _. tt, λ _. refl)
none_found s (p ∷ ps) =
    let (never, finds) = refuted (has s p) (occurs_iff (characters p) s) in
    let (nevers, find) = none_found s ps in
    (
      λ h. (never (ground (arith, h)), nevers (ground (arith, h))),
      λ (n, ns). ground (arith, finds n, find ns),
    )

accepted :
    (given found short run ordered sorted typed : Bool)
    → ((if not given
          then true
          else if found
          then true
          else if short
          then true
          else if run
          then true
          else ordered || sorted || typed)
        ≡ false)
      ↔ ((given ≡ true)
          × (found ≡ false)
          × (short ≡ false)
          × (run ≡ false)
          × (ordered ≡ false)
          × (sorted ≡ false)
          × (typed ≡ false))
accepted given found short run ordered sorted typed = ground arith

long-given : (secret : String) → 32 ≤ length (characters secret) → truthy secret ≡ true
unfolding characters
long-given String.[] h = absurd (omega (arith, h))
long-given (String.◌∷◌ c s) h = rw (cons-nonempty c s) refl

-- The key is taken for secure exactly if it is strong.
pub is_insecure_secret_key-IsStrong :
    (secret : String) → (is_insecure_secret_key secret ≡ false) ↔ IsStrong (characters secret)
unfolding is_insecure_secret_key has_predictable_pattern
is_insecure_secret_key-IsStrong secret =
    let s = characters secret in
    let (there, back) =
      accepted (truthy secret) (any (has (lower s)) insecure_patterns) (ltb (length s) 32)
        (repeats s) (has s "1234") (has (lower s) "abcd") (has (lower s) "qwerty") in
    let unknown = none_found (lower s) insecure_patterns in
    let varied = refuted (repeats s) (repeats_iff s) in
    let unordered = refuted (has s "1234") (occurs_iff (characters "1234") s) in
    let unsorted = refuted (has (lower s) "abcd") (occurs_iff (characters "abcd") (lower s)) in
    let untyped = refuted (has (lower s) "qwerty") (occurs_iff (characters "qwerty") (lower s)) in
    (
      λ h.
          let (given, found, short, run, ordered, sorted, typed) = there h in
          record {
            long = ground (arith, short);
            unknown = unknown.0 found;
            varied = varied.0 run;
            unordered = unordered.0 ordered;
            unsorted = unsorted.0 sorted;
            untyped = untyped.0 typed;
          },
      λ strong. back (
        long-given secret strong.long,
        unknown.1 strong.unknown,
        ground (arith, strong.long),
        varied.1 strong.varied,
        unordered.1 strong.unordered,
        unsorted.1 strong.unsorted,
        untyped.1 strong.untyped,
      ),
    )

blank : (password : String) → is_database_password_empty password ≡ (strip is_space password == "")
unfolding is_database_password_empty strip lstrip rstrip
blank String.[] = refl
blank (String.◌∷◌ c s) = rw (cons-nonempty c s) refl

-- The settings are accepted exactly if the environment is not production, or the secret key is strong
-- and the database password is neither "postgres" nor nothing but white space.
pub validate_production_security-accepts :
    (s : Secrets)
    → (validate_production_security s ≡ none) ↔ (
        (is_production s.environment ≡ false)
        ⊎ (IsStrong (characters s.secret_key)
            × ((s.postgres_password == "postgres") ≡ false)
            × ((strip is_space s.postgres_password == "") ≡ false)))
unfolding validate_production_security validate_critical_security
    is_database_using_default_credentials
validate_production_security-accepts s =
    let (strong, secure) = is_insecure_secret_key-IsStrong s.secret_key in
    let empty = blank s.postgres_password in
    (
      λ h. elim (Bool-cases (is_production s.environment)) [
        | inl p ↦
            inr (strong (ground (arith, h, p)), ground (arith, h, p), ground (arith, h, p, empty))
        | inr other ↦ inl other
      ],
      λ h. elim h [
        | inl other ↦ rw other refl
        | inr (k, d, e) ↦ ground (arith, secure k, d, e, empty)
      ],
    )
