-- ===== src/Common/Monad.antt =====
-- Python code that changes an object and may raise: the state comes back beside the error too,
-- since what was written before a raise stays written.

use Prim.Native.String.{String}
use mathlib.Core.Logic.{◌⊎◌, inl, inr}
use mathlib.Core.Path.{◌≡◌, refl}
use mathlib.Core.Bool.{Bool, true, false}
use mathlib.Core.Option.{Option, none, some}

-- The exceptions that the modelled code raises itself or lets through: Python's own, those of a client
-- library (SQLAlchemy's `NoResultFound` and `MultipleResultsFound` among them), those of
-- app/core/rate_limit/exceptions.py, and those of app/utils/exceptions.py and app/core/auth/http_exceptions.py with their message.
pub data Error : Type 0 where
  key_error value_error index_error zero_division_error client_error : Error
  rate_limiter_backend_exception backend_not_found_error rate_limit_exception : Error
  no_result_found multiple_results_found : Error
  pattern_matching_not_supported_error invalid_request_error : Error
  resource_not_found_error resource_exists_error validation_error : String → Error
  permission_denied_error user_not_found_error user_exists_error : String → Error
  tier_not_found_error : String → Error
  unauthorized_exception csrf_exception forbidden_exception : String → Error

pub data Result {ℓ} (A : Type ℓ) : Type ℓ where
  ok : A → Result A
  err : Error → Result A

pub Result-cases {ℓ} :
    {A : Type ℓ} (r : Result A) → ((a : A) × (r ≡ ok a)) ⊎ ((e : Error) × (r ≡ err e))
Result-cases (ok a) = inl (a, refl)
Result-cases (err e) = inr (e, refl)

abbrev pub Exec {ℓ} : Type ℓ → Type ℓ → Type ℓ
Exec S A = S → Result A × S

module _ {ℓ} {S A : Type ℓ} where
  abbrev pub pure : A → Exec S A
  pure a s = (ok a, s)

  abbrev pub raise : Error → Exec S A
  raise e s = (err e, s)

  -- `try: m` with `except Exception: h`; the handler starts from the state at the raise
  abbrev pub recover : Exec S A → Result A × S → Result A × S
  recover h (ok a, s) = (ok a, s)
  recover h (err e, s) = h s

  abbrev pub attempt : Exec S A → Exec S A → Exec S A
  attempt m h s = recover h (m s)

module _ {ℓ} {S A B : Type ℓ} where
  abbrev pub resume : (A → Exec S B) → Result A × S → Result B × S
  resume f (ok a, s) = f a s
  resume f (err e, s) = (err e, s)

  infixl 5 ◌>>=◌ ◌>>◌
  abbrev pub ◌>>=◌ : Exec S A → (A → Exec S B) → Exec S B
  ◌>>=◌ m f s = resume f (m s)

  abbrev pub ◌>>◌ : Exec S A → Exec S B → Exec S B
  m >> n = m >>= λ _. n

module _ {ℓ} {S A : Type ℓ} where
  -- a handler is not used by what returns
  pub returned-recover :
      (handler : Exec S A) (r : Result A × S) {a : A} → r.0 ≡ ok a → (recover handler r).0 ≡ ok a
  returned-recover handler (ok b, s) e = e
  returned-recover handler (err b, s) e = cc

  -- a handler that only returns leaves the state
  pub state-recover-pure : (a : A) (r : Result A × S) → (recover (pure a) r).1 ≡ r.1
  state-recover-pure a (ok b, s) = refl
  state-recover-pure a (err e, s) = refl

-- A read of the state that may raise, and the early returns `if c: raise e` and `if not x: raise e`.
module _ {ℓ} {S A : Type ℓ} where
  abbrev pub read : (S → Result A) → Exec S A
  read f s = (f s, s)

  abbrev pub require : Option A → Error → Exec S A
  require none e = raise e
  require (some a) e = pure a

abbrev pub refuse : {S : Type 0} → Bool → Error → Exec S (Unit {0})
refuse true e = raise e
refuse false e = pure tt

abbrev pub done : {S : Type 0} → Exec S (Unit {0})
done = pure tt

-- a field of an update: one that is not set keeps its value
abbrev pub or_old {ℓ} : {A : Type ℓ} → A → Option A → A
or_old old none = old
or_old old (some new) = new

-- a chain that returns, step by step
module _ {S A B : Type 0} where
  resume_ok :
      (next : A → Exec S B) (r : Result A × S) (b : B)
      → (resume next r).0 ≡ ok b
      → (a : A) × (r.0 ≡ ok a) × ((next a r.1).0 ≡ ok b) × (resume next r ≡ next a r.1)
  resume_ok next (ok a, s) b h = (a, refl, h, refl)
  resume_ok next (err e, s) b h = cc

  pub returned->>= :
      (call : Exec S A) (next : A → Exec S B) (s : S) (b : B)
      → ((call >>= next) s).0 ≡ ok b
      → (a : A) × ((call s).0 ≡ ok a)
        × ((next a (call s).1).0 ≡ ok b)
        × ((call >>= next) s ≡ next a (call s).1)
  returned->>= call next s b h = resume_ok next (call s) b h
