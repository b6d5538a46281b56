-- ===== src/Cache.antt =====
-- app/core/cache/decorator.py, with `infer_resource_id` of app/core/cache/utils.py. The backend is an argument, the
-- function that the decorator wraps is one too, over the same state, and so is FastAPI's `jsonable_encoder`; the keys and patterns are given as the
-- formatting of app/core/cache/utils.py leaves them. A value of the cache that counts as false is none.
pub mod Invalidation
pub mod Redis
mod Tests
use fastapi_hyperf.Common.{
  ℕ, String, Bool, true, false, not, ◌&&◌, ◌||◌, Option, none, some, List, [], ◌∷◌, Result, ok, err,
  Exec, Error, concat, str, pure, raise, recover, attempt, resume, ◌>>=◌, ◌>>◌, done, if◌then◌else◌,
  any, value_error, pattern_matching_not_supported_error, invalid_request_error,
}
use fastapi_hyperf.Common.Dict.{Dict, is_some}

-- the methods of a backend that the decorator calls, where `get` gives a value or None
pub record Backend (S V : Type 0) : Type 0 where
  pub get : String → Exec S (Option V)
  pub set : String → V → ℕ → Exec S (Unit {0})
  pub delete : String → Exec S (Unit {0})
  pub delete_pattern : String → Exec S (Unit {0})

-- the values of arguments, with the integers that are not negative, and the types that are accepted; a `bool` is an
-- instance of `int`
pub data Argument : Type 0 where
  number : ℕ → Argument
  flag : Bool → Argument
  text : String → Argument
  other : Argument

pub data ArgumentType : Type 0 where
  int_type str_type : ArgumentType

unfoldable pub is_of_type : Argument → ArgumentType → Bool
is_of_type (number n) int_type = true
is_of_type (number n) str_type = false
is_of_type (flag b) int_type = true
is_of_type (flag b) str_type = false
is_of_type (text s) int_type = false
is_of_type (text s) str_type = true
is_of_type other t = false

-- the value as it stands in the key
unfoldable pub written : Argument → Option String
written (number n) = some (str n)
written (flag true) = some "True"
written (flag false) = some "False"
written (text s) = some s
written other = none

-- the first argument of an accepted type whose name passes a test
unfoldable pub first_of : (String → Bool) → List ArgumentType → Dict Argument → Option String
first_of named types [] = none
first_of named types ((name, value) ∷ kwargs) =
    let rest = first_of named types kwargs in
    if named name && any (is_of_type value) types then written value else rest

-- `has_id` says whether "id" is in the name in lower case; none where the code raises
unfoldable pub infer_resource_id :
    (String → Bool) → List ArgumentType → Dict Argument → Option String
infer_resource_id has_id types kwargs = elim (first_of has_id types kwargs) [
  | some id ↦ some id
  | none ↦ first_of (λ name. true) types kwargs
]

module _ {S V : Type 0} (backend : Backend S V) where
  unfoldable pub delete_each : List String → Exec S (Unit {0})
  delete_each [] = done
  delete_each (key ∷ keys) = do backend.delete key; delete_each keys

  -- `except (PatternMatchingNotSupportedError, ...)`
  unfoldable pub supported : Result (Unit {0}) × S → Result (Unit {0}) × S
  supported (ok u, s) = (ok u, s)
  supported (err pattern_matching_not_supported_error, s) = (ok tt, s)
  supported (err e, s) = (err e, s)

  unfoldable pub delete_patterns : List String → Exec S (Unit {0})
  delete_patterns [] = done
  delete_patterns (pattern_ ∷ patterns) = do
    (λ s. supported (backend.delete_pattern pattern_ s))
    delete_patterns patterns

  unfoldable pub or_nothing : Option (List String) → List String
  or_nothing none = []
  or_nothing (some keys) = keys

  unfoldable pub invalidating :
      String → Option (List String) → Option (List String) → Exec S V → Exec S V
  invalidating cache_key to_invalidate_extra pattern_to_invalidate_extra func = do
    result ← func
    backend.delete cache_key
    delete_each (or_nothing to_invalidate_extra)
    delete_patterns (or_nothing pattern_to_invalidate_extra)
    pure result

module _ {S V : Type 0} (backend : Backend S V) (jsonable_encoder : V → V) where
  -- the call of the function, whose result is stored as it is encoded
  unfoldable pub fetch : String → ℕ → Exec S V → Exec S V
  fetch cache_key expiration func = do
    result ← func
    backend.set cache_key (jsonable_encoder result) expiration
    pure result

  unfoldable pub or_fetch : String → ℕ → Exec S V → Option V → Exec S V
  or_fetch cache_key expiration func (some cached_data) = pure cached_data
  or_fetch cache_key expiration func none = fetch cache_key expiration func

  unfoldable pub cached :
      String → ℕ → Option (List String) → Option (List String) → Exec S V → Exec S V
  cached cache_key expiration to_invalidate_extra pattern_to_invalidate_extra func =
      if is_some to_invalidate_extra || is_some pattern_to_invalidate_extra
      then raise invalid_request_error
      else (do cached_data ← backend.get cache_key; or_fetch cache_key expiration func cached_data)

  -- with the formatted prefix and the resource id of the request, if one was found
  unfoldable pub with_key :
      Bool → Option String → ℕ → Option (List String) → Option (List String) → Exec S V → Exec S V
  with_key is_get none expiration extra patterns func = func
  with_key is_get (some cache_key) expiration extra patterns func =
      if is_get
      then cached cache_key expiration extra patterns func
      else invalidating backend cache_key extra patterns func

-- f"{formatted_key_prefix}:{resource_id}"
unfoldable pub cache_key_of : String → Option String → Option String
cache_key_of formatted_key_prefix none = none
cache_key_of formatted_key_prefix (some resource_id) =
    some (concat formatted_key_prefix (concat ":" resource_id))

-- `inner`: without a backend the function is called as it is
unfoldable pub inner :
    {S V : Type 0}
    → (V → V)
    → Option (Backend S V)
    → Bool
    → String
    → Option String
    → ℕ
    → Option (List String)
    → Option (List String)
    → Exec S V
    → Exec S V
inner jsonable_encoder none is_get prefix resource_id expiration extra patterns func = func
inner jsonable_encoder (some backend) is_get prefix resource_id expiration extra patterns func =
    with_key backend jsonable_encoder is_get (cache_key_of prefix resource_id) expiration extra
      patterns func
