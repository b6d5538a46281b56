-- ===== src/Cache/Invalidation.antt =====
-- What a request that is not a GET leaves in the cache.
use fastapi_hyperf.Common.{String, none, List, ok, ◌≡◌, All}
use fastapi_hyperf.Cache.{Backend}

-- A cache in which a deletion that returns removes its key, no deletion brings a key back, and a key that is missing
-- is not found.
pub record Forgets {S V : Type 0} (backend : Backend S V) : Type 1 where
  pub Missing : String → S → Type 0
  pub delete-Missing :
      (key : String) (s : S) (u : Unit {0})
      → (backend.delete key s).0 ≡ ok u
      → Missing key (backend.delete key s).1
  pub delete_keeps :
      (key other : String) (s : S) → Missing other s → Missing other (backend.delete key s).1
  pub delete_pattern_keeps :
      (pattern_ other : String) (s : S)
      → Missing other s
      → Missing other (backend.delete_pattern pattern_ s).1
  pub get-Missing : (key : String) (s : S) → Missing key s → backend.get key s ≡ (ok none, s)

module _ {S V : Type 0} (backend : Backend S V) (law : Forgets backend) where
  abbrev AllMissing : List String → S → Type 0
  AllMissing keys s = All (λ key. law.Missing key s) keys
