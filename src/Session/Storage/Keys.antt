-- ===== src/Session/Storage/Keys.antt =====
-- The keys of the memory storage, and what its methods leave alone.
use Prim.Native.String.{◌++◌ as concat}
use text.Mathlib.TextLemmas.{append_cancel_left}
use fastapi_hyperf.Common.{ℕ, String, Bool, Option, ◌≡◌, ap, arith, eq_iff, ◌==◌}
use fastapi_hyperf.Session.Storage.{Codec, Storage, get_key, get, update, overwrite, write}
use fastapi_hyperf.Session.Storage.Consistent.{IsConsistent, check_expiry-swept}
use fastapi_hyperf.Session.Storage.View.{get-swept}

-- `get` and `update` leave the prefix of the keys and the lifetime alone.
module _ {T Bytes : Type 0} (codec : Codec T Bytes) where
  pub get-prefix :
      (now : ℕ) (id : String) (s : Storage Bytes)
      → IsConsistent s
      → ((get codec now id s).1.prefix ≡ s.prefix)
        × ((get codec now id s).1.expiration ≡ s.expiration)
  get-prefix now id s h = rw (get-swept codec now id s h) (ground arith)

  pub update-prefix :
      (t u : ℕ) (id : String) (value : T) (reset : Bool) (custom : Option ℕ) (s : Storage Bytes)
      → IsConsistent s
      → ((update codec t u id value reset custom s).1.prefix ≡ s.prefix)
        × ((update codec t u id value reset custom s).1.expiration ≡ s.expiration)
  unfolding update overwrite write
  update-prefix t u id value reset custom s h =
      ground (arith, check_expiry-swept t (get_key s id) s h)

-- Two identifiers have one key only if they are equal.
pub get_key-eq :
    {Bytes : Type 0} (s : Storage Bytes) (a b : String) → (get_key s a == get_key s b) ≡ (a == b)
unfolding get_key
get_key-eq s a b = ground (
  arith,
  eq_iff a b,
  eq_iff (concat s.prefix a) (concat s.prefix b),
  append_cancel_left s.prefix a b,
  ap (concat s.prefix) {x = a} {y = b},
)
