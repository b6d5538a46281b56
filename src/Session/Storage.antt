-- ===== src/Session/Storage.antt =====
-- app/core/auth/session/backends/memory.py and the parts of base.py that it inherits.
-- A `datetime` is its number of microseconds since the epoch, a lifetime is in seconds. The clock is
-- read anew at each `datetime.now(UTC)`, so an operation takes one instant for each reading.
-- Texts with a `*` or a `?` are turned into regular expressions by the code; the model reads such a
-- pattern as the expression does, for patterns with no other character that is special to `re`. An
-- instant has no bound here, where a deadline after the year 9999 makes the code raise OverflowError.
pub mod Pattern
pub mod Consistent
pub mod Calls
pub mod View
pub mod Wiped
pub mod Keys
use Prim.Native.String.{◌++◌ as concat}
use fastapi_hyperf.Common.{
  ℕ, suc, ◌+◌, ◌*◌, String, Bool, true, false, Option, none, some, List, [], ◌∷◌, ltb,
  if◌then◌else◌, Exec, err, key_error, pure, ◌>>=◌, ◌>>◌,
}
use fastapi_hyperf.Common.Dict
use fastapi_hyperf.Common.Dict.{Dict, contains, keys}
use fastapi_hyperf.Session.Storage.Pattern.{matches}

-- Pydantic's `model_dump_json` and `model_validate(json.loads(…))`, which are not part of the
-- repository. `load` gives `none` where either raises a `ValueError`.
pub record Codec (T Bytes : Type 0) : Type 0 where
  pub dump : T → Bytes
  pub load : Bytes → Option T

-- `self.data` is `stored`.
pub record Storage (Bytes : Type 0) : Type 0 where
  pub prefix : String
  pub expiration : ℕ
  pub stored : Dict Bytes
  pub expiry : Dict ℕ

-- timedelta(seconds=n)
abbrev pub seconds : ℕ → ℕ
seconds n = n * 1000000

unfoldable pub or_default : Option ℕ → ℕ → ℕ
or_default none d = d
or_default (some n) d = n

-- key in self.expiry and now > self.expiry[key]
unfoldable pub is_past : Option ℕ → ℕ → Bool
is_past none now = false
is_past (some deadline) now = ltb deadline now

module _ {Bytes : Type 0} where
  abbrev pub empty : String → ℕ → Storage Bytes
  empty prefix expiration = record {
    prefix = prefix;
    expiration = expiration;
    stored = [];
    expiry = [];
  }

  unfoldable pub get_key : Storage Bytes → String → String
  get_key s session_id = concat s.prefix session_id

  -- `del self.data[key]` followed by `del self.expiry[key]`
  unfoldable evict : String → Exec (Storage Bytes) Bool
  evict key s =
      if contains key s.stored
      then pure true
          (record s { stored = Dict.remove key s.stored; expiry = Dict.remove key s.expiry })
      else (err key_error, s)

  unfoldable pub check_expiry : ℕ → String → Exec (Storage Bytes) Bool
  unfolding evict is_past
  check_expiry now key s = if is_past (Dict.get key s.expiry) now then evict key s else pure false s

  -- the write that `create` and `update` end in
  unfoldable pub write : ℕ → String → Bytes → Option ℕ → Storage Bytes → Storage Bytes
  unfolding or_default
  write now key value custom s = record s {
    stored = Dict.put key value s.stored;
    expiry = Dict.put key (now + seconds (or_default custom s.expiration)) s.expiry;
  }

  unfoldable pub delete : String → Exec (Storage Bytes) Bool
  unfolding get_key
  delete session_id s =
      let key = get_key s session_id in
      if contains key s.stored
      then pure true
          (record s { stored = Dict.remove key s.stored; expiry = Dict.remove key s.expiry })
      else pure false s

  set_expiry : ℕ → String → Option ℕ → Exec (Storage Bytes) Bool
  unfolding or_default
  set_expiry now key custom s =
      pure true (record s {
        expiry = Dict.put key (now + seconds (or_default custom s.expiration)) s.expiry;
      })

  -- `expired` and `now` are the two readings of the clock
  unfoldable pub extend : ℕ → ℕ → String → Option ℕ → Exec (Storage Bytes) Bool
  unfolding get_key check_expiry set_expiry
  extend checked now session_id custom s =
      let key = get_key s session_id in
      if contains key s.stored
      then (do
        expired ← check_expiry checked key
        if expired then pure false else set_expiry now key custom)
          s
      else pure false s

  unfoldable pub exists : ℕ → String → Exec (Storage Bytes) Bool
  unfolding get_key check_expiry
  exists now session_id s =
      let key = get_key s session_id in
      if contains key s.stored
      then (do expired ← check_expiry now key; pure (if expired then false else true)) s
      else pure false s

  -- the loop of `_scan_iter`; the clock is read once for each key
  unfoldable pub scan_keys :
      (ℕ → ℕ) → Option String → List String → Exec (Storage Bytes) (List String)
  unfolding check_expiry
  scan_keys clock wanted [] = pure []
  scan_keys clock wanted (key ∷ rest) = do
    expired ← check_expiry (clock 0) key
    found ← scan_keys (λ i. clock (suc i)) wanted rest
    pure (if expired then found else if matches wanted key then key ∷ found else found)

  unfoldable pub scan_iter : (ℕ → ℕ) → Option String → Exec (Storage Bytes) (List String)
  scan_iter clock wanted s = scan_keys clock wanted (keys s.stored) s

  -- the loop of `delete_pattern`
  unfoldable pub delete_keys : List String → ℕ → Exec (Storage Bytes) ℕ
  delete_keys [] count s = pure count s
  delete_keys (key ∷ rest) count s =
      if contains key s.stored
      then delete_keys rest (count + 1)
          (record s { stored = Dict.remove key s.stored; expiry = Dict.remove key s.expiry })
      else delete_keys rest count s

  unfoldable pub delete_pattern : (ℕ → ℕ) → String → Exec (Storage Bytes) ℕ
  delete_pattern clock pattern = do found ← scan_iter clock (some pattern); delete_keys found 0

  unfoldable pub close : Exec (Storage Bytes) Bool
  close s = pure true (record s { stored = []; expiry = [] })

module _ {T Bytes : Type 0} (codec : Codec T Bytes) where
  -- `fresh` is the value of `generate_session_id()`
  unfoldable pub create : ℕ → String → T → Option String → Option ℕ → Exec (Storage Bytes) String
  unfolding get_key write
  create now fresh value none custom s =
      pure fresh (write now (get_key s fresh) (codec.dump value) custom s)
  create now fresh value (some session_id) custom s =
      pure session_id (write now (get_key s session_id) (codec.dump value) custom s)

  -- self.data.get(key), decoded
  unfoldable pub decode : Option Bytes → Option T
  decode none = none
  decode (some bytes) = codec.load bytes

  unfoldable pub get : ℕ → String → Exec (Storage Bytes) (Option T)
  unfolding get_key check_expiry decode
  get now session_id s =
      let key = get_key s session_id in
      (do
        expired ← check_expiry now key
        if expired then pure none else λ s'. pure (decode (Dict.get key s'.stored)) s')
        s

  -- the part of `update` below its guard
  unfoldable pub overwrite : ℕ → String → T → Bool → Option ℕ → Exec (Storage Bytes) Bool
  unfolding write
  overwrite now key value reset_expiration custom s = pure true (
      if reset_expiration
      then write now key (codec.dump value) custom s
      else record s { stored = Dict.put key (codec.dump value) s.stored })

  unfoldable pub update : ℕ → ℕ → String → T → Bool → Option ℕ → Exec (Storage Bytes) Bool
  unfolding get_key check_expiry overwrite
  update checked now session_id value reset_expiration custom s =
      let key = get_key s session_id in
      if contains key s.stored
      then (do
        expired ← check_expiry checked key
        if expired then pure false else overwrite now key value reset_expiration custom)
          s
      else pure false s
