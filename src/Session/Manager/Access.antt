-- ===== src/Session/Manager/Access.antt =====
-- How the manager of app/core/auth/session/manager.py reads and writes sessions: what
-- `self.storage.get` and `self.storage.update` do to what can be seen.
use fastapi_hyperf.Common.{
  ℕ, ◌+◌, ◌≤◌, String, Bool, true, ◌&&◌, Option, none, some, ◌≡◌, refl, arith, leb, ◌==◌,
  if◌then◌else◌, ok,
}
use fastapi_hyperf.Common.Dict.{is_some}
use fastapi_hyperf.Session.Schemas.{SessionData}
use fastapi_hyperf.Session.Storage
use fastapi_hyperf.Session.Storage.{Codec, Storage, get_key, decode, seconds, or_default}
use fastapi_hyperf.Session.Storage.Consistent.{IsConsistent, get-IsSafe, update-IsSafe}
use fastapi_hyperf.Session.Storage.View.{view, get-view, view-update}
use fastapi_hyperf.Session.Storage.Keys.{get-prefix, update-prefix, get_key-eq}
use fastapi_hyperf.Session.Manager.{Config, Manager, storage_get, storage_update}

-- Pydantic reads back the session that it wrote.
abbrev pub RoundTrips : {T Bytes : Type 0} → Codec T Bytes → Type 0
RoundTrips {T} codec = (d : T) → codec.load (codec.dump d) ≡ some d

module _ {Bytes : Type 0} (config : Config Bytes) where
  -- the session that a storage shows at an instant
  unfoldable pub session_at : ℕ → String → Manager Bytes → Option SessionData
  session_at t session_id m = decode config.codec (view t (get_key m.storage session_id) m.storage)

-- whether the storage has a value, be it a session that can be read back or not
unfoldable pub has_value : {Bytes : Type 0} → ℕ → String → Manager Bytes → Bool
has_value t session_id m = is_some (view t (get_key m.storage session_id) m.storage)

module _ {Bytes : Type 0} (config : Config Bytes) (clock : ℕ → ℕ) (m : Manager Bytes)
    (h : IsConsistent m.storage) where
  -- a read returns the session that is shown, and leaves all that can be seen later
  pub record Read (session_id : String) : Type 0 where
    pub after : Manager Bytes
    pub reads :
        storage_get config clock session_id m
        ≡ (ok (session_at config (clock m.readings) session_id m), after)
    pub consistent : IsConsistent after.storage
    pub readings : after.readings ≡ m.readings + 1
    pub csrf : after.csrf_storage ≡ m.csrf_storage
    pub cleaned : after.last_cleanup ≡ m.last_cleanup
    pub prefix : after.storage.prefix ≡ m.storage.prefix
    pub expiration : after.storage.expiration ≡ m.storage.expiration
    pub shown :
        (later : ℕ) (k : String)
        → clock m.readings ≤ later
        → session_at config later k after ≡ session_at config later k m

  pub read : (session_id : String) → Read session_id
  unfolding storage_get session_at get_key
  read session_id =
      let t = clock m.readings in
      let s' = (Storage.get config.codec t session_id m.storage).1 in
      let prefix = (get-prefix config.codec t session_id m.storage h).0 in
      record {
        after = record m { storage = s'; readings = m.readings + 1 };
        reads =
            ground (arith, (get-view config.codec t t session_id "" m.storage (omega arith) h).0);
        consistent = (get-IsSafe config.codec t session_id m.storage h).consistent;
        readings = refl;
        csrf = refl;
        cleaned = refl;
        prefix = prefix;
        expiration = (get-prefix config.codec t session_id m.storage h).1;
        shown = λ later k le. rw (
          prefix,
          (get-view config.codec t later session_id (get_key m.storage k) m.storage le h).1,
        );
      }

  -- a write replaces a session that has a value, up to a new deadline, and nothing else
  pub record Written (session_id : String) (d : SessionData) : Type 0 where
    pub after : Manager Bytes
    pub writes :
        storage_update config clock session_id d m
        ≡ (ok (has_value (clock m.readings) session_id m), after)
    pub consistent : IsConsistent after.storage
    pub readings : after.readings ≡ m.readings + 2
    pub csrf : after.csrf_storage ≡ m.csrf_storage
    pub cleaned : after.last_cleanup ≡ m.last_cleanup
    pub prefix : after.storage.prefix ≡ m.storage.prefix
    pub expiration : after.storage.expiration ≡ m.storage.expiration
    pub shown :
        RoundTrips config.codec
        → (later : ℕ) (k : String) → clock m.readings ≤ later
        → session_at config later k after ≡ (
            if has_value (clock m.readings) session_id m && session_id == k
            then if leb later (clock (m.readings + 1) + seconds m.storage.expiration)
              then some d
              else none
            else session_at config later k m)

  pub written : (session_id : String) (d : SessionData) → Written session_id d
  unfolding storage_update session_at get_key or_default has_value decode
  written session_id d =
      let t = clock m.readings in
      let u = clock (m.readings + 1) in
      let s' = (Storage.update config.codec t u session_id d true none m.storage).1 in
      let prefix = (update-prefix config.codec t u session_id d true none m.storage h).0 in
      record {
        after = record m { storage = s'; readings = m.readings + 2 };
        writes = ground (
          arith,
          (view-update config.codec t u t session_id d true none m.storage "" (omega arith) h).0,
        );
        consistent = (update-IsSafe config.codec t u session_id d true none m.storage h).consistent;
        readings = refl;
        csrf = refl;
        cleaned = refl;
        prefix = prefix;
        expiration = (update-prefix config.codec t u session_id d true none m.storage h).1;
        shown = λ law later k le. rw prefix (
            ground (
              arith,
              (view-update config.codec t u later session_id d true none m.storage
                  (get_key m.storage k) le h).1,
              get_key-eq m.storage session_id k,
              law d,
            ));
      }
