-- ===== src/Session/Lifecycle.antt =====
-- The operations of app/core/auth/session/manager.py that go over the sessions of a storage: creation
-- with the limit on the sessions of a user, and the cleanup. Over the memory storage, which has
-- `_scan_iter` and not `get_user_sessions`. No rate limiter of the repository has `delete_pattern`,
-- so `cleanup_rate_limits` changes nothing.
pub mod Runs
pub mod History
pub mod Creation
use Prim.Native.String.{◌++◌ as concat}
use fastapi_hyperf.Common.{
  ℕ, ◌+◌, ◌-◌, ◌*◌, String, Bool, true, false, not, ◌&&◌, Option, none, some, List, [], ◌∷◌, ltb,
  leb, eqb, if◌then◌else◌, length, take, Exec, raise, value_error, pure, attempt, resume, recover,
  ◌>>=◌, ◌>>◌,
}
use fastapi_hyperf.Common.Dict
use fastapi_hyperf.Common.Dict.{Dict, keys}
use fastapi_hyperf.Common.Text.{is_space, strip, before, after_prefix}
use fastapi_hyperf.Session.Schemas.{SessionData}
use fastapi_hyperf.Session.Storage
use fastapi_hyperf.Session.Storage.{Storage}
use fastapi_hyperf.Session.Manager.{
  Config, Manager, minutes, is_stale, now, in_storage, storage_get, storage_update, deactivated,
  terminate_session, generate_csrf_token,
}

-- What `create_session` reads of a request: the headers, in lower case, and `client.host`.
pub record Request : Type 0 where
  pub headers : Dict String
  pub client : Option String

unfoldable pub header : String → String → Request → String
header name missing request = elim (Dict.get name request.headers) [ none ↦ missing | some v ↦ v ]

-- SessionCreate(…)
abbrev pub session_data :
    String → (String → Dict String) → Request → String → ℕ → Dict String → ℕ → ℕ → SessionData
session_data fresh parse request host user_id metadata created current = record {
  user_id = user_id;
  session_id = fresh;
  ip_address = strip is_space (before b',' (header "x-forwarded-for" host request));
  user_agent = header "user-agent" "" request;
  device_info = parse (header "user-agent" "" request);
  created_at = created;
  last_activity = current;
  is_active = true;
  metadata = metadata;
}

-- sorted by the last activity, as a stable sort leaves it
unfoldable insert : SessionData → List SessionData → List SessionData
insert d [] = d ∷ []
insert d (e ∷ es) =
    let rest = insert d es in if leb d.last_activity e.last_activity then d ∷ e ∷ es else e ∷ rest

unfoldable pub sort : List SessionData → List SessionData
unfolding insert
sort [] = []
sort (d ∷ ds) = insert d (sort ds)

-- a session that is found counts if it is active and of the user
unfoldable pub keep : ℕ → Option SessionData → List SessionData → List SessionData
keep user_id none found = found
keep user_id (some d) found = if eqb d.user_id user_id && d.is_active then d ∷ found else found

module _ {Bytes : Type 0} (config : Config Bytes) (clock : ℕ → ℕ) where
  -- self.storage._scan_iter(match=f"{self.storage.prefix}*"); one reading for each key
  unfoldable pub scan : Exec (Manager Bytes) (List String)
  scan m =
      let n = length (keys m.storage.stored) in
      let (r, s) =
        Storage.scan_iter (λ i. clock (m.readings + i)) (some (concat m.storage.prefix "*"))
          m.storage in
      (r, record m { storage = s; readings = m.readings + n })

  -- self.storage.get(key[len(self.storage.prefix):], SessionData), with `except: continue`
  unfoldable pub get_scanned : String → Exec (Manager Bytes) (Option SessionData)
  get_scanned key m =
      attempt (storage_get config clock (after_prefix m.storage.prefix key)) (pure none) m

  unfoldable pub collect : ℕ → List String → Exec (Manager Bytes) (List SessionData)
  collect user_id [] = pure []
  collect user_id (key ∷ rest) = do
    found ← get_scanned key
    later ← collect user_id rest
    pure (keep user_id found later)

  unfoldable pub get_active_sessions_by_scan : ℕ → Exec (Manager Bytes) (List SessionData)
  get_active_sessions_by_scan user_id = do found ← scan; collect user_id found

  unfoldable pub terminate_each : List SessionData → Exec (Manager Bytes) Unit
  terminate_each [] = pure tt
  terminate_each (d ∷ rest) = do terminate_session config clock d.session_id; terminate_each rest

  -- the sessions to end: the oldest, so many that one more than is left is within the limit
  unfoldable pub excess : List SessionData → List SessionData
  excess active =
      if leb config.max_sessions (length active)
      then take (length active - config.max_sessions + 1) (sort active)
      else []

  unfoldable pub enforce_session_limit : ℕ → Exec (Manager Bytes) Unit
  enforce_session_limit user_id =
      attempt (do active ← get_active_sessions_by_scan user_id; terminate_each (excess active))
        (pure tt)

  -- `fresh` is the value of `uuid4()`, `token` that of `secrets.token_hex`, and `parse` the parser of
  -- user agents, which is not part of the repository
  unfoldable pub store_session :
      String
      → String
      → (String → Dict String)
      → Request
      → String
      → ℕ
      → Dict String
      → ℕ
      → Exec (Manager Bytes) (String × String)
  store_session fresh token parse request host user_id metadata current = do
    created ← now config clock
    t ← now config clock
    session_id ← in_storage config clock (
        Storage.create config.codec t fresh
          (session_data fresh parse request host user_id metadata created current) (some fresh)
          none)
    csrf_token ← generate_csrf_token config clock token user_id session_id
    pure (session_id, csrf_token)

  unfoldable pub create_for :
      String
      → String
      → (String → Dict String)
      → Request
      → ℕ
      → Dict String
      → ℕ
      → Option String
      → Exec (Manager Bytes) (String × String)
  create_for fresh token parse request user_id metadata current none = raise value_error
  create_for fresh token parse request user_id metadata current (some host) = do
    enforce_session_limit user_id
    store_session fresh token parse request host user_id metadata current

  -- the handler of `create_session` raises again
  unfoldable pub create_session :
      String
      → String
      → (String → Dict String)
      → Request
      → ℕ
      → Dict String
      → Exec (Manager Bytes) (String × String)
  create_session fresh token parse request user_id metadata = do
    current ← now config clock
    create_for fresh token parse request user_id metadata current request.client

  -- the body of the loop of `cleanup_expired_sessions`
  unfoldable pub expire_found : ℕ → String → Option SessionData → Exec (Manager Bytes) Bool
  expire_found t session_id none = pure false
  expire_found t session_id (some d) =
      if d.is_active && is_stale (minutes config.timeout_minutes) t d
      then storage_update config clock session_id (deactivated config clock t "session_timeout" d)
      else pure false

  unfoldable pub expire_key : ℕ → String → Exec (Manager Bytes) Bool
  expire_key t key m =
      let session_id = after_prefix m.storage.prefix key in
      attempt (do found ← storage_get config clock session_id; expire_found t session_id found)
        (pure false) m

  unfoldable pub expire_each : ℕ → List String → Exec (Manager Bytes) Unit
  expire_each t [] = pure tt
  expire_each t (key ∷ rest) = do expire_key t key; expire_each t rest

  mark_cleanup : ℕ → Exec (Manager Bytes) Unit
  mark_cleanup t m = pure tt (record m { last_cleanup = t })

  unfoldable pub cleanup_at : ℕ → Exec (Manager Bytes) Unit
  unfolding mark_cleanup
  cleanup_at t m =
      if ltb t (m.last_cleanup + minutes config.cleanup_minutes)
      then pure tt m
      else attempt (do found ← scan; expire_each t found; mark_cleanup t) (pure tt) m

  unfoldable pub cleanup_expired_sessions : Exec (Manager Bytes) Unit
  cleanup_expired_sessions = do t ← now config clock; cleanup_at t
