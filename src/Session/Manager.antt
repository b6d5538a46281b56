-- ===== src/Session/Manager.antt =====
-- app/core/auth/session/manager.py over the memory storage. The clock is a function from the number
-- of a reading to the instant that it shows; the manager counts the readings. A reading whose value
-- the code does not look at is counted too. Neither the memory storage nor its callers here wait for
-- anything else, so an operation runs to its end before another begins.
-- The branches for a storage with `get_user_sessions` or a `client` are those of other backends.
pub mod Access
pub mod Keeps
pub mod Termination
pub mod Validation
pub mod Csrf
use fastapi_hyperf.Common.{
  ℕ, suc, ◌+◌, ◌-◌, ◌*◌, String, Bool, true, false, not, ◌&&◌, Option, none, some, List, [], ◌∷◌,
  ltb, leb, eqb, ◌==◌, truthy, if◌then◌else◌, length, take, Result, ok, Exec, pure, attempt, resume,
  ◌>>=◌, ◌>>◌,
}
use fastapi_hyperf.Common.Dict
use fastapi_hyperf.Common.Dict.{Dict}
use fastapi_hyperf.Session.Schemas.{SessionData, CsrfToken}
use fastapi_hyperf.Session.Storage
use fastapi_hyperf.Session.Storage.{Codec, Storage, seconds}

-- The arguments of `__init__` that do not change, and what the manager uses of other packages:
-- pydantic's encoding of the two models and the `isoformat` of an instant.
pub record Config (Bytes : Type 0) : Type 0 where
  pub codec : Codec SessionData Bytes
  pub csrf_codec : Codec CsrfToken Bytes
  pub isoformat : ℕ → String
  pub max_sessions : ℕ
  pub timeout_minutes : ℕ
  pub cleanup_minutes : ℕ

pub record Manager (Bytes : Type 0) : Type 0 where
  pub storage : Storage Bytes
  pub csrf_storage : Storage Bytes
  pub last_cleanup : ℕ
  pub readings : ℕ

-- timedelta(minutes=n)
abbrev pub minutes : ℕ → ℕ
minutes n = seconds (n * 60)

abbrev pub is_stale : ℕ → ℕ → SessionData → Bool
is_stale timeout now d = ltb (d.last_activity + timeout) now

module _ {Bytes : Type 0} (config : Config Bytes) (clock : ℕ → ℕ) where
  -- datetime.now(UTC)
  abbrev pub now : Exec (Manager Bytes) ℕ
  now m = pure (clock m.readings) (record m { readings = m.readings + 1 })

  abbrev pub in_storage : {A : Type 0} → Exec (Storage Bytes) A → Exec (Manager Bytes) A
  in_storage action m = let (r, s) = action m.storage in (r, record m { storage = s })

  abbrev in_csrf_storage : {A : Type 0} → Exec (Storage Bytes) A → Exec (Manager Bytes) A
  in_csrf_storage action m =
      let (r, s) = action m.csrf_storage in (r, record m { csrf_storage = s })

  -- self.storage.get(session_id, SessionData)
  unfoldable pub storage_get : String → Exec (Manager Bytes) (Option SessionData)
  storage_get session_id = do t ← now; in_storage (Storage.get config.codec t session_id)

  -- self.storage.update(session_id, session_data)
  unfoldable pub storage_update : String → SessionData → Exec (Manager Bytes) Bool
  storage_update session_id d = do
    t ← now
    u ← now
    in_storage (Storage.update config.codec t u session_id d true none)

  -- is_active = False, and the two entries of the metadata
  unfoldable pub deactivated : ℕ → String → SessionData → SessionData
  deactivated t reason d = record d {
    is_active = false;
    metadata =
        Dict.put "termination_reason" reason
          (Dict.put "terminated_at" (config.isoformat t) d.metadata);
  }

  unfoldable pub terminate_found : String → Option SessionData → Exec (Manager Bytes) Bool
  terminate_found session_id none = pure false
  terminate_found session_id (some d) = do
    t ← now
    storage_update session_id (deactivated t "manual_termination" d)

  unfoldable pub terminate_session : String → Exec (Manager Bytes) Bool
  terminate_session session_id =
      attempt (do found ← storage_get session_id; terminate_found session_id found) (pure false)

  unfoldable pub refresh :
      String → Bool → ℕ → SessionData → Exec (Manager Bytes) (Option SessionData)
  refresh session_id false t d = pure (some d)
  refresh session_id true t d = do
    storage_update session_id (record d { last_activity = t })
    pure (some (record d { last_activity = t }))

  unfoldable pub validate_active :
      String → Bool → SessionData → ℕ → Exec (Manager Bytes) (Option SessionData)
  validate_active session_id update_activity d t =
      if is_stale (minutes config.timeout_minutes) t d
      then terminate_session session_id >>= (λ _. pure none)
      else refresh session_id update_activity t d

  unfoldable pub validate_found :
      String → Bool → Option SessionData → Exec (Manager Bytes) (Option SessionData)
  validate_found session_id update_activity none = pure none
  validate_found session_id update_activity (some d) =
      if not d.is_active
      then pure none
      else (do t ← now; validate_active session_id update_activity d t)

  unfoldable pub validate_session : String → Bool → Exec (Manager Bytes) (Option SessionData)
  validate_session session_id update_activity =
      if not (truthy session_id)
      then pure none
      else attempt
          (do found ← storage_get session_id; validate_found session_id update_activity found)
          (pure none)

  -- `token` is the value of `secrets.token_hex`
  unfoldable pub generate_csrf_token : String → ℕ → String → Exec (Manager Bytes) String
  generate_csrf_token token user_id session_id = do
    t ← now
    u ← now
    in_csrf_storage (
        Storage.create config.csrf_codec u token
          (record {
            token = token;
            user_id = user_id;
            session_id = session_id;
            expiry = t + minutes config.timeout_minutes;
          })
          (some token) none)
    pure token

  unfoldable pub csrf_found : String → String → Option CsrfToken → Exec (Manager Bytes) Bool
  csrf_found session_id csrf_token none = pure false
  csrf_found session_id csrf_token (some d) =
      if not (d.session_id == session_id) then pure false else do
        t ← now
        (if ltb d.expiry t
            then in_csrf_storage (Storage.delete csrf_token) >>= (λ _. pure false)
            else pure true)

  unfoldable pub validate_csrf_token : String → String → Exec (Manager Bytes) Bool
  validate_csrf_token session_id csrf_token =
      if not (truthy session_id && truthy csrf_token)
      then pure false
      else attempt
          (do
            t ← now
            found ← in_csrf_storage (Storage.get config.csrf_codec t csrf_token)
            csrf_found session_id csrf_token found)
          (pure false)
