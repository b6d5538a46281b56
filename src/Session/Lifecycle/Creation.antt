-- ===== src/Session/Lifecycle/Creation.antt =====
-- What `create_session` of app/core/auth/session/manager.py leaves for `validate_session`.
use fastapi_hyperf.Common.{
  ℕ, ◌+◌, ◌≤◌, String, true, none, some, ◌≡◌, leb, if◌then◌else◌, ok, Result,
}
use fastapi_hyperf.Common.Dict.{Dict}
use fastapi_hyperf.Session.Schemas.{SessionData}
use fastapi_hyperf.Session.Storage
use fastapi_hyperf.Session.Storage.{seconds}
use fastapi_hyperf.Session.Storage.Consistent.{IsConsistent}
use fastapi_hyperf.Session.Manager.{Config, Manager}
use fastapi_hyperf.Session.Manager.Access.{RoundTrips, session_at}
use fastapi_hyperf.Session.Manager.Keeps.{IsMonotone}
use fastapi_hyperf.Session.Lifecycle.{Request}

module _ {Bytes : Type 0} (config : Config Bytes) (clock : ℕ → ℕ) (mono : IsMonotone clock)
    (law : RoundTrips config.codec) (fresh token : String) (parse : String → Dict String)
    (request : Request) (user_id : ℕ) (metadata : Dict String) where
  -- A session that was made for the user: when, and what is in it.
  pub record Made (current : ℕ) (r : Result (String × String) × Manager Bytes) : Type 0 where
    pub made : ℕ
    pub session : SessionData
    pub returned : r.0 ≡ ok (fresh, token)
    pub consistent : IsConsistent r.1.storage
    pub since : current ≤ made
    pub until : made ≤ clock r.1.readings
    pub of_user : session.user_id ≡ user_id
    pub noted_metadata : session.metadata ≡ metadata
    pub named : session.session_id ≡ fresh
    pub active : session.is_active ≡ true
    pub noted : session.last_activity ≡ current
    pub shown :
        (later : ℕ)
        → session_at config later fresh r.1
          ≡ (if leb later (made + seconds r.1.storage.expiration) then some session else none)
