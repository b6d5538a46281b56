-- ===== src/Session/Schemas.antt =====
-- app/core/auth/session/schemas.py: the data of a session and of a CSRF token. Values of the free
-- form dictionaries are texts.
use fastapi_hyperf.Common.{ℕ, String, Bool}
use fastapi_hyperf.Common.Dict.{Dict}

pub record SessionData : Type 0 where
  pub user_id : ℕ
  pub session_id : String
  pub ip_address : String
  pub user_agent : String
  pub device_info : Dict String
  pub created_at : ℕ
  pub last_activity : ℕ
  pub is_active : Bool
  pub metadata : Dict String

pub record CsrfToken : Type 0 where
  pub token : String
  pub user_id : ℕ
  pub session_id : String
  pub expiry : ℕ
