-- ===== src/Session/Dependencies.antt =====
-- app/core/auth/session/dependencies.py. FastAPI gives each dependency the values of the ones that it names,
-- once for a request, in their order; a cookie or header that is absent is none. The table of users is
-- read at one state for a request. `get_session_manager` keeps the one manager that is threaded here.
pub mod Admission
use fastapi_hyperf.Common.{
  ℕ, String, Bool, true, false, not, ◌&&◌, ◌||◌, Option, none, some, Result, ok, err, Exec, ◌==◌,
  pure, raise, resume, read, require, refuse, done, ◌>>=◌, ◌>>◌, truthy, if◌then◌else◌,
  unauthorized_exception, csrf_exception, forbidden_exception, eqb, List,
}
use fastapi_hyperf.Common.Slices.{lacks}
use fastapi_hyperf.Database.{Crud}
use fastapi_hyperf.Services.User.{User, UserCreateInternal, has_live_id}
use fastapi_hyperf.Session.Schemas.{SessionData}
use fastapi_hyperf.Session.Manager.{Config, Manager, validate_session, validate_csrf_token}
use fastapi_hyperf.Session.Lifecycle.{cleanup_expired_sessions}

-- what a request carries: its method, its two cookies and the header
pub record Credentials : Type 0 where
  pub method : String
  pub session_id : Option String
  pub csrf_token : Option String
  pub x_csrf_token : Option String

-- request.method in ("GET", "HEAD", "OPTIONS")
unfoldable pub is_safe : String → Bool
is_safe method = (method == "GET") || (method == "HEAD") || (method == "OPTIONS")

-- x_csrf_token or csrf_token, and whether the result counts as true
unfoldable pub token_or : Option String → Option String → Option String
token_or none cookie = cookie
token_or (some header) cookie = if truthy header then some header else cookie

unfoldable pub token_of : Credentials → Option String
token_of c = elim (token_or c.x_csrf_token c.csrf_token) [
  | none ↦ none
  | some token ↦ if truthy token then some token else none
]

module _ {Bytes : Type 0} (config : Config Bytes) (clock : ℕ → ℕ) where
  unfoldable pub from_cookie : Option String → Exec (Manager Bytes) (Option SessionData)
  from_cookie none = pure none
  from_cookie (some session_id) =
      if not (truthy session_id)
      then pure none
      else (do cleanup_expired_sessions config clock; validate_session config clock session_id true)

  unfoldable pub get_session_from_cookie : Credentials → Exec (Manager Bytes) (Option SessionData)
  get_session_from_cookie c = from_cookie c.session_id

  -- the token against the session
  unfoldable pub verify_token : String → Option String → Exec (Manager Bytes) (Unit {0})
  verify_token session_id none = raise (csrf_exception "Missing CSRF token")
  verify_token session_id (some token) = do
    is_valid ← validate_csrf_token config clock session_id token
    refuse (not is_valid) (csrf_exception "Invalid CSRF token")

  unfoldable pub verify_session : Credentials → Option SessionData → Exec (Manager Bytes) (Unit {0})
  verify_session c none = done
  verify_session c (some d) = verify_token d.session_id (token_of c)

  -- `csrf_enabled` is `settings.CSRF_ENABLED`
  unfoldable pub verify_csrf_token :
      Bool → Credentials → Option SessionData → Exec (Manager Bytes) (Unit {0})
  verify_csrf_token csrf_enabled c session_data =
      if is_safe c.method
      then done
      else if not csrf_enabled
      then done
      else verify_session c session_data

  module _ {Db : Type 0} (crud_users : Crud Db User UserCreateInternal) (db : Db) where
    unfoldable pub find_user : ℕ → Exec (Manager Bytes) (Option User)
    find_user user_id = read (λ m. crud_users.get (has_live_id user_id) db)

    unfoldable pub get_current_user : Option SessionData → Exec (Manager Bytes) User
    get_current_user none = raise (unauthorized_exception "Not authenticated")
    get_current_user (some d) =
        if not d.is_active then raise (unauthorized_exception "Not authenticated") else (do
          user ← find_user d.user_id
          require user (unauthorized_exception "Not authenticated"))

    unfoldable get_optional_user : Option SessionData → Exec (Manager Bytes) (Option User)
    get_optional_user none = pure none
    get_optional_user (some d) = if not d.is_active then pure none else find_user d.user_id

    unfoldable get_current_superuser : User → Exec (Manager Bytes) User
    get_current_superuser current_user = do
      refuse (not current_user.is_superuser) (forbidden_exception "Insufficient privileges")
      pure current_user

    -- a route that depends on `get_current_user`, up to its body
    unfoldable pub admit : Bool → Credentials → Exec (Manager Bytes) User
    admit csrf_enabled c = do
      session_data ← get_session_from_cookie c
      verify_csrf_token csrf_enabled c session_data
      get_current_user session_data

    -- and one that depends on `get_current_superuser`
    unfoldable admit_superuser : Bool → Credentials → Exec (Manager Bytes) User
    admit_superuser csrf_enabled c = do
      current_user ← admit csrf_enabled c
      get_current_superuser current_user

  unfoldable get_current_session_data : Option String → Exec (Manager Bytes) SessionData
  get_current_session_data none = raise (unauthorized_exception "Not authenticated")
  get_current_session_data (some session_id) =
      if not (truthy session_id) then raise (unauthorized_exception "Not authenticated") else (do
        session_data ← validate_session config clock session_id true
        require session_data (unauthorized_exception "Invalid or expired session"))

module _ {Db : Type 0} (crud_users : Crud Db User UserCreateInternal)
    (verify_password : String → String → Result Bool) where
  -- the user that was found, if the password is the user's
  unfoldable pub check_password : String → Option User → Exec Db (Option User)
  check_password password none = pure none
  check_password password (some user) = do
    is_right ← read (λ db. verify_password password user.hashed_password)
    (if not is_right then pure none else pure (some user))

  -- "@" in username_or_email; 64 is the code of "@"
  unfoldable pub names_user : String → User → Bool
  names_user username_or_email u =
      (if not (lacks 64 username_or_email)
        then u.email == username_or_email
        else u.username == username_or_email)
      && not u.is_deleted

  unfoldable pub authenticate_user : String → String → Exec Db (Option User)
  authenticate_user username_or_email password = do
    user ← read (crud_users.get (names_user username_or_email))
    check_password password user
