-- ===== src/Session/Dependencies/Admission.antt =====
-- Whom `get_current_user` and `authenticate_user` let through.
use fastapi_hyperf.Common.{
  ℕ, String, Bool, true, false, not, ◌||◌, Option, none, some, Result, ok, ◌≡◌, ◌≢◌, ◌⊎◌, inl, inr,
  refl, arith, Result-cases, Option-cases, Bool-cases, truthy, returned->>=, ◌>>◌, sym, subst,
}
use fastapi_hyperf.Database.{Crud, IsLawful, Found}
use fastapi_hyperf.Database.Absent.{found-any}
use fastapi_hyperf.Services.User.{User, UserCreateInternal, user_model, has_live_id}
use fastapi_hyperf.Services.User.Service
use fastapi_hyperf.Services.User.Anonymize.{anonymize_user-rows, nobody, none_live}
use fastapi_hyperf.Session.Schemas.{SessionData}
use fastapi_hyperf.Session.Manager.{Config, Manager, validate_session, validate_csrf_token}
use fastapi_hyperf.Session.Lifecycle.{cleanup_expired_sessions}
use fastapi_hyperf.Session.Dependencies
use fastapi_hyperf.Session.Dependencies.{Credentials, is_safe, token_of}

module _ {Bytes : Type 0} (config : Config Bytes) (clock : ℕ → ℕ) {Db : Type 0}
    (users : Crud Db User UserCreateInternal) (law : IsLawful user_model users) (db : Db) where
  -- Why a request is let through as a user: the session of its cookie, its token, and the row of the user.
  pub record Admitted (csrf_enabled : Bool) (c : Credentials) (m : Manager Bytes) (u : User)
      : Type 0 where
    pub session_id : String
    pub session : SessionData
    pub cookie : c.session_id ≡ some session_id
    pub validated :
        (validate_session config clock session_id true
          (cleanup_expired_sessions config clock m).1).0
        ≡ ok (some session)
    pub active : session.is_active ≡ true
    pub unforged :
        ((is_safe c.method || not csrf_enabled) ≡ true)
        ⊎ ((token : String) × (token_of c ≡ some token)
            × ((validate_csrf_token config clock session.session_id token
                  (validate_session config clock session_id true
                    (cleanup_expired_sessions config clock m).1).1).0
                ≡ ok true))
    pub live : Found (has_live_id session.user_id) u (users.rows db)

  user_found :
      (d : SessionData) (m : Manager Bytes) (u : User)
      → (Dependencies.get_current_user config clock users db (some d) m).0 ≡ ok u
      → (d.is_active ≡ true) × Found (has_live_id d.user_id) u (users.rows db)
  unfolding Dependencies.get_current_user Dependencies.find_user
  user_found d m u h = elim (Result-cases (users.get (has_live_id d.user_id) db)) [
    | inr (e, fails) ↦ ground (arith, h, fails)
    | inl (none, gives) ↦ ground (arith, h, gives)
    | inl (some x, gives) ↦
        let same : users.get (has_live_id d.user_id) db ≡ ok (some u) = ground (arith, h, gives) in
        (ground (arith, h), law.get-some (has_live_id d.user_id) db u same)
  ]

  no_session :
      (m : Manager Bytes) (u : User)
      → (Dependencies.get_current_user config clock users db none m).0 ≢ ok u
  unfolding Dependencies.get_current_user
  no_session m u h = ground (arith, h)

  token_passes :
      (csrf_enabled : Bool) (c : Credentials) (d : SessionData) (m : Manager Bytes) (v : Unit {0})
      → (Dependencies.verify_csrf_token config clock csrf_enabled c (some d) m).0 ≡ ok v
      → ((is_safe c.method || not csrf_enabled) ≡ true)
        ⊎ ((token : String) × (token_of c ≡ some token)
            × ((validate_csrf_token config clock d.session_id token m).0 ≡ ok true))
  unfolding Dependencies.verify_csrf_token Dependencies.verify_session Dependencies.verify_token
  token_passes csrf_enabled c d m v h = elim (Bool-cases (is_safe c.method || not csrf_enabled)) [
    | inl exempt ↦ inl exempt
    | inr checked ↦ (elim (Option-cases (token_of c)) [
      | inl missing ↦ ground (arith, h, checked, missing)
      | inr (token, given) ↦ inr (token, given, ground (arith, h, checked, given))
    ])
  ]

  -- the session of the cookie, and the state in which it is read
  session_found :
      (cookie : Option String) (m : Manager Bytes) (d : SessionData)
      → (Dependencies.from_cookie config clock cookie m).0 ≡ ok (some d)
      → (session_id : String) × (cookie ≡ some session_id)
        × (Dependencies.from_cookie config clock cookie m
            ≡ validate_session config clock session_id true
                (cleanup_expired_sessions config clock m).1)
  unfolding Dependencies.from_cookie
  session_found none m d h = ground (arith, h)
  session_found (some session_id) m d h = elim (Bool-cases (truthy session_id)) [
    | inr empty ↦ ground (arith, h, empty)
    | inl given ↦
        let (v, cleaned, rest, whole) =
          returned->>= (cleanup_expired_sessions config clock)
            (λ _. validate_session config clock session_id true) m (some d)
            (ground (arith, h, given)) in
        (session_id, refl, rw given whole)
  ]

  admitted :
      (csrf_enabled : Bool) (c : Credentials) (m : Manager Bytes) (u : User)
      (o : Option SessionData)
      → (Dependencies.from_cookie config clock c.session_id m).0 ≡ ok o
      → ((Dependencies.verify_csrf_token config clock csrf_enabled c o
            >> Dependencies.get_current_user config clock users db o)
          (Dependencies.from_cookie config clock c.session_id m).1).0
        ≡ ok u
      → Admitted csrf_enabled c m u
  admitted csrf_enabled c m u none read next =
      let later = (Dependencies.from_cookie config clock c.session_id m).1 in
      let (v, passed, got, _) =
        returned->>= (Dependencies.verify_csrf_token config clock csrf_enabled c none)
          (λ _. Dependencies.get_current_user config clock users db none) later u next in
      absurd
        (no_session (Dependencies.verify_csrf_token config clock csrf_enabled c none later).1 u got)
  admitted csrf_enabled c m u (some d) read next =
      let later = (Dependencies.from_cookie config clock c.session_id m).1 in
      let (v, passed, got, _) =
        returned->>= (Dependencies.verify_csrf_token config clock csrf_enabled c (some d))
          (λ _. Dependencies.get_current_user config clock users db (some d)) later u next in
      let (active, live) =
        user_found d (Dependencies.verify_csrf_token config clock csrf_enabled c (some d) later).1 u
          got in
      let (session_id, cookie, state) = session_found c.session_id m d read in
      record {
        session_id = session_id;
        session = d;
        cookie = cookie;
        validated = rw (sym state) read;
        active = active;
        unforged = rw (sym state) (token_passes csrf_enabled c d later v passed);
        live = live;
      }

  -- Over a table of users as documented: a route that depends on `get_current_user` lets a request through as
  -- a user only where the request has a session cookie, the session validates after the cleanup and is active,
  -- the method is GET, HEAD or OPTIONS, or the check of tokens is switched off, or the request's token is
  -- accepted for that very session, and the user is a row of the table, not deleted, with the session's user id.
  pub admit-Admitted :
      (csrf_enabled : Bool) (c : Credentials) (m : Manager Bytes) (u : User)
      → (Dependencies.admit config clock users db csrf_enabled c m).0 ≡ ok u
      → Admitted csrf_enabled c m u
  unfolding Dependencies.admit Dependencies.get_session_from_cookie
  admit-Admitted csrf_enabled c m u h =
      let (o, read, next, _) =
        returned->>= (Dependencies.get_session_from_cookie config clock c)
          (λ o.
            Dependencies.verify_csrf_token config clock csrf_enabled c o
            >> Dependencies.get_current_user config clock users db o)
          m u h in
      admitted csrf_enabled c m u o read next

module _ {Db : Type 0} (users : Crud Db User UserCreateInternal) (law : IsLawful user_model users)
    (verify_password : String → String → Result Bool) where
  -- Over a table of users as documented: `authenticate_user` returns a user only if the user is a row of the
  -- table, is not deleted, has the given text as its email where it has an "@" and as its username where it
  -- has none, and the given password verifies against the hash of that row.
  authenticate_user-Found :
      (username_or_email password : String) (db : Db) (u : User)
      → (Dependencies.authenticate_user users verify_password username_or_email password db).0
        ≡ ok (some u)
      → Found (Dependencies.names_user users verify_password username_or_email) u (users.rows db)
        × (verify_password password u.hashed_password ≡ ok true)
  unfolding Dependencies.authenticate_user Dependencies.check_password
  authenticate_user-Found username_or_email password db u h =
      let p = Dependencies.names_user users verify_password username_or_email in
      elim (Result-cases (users.get p db)) [
        | inr (e, fails) ↦ ground (arith, h, fails)
        | inl (none, gives) ↦ ground (arith, h, gives)
        | inl (some x, gives) ↦ (elim (Result-cases (verify_password password x.hashed_password)) [
          | inr (e, fails) ↦ ground (arith, h, gives, fails)
          | inl (false, wrong) ↦ ground (arith, h, gives, wrong)
          | inl (true, right) ↦
              let same : x ≡ u = ground (arith, h, gives, right) in
              (
                subst (λ y. Found p y (users.rows db)) same (law.get-some p db x gives),
                subst (λ y. verify_password password y.hashed_password ≡ ok true) same right,
              )
        ])
      ]

  -- Over a table of users as documented: once `anonymize_user` of an id has returned, `authenticate_user`
  -- returns no user with that id, whatever name, email and password it is given.
  pub authenticate_user-anonymize_user :
      (t n : ℕ) (db : Db) (v : Unit {0}) (username_or_email password : String) (u : User)
      → (Service.anonymize_user users t n db).0 ≡ ok v
      → u.id ≡ n
      → (Dependencies.authenticate_user users verify_password username_or_email password
          (Service.anonymize_user users t n db).1).0
        ≢ ok (some u)
  unfolding Dependencies.names_user
  authenticate_user-anonymize_user t n db v username_or_email password u h same k =
      let after = (Service.anonymize_user users t n db).1 in
      let ((hit, (before, later, e)), right) =
        authenticate_user-Found username_or_email password after u k in
      let (one, rows) = anonymize_user-rows users law t n db v h in
      ground (
        arith,
        e,
        rows,
        none_live n (nobody t n) (λ r. refl) (users.rows db),
        found-any (has_live_id n) u before later (ground (arith, hit, same)),
      )
