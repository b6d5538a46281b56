-- ===== src/Session/RequestTests.antt =====
-- Test data and witnesses for login attempts and the dependencies of routes.
use fastapi_hyperf.Common.{
  ℕ, ◌+◌, String, Bool, true, false, none, some, [], ◌∷◌, ok, Result, ◌≡◌, ◌≢◌, refl, arith, ◌==◌,
  eq_iff,
}
use fastapi_hyperf.Common.Dict
use fastapi_hyperf.Common.Dict.{Dict, get-put, get-remove}
use fastapi_hyperf.Database.Memory.{memory, memory-IsLawful}
use fastapi_hyperf.Services.User.{User, user_model, anonymized}
use fastapi_hyperf.Services.User.Service
use fastapi_hyperf.Session.Login.{Limiter, Policy, track_login_attempt}
use fastapi_hyperf.Session.Login.Attempts.{
  Counts, fail_all, told, attempts, track_login_attempt-told, track_login_attempt-success,
}
use fastapi_hyperf.Session.Storage.{get, write, update}
use fastapi_hyperf.Session.Manager.{
  validate_session, validate_found, validate_active, storage_get, storage_update, refresh,
}
use fastapi_hyperf.Session.Lifecycle.{cleanup_expired_sessions, cleanup_at}
use fastapi_hyperf.Session.Dependencies
use fastapi_hyperf.Session.Dependencies.{Credentials, admit, authenticate_user, names_user, is_safe}
use fastapi_hyperf.Session.Dependencies.Admission.{
  Admitted, admit-Admitted, authenticate_user-anonymize_user,
}
use fastapi_hyperf.Session.Tests.{config, clock, manager}

abbrev number_at : String → Dict ℕ → ℕ
number_at key d = elim (Dict.get key d) [ none ↦ 0 | some n ↦ n ]

-- counters that do not expire
abbrev limiter : Limiter (Dict ℕ)
limiter = record {
  increment = λ t key amount expiry d. let n = number_at key d + amount in (ok n, Dict.put key n d);
  delete = λ t key d. (ok true, Dict.remove key d);
}

limiter-Counts : Counts limiter
limiter-Counts = record {
  count = λ t key d. number_at key d;
  incremented = λ t key amount expiry d. refl;
  kept = λ t u key amount expiry d le lt.
      ground (arith, get-put key key (number_at key d + amount) d, eq_iff key key);
  untouched = λ t u key other amount expiry d apart le.
      ground (arith, apart, get-put key other (number_at key d + amount) d);
  answered = λ t key d. (true, refl);
  deleted = λ t u key other d le. ground (arith, get-remove key other d);
}

abbrev login_policy : Policy
login_policy = record { login_max_attempts = 2; login_window_minutes = 1 }

track_login_attempt-told_example :
    fail_all login_policy limiter limiter-Counts "10.0.0.1" "ann" (5 ∷ (20 ∷ (79 ∷ []))) []
    ≡ told login_policy limiter limiter-Counts "10.0.0.1" "ann"
        (attempts login_policy limiter limiter-Counts "10.0.0.1" "ann" 5 [])
        (5 ∷ (20 ∷ (79 ∷ [])))
track_login_attempt-told_example =
    track_login_attempt-told login_policy limiter limiter-Counts "10.0.0.1" "ann" 5 (20 ∷ (79 ∷ []))
      [] (omega arith, omega arith, (omega arith, omega arith, tt))

track_login_attempt-success_example :
    let r =
      track_login_attempt login_policy
        (some limiter)
        5
        "10.0.0.1"
        "ann"
        true
        (("login:ip:10.0.0.1", 2) ∷ []) in
    (r.0 ≡ ok (true, none))
    × (fail_all login_policy limiter limiter-Counts "10.0.0.1" "ann" (6 ∷ (7 ∷ [])) r.1
        ≡ told login_policy limiter limiter-Counts "10.0.0.1" "ann" 0 (6 ∷ (7 ∷ [])))
track_login_attempt-success_example =
    track_login_attempt-success login_policy limiter limiter-Counts "10.0.0.1" "ann" 5 6 (7 ∷ [])
      (("login:ip:10.0.0.1", 2) ∷ []) (omega arith) (omega arith, omega arith, tt)

abbrev ann : User
ann = record {
  id = 7;
  name = "Ann";
  username = "ann";
  email = "a@x";
  hashed_password = "secret";
  profile_image_url = "https://profileimageurl.com";
  tier_id = none;
  is_superuser = false;
  google_id = none;
  github_id = none;
  oauth_provider = none;
  email_verified = true;
  oauth_created_at = none;
  oauth_updated_at = none;
  is_deleted = false;
}

abbrev verify : String → String → Result Bool
verify password hashed = ok (password == hashed)

abbrev credentials : Credentials
credentials = record {
  method = "GET";
  session_id = some "s1";
  csrf_token = none;
  x_csrf_token = none;
}

admit-Admitted_example :
    Admitted config clock
      (memory user_model)
      (memory-IsLawful user_model)
      (ann ∷ [])
      true
      credentials
      manager
      ann
unfolding admit Dependencies.get_session_from_cookie Dependencies.from_cookie
    Dependencies.verify_csrf_token is_safe Dependencies.get_current_user Dependencies.find_user
    cleanup_expired_sessions cleanup_at validate_session validate_found validate_active storage_get
    storage_update refresh get write Dict.get Dict.put update
admit-Admitted_example =
    admit-Admitted config clock (memory user_model) (memory-IsLawful user_model) (ann ∷ []) true
      credentials manager ann refl

authenticate_user-anonymize_user_example :
    (authenticate_user
      (memory user_model)
      verify
      "a@x"
      "secret"
      (Service.anonymize_user (memory user_model) 5 7 (ann ∷ [])).1).0
    ≢ ok (some ann)
unfolding Service.anonymize_user Service.with_errors anonymized
authenticate_user-anonymize_user_example =
    authenticate_user-anonymize_user (memory user_model) (memory-IsLawful user_model) verify 5 7
      (ann ∷ []) tt "a@x" "secret" ann refl refl
