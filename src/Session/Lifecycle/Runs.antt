-- ===== src/Session/Lifecycle/Runs.antt =====
-- The operations of app/core/auth/session/manager.py that go over the storage, and those on CSRF
-- tokens, return and make no session active again.
use native.Mathlib.Nat.{le_trans}
use fastapi_hyperf.Common.{
  ℕ, ◌+◌, String, false, ◌&&◌, Option, none, some, List, [], ◌∷◌, refl, arith, inl, inr, Bool-cases,
  ltb, ok, pure,
}
use fastapi_hyperf.Session.Schemas.{SessionData}
use fastapi_hyperf.Session.Storage.{get_key}
use fastapi_hyperf.Session.Storage.Consistent.{IsConsistent, scan_iter-IsSafe}
use fastapi_hyperf.Session.Storage.Wiped.{view-scan_iter}
use fastapi_hyperf.Session.Manager.{Config, Manager, minutes, is_stale, now, terminate_session}
use fastapi_hyperf.Session.Manager.Access.{RoundTrips, session_at}
use fastapi_hyperf.Session.Manager.Keeps.{
  IsMonotone, active_at, Runs, Runs-resume, Runs-pure, Runs-storage_get,
}
use fastapi_hyperf.Session.Manager.Termination.{
  Runs-recover, Runs-now, Runs-deactivate, Runs-terminate_session,
}
use fastapi_hyperf.Session.Lifecycle.{
  scan, get_scanned, collect, get_active_sessions_by_scan, terminate_each, excess,
  enforce_session_limit, expire_found, expire_key, expire_each, cleanup_at,
  cleanup_expired_sessions,
}

module _ {Bytes : Type 0} (config : Config Bytes) (clock : ℕ → ℕ) (mono : IsMonotone clock)
    (law : RoundTrips config.codec) where
  Runs-scan :
      (m : Manager Bytes) → IsConsistent m.storage → Runs config clock m (scan config clock m)
  unfolding scan active_at session_at get_key
  Runs-scan m h =
      let times : ℕ → ℕ = λ i. clock (m.readings + i) in
      let wanted = some (Prim.Native.String.◌++◌ m.storage.prefix "*") in
      let safe = scan_iter-IsSafe times wanted m.storage h in
      let (prefix, seen) = view-scan_iter times wanted m.storage h in
      record {
        value = safe.value;
        returned = safe.returned;
        keeps = record {
          consistent = safe.consistent;
          readings = omega arith;
          prefix = prefix;
          dead = λ k d later le.
              rw
                (
                  prefix,
                  seen later (get_key m.storage k)
                      (λ i l. le_trans (mono (m.readings + i) _ (omega arith)) le),
                )
                (d later (le_trans (mono m.readings _ (omega arith)) le));
        };
      }

  Runs-get_scanned :
      (key : String) (m : Manager Bytes)
      → IsConsistent m.storage
      → Runs config clock m (get_scanned config clock key m)
  unfolding get_scanned
  Runs-get_scanned key m h =
      Runs-recover config clock mono (pure none) m _ (Runs-storage_get config clock mono _ m h)

  Runs-collect :
      (user_id : ℕ) (found : List String) (m : Manager Bytes)
      → IsConsistent m.storage
      → Runs config clock m (collect config clock user_id found m)
  unfolding collect
  Runs-collect user_id [] m h = Runs-pure config clock [] m h
  Runs-collect user_id (key ∷ rest) m h =
      Runs-resume config clock _ m (get_scanned config clock key m)
        (λ found n keeps.
          Runs-resume config clock _ n (collect config clock user_id rest n)
            (λ later l keeps'. Runs-pure config clock _ l keeps'.consistent)
            (Runs-collect user_id rest n keeps.consistent))
        (Runs-get_scanned key m h)

  Runs-terminate_each :
      (sessions : List SessionData) (m : Manager Bytes)
      → IsConsistent m.storage
      → Runs config clock m (terminate_each config clock sessions m)
  unfolding terminate_each
  Runs-terminate_each [] m h = Runs-pure config clock tt m h
  Runs-terminate_each (d ∷ rest) m h =
      Runs-resume config clock _ m (terminate_session config clock d.session_id m)
        (λ _ n keeps. Runs-terminate_each rest n keeps.consistent)
        (Runs-terminate_session config clock mono d.session_id m law h)

  pub Runs-enforce_session_limit :
      (user_id : ℕ) (m : Manager Bytes)
      → IsConsistent m.storage
      → Runs config clock m (enforce_session_limit config clock user_id m)
  unfolding enforce_session_limit get_active_sessions_by_scan
  Runs-enforce_session_limit user_id m h = Runs-recover config clock mono (pure tt) m _ (
      Runs-resume config clock _ m _
        (λ active n keeps. Runs-terminate_each (excess config clock active) n keeps.consistent)
        (Runs-resume config clock _ m (scan config clock m)
          (λ found n keeps. Runs-collect user_id found n keeps.consistent) (Runs-scan m h)))

  Runs-expire_found :
      (t : ℕ) (session_id : String) (found : Option SessionData) (m : Manager Bytes)
      → IsConsistent m.storage
      → Runs config clock m (expire_found config clock t session_id found m)
  unfolding expire_found
  Runs-expire_found t session_id none m h = Runs-pure config clock false m h
  Runs-expire_found t session_id (some d) m h =
      elim (Bool-cases (d.is_active && is_stale (minutes config.timeout_minutes) t d)) [
        | inl old ↦
            simp old (Runs-deactivate config clock mono session_id t "session_timeout" d m law h)
        | inr new ↦ simp new (Runs-pure config clock false m h)
      ]

  Runs-expire_key :
      (t : ℕ) (key : String) (m : Manager Bytes)
      → IsConsistent m.storage
      → Runs config clock m (expire_key config clock t key m)
  unfolding expire_key
  Runs-expire_key t key m h = Runs-recover config clock mono (pure false) m _ (
      Runs-resume config clock _ m _
        (λ found n keeps. Runs-expire_found t _ found n keeps.consistent)
        (Runs-storage_get config clock mono _ m h))

  Runs-expire_each :
      (t : ℕ) (found : List String) (m : Manager Bytes)
      → IsConsistent m.storage
      → Runs config clock m (expire_each config clock t found m)
  unfolding expire_each
  Runs-expire_each t [] m h = Runs-pure config clock tt m h
  Runs-expire_each t (key ∷ rest) m h =
      Runs-resume config clock _ m (expire_key config clock t key m)
        (λ _ n keeps. Runs-expire_each t rest n keeps.consistent) (Runs-expire_key t key m h)

  Runs-mark :
      (t : ℕ) (m : Manager Bytes)
      → IsConsistent m.storage
      → Runs config clock m (ok tt, record m { last_cleanup = t })
  unfolding active_at session_at
  Runs-mark t m h = record {
    value = tt;
    returned = refl;
    keeps = record { consistent = h; readings = omega arith; prefix = refl; dead = λ k d. d };
  }

  Runs-cleanup_at :
      (t : ℕ) (m : Manager Bytes)
      → IsConsistent m.storage
      → Runs config clock m (cleanup_at config clock t m)
  unfolding cleanup_at
  Runs-cleanup_at t m h =
      elim (Bool-cases (ltb t (m.last_cleanup + minutes config.cleanup_minutes))) [
        | inl early ↦ rw early (Runs-pure config clock tt m h)
        | inr due ↦ rw due (
            Runs-recover config clock mono (pure tt) m _ (
              Runs-resume config clock _ m (scan config clock m)
                (λ found n keeps.
                  Runs-resume config clock _ n (expire_each config clock t found n)
                    (λ _ l keeps'. Runs-mark t l keeps'.consistent)
                    (Runs-expire_each t found n keeps.consistent))
                (Runs-scan m h)))
      ]

  pub Runs-cleanup_expired_sessions :
      (m : Manager Bytes)
      → IsConsistent m.storage
      → Runs config clock m (cleanup_expired_sessions config clock m)
  unfolding cleanup_expired_sessions
  Runs-cleanup_expired_sessions m h =
      Runs-resume config clock (cleanup_at config clock) m (now config clock m)
        (λ t n keeps. Runs-cleanup_at t n keeps.consistent) (Runs-now config clock mono m h)
