-- ===== src/Session/Manager/Termination.antt =====
-- `terminate_session` of app/core/auth/session/manager.py.
use native.Mathlib.Nat.{le_trans}
use fastapi_hyperf.Common.{
  ℕ, ◌+◌, ◌≤◌, String, false, Option, none, some, ◌≡◌, refl, arith, ==_refl, Result, ok, err, Exec,
  recover, state-recover-pure, pure,
}
use fastapi_hyperf.Session.Schemas.{SessionData}
use fastapi_hyperf.Session.Storage.{decode}
use fastapi_hyperf.Session.Storage.Consistent.{IsConsistent}
use fastapi_hyperf.Session.Manager.{
  Config, Manager, now, storage_update, deactivated, terminate_found, terminate_session,
}
use fastapi_hyperf.Session.Manager.Access.{RoundTrips, session_at, has_value, read, written}
use fastapi_hyperf.Session.Manager.Keeps.{
  IsMonotone, active_at, session_at_later, IsDead, Runs, Runs-resume, Runs-pure, Runs-storage_get,
  Runs-storage_update,
}

session_at-none :
    {Bytes : Type 0} (config : Config Bytes) (t : ℕ) (k : String) (m : Manager Bytes)
    → has_value t k m ≡ false
    → session_at config t k m ≡ none
unfolding session_at has_value decode
session_at-none config t k m h = ground arith

module _ {Bytes : Type 0} (config : Config Bytes) (clock : ℕ → ℕ) (mono : IsMonotone clock) where
  pub Runs-recover :
      {A : Type 0} (handler : Exec (Manager Bytes) A) (m : Manager Bytes)
      (r : Result A × Manager Bytes)
      → Runs config clock m r
      → Runs config clock m (recover handler r)
  Runs-recover handler m (ok a, n) runs = runs
  Runs-recover handler m (err e, n) runs = absurd (ground (arith, runs.returned))

  pub Runs-now :
      (m : Manager Bytes) → IsConsistent m.storage → Runs config clock m (now config clock m)
  unfolding active_at session_at
  Runs-now m h = record {
    value = clock m.readings;
    returned = refl;
    keeps = record {
      consistent = h;
      readings = omega arith;
      prefix = refl;
      dead = λ k d later le. d later (le_trans (mono m.readings (m.readings + 1) (omega arith)) le);
    };
  }

  -- the write of a session with `is_active = False`
  pub Runs-deactivate :
      (session_id : String) (t : ℕ) (reason : String) (d : SessionData) (m : Manager Bytes)
      → RoundTrips config.codec
      → IsConsistent m.storage
      → Runs config clock m
          (storage_update config clock session_id (deactivated config clock t reason d) m)
  unfolding deactivated
  Runs-deactivate session_id t reason d m law h =
      Runs-storage_update config clock mono session_id (deactivated config clock t reason d) m law h
        (λ active _. absurd (ground arith))

  Runs-terminate_found :
      (session_id : String) (found : Option SessionData) (m : Manager Bytes)
      → RoundTrips config.codec
      → IsConsistent m.storage
      → Runs config clock m (terminate_found config clock session_id found m)
  unfolding terminate_found
  Runs-terminate_found session_id none m law h = Runs-pure config clock false m h
  Runs-terminate_found session_id (some d) m law h =
      Runs-resume config clock
        (λ t.
          storage_update config clock session_id
            (deactivated config clock t "manual_termination" d))
        m (now config clock m)
        (λ t n keeps. Runs-deactivate session_id t "manual_termination" d n law keeps.consistent)
        (Runs-now m h)

  pub Runs-terminate_session :
      (session_id : String) (m : Manager Bytes)
      → RoundTrips config.codec
      → IsConsistent m.storage
      → Runs config clock m (terminate_session config clock session_id m)
  unfolding terminate_session
  Runs-terminate_session session_id m law h = Runs-recover (pure false) m _ (
      Runs-resume config clock (terminate_found config clock session_id) m _
        (λ found n keeps. Runs-terminate_found session_id found n law keeps.consistent)
        (Runs-storage_get config clock mono session_id m h))

  -- a session that was just written as inactive is dead
  deactivate-IsDead :
      (session_id : String) (t : ℕ) (reason : String) (d : SessionData) (m : Manager Bytes)
      → RoundTrips config.codec
      → IsConsistent m.storage
      → IsDead config clock session_id
          (storage_update config clock session_id (deactivated config clock t reason d) m).1
  unfolding deactivated active_at
  deactivate-IsDead session_id t reason d m law h =
      let w = written config clock m h session_id (deactivated config clock t reason d) in
      let le = mono m.readings w.after.readings (omega (arith, w.readings)) in
      rw w.writes (λ later late. ground (
        arith,
        w.shown law later session_id (le_trans le late),
        session_at_later config (clock m.readings) later session_id m (le_trans le late),
        ==_refl session_id,
        session_at-none config (clock m.readings) session_id m,
      ))

  terminate_found-IsDead :
      (session_id : String) (found : Option SessionData) (m : Manager Bytes)
      → RoundTrips config.codec
      → IsConsistent m.storage
      → (found ≡ none → IsDead config clock session_id m)
      → IsDead config clock session_id (terminate_found config clock session_id found m).1
  unfolding terminate_found
  terminate_found-IsDead session_id none m law h missing = missing refl
  terminate_found-IsDead session_id (some d) m law h missing =
      deactivate-IsDead session_id (clock m.readings) "manual_termination" d
        (record m { readings = m.readings + 1 }) law h

  missing_later :
      (k : String) (m n : Manager Bytes) (later : ℕ)
      → session_at config (clock m.readings) k m ≡ none
      → clock m.readings ≤ later
      → session_at config later k n ≡ session_at config later k m
      → active_at config later k n ≡ false
  unfolding active_at
  missing_later k m n later missing le same =
      ground (arith, session_at_later config (clock m.readings) later k m le)

  -- After `terminate_session` the storage shows no active session under the identifier, at any
  -- instant from then on. For a clock that does not go back, and where a session can be read back
  -- as it was written. Where the dictionaries of values and of deadlines have the same keys.
  pub terminate_session-IsDead :
      (session_id : String) (m : Manager Bytes)
      → RoundTrips config.codec
      → IsConsistent m.storage
      → IsDead config clock session_id (terminate_session config clock session_id m).1
  unfolding terminate_session
  terminate_session-IsDead session_id m law h =
      let r = read config clock m h session_id in
      rw (r.reads, state-recover-pure)
        (terminate_found-IsDead session_id (session_at config (clock m.readings) session_id m)
          r.after law r.consistent
          (λ missing later late.
            let le = le_trans (mono m.readings r.after.readings (omega (arith, r.readings))) late in
            missing_later session_id m r.after later missing le (r.shown later session_id le)))
