-- ===== src/Session/Manager/Keeps.antt =====
-- What every operation of the manager of app/core/auth/session/manager.py keeps: the storage is
-- consistent, the operation does not raise, and a session that is not active stays so.
use fastapi_hyperf.Common.{
  ℕ, ◌≤◌, String, Bool, true, false, Option, none, some, ◌≡◌, refl, arith, eq_iff, ◌⊎◌, Result, ok,
  err, Exec, resume, pure, ◌∙◌,
}
use native.Mathlib.Nat.{le_refl, le_trans}
use fastapi_hyperf.Session.Schemas.{SessionData}
use fastapi_hyperf.Session.Storage.{is_past, decode}
use fastapi_hyperf.Session.Storage.Consistent.{IsConsistent}
use fastapi_hyperf.Session.Storage.View.{view}
use fastapi_hyperf.Session.Manager.{Config, Manager, storage_get, storage_update}
use fastapi_hyperf.Session.Manager.Access.{RoundTrips, session_at, has_value, read, written}

-- The clock does not go back.
abbrev pub IsMonotone : (ℕ → ℕ) → Type 0
IsMonotone clock = (i j : ℕ) → i ≤ j → clock i ≤ clock j

abbrev pub is_active_of : Option SessionData → Bool
is_active_of none = false
is_active_of (some d) = d.is_active

module _ {Bytes : Type 0} (config : Config Bytes) where
  -- whether the storage shows an active session
  unfoldable pub active_at : ℕ → String → Manager Bytes → Bool
  active_at t session_id m = is_active_of (session_at config t session_id m)

  -- with time, a session stays as it is or goes
  pub session_at_later :
      (t later : ℕ) (k : String) (m : Manager Bytes)
      → t ≤ later
      → ((session_at config later k m ≡ none) × (has_value later k m ≡ false))
        ⊎ (session_at config later k m ≡ session_at config t k m)
  unfolding session_at has_value view is_past decode
  session_at_later t later k m le = ground arith

module _ {Bytes : Type 0} (config : Config Bytes) (clock : ℕ → ℕ) where
  -- The session is not active, now or later.
  abbrev pub IsDead : String → Manager Bytes → Type 0
  IsDead k m = (later : ℕ) → clock m.readings ≤ later → active_at config later k m ≡ false

  pub record Keeps (m m' : Manager Bytes) : Type 0 where
    pub consistent : IsConsistent m'.storage
    pub readings : m.readings ≤ m'.readings
    pub prefix : m'.storage.prefix ≡ m.storage.prefix
    pub dead : (k : String) → IsDead k m → IsDead k m'

  Keeps-trans : {l m n : Manager Bytes} → Keeps l m → Keeps m n → Keeps l n
  Keeps-trans a b = record {
    consistent = b.consistent;
    readings = omega arith;
    prefix = b.prefix ∙ a.prefix;
    dead = λ k d. b.dead k (a.dead k d);
  }

  Keeps-refl : (m : Manager Bytes) → IsConsistent m.storage → Keeps m m
  Keeps-refl m h = record { consistent = h; readings = omega arith; prefix = refl; dead = λ k d. d }

  -- An operation that returns, and keeps what is to be kept.
  pub record Runs {A : Type 0} (m : Manager Bytes) (r : Result A × Manager Bytes) : Type 0 where
    pub value : A
    pub returned : r.0 ≡ ok value
    pub keeps : Keeps m r.1

  pub Runs-resume :
      {A B : Type 0} (f : A → Exec (Manager Bytes) B) (m : Manager Bytes)
      (r : Result A × Manager Bytes)
      → ((a : A) (n : Manager Bytes) → Keeps m n → Runs n (f a n))
      → Runs m r
      → Runs m (resume f r)
  Runs-resume f m (ok a, n) each runs =
      let next = each a n runs.keeps in
      record {
        value = next.value;
        returned = next.returned;
        keeps = Keeps-trans runs.keeps next.keeps;
      }
  Runs-resume f m (err e, n) each runs = absurd (ground (arith, runs.returned))

  pub Runs-after :
      {A : Type 0} (m n : Manager Bytes) (r : Result A × Manager Bytes)
      → Keeps m n
      → Runs n r
      → Runs m r
  Runs-after m n r keeps runs = record {
    value = runs.value;
    returned = runs.returned;
    keeps = Keeps-trans keeps runs.keeps;
  }

  pub Runs-pure :
      {A : Type 0} (a : A) (m : Manager Bytes) → IsConsistent m.storage → Runs m (pure a m)
  Runs-pure a m h = record { value = a; returned = refl; keeps = Keeps-refl m h }

module _ {Bytes : Type 0} (config : Config Bytes) (clock : ℕ → ℕ) (mono : IsMonotone clock) where
  pub Runs-storage_get :
      (session_id : String) (m : Manager Bytes)
      → IsConsistent m.storage
      → Runs config clock m (storage_get config clock session_id m)
  unfolding active_at
  Runs-storage_get session_id m h =
      let r = read config clock m h session_id in
      rw r.reads (record {
        value = _;
        returned = refl;
        keeps = record {
          consistent = r.consistent;
          readings = omega (arith, r.readings);
          prefix = r.prefix;
          dead = λ k d later le.
              rw
                (r.shown later k
                  (le_trans (mono m.readings r.after.readings (omega (arith, r.readings))) le))
                (d later
                  (le_trans (mono m.readings r.after.readings (omega (arith, r.readings))) le));
        };
      })

  -- a write of a session that is not active, or of one that is shown as active
  pub Runs-storage_update :
      (session_id : String) (d : SessionData) (m : Manager Bytes)
      → RoundTrips config.codec
      → IsConsistent m.storage
      → (d.is_active ≡ true
          → has_value (clock m.readings) session_id m ≡ true
          → active_at config (clock m.readings) session_id m ≡ true)
      → Runs config clock m (storage_update config clock session_id d m)
  unfolding active_at
  Runs-storage_update session_id d m law h active =
      let w = written config clock m h session_id d in
      let le = mono m.readings w.after.readings (omega (arith, w.readings)) in
      rw w.writes (record {
        value = _;
        returned = refl;
        keeps = record {
          consistent = w.consistent;
          readings = omega (arith, w.readings);
          prefix = w.prefix;
          dead = λ k dead later late. ground (
            arith,
            w.shown law later k (le_trans le late),
            dead later (le_trans le late),
            dead (clock m.readings) (le_refl _),
            eq_iff session_id k,
          );
        };
      })
