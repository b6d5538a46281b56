-- ===== src/Session/Lifecycle/History.antt =====
-- Histories of operations of the session manager of app/core/auth/session/manager.py.
use native.Mathlib.Nat.{le_refl, le_trans}
use fastapi_hyperf.Common.{
  ℕ, ◌+◌, ◌≤◌, String, Bool, false, Option, none, some, List, [], ◌∷◌, ◌≡◌, ◌≢◌, refl, ap, ◌∙◌,
  arith, eq_iff, if◌then◌else◌, Result, ok, err, resume, truthy,
}
use fastapi_hyperf.Common.Dict.{Dict}
use fastapi_hyperf.Session.Schemas.{SessionData}
use fastapi_hyperf.Session.Storage
use fastapi_hyperf.Session.Storage.{get_key, decode, seconds, or_default}
use fastapi_hyperf.Session.Storage.Consistent.{IsConsistent, write-IsConsistent}
use fastapi_hyperf.Session.Storage.View.{view-write, get_key-write}
use fastapi_hyperf.Session.Storage.Keys.{get_key-eq}
use fastapi_hyperf.Session.Manager.{
  Config, Manager, generate_csrf_token, csrf_found, validate_csrf_token, validate_session,
  terminate_session,
}
use fastapi_hyperf.Session.Manager.Access.{RoundTrips, session_at}
use fastapi_hyperf.Session.Manager.Keeps.{IsMonotone, is_active_of, active_at, IsDead, Keeps}
use fastapi_hyperf.Session.Manager.Termination.{
  Runs-now, Runs-terminate_session, terminate_session-IsDead,
}
use fastapi_hyperf.Session.Manager.Validation.{admitted, read_lem}
use fastapi_hyperf.Session.Lifecycle.{
  Request, enforce_session_limit, store_session, create_for, create_session,
  cleanup_expired_sessions,
}
use fastapi_hyperf.Session.Lifecycle.Runs.{
  Runs-enforce_session_limit, Runs-cleanup_expired_sessions,
}

-- An operation of the manager, with the values that it draws at random.
pub data Action : Type 0 where
  validate_action : String → Bool → Action
  terminate_action : String → Action
  cleanup_action : Action
  csrf_action : String → ℕ → String → Action
  check_csrf_action : String → String → Action
  create_action : String → String → (String → Dict String) → Request → ℕ → Dict String → Action

module _ {Bytes : Type 0} (config : Config Bytes) (clock : ℕ → ℕ) where
  -- the manager after an operation, whether it returned or raised
  pub act : Action → Manager Bytes → Manager Bytes
  act (validate_action id update) m = (validate_session config clock id update m).1
  act (terminate_action id) m = (terminate_session config clock id m).1
  act cleanup_action m = (cleanup_expired_sessions config clock m).1
  act (csrf_action token user_id id) m = (generate_csrf_token config clock token user_id id m).1
  act (check_csrf_action id token) m = (validate_csrf_token config clock id token m).1
  act (create_action fresh token parse request user_id metadata) m =
      (create_session config clock fresh token parse request user_id metadata m).1

  pub act_all : List Action → Manager Bytes → Manager Bytes
  act_all [] m = m
  act_all (a ∷ rest) m = act_all rest (act a m)

-- The identifier is not drawn for a new session.
abbrev NotCreated : String → List Action → Type 0
NotCreated k [] = Unit
NotCreated k (create_action fresh _ _ _ _ _ ∷ rest) = (fresh ≢ k) × NotCreated k rest
NotCreated k (_ ∷ rest) = NotCreated k rest

not_admitted :
    (timeout : ℕ) (update_activity : Bool) (t : ℕ) (given : Bool) (found : Option SessionData)
    → is_active_of found ≡ false
    → admitted timeout update_activity t (if given then found else none) ≡ none
unfolding admitted
not_admitted timeout update_activity t given found h = ground arith

inactive_now :
    {Bytes : Type 0} (config : Config Bytes) (t : ℕ) (k : String) (m : Manager Bytes)
    → active_at config t k m ≡ false
    → is_active_of (session_at config t k m) ≡ false
unfolding active_at
inactive_now config t k m h = h

module _ {Bytes : Type 0} (config : Config Bytes) (clock : ℕ → ℕ) (mono : IsMonotone clock)
    (law : RoundTrips config.codec) (k : String) where
  record StaysDead (m : Manager Bytes) : Type 0 where
    consistent : IsConsistent m.storage
    dead : IsDead config clock k m

  after-Keeps : {m n : Manager Bytes} → Keeps config clock m n → StaysDead m → StaysDead n
  after-Keeps keeps d = record { consistent = keeps.consistent; dead = keeps.dead k d.dead }

  same_storage :
      (m n : Manager Bytes)
      → n.storage ≡ m.storage
      → m.readings ≤ n.readings
      → StaysDead m
      → StaysDead n
  unfolding active_at session_at
  same_storage m n same le d = record {
    consistent = rw same d.consistent;
    dead = λ later late. rw same (d.dead later (le_trans (mono m.readings n.readings le) late));
  }

  csrf-StaysDead :
      (token : String) (user_id : ℕ) (id : String) (m : Manager Bytes)
      → StaysDead m
      → StaysDead (generate_csrf_token config clock token user_id id m).1
  unfolding generate_csrf_token Storage.create
  csrf-StaysDead token user_id id m d = same_storage m _ refl (omega arith) d

  check_csrf-StaysDead :
      (id token : String) (m : Manager Bytes)
      → StaysDead m
      → StaysDead (validate_csrf_token config clock id token m).1
  unfolding validate_csrf_token csrf_found
  check_csrf-StaysDead id token m d = same_storage m _ (ground arith) (ground arith) d

  -- a write under another identifier
  active-write :
      (t later : ℕ) (fresh : String) (value : Bytes) (m n : Manager Bytes)
      → n.storage ≡ Storage.write t (get_key m.storage fresh) value none m.storage
      → fresh ≢ k
      → active_at config later k n ≡ active_at config later k m
  unfolding active_at session_at decode
  active-write t later fresh value m n same other =
      let key = get_key m.storage fresh in
      rw (same, get_key-write t key value none m.storage k)
        (ground (
          arith,
          view-write t later key (get_key m.storage k) value none m.storage,
          get_key-eq m.storage fresh k,
          eq_iff fresh k,
        ))

  store-StaysDead :
      (fresh token : String) (parse : String → Dict String) (request : Request) (host : String)
      (user_id : ℕ) (metadata : Dict String) (current : ℕ) (m : Manager Bytes)
      → fresh ≢ k
      → StaysDead m
      → StaysDead
          (store_session config clock fresh token parse request host user_id metadata current m).1
  unfolding store_session Storage.create generate_csrf_token active_at session_at
  store-StaysDead fresh token parse request host user_id metadata current m other d = record {
    consistent = write-IsConsistent _ _ _ none m.storage d.consistent;
    dead = λ later late.
        rw
          (active-write (clock (m.readings + 1)) later fresh _ m
            (store_session config clock fresh token parse request host user_id metadata current m).1
            refl other)
          (d.dead later (le_trans (mono m.readings _ (omega arith)) late));
  }

  limited-StaysDead :
      (fresh token : String) (parse : String → Dict String) (request : Request) (host : String)
      (user_id : ℕ) (metadata : Dict String) (current : ℕ) (r : Result Unit × Manager Bytes)
      → fresh ≢ k
      → StaysDead r.1
      → StaysDead
          (resume
            (λ _.
              store_session config clock fresh token parse request host user_id metadata current)
            r).1
  limited-StaysDead fresh token parse request host user_id metadata current (ok a, n) other d =
      store-StaysDead fresh token parse request host user_id metadata current n other d
  limited-StaysDead fresh token parse request host user_id metadata current (err e, n) other d = d

  create_for-StaysDead :
      (fresh token : String) (parse : String → Dict String) (request : Request) (user_id : ℕ)
      (metadata : Dict String) (current : ℕ) (client : Option String) (m : Manager Bytes)
      → fresh ≢ k
      → StaysDead m
      → StaysDead
          (create_for config clock fresh token parse request user_id metadata current client m).1
  unfolding create_for
  create_for-StaysDead fresh token parse request user_id metadata current none m other d = d
  create_for-StaysDead fresh token parse request user_id metadata current (some host) m other d =
      limited-StaysDead fresh token parse request host user_id metadata current
        (enforce_session_limit config clock user_id m) other
        (after-Keeps (Runs-enforce_session_limit config clock mono law user_id m d.consistent).keeps
          d)

  create-StaysDead :
      (fresh token : String) (parse : String → Dict String) (request : Request) (user_id : ℕ)
      (metadata : Dict String) (m : Manager Bytes)
      → fresh ≢ k
      → StaysDead m
      → StaysDead (create_session config clock fresh token parse request user_id metadata m).1
  unfolding create_session
  create-StaysDead fresh token parse request user_id metadata m other d =
      create_for-StaysDead fresh token parse request user_id metadata (clock m.readings)
        request.client (record m { readings = m.readings + 1 }) other
        (after-Keeps (Runs-now config clock mono m d.consistent).keeps d)

  act_all-StaysDead :
      (actions : List Action) (m : Manager Bytes)
      → NotCreated k actions
      → StaysDead m
      → StaysDead (act_all config clock actions m)
  unfolding act_all act
  act_all-StaysDead [] m new d = d
  act_all-StaysDead (validate_action id update ∷ rest) m new d =
      act_all-StaysDead rest _ new
        (after-Keeps (read_lem config clock mono law id update m d.consistent).1.keeps d)
  act_all-StaysDead (terminate_action id ∷ rest) m new d =
      act_all-StaysDead rest _ new
        (after-Keeps (Runs-terminate_session config clock mono id m law d.consistent).keeps d)
  act_all-StaysDead (cleanup_action ∷ rest) m new d =
      act_all-StaysDead rest _ new
        (after-Keeps (Runs-cleanup_expired_sessions config clock mono law m d.consistent).keeps d)
  act_all-StaysDead (csrf_action token user_id id ∷ rest) m new d =
      act_all-StaysDead rest _ new (csrf-StaysDead token user_id id m d)
  act_all-StaysDead (check_csrf_action id token ∷ rest) m new d =
      act_all-StaysDead rest _ new (check_csrf-StaysDead id token m d)
  act_all-StaysDead (create_action fresh token parse request user_id metadata ∷ rest) m new d =
      act_all-StaysDead rest _ new.1
        (create-StaysDead fresh token parse request user_id metadata m new.0 d)

  -- Once `terminate_session` was called for a session, `validate_session` never accepts it again,
  -- whatever operations come between that do not create a session of that identifier: validations,
  -- terminations, cleanups, CSRF tokens and checks, and creations with their limit. For a clock
  -- that does not go back, and where a session can be read back as it was written. Where the
  -- dictionaries of values and of deadlines have the same keys.
  pub validate_session-terminate_session :
      (actions : List Action) (update_activity : Bool) (m : Manager Bytes)
      → IsConsistent m.storage
      → NotCreated k actions
      → (validate_session config clock k update_activity
          (act_all config clock actions (terminate_session config clock k m).1)).0
        ≡ ok none
  validate_session-terminate_session actions update_activity m h new =
      let m' = (terminate_session config clock k m).1 in
      let n = act_all config clock actions m' in
      let d = act_all-StaysDead actions m' new (record {
        consistent = (Runs-terminate_session config clock mono k m law h).keeps.consistent;
        dead = terminate_session-IsDead config clock mono k m law h;
      }) in
      let result = (read_lem config clock mono law k update_activity n d.consistent).0 in
      result
      ∙ ap ok (
          not_admitted _ update_activity _ (truthy k) (session_at config (clock n.readings) k n)
            (inactive_now config (clock n.readings) k n (d.dead (clock n.readings) (le_refl _))))
