-- ===== src/Session/Manager/Validation.antt =====
-- `validate_session` of app/core/auth/session/manager.py.
use native.Mathlib.Nat.{le_refl, le_trans}
use fastapi_hyperf.Common.{
  ℕ, ◌+◌, ◌≤◌, String, Bool, true, false, ◌&&◌, Option, none, some, ◌≡◌, refl, arith, leb, truthy,
  inl, inr, Bool-cases, if◌then◌else◌, Result, ok, err, returned-recover, resume, pure,
}
use fastapi_hyperf.Session.Schemas.{SessionData}
use fastapi_hyperf.Session.Storage.Consistent.{IsConsistent}
use fastapi_hyperf.Session.Manager.{
  Config, Manager, minutes, is_stale, refresh, validate_active, validate_found, validate_session,
}
use fastapi_hyperf.Session.Manager.Access.{RoundTrips, session_at, has_value, read}
use fastapi_hyperf.Session.Manager.Keeps.{
  IsMonotone, is_active_of, active_at, session_at_later, Keeps, Runs, Runs-resume, Runs-after,
  Runs-pure, Runs-storage_get, Runs-storage_update,
}
use fastapi_hyperf.Session.Manager.Termination.{Runs-recover, Runs-now, Runs-terminate_session}

-- What a valid session is: active, and not idle for longer than the timeout; the activity is noted
-- if that is asked for.
unfoldable pub admitted : ℕ → Bool → ℕ → Option SessionData → Option SessionData
admitted timeout update_activity t none = none
admitted timeout update_activity t (some d) =
    if d.is_active && leb t (d.last_activity + timeout)
    then some (if update_activity then record d { last_activity = t } else d)
    else none

module _ (timeout : ℕ) (update_activity : Bool) (t : ℕ) (d : SessionData) where
  admitted_stale : is_stale timeout t d ≡ true → admitted timeout update_activity t (some d) ≡ none
  unfolding admitted
  admitted_stale h = ground arith

  admitted_inactive : d.is_active ≡ false → admitted timeout update_activity t (some d) ≡ none
  unfolding admitted
  admitted_inactive h = ground arith

  admitted_fresh :
      d.is_active ≡ true
      → is_stale timeout t d ≡ false
      → admitted timeout update_activity t (some d)
        ≡ some (if update_activity then record d { last_activity = t } else d)
  unfolding admitted
  admitted_fresh active h = ground arith

module _ {Bytes : Type 0} (config : Config Bytes) (clock : ℕ → ℕ) (mono : IsMonotone clock)
    (law : RoundTrips config.codec) (session_id : String) where
  abbrev timeout : ℕ
  timeout = minutes config.timeout_minutes

  -- the session is shown as active, unless it has gone
  abbrev IsShown : ℕ → Manager Bytes → Type 0
  IsShown t m = active_at config t session_id m ≡ true

  IsShown-now :
      (t : ℕ) (m : Manager Bytes) → IsShown t m → IsShown t (record m { readings = m.readings + 1 })
  unfolding active_at session_at
  IsShown-now t m h = h

  still-IsShown :
      (t : ℕ) (m : Manager Bytes)
      → t ≤ clock m.readings
      → IsShown t m
      → has_value (clock m.readings) session_id m ≡ true
      → IsShown (clock m.readings) m
  unfolding active_at
  still-IsShown t m le shown there =
      ground (arith, session_at_later config t (clock m.readings) session_id m le)

  Runs-refresh :
      (update_activity : Bool) (t seen : ℕ) (d : SessionData) (m : Manager Bytes)
      → IsConsistent m.storage
      → seen ≤ clock m.readings
      → IsShown seen m
      → Runs config clock m (refresh config clock session_id update_activity t d m)
  unfolding refresh
  Runs-refresh false t seen d m h le shown = Runs-pure config clock (some d) m h
  Runs-refresh true t seen d m h le shown =
      Runs-resume config clock (λ _. pure (some (record d { last_activity = t }))) m _
        (λ _ n keeps. Runs-pure config clock _ n keeps.consistent)
        (Runs-storage_update config clock mono session_id (record d { last_activity = t }) m law h
          (λ _ there. still-IsShown seen m le shown there))

  -- what follows an operation that runs, and ignores its value
  then_pure :
      {A B : Type 0} (b : B) (m : Manager Bytes) (r : Result A × Manager Bytes)
      → Runs config clock m r
      → (resume (λ _. pure b) r).0 ≡ ok b
  then_pure b m (ok a, n) runs = refl
  then_pure b m (err e, n) runs = absurd (ground (arith, runs.returned))

  Runs-then_pure :
      {A B : Type 0} (b : B) (m : Manager Bytes) (r : Result A × Manager Bytes)
      → Runs config clock m r
      → Runs config clock m (resume (λ _. pure b) r)
  Runs-then_pure b m r =
      Runs-resume config clock (λ _. pure b) m r
        (λ _ n keeps. Runs-pure config clock b n keeps.consistent)

  refresh_lem :
      (update_activity : Bool) (t seen : ℕ) (d : SessionData) (m : Manager Bytes)
      → IsConsistent m.storage
      → seen ≤ clock m.readings
      → IsShown seen m
      → (refresh config clock session_id update_activity t d m).0
        ≡ ok (some (if update_activity then record d { last_activity = t } else d))
  unfolding refresh
  refresh_lem false t seen d m h le shown = refl
  refresh_lem true t seen d m h le shown = then_pure (some (record d { last_activity = t })) m _ (
      Runs-storage_update config clock mono session_id (record d { last_activity = t }) m law h
        (λ _ there. still-IsShown seen m le shown there))

  -- the branch of an active session, just read
  active_lem :
      (update_activity : Bool) (d : SessionData) (t seen : ℕ) (m : Manager Bytes)
      → IsConsistent m.storage
      → d.is_active ≡ true
      → seen ≤ clock m.readings
      → IsShown seen m
      → ((validate_active config clock session_id update_activity d t m).0
          ≡ ok (admitted timeout update_activity t (some d)))
        × Runs config clock m (validate_active config clock session_id update_activity d t m)
  unfolding validate_active
  active_lem update_activity d t seen m h active le shown =
      elim (Bool-cases (is_stale timeout t d)) [
        | inl stale ↦
            let ends = Runs-terminate_session config clock mono session_id m law h in
            rw (stale, admitted_stale timeout update_activity t d stale)
              (then_pure none m _ ends, Runs-then_pure none m _ ends)
        | inr fresh ↦
            rw (fresh, admitted_fresh timeout update_activity t d active fresh)
              (
                refresh_lem update_activity t seen d m h le shown,
                Runs-refresh update_activity t seen d m h le shown,
              )
      ]

  found_lem :
      (update_activity : Bool) (found : Option SessionData) (seen : ℕ) (m : Manager Bytes)
      → IsConsistent m.storage
      → seen ≤ clock m.readings
      → (is_active_of found ≡ true → IsShown seen m)
      → ((validate_found config clock session_id update_activity found m).0
          ≡ ok (admitted timeout update_activity (clock m.readings) found))
        × Runs config clock m (validate_found config clock session_id update_activity found m)
  unfolding validate_found
  found_lem update_activity none seen m h le shown =
      (unfold admitted in refl, Runs-pure config clock none m h)
  found_lem update_activity (some d) seen m h le shown = elim (Bool-cases d.is_active) [
    | inr inactive ↦
        simp (inactive, admitted_inactive timeout update_activity (clock m.readings) d inactive)
          (refl, Runs-pure config clock none m h)
    | inl active ↦
        let n = record m { readings = m.readings + 1 } in
        let le' = mono m.readings (m.readings + 1) (omega arith) in
        let (result, runs) =
          active_lem update_activity d (clock m.readings) seen n h active (le_trans le le')
            (IsShown-now seen m (shown active)) in
        simp active
          (result, Runs-after config clock m n _ (Runs-now config clock mono m h).keeps runs)
  ]

  IsShown-read :
      (m n : Manager Bytes) (t : ℕ)
      → session_at config t session_id n ≡ session_at config t session_id m
      → is_active_of (session_at config t session_id m) ≡ true
      → IsShown t n
  unfolding active_at
  IsShown-read m n t same active = rw same active

  -- the session that was just read is shown until the next look at the clock, or has gone
  pub read_lem :
      (update_activity : Bool) (m : Manager Bytes)
      → IsConsistent m.storage
      → ((validate_session config clock session_id update_activity m).0
          ≡ ok (
              admitted timeout update_activity (clock (m.readings + 1)) (
                if truthy session_id
                then session_at config (clock m.readings) session_id m
                else none)))
        × Runs config clock m (validate_session config clock session_id update_activity m)
  unfolding validate_session
  read_lem update_activity m h = elim (Bool-cases (truthy session_id)) [
    | inr empty ↦ rw empty (unfold admitted in (refl, Runs-pure config clock none m h))
    | inl given ↦
        let r = read config clock m h session_id in
        let found = session_at config (clock m.readings) session_id m in
        let (result, runs) =
          found_lem update_activity found (clock m.readings) r.after r.consistent
            (mono m.readings r.after.readings (omega (arith, r.readings)))
            (IsShown-read m r.after (clock m.readings)
              (r.shown (clock m.readings) session_id (le_refl _))) in
        let keeps : Keeps config clock m r.after =
          rw r.reads at (Runs-storage_get config clock mono session_id m h).keeps in
        rw (given, r.reads)
          (
            returned-recover (pure none) _ (rw r.readings at result),
            Runs-recover config clock mono (pure none) m _
                (Runs-after config clock m r.after _ keeps runs),
          )
  ]

  -- `validate_session` accepts a session exactly if its identifier is not empty, the storage shows
  -- it at the first look at the clock, it is active, and at the second look it has not been idle
  -- for longer than the timeout. It returns the session, with the second instant as its last
  -- activity if that is asked for, and `None` in all other cases; it does not raise. For a clock
  -- that does not go back, and where a session can be read back as it was written. Where the
  -- dictionaries of values and of deadlines have the same keys.
  pub validate_session-admitted :
      (update_activity : Bool) (m : Manager Bytes)
      → IsConsistent m.storage
      → (validate_session config clock session_id update_activity m).0
        ≡ ok (
            admitted timeout update_activity (clock (m.readings + 1)) (
              if truthy session_id
              then session_at config (clock m.readings) session_id m
              else none))
  validate_session-admitted update_activity m h = (read_lem update_activity m h).0
