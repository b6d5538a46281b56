-- ===== src/Session/Storage/Calls.antt =====
-- Histories of calls of the memory storage of app/core/auth/session/backends/memory.py.
use fastapi_hyperf.Common.{
  ℕ, ◌+◌, ◌≤◌, String, Bool, true, Option, none, some, List, [], ◌∷◌, ◌≡◌, refl, All, Exec, Result,
  resume, pure, ◌>>◌,
}
use fastapi_hyperf.Common.Dict
use fastapi_hyperf.Session.Storage.{
  Codec, Storage, empty, delete, extend, exists, scan_iter, delete_pattern, close, create, get,
  update, or_default, seconds,
}
use fastapi_hyperf.Session.Storage.Pattern.{is_plain}
use fastapi_hyperf.Session.Storage.Consistent.{
  IsConsistent, IsSafe, IsSafe-resume, pure-IsSafe, delete-IsSafe, extend-IsSafe, exists-IsSafe,
  scan_iter-IsSafe, delete_pattern-IsSafe, close-IsSafe, create-IsSafe, get-IsSafe, update-IsSafe,
}

-- One call of a method of the storage, with the instants that it reads.
pub data Call (T : Type 0) : Type 0 where
  create_call : ℕ → String → T → Option String → Option ℕ → Call T
  get_call : ℕ → String → Call T
  update_call : ℕ → ℕ → String → T → Bool → Option ℕ → Call T
  delete_call : String → Call T
  extend_call : ℕ → ℕ → String → Option ℕ → Call T
  exists_call : ℕ → String → Call T
  scan_call : (ℕ → ℕ) → Option String → Call T
  delete_pattern_call : (ℕ → ℕ) → String → Call T
  close_call : Call T

-- the last microsecond of the year 9999, the last instant of a `datetime`
abbrev last_instant : ℕ
last_instant = 253402300799999999

abbrev HasDeadline : ℕ → ℕ → Option ℕ → Type 0
HasDeadline t expiration custom = t + seconds (or_default custom expiration) ≤ last_instant

abbrev HasPlain : Option String → Type 0
HasPlain none = Unit
HasPlain (some wanted) = is_plain wanted ≡ true

-- A call whose deadline, if it sets one, is an instant that a `datetime` can have, and whose pattern, if it has one,
-- consists of `*`, `?` and characters that stand for themselves in a regular expression.
abbrev Fits : {T : Type 0} → ℕ → Call T → Type 0
Fits expiration (create_call t fresh v chosen custom) = HasDeadline t expiration custom
Fits expiration (get_call t id) = Unit
Fits expiration (update_call t u id v reset custom) = HasDeadline u expiration custom
Fits expiration (delete_call id) = Unit
Fits expiration (extend_call t u id custom) = HasDeadline u expiration custom
Fits expiration (exists_call t id) = Unit
Fits expiration (scan_call clock wanted) = HasPlain wanted
Fits expiration (delete_pattern_call clock pattern) = is_plain pattern ≡ true
Fits expiration close_call = Unit

module _ {T Bytes : Type 0} (codec : Codec T Bytes) where
  perform : Call T → Exec (Storage Bytes) Unit
  perform (create_call t fresh v chosen custom) = create codec t fresh v chosen custom >> pure tt
  perform (get_call t id) = get codec t id >> pure tt
  perform (update_call t u id v reset custom) = update codec t u id v reset custom >> pure tt
  perform (delete_call id) = delete id >> pure tt
  perform (extend_call t u id custom) = extend t u id custom >> pure tt
  perform (exists_call t id) = exists t id >> pure tt
  perform (scan_call clock wanted) = scan_iter clock wanted >> pure tt
  perform (delete_pattern_call clock pattern) = delete_pattern clock pattern >> pure tt
  perform close_call = close >> pure tt

  pub perform_all : List (Call T) → Exec (Storage Bytes) Unit
  perform_all [] = pure tt
  perform_all (c ∷ cs) = perform c >> perform_all cs

  quiet :
      {A : Type 0} (r : Result A × Storage Bytes)
      → IsSafe r
      → IsSafe (resume (λ _. pure {A = Unit {0}} tt) r)
  quiet r = IsSafe-resume _ r (λ a s h. pure-IsSafe tt s h)

  perform-IsSafe : (c : Call T) (s : Storage Bytes) → IsConsistent s → IsSafe (perform c s)
  unfolding perform
  perform-IsSafe (create_call t fresh v chosen custom) s h =
      quiet _ (create-IsSafe codec t fresh v chosen custom s h)
  perform-IsSafe (get_call t id) s h = quiet _ (get-IsSafe codec t id s h)
  perform-IsSafe (update_call t u id v reset custom) s h =
      quiet _ (update-IsSafe codec t u id v reset custom s h)
  perform-IsSafe (delete_call id) s h = quiet _ (delete-IsSafe id s h)
  perform-IsSafe (extend_call t u id custom) s h = quiet _ (extend-IsSafe t u id custom s h)
  perform-IsSafe (exists_call t id) s h = quiet _ (exists-IsSafe t id s h)
  perform-IsSafe (scan_call clock wanted) s h = quiet _ (scan_iter-IsSafe clock wanted s h)
  perform-IsSafe (delete_pattern_call clock pattern) s h =
      quiet _ (delete_pattern-IsSafe clock pattern s h)
  perform-IsSafe close_call s h = quiet _ (close-IsSafe s)

  -- From an empty storage, whatever calls are made and whatever the clock shows, where the deadlines
  -- that they set are not after the year 9999 and the patterns consist of `*`, `?` and characters that
  -- stand for themselves in a regular expression: no call raises, and the dictionaries of values and of
  -- deadlines have the same keys.
  pub perform_all-IsSafe :
      (calls : List (Call T)) (prefix : String) (expiration : ℕ)
      → All (λ call. Fits expiration call) calls
      → IsSafe (perform_all calls (empty prefix expiration))
  unfolding perform_all Dict.get
  perform_all-IsSafe calls prefix expiration fit =
      all_safe calls (empty prefix expiration) (record { same = λ k. refl })
    where
      all_safe :
          (calls : List (Call T)) (s : Storage Bytes)
          → IsConsistent s
          → IsSafe (perform_all calls s)
      all_safe [] s h = pure-IsSafe tt s h
      all_safe (c ∷ cs) s h =
          IsSafe-resume _ (perform c s) (λ _ s' h'. all_safe cs s' h') (perform-IsSafe c s h)
