-- ===== src/RateLimit/Window.antt =====
-- What a backend of app/core/rate_limit promises: requests counted in windows of fixed length. A history
-- is the list of the requests made so far, newest first, each with the second at which it was made.
use native.Mathlib.Nat.{mod-lt}
use fastapi_hyperf.Common.{
  ℕ, suc, ◌+◌, ◌-◌, ◌%◌, ◌≤◌, ◌<◌, String, Bool, not, ◌&&◌, List, [], ◌∷◌, ◌==◌, eqb, ltb,
  if◌then◌else◌, Result, ok, err, Exec, ◌≡◌, refl, sym, ◌∙◌, arith, concat, str, concat-eq, false,
  eq_iff, Bool-cases, inl, inr,
}

abbrev pub History : Type 0
History = List (ℕ × String)

-- the start of the window of an instant
unfoldable pub window : ℕ → ℕ → ℕ
window period t = t - t % period

-- the last instant of a history is at most the given one, and it goes back in time
abbrev pub IsOrdered : ℕ → History → Type 0
IsOrdered t [] = Unit
IsOrdered t ((u, key) ∷ rest) = (t ≤ u) × IsOrdered u rest

module _ (name : String → String) (limit period : ℕ) where
  -- how many requests the history has in a window for the keys of a name
  unfoldable pub seen : History → String → ℕ → ℕ
  seen [] k w = 0
  seen ((u, key) ∷ history) k w =
      let rest = seen history k w in
      if name key == k && eqb (window period u) w then rest + 1 else rest

  -- a request gets the number of the requests of its window up to it, and whether they exceed the limit
  unfoldable pub expected : History → History → List (Result (ℕ × Bool))
  unfolding seen window
  expected history [] = []
  expected history ((t, key) ∷ rest) =
      let n = seen history (name key) (window period t) + 1 in
      ok (n, ltb limit n) ∷ expected ((t, key) ∷ history) rest

  -- the requests of one window and name that were let through
  unfoldable pub passed : String → ℕ → History → List (Result (ℕ × Bool)) → ℕ
  unfolding window
  passed k w ((t, key) ∷ rest) (ok (n, is_limited) ∷ results) =
      let others = passed k w rest results in
      if name key == k && (eqb (window period t) w && not is_limited) then suc others else others
  passed k w ((t, key) ∷ rest) (err e ∷ results) = passed k w rest results
  passed k w requests results = 0

  pub passed-expected :
      (k : String) (w : ℕ) (history requests : History)
      → passed k w requests (expected history requests) ≤ limit - seen history k w
  unfolding expected passed seen window
  passed-expected k w history [] = omega arith
  passed-expected k w history ((t, key) ∷ rest) =
      ground (arith, eq_iff (name key) k, passed-expected k w ((t, key) ∷ history) rest)

-- A call of a backend for each request in turn.
unfoldable pub check_all :
    {S : Type 0}
    → (ℕ → String → ℕ → ℕ → Exec S (ℕ × Bool))
    → ℕ
    → ℕ
    → History
    → S
    → List (Result (ℕ × Bool))
check_all check limit period [] s = []
check_all check limit period ((t, key) ∷ rest) s =
    let (r, s') = check t key limit period s in r ∷ check_all check limit period rest s'

-- What the theorem below needs to know of a backend: its name for a key, what it means that a server
-- shows a number under a text at an instant, and what a request does to it for one limit and period.
pub record CountsRequests {S : Type 0} (check : ℕ → String → ℕ → ℕ → Exec S (ℕ × Bool))
    (name : String → String) (Shows : ℕ → String → ℕ → S → Type 0) (limit period : ℕ) : Type 0 where
  pub replies :
      (t n : ℕ) (key : String) (s : S)
      → Shows t (concat (name key) (concat ":" (str (window period t)))) n s
      → (check t key limit period s).0 ≡ ok (n + 1, ltb limit (n + 1))
  pub counts :
      (t u n : ℕ) (key : String) (s : S)
      → Shows t (concat (name key) (concat ":" (str (window period t)))) n s
      → t ≤ u
      → u < t + period
      → Shows u
          (concat (name key) (concat ":" (str (window period t))))
          (n + 1)
          (check t key limit period s).1
  pub leaves :
      (t u n m : ℕ) (key other : String) (s : S)
      → Shows t (concat (name key) (concat ":" (str (window period t)))) n s
      → (concat (name key) (concat ":" (str (window period t))) == other) ≡ false
      → t ≤ u
      → Shows u other m s
      → Shows u other m (check t key limit period s).1

same_window :
    (period t u : ℕ) → 0 < period → t ≤ u → window period t ≡ window period u → u < t + period
unfolding window
same_window period t u h le same = omega (arith, mod-lt t h, mod-lt u h)

module _ {S : Type 0} {check : ℕ → String → ℕ → ℕ → Exec S (ℕ × Bool)} {name : String → String}
    {Shows : ℕ → String → ℕ → S → Type 0} (limit period : ℕ)
    (law : CountsRequests check name Shows limit period) (h : 0 < period) where
  -- the server shows the requests of the history in every window that is not over
  unfoldable pub Reflects : ℕ → History → S → Type 0
  Reflects t history s =
      (u : ℕ) (k : String)
      → t ≤ u
      → Shows u (concat (name k) (concat ":" (str (window period u))))
          (seen name limit period history (name k) (window period u)) s

  request-Reflects :
      (t : ℕ) (key : String) (history : History) (s : S)
      → Reflects t history s
      → Reflects t ((t, key) ∷ history) (check t key limit period s).1
  unfolding Reflects seen
  request-Reflects t key history s r u k le =
      let v = window period t in
      let n = seen name limit period history (name key) v in
      let shown = r t key (omega arith) in
      elim (Bool-cases (
        concat (name key) (concat ":" (str v))
        == concat (name k) (concat ":" (str (window period u))))) [
          | inl same ↦
              let both = sym (concat-eq (name key) (name k) v (window period u)) ∙ same in
              let named : name key ≡ name k = ground (arith, both, eq_iff (name key) (name k)) in
              let timed : window period t ≡ window period u = ground (arith, both) in
              rw (both, sym named, sym timed)
                (law.counts t u n key s shown le (same_window period t u h le timed))
          | inr other ↦
              rw (sym (concat-eq (name key) (name k) v (window period u)) ∙ other)
                (law.leaves t u n _ key _ s shown other le (r u k le))
        ]

  pub check_all-expected :
      (t : ℕ) (history requests : History) (s : S)
      → IsOrdered t requests
      → Reflects t history s
      → check_all check limit period requests s ≡ expected name limit period history requests
  unfolding check_all expected seen Reflects
  check_all-expected t history [] s ordered r = refl
  check_all-expected t history ((u, key) ∷ rest) s ordered r =
      let r' : Reflects u history s = λ v k le. r v k (omega arith) in
      rw
        (
          law.replies u _ key s (r' u key (omega arith)),
          check_all-expected u ((u, key) ∷ history) rest (check u key limit period s).1 ordered.1
              (request-Reflects u key history s r'),
        )
        refl
