-- ===== src/Session/Login/Attempts.antt =====
-- Runs of login attempts over a limiter that keeps counters.
use fastapi_hyperf.Common.{
  ℕ, suc, ◌+◌, ◌-◌, ◌*◌, ◌≤◌, ◌<◌, String, Bool, true, false, Option, none, some, List, [], ◌∷◌, ok,
  Result, ◌≡◌, refl, ap, ◌∙◌, arith, concat, ◌==◌, eq_iff, leb, if◌then◌else◌,
}
use text.Mathlib.TextLemmas.{append_assoc}
use fastapi_hyperf.Common.Slices.{size, until, until-concat}
use fastapi_hyperf.Session.Login.{
  Limiter, Policy, max, ip_key, username_key, count_attempt, clear_attempts, track_login_attempt,
}

-- A limiter that counts: an increment answers with the count, which is kept for the window; a deletion sets the
-- count back; neither changes another key.
pub record Counts {L : Type 0} (limiter : Limiter L) : Type 0 where
  pub count : ℕ → String → L → ℕ
  pub incremented :
      (t : ℕ) (key : String) (amount expiry : ℕ) (s : L)
      → (limiter.increment t key amount expiry s).0 ≡ ok (count t key s + amount)
  pub kept :
      (t u : ℕ) (key : String) (amount expiry : ℕ) (s : L)
      → t ≤ u
      → u < t + expiry
      → count u key (limiter.increment t key amount expiry s).1 ≡ count t key s + amount
  pub untouched :
      (t u : ℕ) (key other : String) (amount expiry : ℕ) (s : L)
      → (key == other) ≡ false
      → t ≤ u
      → count u other (limiter.increment t key amount expiry s).1 ≡ count u other s
  pub answered : (t : ℕ) (key : String) (s : L) → (b : Bool) × ((limiter.delete t key s).0 ≡ ok b)
  pub deleted :
      (t u : ℕ) (key other : String) (s : L)
      → t ≤ u
      → count u other (limiter.delete t key s).1 ≡ (if key == other then 0 else count u other s)

-- the two keys of an attempt differ
keys_apart : (ip username : String) → (ip_key ip == username_key username) ≡ false
unfolding size
keys_apart ip username =
    let by_ip : until 7 (ip_key ip) ≡ "login:i" =
      rw (append_assoc "login:i" "p:" ip) (until-concat "login:i" (concat "p:" ip)) in
    let by_name : until 7 (username_key username) ≡ "login:u" =
      rw (append_assoc "login:u" "ser:" username)
        (until-concat "login:u" (concat "ser:" username)) in
    let apart : ("login:i" == "login:u") ≡ false = refl in
    ground (
      arith,
      by_ip,
      by_name,
      apart,
      eq_iff (ip_key ip) (username_key username),
      eq_iff "login:i" "login:u",
    )

abbrev pub Attempts : Type 0
Attempts = List ℕ

module _ {L : Type 0} (policy : Policy) (limiter : Limiter L) (law : Counts limiter)
    (ip username : String) where
  -- the answers to failed attempts at instants
  unfoldable pub fail_all : List ℕ → L → List (Result (Bool × Option ℕ))
  fail_all [] s = []
  fail_all (t ∷ ts) s =
      let (r, later) = track_login_attempt policy (some limiter) t ip username false s in
      r ∷ fail_all ts later

  -- what the n+1st attempt and those after it are told
  abbrev pub told : ℕ → List ℕ → List (Result (Bool × Option ℕ))
  told n [] = []
  told n (t ∷ ts) =
      ok (leb (suc n) policy.login_max_attempts, some (policy.login_max_attempts - suc n))
      ∷ told (suc n) ts

  -- each attempt comes before the window of the one before it has passed
  abbrev InWindow : ℕ → List ℕ → Type 0
  InWindow t [] = Unit
  InWindow t (u ∷ us) = (t ≤ u) × (u < t + policy.login_window_minutes * 60) × InWindow u us

  abbrev window : ℕ
  window = policy.login_window_minutes * 60

  abbrev after_ip : ℕ → L → L
  after_ip t s = (limiter.increment t (ip_key ip) 1 window s).1

  -- the larger of the two counts
  abbrev pub attempts : ℕ → L → ℕ
  attempts t s = max (law.count t (ip_key ip) s) (law.count t (username_key username) s)

  one_attempt :
      (t : ℕ) (s : L)
      → (track_login_attempt policy (some limiter) t ip username false s).0
        ≡ ok (
          leb (suc (attempts t s)) policy.login_max_attempts,
          some (policy.login_max_attempts - suc (attempts t s)),
        )
  unfolding track_login_attempt count_attempt
  one_attempt t s = ground (
    arith,
    law.incremented t (ip_key ip) 1 window s,
    law.incremented t (username_key username) 1 window (after_ip t s),
    law.untouched t t (ip_key ip) (username_key username) 1 window s (keys_apart ip username)
        (omega arith),
  )

  state_after :
      (t : ℕ) (s : L)
      → (track_login_attempt policy (some limiter) t ip username false s).1
        ≡ (limiter.increment t (username_key username) 1 window (after_ip t s)).1
  unfolding track_login_attempt count_attempt
  state_after t s = ground (
    arith,
    law.incremented t (ip_key ip) 1 window s,
    law.incremented t (username_key username) 1 window (after_ip t s),
  )

  next_attempt :
      (t u : ℕ) (s : L)
      → t ≤ u
      → u < t + window
      → attempts u (track_login_attempt policy (some limiter) t ip username false s).1
        ≡ suc (attempts t s)
  next_attempt t u s le lt = rw (state_after t s) (
      ground (
        arith,
        law.kept t u (ip_key ip) 1 window s le lt,
        law.untouched t u (username_key username) (ip_key ip) 1 window (after_ip t s)
            (ground (
              arith,
              keys_apart ip username,
              eq_iff (ip_key ip) (username_key username),
              eq_iff (username_key username) (ip_key ip),
            ))
            le,
        law.kept t u (username_key username) 1 window (after_ip t s) le lt,
        law.untouched t t (ip_key ip) (username_key username) 1 window s (keys_apart ip username)
            (omega arith),
      ))

  -- Over a limiter that counts, failed attempts from one address under one name, the first at an instant at
  -- which the larger of their two counts is n and each of the others before the window of the one before it
  -- has passed, are told in their order: attempt k is allowed exactly if n + k is at most the maximum, and
  -- what remains is the maximum less n + k, or 0.
  pub track_login_attempt-told :
      (t : ℕ) (ts : List ℕ) (s : L)
      → InWindow t ts
      → fail_all (t ∷ ts) s ≡ told (attempts t s) (t ∷ ts)
  unfolding fail_all
  track_login_attempt-told t [] s near = rw (one_attempt t s) refl
  track_login_attempt-told t (u ∷ us) s (le, lt, near) =
      let later = (track_login_attempt policy (some limiter) t ip username false s).1 in
      let rest = track_login_attempt-told u us later near in
      let head : Result (Bool × Option ℕ) = ok (
        leb (suc (attempts t s)) policy.login_max_attempts,
        some (policy.login_max_attempts - suc (attempts t s)),
      ) in
      rw (one_attempt t s)
        (ap (λ r. head ∷ r) (rest ∙ ap (λ n. told n (u ∷ us)) (next_attempt t u s le lt)))

  abbrev cleared : ℕ → L → L
  cleared t s = (limiter.delete t (username_key username) (limiter.delete t (ip_key ip) s).1).1

  success_lem :
      (t : ℕ) (s : L)
      → track_login_attempt policy (some limiter) t ip username true s
        ≡ (ok (true, none), cleared t s)
  unfolding track_login_attempt clear_attempts
  success_lem t s =
      let (b, first) = law.answered t (ip_key ip) s in
      let (c, second) = law.answered t (username_key username) (limiter.delete t (ip_key ip) s).1 in
      ground (arith, first, second)

  attempts-cleared : (t u : ℕ) (s : L) → t ≤ u → attempts u (cleared t s) ≡ 0
  attempts-cleared t u s le =
      let between = (limiter.delete t (ip_key ip) s).1 in
      ground (
        arith,
        law.deleted t u (username_key username) (ip_key ip) between le,
        law.deleted t u (username_key username) (username_key username) between le,
        law.deleted t u (ip_key ip) (ip_key ip) s le,
        eq_iff (ip_key ip) (ip_key ip),
        eq_iff (username_key username) (username_key username),
      )

  -- Over a limiter that counts, a successful attempt is allowed with nothing said of what remains, and failed
  -- attempts after it, each before the window of the one before it has passed, are told as if there had
  -- been none before it.
  pub track_login_attempt-success :
      (t u : ℕ) (us : List ℕ) (s : L)
      → t ≤ u
      → InWindow u us
      → let r = track_login_attempt policy (some limiter) t ip username true s in
        (r.0 ≡ ok (true, none)) × (fail_all (u ∷ us) r.1 ≡ told 0 (u ∷ us))
  track_login_attempt-success t u us s le near = rw (success_lem t s) (
    refl,
    track_login_attempt-told u us (cleared t s) near
        ∙ ap (λ n. told n (u ∷ us)) (attempts-cleared t u s le),
  )
