-- ===== src/RateLimit/Check.antt =====
-- app/middleware/rate_limit.py. The two queries of the database are parameters; they answer from a
-- fixed content. A user is the two entries of the dictionary that the code reads.
-- The wait for the application to be initialized ends before the modelled part begins.
use fastapi_hyperf.Common.{
  ℕ, ◌-◌, String, Bool, true, false, not, Option, none, some, ◌≡◌, refl, arith, List, [], ◌∷◌,
  concat, str, Result, ok, err, Exec, Error, pure, raise, resume, ◌>>=◌, ◌>>◌, if◌then◌else◌,
  rate_limit_exception,
}
use fastapi_hyperf.Common.Dict.{Dict}
use fastapi_hyperf.RateLimit.Path.{sanitize_path}

pub record User : Type 0 where
  pub id : ℕ
  pub tier_id : Option ℕ

pub record Rate : Type 0 where
  pub limit : ℕ
  pub period : ℕ

-- The rows of the tables: the identifier of a tier, if there is one with the identifier that a user has, which may be
-- None, and the rate of a tier for a path.
pub record Tables : Type 0 where
  pub tier : Option ℕ → Option ℕ
  pub rate_limit : ℕ → String → Option Rate

pub record Settings : Type 0 where
  pub rate_limiter_enabled : Bool
  pub rate_limiter_fail_open : Bool
  pub default_rate : Rate

pub record Request : Type 0 where
  pub path : String
  pub host : Option String

-- What a request leaves behind: the state of the limiter, and the headers in `request.state`.
pub record Checked (Limiter : Type 0) : Type 0 where
  pub limiter : Limiter
  pub headers : Option (Dict String)

unfoldable pub first_rate : Option Rate → Option Rate → Rate → Rate
first_rate (some r) other default = r
first_rate none (some r) default = r
first_rate none none default = default

-- limit and period
unfoldable pub rate_of : Tables → Settings → Request → Option User → Rate
rate_of tables settings request none = settings.default_rate
rate_of tables settings request (some user) = elim (tables.tier user.tier_id) [
  | none ↦ settings.default_rate
  | some tier ↦
      first_rate (tables.rate_limit tier (sanitize_path request.path))
        (tables.rate_limit tier request.path) settings.default_rate
]

unfoldable pub user_id_of : Request → Option User → String
user_id_of request (some user) = str user.id
user_id_of request none = elim request.host [ some host ↦ host | none ↦ "unknown" ]

unfoldable pub key_of : Request → Option User → String
key_of request user =
    concat "ratelimit:" (concat (user_id_of request user) (concat ":" (sanitize_path request.path)))

abbrev headers_of : Rate → ℕ → Dict String
headers_of rate count =
    ("X-RateLimit-Limit", str rate.limit)
    ∷ (("X-RateLimit-Remaining", str (rate.limit - count))
        ∷ (("X-RateLimit-Reset", str rate.period) ∷ []))

-- `except RateLimitException: raise` and `except Exception`
unfoldable pub policy : {S : Type 0} → Bool → Result Bool × S → Result Bool × S
policy fail_open (ok done, s) = (ok done, s)
policy fail_open (err e, s) = elim e [
  | rate_limit_exception ↦ (err rate_limit_exception, s)
  | _ ↦ if fail_open then (ok true, s) else (err rate_limit_exception, s)
]

-- Who is counted: a user by its identifier, and otherwise the address of the client, where it is known.
pub data CountedAs (request : Request) : Option User → String → Type 0 where
  by_id : (user : User) → CountedAs request (some user) (str user.id)
  by_host : (host : String) → request.host ≡ some host → CountedAs request none host
  by_nothing : request.host ≡ none → CountedAs request none "unknown"

-- Which rate applies: that of the tier of the user for the sanitized path, or else for the path as it came, or
-- else the default.
pub data Applies (tables : Tables) (settings : Settings) (request : Request)
    : Option User → Rate → Type 0 where
  without_user : Applies tables settings request none settings.default_rate
  without_tier :
      (user : User)
      → tables.tier user.tier_id ≡ none
      → Applies tables settings request (some user) settings.default_rate
  sanitized :
      (user : User) (tier : ℕ) (rate : Rate)
      → tables.tier user.tier_id ≡ some tier
      → tables.rate_limit tier (sanitize_path request.path) ≡ some rate
      → Applies tables settings request (some user) rate
  original :
      (user : User) (tier : ℕ) (rate : Rate)
      → tables.tier user.tier_id ≡ some tier
      → tables.rate_limit tier (sanitize_path request.path) ≡ none
      → tables.rate_limit tier request.path ≡ some rate
      → Applies tables settings request (some user) rate
  without_rate :
      (user : User) (tier : ℕ)
      → tables.tier user.tier_id ≡ some tier
      → tables.rate_limit tier (sanitize_path request.path) ≡ none
      → tables.rate_limit tier request.path ≡ none
      → Applies tables settings request (some user) settings.default_rate

user_id_of-CountedAs :
    (request : Request) (user : Option User) (who : String)
    → CountedAs request user who
    → user_id_of request user ≡ who
unfolding user_id_of
user_id_of-CountedAs request _ _ (by_id user) = refl
user_id_of-CountedAs request _ _ (by_host host h) = ground (arith, h)
user_id_of-CountedAs request _ _ (by_nothing h) = ground (arith, h)

rate_of-Applies :
    (tables : Tables) (settings : Settings) (request : Request) (user : Option User) (rate : Rate)
    → Applies tables settings request user rate
    → rate_of tables settings request user ≡ rate
unfolding rate_of first_rate
rate_of-Applies tables settings request _ _ without_user = refl
rate_of-Applies tables settings request _ _ (without_tier user h) = ground (arith, h)
rate_of-Applies tables settings request _ _ (sanitized user tier rate h first) =
    ground (arith, h, first)
rate_of-Applies tables settings request _ _ (original user tier rate h first second) =
    ground (arith, h, first, second)
rate_of-Applies tables settings request _ _ (without_rate user tier h first second) =
    ground (arith, h, first, second)

module _ {Limiter : Type 0} (tables : Tables) (settings : Settings)
    (increment_and_check : String → ℕ → ℕ → Option Bool → Exec Limiter (ℕ × Bool)) where
  unfoldable pub counted : Rate → ℕ × Bool → Exec (Checked Limiter) Bool
  counted rate (count, is_limited) c =
      let after = record c { headers = some (headers_of rate count) } in
      if is_limited then raise rate_limit_exception after else pure true after

  unfoldable pub try_count : String → Rate → Exec (Checked Limiter) Bool
  try_count key rate = do
    answer ← (λ c.
        let (r, l) =
          increment_and_check key rate.limit rate.period (some settings.rate_limiter_fail_open)
            c.limiter in
        (r, record c { limiter = l }))
    counted rate answer

  -- `true` stands for the `None` that is returned
  unfoldable pub check_rate_limit : Request → Option User → Exec (Checked Limiter) Bool
  check_rate_limit request user c =
      if not settings.rate_limiter_enabled
      then pure true c
      else policy settings.rate_limiter_fail_open
          (try_count (key_of request user) (rate_of tables settings request user) c)

  -- What the counter's answer makes of a request.
  unfoldable pub verdict : Result (ℕ × Bool) → Result Bool
  verdict (ok (count, true)) = err rate_limit_exception
  verdict (ok (count, false)) = ok true
  verdict (err rate_limit_exception) = err rate_limit_exception
  verdict (err _) = if settings.rate_limiter_fail_open then ok true else err rate_limit_exception

  try_count-verdict :
      (key : String) (rate : Rate) (c : Checked Limiter)
      → let (answer, limiter) =
          increment_and_check key rate.limit rate.period
            (some settings.rate_limiter_fail_open)
            c.limiter in
        let r = policy settings.rate_limiter_fail_open (try_count key rate c) in
        (r.0 ≡ verdict answer)
        × (r.1 ≡ record {
          limiter = limiter;
          headers = elim answer [
            | ok (count, limited) ↦ some (headers_of rate count)
            | err e ↦ c.headers
          ];
        })
  unfolding policy try_count counted verdict
  try_count-verdict key rate c = ground (
    arith,
    increment_and_check key rate.limit rate.period (some settings.rate_limiter_fail_open) c.limiter,
  )

  check_rate_limit-try_count :
      (request : Request) (user : Option User) (who : String) (rate : Rate) (c : Checked Limiter)
      → settings.rate_limiter_enabled ≡ true
      → CountedAs request user who
      → Applies tables settings request user rate
      → check_rate_limit request user c
        ≡ policy settings.rate_limiter_fail_open (
            try_count
              (concat "ratelimit:" (concat who (concat ":" (sanitize_path request.path))))
              rate
              c)
  unfolding check_rate_limit key_of
  check_rate_limit-try_count request user who rate c h counts applies =
      rw
        (
          rate_of-Applies tables settings request user rate applies,
          user_id_of-CountedAs request user who counts,
          h,
        )
        refl

  -- With the limiter enabled, a request is refused exactly if the counter says so or raises
  -- `RateLimitException`, or raises something else and the policy is to fail closed; the refusal is always a
  -- `RateLimitException`. The counter is asked once: under the identifier of the user, or else the address of the
  -- client or "unknown", and the sanitized path, with the rate of the user's tier for that path, or else for
  -- the path as it came, or else the default rate. The limiter is left as that one call leaves it. If it answers,
  -- the headers give the limit, the limit less the count or 0, and the period; otherwise they stay.
  pub check_rate_limit-verdict :
      (request : Request) (user : Option User) (who : String) (rate : Rate) (c : Checked Limiter)
      → settings.rate_limiter_enabled ≡ true
      → CountedAs request user who
      → Applies tables settings request user rate
      → let (answer, limiter) =
          increment_and_check
            (concat "ratelimit:" (concat who (concat ":" (sanitize_path request.path))))
            rate.limit
            rate.period
            (some settings.rate_limiter_fail_open)
            c.limiter in
        ((check_rate_limit request user c).0 ≡ verdict answer)
        × ((check_rate_limit request user c).1 ≡ record {
          limiter = limiter;
          headers = elim answer [
            | ok (count, limited) ↦ some (
                ("X-RateLimit-Limit", str rate.limit)
                ∷ (("X-RateLimit-Remaining", str (rate.limit - count))
                    ∷ (("X-RateLimit-Reset", str rate.period) ∷ [])))
            | err e ↦ c.headers
          ];
        })
  unfolding verdict
  check_rate_limit-verdict request user who rate c h counts applies =
      let key = concat "ratelimit:" (concat who (concat ":" (sanitize_path request.path))) in
      rw (check_rate_limit-try_count request user who rate c h counts applies)
        (try_count-verdict key rate c)

-- RateLimiterMiddleware.dispatch: the headers, written over those of the response
unfoldable dispatch : Option (Dict String) → Dict String → Dict String
dispatch none response = response
dispatch (some []) response = response
dispatch (some ((key, value) ∷ rest)) response =
    dispatch (some rest) (fastapi_hyperf.Common.Dict.put key value response)
