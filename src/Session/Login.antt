-- ===== src/Session/Login.antt =====
-- `track_login_attempt` of app/core/auth/session/manager.py over a rate limiter, which is an argument: one of the
-- backends of RateLimit, or none. `cleanup_rate_limits` changes nothing, since no backend has
-- `delete_pattern`.
pub mod Attempts
use fastapi_hyperf.Common.{
  ℕ, ◌-◌, ◌*◌, String, Bool, true, false, Option, none, some, Exec, concat, pure, attempt, recover,
  resume, ◌>>=◌, ◌>>◌, ltb, leb, if◌then◌else◌,
}
use fastapi_hyperf.RateLimit.Backend.{Backend}
use fastapi_hyperf.RateLimit.Redis as Redis
use fastapi_hyperf.RateLimit.Memcached as Memcached

-- the two methods of a backend that are called, at an instant
pub record Limiter (L : Type 0) : Type 0 where
  pub increment : ℕ → String → ℕ → ℕ → Exec L ℕ
  pub delete : ℕ → String → Exec L Bool

abbrev redis_limiter : {Server : Type 0} → Redis.Client Server → Limiter (Backend Server)
redis_limiter client = record { increment = Redis.increment client; delete = Redis.delete client }

-- `login_max_attempts` and `login_window_minutes`
pub record Policy : Type 0 where
  pub login_max_attempts : ℕ
  pub login_window_minutes : ℕ

-- max(a, b)
abbrev pub max : ℕ → ℕ → ℕ
max a b = if ltb a b then b else a

abbrev pub ip_key : String → String
ip_key ip_address = concat "login:ip:" ip_address

abbrev pub username_key : String → String
username_key username = concat "login:user:" username

module _ {L : Type 0} (policy : Policy) where
  unfoldable pub clear_attempts : Limiter L → ℕ → String → String → Exec L (Bool × Option ℕ)
  clear_attempts limiter t ip_address username = do
    limiter.delete t (ip_key ip_address)
    limiter.delete t (username_key username)
    pure (true, none)

  unfoldable pub count_attempt : Limiter L → ℕ → String → String → Exec L (Bool × Option ℕ)
  count_attempt limiter t ip_address username = do
    ip_count ← limiter.increment t (ip_key ip_address) 1 (policy.login_window_minutes * 60)
    username_count ←
        limiter.increment t (username_key username) 1 (policy.login_window_minutes * 60)
    let attempt_count = max ip_count username_count
    pure (
      leb attempt_count policy.login_max_attempts,
      some (policy.login_max_attempts - attempt_count),
    )

  -- whatever raises, the attempt is allowed
  unfoldable pub track_login_attempt :
      Option (Limiter L) → ℕ → String → String → Bool → Exec L (Bool × Option ℕ)
  track_login_attempt none t ip_address username success = pure (true, none)
  track_login_attempt (some limiter) t ip_address username true =
      attempt (clear_attempts limiter t ip_address username) (pure (true, none))
  track_login_attempt (some limiter) t ip_address username false =
      attempt (count_attempt limiter t ip_address username) (pure (true, none))

  unfoldable pub cleanup_rate_limits : Option (Limiter L) → Exec L (Unit {0})
  cleanup_rate_limits limiter = pure tt
