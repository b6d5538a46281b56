-- ===== src/RateLimit/Backend.antt =====
-- app/core/rate_limit/base.py: what the two backends have in common, and the methods that the provider
-- calls. An operation that looks at the clock takes the second that it reads; the state of the server
-- behind the client comes with the object.
use fastapi_hyperf.Common.{
  ℕ, ◌-◌, ◌%◌, String, Bool, Option, Exec, Error, pure, raise, if◌then◌else◌, eqb,
  zero_division_error,
}

pub record Backend (Server : Type 0) : Type 0 where
  pub fail_open : Bool
  pub server : Server

-- The abstract methods.
pub record Methods (Server : Type 0) : Type 0 where
  pub increment_and_check : ℕ → String → ℕ → ℕ → Exec (Backend Server) (ℕ × Bool)
  pub get_count : ℕ → String → Exec (Backend Server) (Option ℕ)
  pub reset : ℕ → String → Exec (Backend Server) (Option Error)
  pub ping : ℕ → Exec (Backend Server) Bool

module _ {Server : Type 0} where
  -- a call of the client
  abbrev pub on_server : {A : Type 0} → Exec Server A → Exec (Backend Server) A
  on_server call b = let (r, s) = call b.server in (r, record b { server = s })

  -- current_timestamp - (current_timestamp % period)
  unfoldable pub window_start : ℕ → ℕ → Exec (Backend Server) ℕ
  window_start t period = if eqb period 0 then raise zero_division_error else pure (t - t % period)
