-- ===== src/RateLimit/Redis.antt =====
-- app/core/rate_limit/backends/redis.py. The client is a parameter: `pipeline().execute()` takes the
-- commands of the pipeline in order, every call takes the instant at which the server answers it.
pub mod Laws
use fastapi_hyperf.Common.{
  ℕ, ◌+◌, String, Bool, false, not, Option, none, some, List, [], ◌∷◌, concat, str, int, Exec,
  Error, pure, raise, attempt, resume, ◌>>=◌, ◌>>◌, if◌then◌else◌, eqb, ltb, truthy, index_error,
  value_error, rate_limiter_backend_exception,
}
use fastapi_hyperf.RateLimit.Backend.{Backend, Methods, on_server, window_start}

pub data Command : Type 0 where
  incr : String → Command
  incrby : String → ℕ → Command
  expire : String → ℕ → Command

pub record Client (Server : Type 0) : Type 0 where
  pub execute : ℕ → List Command → Exec Server (List ℕ)
  pub get : ℕ → String → Exec Server (Option String)
  pub delete : ℕ → String → Exec Server ℕ
  pub ping : ℕ → Exec Server Bool

-- int(value) if value else None
unfoldable pub number_of : {S : Type 0} → Option String → Exec S (Option ℕ)
number_of none = pure none
number_of (some value) =
    if truthy value
    then (elim (int value) [ some n ↦ pure (some n) | none ↦ raise value_error ])
    else pure none

-- result[0]
unfoldable pub first : {S : Type 0} → List ℕ → Exec S ℕ
first [] = raise index_error
first (count ∷ rest) = pure count

module _ {Server : Type 0} (client : Client Server) where
  unfoldable pub count_request : ℕ → String → ℕ → ℕ → Exec (Backend Server) (ℕ × Bool)
  count_request t key limit period = do
    window ← window_start t period
    let rate_limit_key = concat key (concat ":" (str window))
    result ← on_server (client.execute t (incr rate_limit_key ∷ expire rate_limit_key period ∷ []))
    current_count ← first result
    pure (current_count, ltb limit current_count)

  unfoldable pub increment_and_check : ℕ → String → ℕ → ℕ → Exec (Backend Server) (ℕ × Bool)
  increment_and_check t key limit period =
      attempt (count_request t key limit period) (λ b. pure (0, not b.fail_open) b)

  unfoldable pub get_count : ℕ → String → Exec (Backend Server) (Option ℕ)
  get_count t key = attempt (do value ← on_server (client.get t key); number_of value) (pure none)

  -- nothing is returned
  unfoldable pub reset : ℕ → String → Exec (Backend Server) (Option Error)
  reset t key = attempt (do on_server (client.delete t key); pure none) (pure none)

  unfoldable pub add : ℕ → String → ℕ → ℕ → Exec (Backend Server) ℕ
  add t key amount expiry = do
    result ← on_server (client.execute t (incrby key amount ∷ expire key expiry ∷ []))
    first result

  unfoldable pub increment : ℕ → String → ℕ → ℕ → Exec (Backend Server) ℕ
  increment t key amount expiry =
      attempt (add t key amount expiry)
        (λ b. if not b.fail_open then raise rate_limiter_backend_exception b else pure 0 b)

  unfoldable pub delete : ℕ → String → Exec (Backend Server) Bool
  delete t key =
      attempt (do result ← on_server (client.delete t key); pure (not (eqb result 0))) (pure false)

  unfoldable pub ping : ℕ → Exec (Backend Server) Bool
  ping t = attempt (on_server (client.ping t)) (pure false)

  -- the object as a backend
  abbrev pub methods : Methods Server
  methods = record {
    increment_and_check = increment_and_check;
    get_count = get_count;
    reset = reset;
    ping = ping;
  }
