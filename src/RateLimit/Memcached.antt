-- ===== src/RateLimit/Memcached.antt =====
-- app/core/rate_limit/backends/memcached.py. The client and the digest of `hashlib.md5` are parameters.
-- Bytes are the texts that they encode.
pub mod Laws
use fastapi_hyperf.Common.{
  ℕ, ◌+◌, String, Bool, true, false, not, Option, none, some, concat, str, int, Exec, Error, pure,
  raise, attempt, resume, ◌>>=◌, ◌>>◌, if◌then◌else◌, ltb, truthy, ◌==◌,
}
use fastapi_hyperf.RateLimit.Backend.{Backend, Methods, on_server, window_start}
use fastapi_hyperf.RateLimit.Redis.{number_of}

pub record Client (Server : Type 0) : Type 0 where
  pub get : ℕ → String → Exec Server (Option String)
  pub set : ℕ → String → String → ℕ → Exec Server Bool
  pub delete : ℕ → String → Exec Server Bool

-- int(value.decode()) if value else 0
abbrev pub or_zero : Option ℕ → ℕ
or_zero none = 0
or_zero (some n) = n

module _ {Server : Type 0} (client : Client Server) (md5 : String → String) where
  unfoldable pub add : ℕ → String → ℕ → ℕ → Exec (Backend Server) ℕ
  add t key amount expiry = do
    value ← on_server (client.get t key)
    count ← number_of value
    on_server (client.set t key (str (or_zero count + amount)) expiry)
    pure (or_zero count + amount)

  unfoldable pub count_request : ℕ → String → ℕ → ℕ → Exec (Backend Server) (ℕ × Bool)
  count_request t key limit period = do
    window ← window_start t period
    current_count ← add t (concat (md5 key) (concat ":" (str window))) 1 period
    pure (current_count, ltb limit current_count)

  unfoldable pub increment_and_check : ℕ → String → ℕ → ℕ → Exec (Backend Server) (ℕ × Bool)
  increment_and_check t key limit period =
      attempt (count_request t key limit period) (λ b. pure (0, not b.fail_open) b)

  unfoldable pub get_count : ℕ → String → Exec (Backend Server) (Option ℕ)
  get_count t key = attempt (do value ← on_server (client.get t key); number_of value) (pure none)

  -- nothing is returned
  unfoldable pub reset : ℕ → String → Exec (Backend Server) (Option Error)
  reset t key = attempt (do on_server (client.delete t key); pure none) (pure none)

  unfoldable pub increment : ℕ → String → ℕ → ℕ → Exec (Backend Server) ℕ
  increment t key amount expiry = attempt (add t key amount expiry) (pure 0)

  unfoldable pub delete : ℕ → String → Exec (Backend Server) Bool
  delete t key = attempt (do on_server (client.delete t key); pure true) (pure false)

  unfoldable pub ping : ℕ → Exec (Backend Server) Bool
  ping t =
      attempt
        (do
          on_server (client.set t "rate_limiter_ping_test" "1" 1)
          result ← on_server (client.get t "rate_limiter_ping_test")
          pure (elim result [ some value ↦ value == "1" | none ↦ false ]))
        (pure false)

  abbrev pub methods : Methods Server
  methods = record {
    increment_and_check = increment_and_check;
    get_count = get_count;
    reset = reset;
    ping = ping;
  }
