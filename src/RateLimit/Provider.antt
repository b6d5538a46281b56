-- ===== src/RateLimit/Provider.antt =====
-- app/core/rate_limit/provider.py. The backends are objects in a store, so that one object may be
-- registered under several names, and a change of its policy is seen under each.
pub mod Policies
use fastapi_hyperf.Common.{
  ℕ, String, Bool, true, false, not, ◌||◌, Option, none, some, List, [], ◌∷◌, Result, ok, err, Exec,
  Error, pure, raise, resume, ◌>>=◌, ◌>>◌, if◌then◌else◌, eqb, truthy, backend_not_found_error,
}
use fastapi_hyperf.Common.Dict
use fastapi_hyperf.Common.Dict.{Dict, contains}
use fastapi_hyperf.RateLimit.Backend.{Backend, Methods}

pub record Provider (Server : Type 0) : Type 0 where
  pub backends : Dict ℕ
  pub default_backend : Option String
  pub objects : ℕ → Backend Server

-- name or self._default_backend
unfoldable pub backend_name : Option String → Option String → Option String
backend_name none default = default
backend_name (some name) default = if truthy name then some name else default

-- fail_open if it is given and differs from the backend's
unfoldable pub override : Option Bool → Bool → Option Bool
override none own = none
override (some true) own = if own then none else some true
override (some false) own = if own then some false else none

module _ {Server : Type 0} where
  unfoldable pub register_backend : String → ℕ → Bool → Provider Server → Provider Server
  register_backend name backend default p = record p {
    backends = Dict.put name backend p.backends;
    default_backend = elim p.default_backend [
      | none ↦ some name
      | some d ↦ if default then some name else some d
    ];
  }

  unfoldable pub lookup : Option String → Provider Server → Result ℕ
  lookup none p = err backend_not_found_error
  lookup (some name) p =
      if not (truthy name)
      then err backend_not_found_error
      else (elim (Dict.get name p.backends) [ none ↦ err backend_not_found_error | some b ↦ ok b ])

  unfoldable pub get_backend : Option String → Exec (Provider Server) ℕ
  get_backend name p = (lookup (backend_name name p.default_backend) p, p)

  unfoldable pub set_default_backend : String → Exec (Provider Server) Bool
  set_default_backend name p =
      if not (contains name p.backends)
      then raise backend_not_found_error p
      else pure true (record p { default_backend = some name })

  -- a call of a method of one object
  unfoldable pub call : {A : Type 0} → ℕ → Exec (Backend Server) A → Exec (Provider Server) A
  call object method p =
      let (r, b) = method (p.objects object) in
      (r, record p { objects = λ o. if eqb o object then b else p.objects o })

  unfoldable set_fail_open : Bool → Exec (Backend Server) Bool
  set_fail_open fail_open b = pure true (record b { fail_open = fail_open })

  -- the call, and after it what `finally` does, in either case
  unfoldable pub with_policy :
      {A : Type 0} → Option Bool → Exec (Backend Server) A → Exec (Backend Server) A
  with_policy fail_open method b = elim (override fail_open b.fail_open) [
    | none ↦ method b
    | some policy ↦
        let (r, after) = method (record b { fail_open = policy }) in
        (r, record after { fail_open = b.fail_open })
  ]

module _ {Server : Type 0} (methods : ℕ → Methods Server) (t : ℕ) where
  unfoldable ping_each : Dict ℕ → Exec (Provider Server) (Dict Bool)
  ping_each [] = pure []
  ping_each ((name, b) ∷ rest) = do
    up ← call b ((methods b).ping t)
    others ← ping_each rest
    pure ((name, up) ∷ others)

  unfoldable ping_all : Exec (Provider Server) (Dict Bool)
  ping_all p = ping_each p.backends p

  unfoldable pub increment_and_check :
      String → ℕ → ℕ → Option String → Option Bool → Exec (Provider Server) (ℕ × Bool)
  increment_and_check key limit period name fail_open = do
    b ← get_backend name
    call b (with_policy fail_open ((methods b).increment_and_check t key limit period))

  unfoldable pub get_count : String → Option String → Exec (Provider Server) (Option ℕ)
  get_count key name = do b ← get_backend name; call b ((methods b).get_count t key)

  unfoldable pub reset : String → Option String → Exec (Provider Server) (Option Error)
  reset key name = do b ← get_backend name; call b ((methods b).reset t key)
