-- ===== src/RateLimit/Provider/Policies.antt =====
-- Which backend app/core/rate_limit/provider.py answers with, and the policy that it leaves.
use fastapi_hyperf.Common.{
  ℕ, String, Bool, true, Option, none, some, [], ok, Exec, ◌≡◌, refl, arith, if◌then◌else◌, truthy,
  ◌==◌, eq_iff, ==_refl, Option-cases, Result-cases, inl, inr,
}
use fastapi_hyperf.Common.Dict.{contains, get-put}
use fastapi_hyperf.RateLimit.Backend.{Backend, Methods}
use fastapi_hyperf.RateLimit.Provider.{
  Provider, register_backend, get_backend, lookup, backend_name, set_default_backend, call,
  with_policy, override, increment_and_check,
}

-- the name of the default backend is that of a registered one
abbrev pub HasDefault : {Server : Type 0} → Provider Server → Type 0
HasDefault p = elim p.default_backend [
  | none ↦ p.backends ≡ []
  | some name ↦ contains name p.backends ≡ true
]

module _ {Server : Type 0} where
  -- Registering a backend and setting the default keep the default among the registered backends.
  default_backend-HasDefault :
      (p : Provider Server) (name other : String) (object : ℕ) (default : Bool)
      → HasDefault p
      → HasDefault (register_backend name object default p)
        × HasDefault (set_default_backend other p).1
  unfolding register_backend set_default_backend
  default_backend-HasDefault p name other object default h =
      let added = get-put name name object p.backends in
      elim (Option-cases p.default_backend) [
        | inl e ↦ ground (arith, h, e, added, ==_refl name)
        | inr (d, e) ↦ ground (arith, h, e, added, get-put name d object p.backends, ==_refl name)
      ]

  -- A backend that is registered under a name is the one that this name gets, and every other name
  -- gets what it got. Registered as the default, it is the one that is got without a name. For
  -- names that are not empty, where the default is among the registered backends.
  get_backend-register_backend :
      (p : Provider Server) (name other : String) (object : ℕ) (default : Bool)
      → truthy name ≡ true
      → truthy other ≡ true
      → HasDefault p
      → ((get_backend (some other) (register_backend name object default p)).0
          ≡ (if name == other then ok object else (get_backend (some other) p).0))
        × ((get_backend none (register_backend name object true p)).0 ≡ ok object)
  unfolding register_backend get_backend lookup backend_name
  get_backend-register_backend p name other object default h k d = ground (
    arith,
    h,
    k,
    d,
    get-put name other object p.backends,
    get-put name name object p.backends,
    eq_iff name name,
  )

module _ {Server : Type 0} (methods : ℕ → Methods Server) (t : ℕ) where
  with_policy-fail_open :
      (fail_open : Option Bool) (method : Exec (Backend Server) (ℕ × Bool)) (b : Backend Server)
      → ((c : Backend Server) → (method c).1.fail_open ≡ c.fail_open)
      → (with_policy fail_open method b).1.fail_open ≡ b.fail_open
  unfolding with_policy override
  with_policy-fail_open none method b keeps = keeps b
  with_policy-fail_open (some f) method b keeps = ground (arith, keeps b)

  -- Every backend has the policy that it had before the call, also when the call raises, if the methods
  -- of the backends keep theirs.
  pub increment_and_check-fail_open :
      (p : Provider Server) (key : String) (limit period : ℕ) (name : Option String)
      (fail_open : Option Bool) (object : ℕ)
      → ((o : ℕ) (b : Backend Server)
          → ((methods o).increment_and_check t key limit period b).1.fail_open ≡ b.fail_open)
      → ((increment_and_check methods t key limit period name fail_open p).1.objects
          object).fail_open
        ≡ (p.objects object).fail_open
  unfolding increment_and_check call get_backend
  increment_and_check-fail_open p key limit period name fail_open object keeps =
      elim (Result-cases (lookup (backend_name name p.default_backend) p)) [
        | inl (b, e) ↦ rw e (
            ground (
              arith,
              with_policy-fail_open fail_open ((methods b).increment_and_check t key limit period)
                  (p.objects b) (keeps b),
            ))
        | inr (x, e) ↦ rw e refl
      ]
