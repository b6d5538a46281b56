-- ===== src/Security/Warnings.antt =====
-- The checks of app/core/security/production_validator.py that only warn. A message of the code is a
-- constructor here, with the values that it prints.
use fastapi_hyperf.Common.{
  ℕ, String, Bool, true, false, not, ◌&&◌, ◌||◌, List, [], ◌∷◌, ◌++◌, ◌≡◌, ◌≢◌, ◌↔◌, arith,
  if◌then◌else◌, ◌==◌, eqb, ltb, truthy, any, length, Option, none, some, concat, str, ==_refl,
}
use fastapi_hyperf.Common.Dict
use fastapi_hyperf.Common.Dict.{Dict, get-put}
use fastapi_hyperf.Security.Characters.{characters, lower}
use fastapi_hyperf.Security.Validator.{add_if}

pub record Instance : Type 0 where
  pub host : String
  pub port : ℕ
  pub db : ℕ
  pub password : String

pub record RedisConfig : Type 0 where
  pub service : String
  pub redis : Instance
  pub ssl : Bool

pub data Warning : Type 0 where
  no_redis_password : RedisConfig → Warning
  no_redis_tls : RedisConfig → Warning
  shared_instances : Dict (List String) → Warning
  permissive_cors debug_enabled docs_exposed insecure_cookies csrf_disabled : Warning
  long_session : ℕ → Warning
  predictable_admin_username : String → Warning
  short_admin_password weak_admin_password : Warning

-- The settings that the checks read; the credentials of the administrator may be missing.
pub record Settings : Type 0 where
  pub cache_backend : String
  pub cache_redis : Instance
  pub rate_limiter_backend : String
  pub rate_limiter_redis : Instance
  pub session_backend : String
  pub cors_enabled : Bool
  pub cors_origins : List String
  pub debug : Bool
  pub enable_docs_in_production : Bool
  pub session_secure_cookies : Bool
  pub session_timeout_minutes : ℕ
  pub csrf_enabled : Bool
  pub admin_enabled : Bool
  pub admin_username : Option String
  pub admin_password : Option String

unfoldable pub get_redis_configurations : Settings → List RedisConfig
get_redis_configurations s =
    add_if (s.cache_backend == "redis")
      (record { service = "cache"; redis = s.cache_redis; ssl = false })
    ++ (add_if (s.rate_limiter_backend == "redis")
          (record { service = "rate_limiter"; redis = s.rate_limiter_redis; ssl = false })
        ++ add_if (s.session_backend == "redis")
            (record { service = "sessions"; redis = s.cache_redis; ssl = false }))

abbrev instance_key : RedisConfig → String
instance_key config =
    concat config.redis.host
      (concat ":" (concat (str config.redis.port) (concat ":" (str config.redis.db))))

-- instances[key], or the empty list that is put there
abbrev pub services : Option (List String) → List String
services none = []
services (some found) = found

unfoldable pub instances : List RedisConfig → Dict (List String) → Dict (List String)
instances [] found = found
instances (config ∷ rest) found = instances rest (
    Dict.put (instance_key config)
      (services (Dict.get (instance_key config) found) ++ (config.service ∷ [])) found)

unfoldable pub shared : Dict (List String) → Dict (List String)
shared [] = []
shared ((key, used_by) ∷ rest) =
    let others = shared rest in if ltb 1 (length used_by) then (key, used_by) ∷ others else others

unfoldable pub check_redis_instance_sharing : Settings → Option Warning
check_redis_instance_sharing s = elim (shared (instances (get_redis_configurations s) [])) [
  | [] ↦ none
  | entry ∷ entries ↦ some (shared_instances (entry ∷ entries))
]

abbrev optional : {A : Type 0} → Option A → List A
optional none = []
optional (some a) = a ∷ []

unfoldable check_redis_configs : List RedisConfig → List Warning
check_redis_configs [] = []
check_redis_configs (config ∷ rest) =
    add_if (not (truthy config.redis.password)) (no_redis_password config)
    ++ (add_if
          (not config.ssl
            && not (config.redis.host == "localhost" || config.redis.host == "127.0.0.1"))
          (no_redis_tls config)
        ++ check_redis_configs rest)

unfoldable check_redis_security : Settings → List Warning
check_redis_security s =
    check_redis_configs (get_redis_configurations s) ++ optional (check_redis_instance_sharing s)

unfoldable is_cors_too_permissive : Settings → Bool
is_cors_too_permissive s = s.cors_enabled && any (λ origin. origin == "*") s.cors_origins

unfoldable check_session_security : Settings → List Warning
check_session_security s =
    add_if (not s.session_secure_cookies) insecure_cookies
    ++ (add_if (ltb 120 s.session_timeout_minutes) (long_session s.session_timeout_minutes)
        ++ add_if (not s.csrf_enabled) csrf_disabled)

abbrev weak_usernames : List String
weak_usernames = "admin" ∷ ("administrator" ∷ ("root" ∷ ("user" ∷ ("test" ∷ ("demo" ∷ [])))))

abbrev weak_passwords : List String
weak_passwords =
    "password"
    ∷ ("123456"
        ∷ ("admin"
            ∷ ("password123"
                ∷ ("admin123"
                    ∷ ("qwerty"
                        ∷ ("letmein"
                            ∷ ("welcome"
                                ∷ ("changeme"
                                    ∷ ("12345678"
                                        ∷ ("1234"
                                            ∷ ("123"
                                                ∷ ("12345"
                                                    ∷ ("123456789"
                                                        ∷ ("adminisp"
                                                            ∷ ("demo"
                                                            ∷ ("root"
                                                            ∷ ("123123"
                                                            ∷ ("admin@123"
                                                            ∷ ("123456aA@"
                                                            ∷ ("01031974"
                                                            ∷ ("Admin@123"
                                                            ∷ ("111111"
                                                            ∷ ("admin1234"
                                                            ∷ ("admin1" ∷ []))))))))))))))))))))))))

abbrev pub same : List ℕ → List ℕ → Bool
same [] [] = true
same [] (d ∷ t) = false
same (c ∷ s) [] = false
same (c ∷ s) (d ∷ t) = eqb c d && same s t

-- text.lower() in texts
unfoldable lower_in : String → List String → Bool
lower_in text texts = any (λ t. same (lower (characters text)) (characters t)) texts

unfoldable check_credentials : String → String → List Warning
check_credentials username password =
    add_if (lower_in username weak_usernames) (predictable_admin_username username)
    ++ (add_if (ltb (length (characters password)) 12) short_admin_password
        ++ add_if (lower_in password weak_passwords) weak_admin_password)

unfoldable check_given : Option String → Option String → List Warning
check_given (some username) (some password) =
    if not (truthy username) || not (truthy password)
    then []
    else check_credentials username password
check_given none password = []
check_given (some username) none = []

unfoldable check_admin_credentials : Settings → List Warning
check_admin_credentials s =
    if not s.admin_enabled then [] else check_given s.admin_username s.admin_password

-- the warnings that are logged
unfoldable validate_warning_security : Settings → List Warning
validate_warning_security s =
    check_redis_security s
    ++ (add_if (is_cors_too_permissive s) permissive_cors
        ++ (add_if s.debug debug_enabled
            ++ (add_if s.enable_docs_in_production docs_exposed
                ++ (check_session_security s ++ check_admin_credentials s))))

-- Whether two services use Redis, and the text host:port:db of the instances set for them is the same.
abbrev pub is_shared : String → Instance → String → Instance → Bool
is_shared backend a other b =
    (backend == "redis" && other == "redis")
    && (concat a.host (concat ":" (concat (str a.port) (concat ":" (str a.db))))
        == concat b.host (concat ":" (concat (str b.port) (concat ":" (str b.db)))))

-- Sharing is warned of exactly if two of the three services use Redis with the same host, port and database as
-- host:port:db writes them: the cache and the rate limiter have instances of their own in the settings, and the
-- sessions use that of the cache.
pub check_redis_instance_sharing-is_shared :
    (s : Settings)
    → (check_redis_instance_sharing s ≢ none) ↔ (
        (is_shared s.cache_backend s.cache_redis s.rate_limiter_backend s.rate_limiter_redis
          || (is_shared s.cache_backend s.cache_redis s.session_backend s.cache_redis
              || is_shared s.rate_limiter_backend s.rate_limiter_redis s.session_backend
                  s.cache_redis))
        ≡ true)
unfolding check_redis_instance_sharing get_redis_configurations instances shared Dict.put Dict.get
check_redis_instance_sharing-is_shared s = ground (
  arith,
  ==_refl (instance_key (record { service = "cache"; redis = s.cache_redis; ssl = false })),
)
