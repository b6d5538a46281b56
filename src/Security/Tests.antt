-- ===== src/Security/Tests.antt =====
-- Runs of the checks of a production configuration.
use fastapi_hyperf.Common.{
  true, false, ◌||◌, ◌≡◌, ◌≢◌, ◌↔◌, ◌⊎◌, refl, ◌==◌, none, some, [], ◌∷◌, String,
}
use fastapi_hyperf.Common.Text.{strip, is_space}
use fastapi_hyperf.Security.Characters.{characters, lower, occurs, repeats, starts_with}
use fastapi_hyperf.Security.Validator.{
  Secrets, production, validate_production_security, is_production, is_insecure_secret_key,
  IsStrong, has_predictable_pattern, is_insecure_secret_key-IsStrong,
  validate_production_security-accepts,
}
use fastapi_hyperf.Security.Warnings.{
  Settings, Instance, check_redis_instance_sharing, is_shared,
  check_redis_instance_sharing-is_shared,
}

abbrev strong_key : String
strong_key = "f3Zq8Lw1Xn6Rb0Hm5Vc9Tj2Gp7Ux4Jz1"

-- a random key may be refused for the letters of a word
strong_and_weak :
    (is_insecure_secret_key strong_key ≡ false)
    × (is_insecure_secret_key "f3Zq8Lw1Xn6Rb0DEVm5Vc9Tj2Gp7Ux4J1" ≡ true)
unfolding is_insecure_secret_key has_predictable_pattern characters lower occurs repeats starts_with
strong_and_weak = (refl, refl)

abbrev secrets : Secrets
secrets = record { environment = production; secret_key = strong_key; postgres_password = "x9" }

is_insecure_secret_key-IsStrong_example :
    (is_insecure_secret_key strong_key ≡ false) ↔ IsStrong (characters strong_key)
is_insecure_secret_key-IsStrong_example = is_insecure_secret_key-IsStrong strong_key

validate_production_security-accepts_example : (validate_production_security secrets ≡ none) ↔ (
    (is_production secrets.environment ≡ false)
    ⊎ (IsStrong (characters secrets.secret_key)
        × ((secrets.postgres_password == "postgres") ≡ false)
        × ((strip is_space secrets.postgres_password == "") ≡ false)))
validate_production_security-accepts_example = validate_production_security-accepts secrets

abbrev redis : Instance
redis = record { host = "localhost"; port = 6379; db = 0; password = "" }

abbrev settings : Settings
settings = record {
  cache_backend = "redis";
  cache_redis = redis;
  rate_limiter_backend = "redis";
  rate_limiter_redis = record redis { db = 1 };
  session_backend = "redis";
  cors_enabled = true;
  cors_origins = "*" ∷ [];
  debug = false;
  enable_docs_in_production = false;
  session_secure_cookies = true;
  session_timeout_minutes = 30;
  csrf_enabled = true;
  admin_enabled = true;
  admin_username = some "admin";
  admin_password = none;
}

check_redis_instance_sharing-is_shared_example : (check_redis_instance_sharing settings ≢ none) ↔ (
    (is_shared "redis" redis "redis" (record redis { db = 1 })
      || (is_shared "redis" redis "redis" redis
          || is_shared "redis" (record redis { db = 1 }) "redis" redis))
    ≡ true)
check_redis_instance_sharing-is_shared_example = check_redis_instance_sharing-is_shared settings
