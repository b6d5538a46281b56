-- ===== src/RateLimit/Tests.antt =====
-- Runs of the limiter on servers that keep their entries in a dictionary.
use fastapi_hyperf.Common.{
  str, ◌-◌, ℕ, ◌+◌, ◌≤◌, String, Bool, true, false, Option, none, some, List, [], ◌∷◌, ◌≡◌, refl,
  arith, ltb, ok, err, Result, client_error, ◌==◌, if◌then◌else◌, ==_refl,
}
use fastapi_hyperf.Common.Dict
use fastapi_hyperf.Common.Dict.{Dict, get-put, get-remove}
use fastapi_hyperf.RateLimit.Window.{History, check_all, expected, passed, IsOrdered, window, seen}
use fastapi_hyperf.RateLimit.Backend.{Backend, Methods}
use fastapi_hyperf.RateLimit.Backend
use fastapi_hyperf.RateLimit.Redis
use fastapi_hyperf.RateLimit.Redis.Laws.{
  increment_and_check-expected, increment_and_check-passed, increment_and_check-reset,
  increment_and_check-fails,
}
use fastapi_hyperf.RateLimit.Memcached
use fastapi_hyperf.RateLimit.Memcached.Laws.{
  increment_and_check-expected_by_digest, increment_and_check-fails_by_digest,
}
use fastapi_hyperf.RateLimit.Provider
use fastapi_hyperf.RateLimit.Provider.{Provider, register_backend, set_default_backend, get_backend}
use fastapi_hyperf.RateLimit.Provider.Policies.{HasDefault, increment_and_check-fail_open}
use fastapi_hyperf.Common.Text.{replace, strip}
use fastapi_hyperf.RateLimit.Path.{sanitize_path}
use fastapi_hyperf.RateLimit.Check.{
  Tables, Settings, Request, User, check_rate_limit, check_rate_limit-verdict, verdict, by_id,
  original,
}

-- a value that is kept before its deadline
abbrev live : {A : Type 0} → ℕ → Option (A × ℕ) → Option A
live t none = none
live t (some (value, deadline)) = if ltb t deadline then some value else none

abbrev number : Option ℕ → ℕ
number none = 0
number (some n) = n

abbrev Counters : Type 0
Counters = Dict (ℕ × ℕ)

abbrev counter : ℕ → String → Counters → ℕ
counter t key s = number (live t (Dict.get key s))

abbrev execute : ℕ → List Redis.Command → Counters → Result (List ℕ) × Counters
execute t (Redis.incr key ∷ (Redis.expire other period ∷ [])) s =
    let n = counter t key s + 1 in (ok (n ∷ (1 ∷ [])), Dict.put key (n, t + period) s)
execute t commands s = (err client_error, s)

abbrev redis : Redis.Client Counters
redis = record {
  execute = execute;
  get = λ t key s. (ok none, s);
  delete = λ t key s. (ok 1, Dict.remove key s);
  ping = λ t s. (ok true, s);
}

redis_laws : Redis.Laws.Laws redis
redis_laws = record {
  count = counter;
  incremented = λ t period key s. refl;
  kept = λ t u period key s le lt.
      ground (arith, get-put key key (counter t key s + 1, t + period) s, ==_refl key);
  untouched = λ t u period key other s apart le.
      ground (arith, get-put key other (counter t key s + 1, t + period) s, apart);
  deleted = λ t u key other s le. ground (arith, get-remove key other s);
}

abbrev Values : Type 0
Values = Dict (String × ℕ)

abbrev memcached : Memcached.Client Values
memcached = record {
  get = λ t key s. (ok (live t (Dict.get key s)), s);
  set = λ t key text lifetime s. (ok true, Dict.put key (text, t + lifetime) s);
  delete = λ t key s. (ok true, Dict.remove key s);
}

memcached_laws : Memcached.Laws.Laws memcached
memcached_laws = record {
  value = λ t key s. live t (Dict.get key s);
  reads = λ t key s. refl;
  writes = λ t lifetime key text s. refl;
  kept = λ t u lifetime key text s short le lt.
      ground (arith, get-put key key (text, t + lifetime) s, ==_refl key);
  untouched = λ t u lifetime key other text s apart le.
      ground (arith, get-put key other (text, t + lifetime) s, apart);
}

abbrev requests : History
requests = (60, "a") ∷ ((61, "a") ∷ ((61, "b") ∷ ((119, "a") ∷ ((120, "a") ∷ []))))

-- two requests in a minute are let through
expected_answers :
    expected (λ k. k) 2 60 [] requests
    ≡ ok (1, false) ∷ (ok (2, false) ∷ (ok (1, false) ∷ (ok (3, true) ∷ (ok (1, false) ∷ []))))
unfolding expected seen window
expected_answers = refl

abbrev fresh_redis : Backend Counters
fresh_redis = record { fail_open = true; server = [] }

abbrev fresh_memcached : Backend Values
fresh_memcached = record { fail_open = true; server = [] }

redis_is_fresh : (u : ℕ) (key : String) → 60 ≤ u → redis_laws.count u key fresh_redis.server ≡ 0
unfolding redis_laws Dict.get
redis_is_fresh u key le = refl

memcached_is_fresh :
    (u : ℕ) (key : String) → 60 ≤ u → memcached_laws.value u key fresh_memcached.server ≡ none
unfolding memcached_laws Dict.get
memcached_is_fresh u key le = refl

requests-IsOrdered : IsOrdered 60 requests
requests-IsOrdered = omega arith

increment_and_check-expected_example :
    check_all (Redis.increment_and_check redis) 2 60 requests fresh_redis
    ≡ expected (λ k. k) 2 60 [] requests
increment_and_check-expected_example =
    increment_and_check-expected redis redis_laws 60 2 60 requests fresh_redis (omega arith)
      requests-IsOrdered redis_is_fresh

increment_and_check-passed_example :
    passed
      (λ k. k)
      2
      60
      "a"
      60
      requests
      (check_all (Redis.increment_and_check redis) 2 60 requests fresh_redis)
    ≤ 2
increment_and_check-passed_example =
    increment_and_check-passed redis redis_laws 60 2 60 requests fresh_redis "a" 60 (omega arith)
      requests-IsOrdered redis_is_fresh

increment_and_check-reset_example :
    (Redis.increment_and_check redis 61 "a" 2 60 (Redis.reset redis 60 "a" fresh_redis).1).0
    ≡ (Redis.increment_and_check redis 61 "a" 2 60 fresh_redis).0
increment_and_check-reset_example =
    increment_and_check-reset redis redis_laws 60 61 "a" 2 60 fresh_redis (omega arith)
      (omega arith)

increment_and_check-expected_by_digest_example :
    check_all (Memcached.increment_and_check memcached (λ k. k)) 2 60 requests fresh_memcached
    ≡ expected (λ k. k) 2 60 [] requests
increment_and_check-expected_by_digest_example =
    increment_and_check-expected_by_digest memcached (λ k. k) memcached_laws 60 2 60 requests
      fresh_memcached (omega arith) (omega arith) requests-IsOrdered memcached_is_fresh

abbrev provider : Provider Counters
provider = record {
  backends = ("redis", 0) ∷ [];
  default_backend = some "redis";
  objects = λ o. fresh_redis;
}

provider-HasDefault : HasDefault provider
unfolding Dict.get
provider-HasDefault = refl

redis-fail_open :
    (o : ℕ) (b : Backend Counters)
    → (Redis.increment_and_check redis 60 "a" 2 60 b).1.fail_open ≡ b.fail_open
unfolding Redis.increment_and_check Redis.count_request Backend.window_start Redis.first
redis-fail_open o b = ground arith

increment_and_check-fail_open_example :
    ((Provider.increment_and_check
        (λ o. Redis.methods redis)
        60
        "a"
        2
        60
        none
        (some false)
        provider).1.objects
      0).fail_open
    ≡ true
increment_and_check-fail_open_example =
    increment_and_check-fail_open (λ o. Redis.methods redis) 60 provider "a" 2 60 none (some false)
      0 redis-fail_open

abbrev tables : Tables
tables = record {
  tier = λ id. id;
  rate_limit =
      λ tier path. if path == "/api/users" then some (record { limit = 1; period = 60 }) else none;
}

abbrev settings : Settings
settings = record {
  rate_limiter_enabled = true;
  rate_limiter_fail_open = false;
  default_rate = record { limit = 10; period = 3600 };
}

abbrev request : Request
request = record { path = "/api/users"; host = some "127.0.0.1" }

abbrev user : Option User
user = some (record { id = 7; tier_id = some 1 })

-- a counter that says that the limit is exceeded
abbrev exceeded : String → ℕ → ℕ → Option Bool → ℕ → Result (ℕ × Bool) × ℕ
exceeded key limit period fail_open calls = (ok (limit + 1, true), calls + 1)

check_rate_limit-verdict_example :
    let r =
      check_rate_limit tables settings exceeded request user
        (record { limiter = 0; headers = none }) in
    (r.0 ≡ verdict tables settings exceeded (ok (2, true)))
    × (r.1 ≡ record {
      limiter = 1;
      headers = some (
          ("X-RateLimit-Limit", str 1)
          ∷ (("X-RateLimit-Remaining", str (1 - 2)) ∷ (("X-RateLimit-Reset", str 60) ∷ [])));
    })
unfolding sanitize_path replace strip
check_rate_limit-verdict_example =
    check_rate_limit-verdict tables settings exceeded request user (str 7)
      (record { limit = 1; period = 60 }) (record { limiter = 0; headers = none }) refl
      (by_id (record { id = 7; tier_id = some 1 }))
      (original (record { id = 7; tier_id = some 1 }) 1 (record { limit = 1; period = 60 }) refl
        refl refl)
