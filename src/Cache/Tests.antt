-- ===== src/Cache/Tests.antt =====
-- Witnesses for the cache, over the backend for Redis and a server that is a dictionary.
use fastapi_hyperf.Common.{String, List, true, if◌then◌else◌, some, [], ◌∷◌, ok, Exec, pure}
use fastapi_hyperf.Common.Dict
use fastapi_hyperf.Common.Dict.{Dict, is_some}
use fastapi_hyperf.Cache.{Backend}
use fastapi_hyperf.Cache.Redis
use fastapi_hyperf.Cache.Redis.{Client, Format, Value, of_json, of_text, redis_backend}

abbrev Server : Type 0
Server = Dict String

abbrev absent : Server → List String → Server
absent d [] = d
absent d (key ∷ keys) = Dict.remove key (absent d keys)

-- a server of Redis that keeps texts and never forgets one by itself
abbrev client : Client Server String
client = record {
  get = λ key d. (ok (Dict.get key d), d);
  set = λ key value ex d. (ok tt, Dict.put key value d);
  delete = λ keys d. (ok 1, absent d keys);
  scan = λ cursor pattern_ count d. (ok (0, []), d);
  exists = λ key d. (ok (if is_some (Dict.get key d) then 1 else 0), d);
  flushdb = λ d. (ok tt, []);
  ping = λ d. (ok true, d);
}

abbrev format : Format String String
format = record {
  encode = λ s. s;
  dumps = λ s. s;
  loads = λ s. some (of_json s);
  is_truthy = λ v. true;
}

abbrev backend : Backend Server (Value String String)
backend = redis_backend format client

abbrev filled : Dict String
filled = ("user:7", "old") ∷ (("users:all", "old list") ∷ [])

abbrev change : Exec Server (Value String String)
change = pure (of_text "changed")

abbrev fresh : Exec Server (Value String String)
fresh = pure (of_json "new")
