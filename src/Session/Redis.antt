-- ===== src/Session/Redis.antt =====
-- app/core/auth/session/backends/redis.py over its client, a parameter: `pipeline().execute()` takes the commands
-- of the pipeline in order and gives their replies, every call takes the instant, in seconds, at which the
-- server answers it. A `RedisError` of the client comes back as an error, as the code raises it again.
pub mod Laws
pub mod Shown
use fastapi_hyperf.Common.{
  ℕ, ◌+◌, String, Bool, true, false, not, Option, none, some, List, [], ◌∷◌, ◌++◌, length, concat,
  str, Exec, Error, pure, raise, resume, ◌>>=◌, ◌>>◌, if◌then◌else◌, eqb, ltb, index_error,
}
use fastapi_hyperf.Session.Storage.{Codec, or_default}

pub data Command (Bytes : Type 0) : Type 0 where
  set : String → Bytes → ℕ → Command Bytes
  sadd srem : String → String → Command Bytes
  expire : String → ℕ → Command Bytes
  delete : String → Command Bytes

-- `ttl` gives 0 here for the negative replies, of a key that is missing or does not expire
pub record Client (Server Bytes : Type 0) : Type 0 where
  pub execute : ℕ → List (Command Bytes) → Exec Server (List ℕ)
  pub get : ℕ → String → Exec Server (Option Bytes)
  pub exists : ℕ → String → Exec Server ℕ
  pub ttl : ℕ → String → Exec Server ℕ
  pub smembers : ℕ → String → Exec Server (List String)
  pub scan_iter : ℕ → String → Exec Server (List String)

-- What does not change of a `RedisSessionStorage[T]`, with the encoding of T and, where a T or an encoded text has
-- one, its `user_id`.
pub record Redis (T Bytes : Type 0) : Type 0 where
  pub prefix : String
  pub expiration : ℕ
  pub codec : Codec T Bytes
  pub user_id : T → Option ℕ
  pub stored_user_id : Bytes → Option ℕ

-- result[0]
unfoldable pub first : {S : Type 0} → List ℕ → Exec S ℕ
first [] = raise index_error
first (n ∷ rest) = pure n

-- the number of replies above 0
unfoldable pub count_positive : List ℕ → ℕ
count_positive [] = 0
count_positive (n ∷ rest) = (if ltb 0 n then 1 else 0) + count_positive rest

module _ {Bytes : Type 0} where
  unfoldable pub delete_commands : List String → List (Command Bytes)
  delete_commands [] = []
  delete_commands (key ∷ keys) = delete key ∷ delete_commands keys

module _ {T Bytes Server : Type 0} (redis : Redis T Bytes) (client : Client Server Bytes) where
  abbrev pub get_key : String → String
  get_key session_id = concat redis.prefix session_id

  abbrev pub get_user_sessions_key : ℕ → String
  get_user_sessions_key user_id = concat (concat redis.prefix "user:") (str user_id)

  -- the commands that follow on the index of a user, where there is one
  unfoldable pub join_index : Option ℕ → String → ℕ → List (Command Bytes)
  join_index none session_id exp = []
  join_index (some user_id) session_id exp =
      sadd (get_user_sessions_key user_id) session_id
      ∷ (expire (get_user_sessions_key user_id) (exp + 3600) ∷ [])

  unfoldable pub renew_index : Option ℕ → ℕ → List (Command Bytes)
  renew_index none exp = []
  renew_index (some user_id) exp = expire (get_user_sessions_key user_id) (exp + 3600) ∷ []

  unfoldable pub leave_index : Option ℕ → String → List (Command Bytes)
  leave_index none session_id = []
  leave_index (some user_id) session_id = srem (get_user_sessions_key user_id) session_id ∷ []

  -- `session_id` is the one given, or what `generate_session_id` gave
  unfoldable pub create : ℕ → T → String → Option ℕ → Exec Server String
  create t data_ session_id expiration = do
    let exp = or_default expiration redis.expiration
    client.execute t (
        set (get_key session_id) (redis.codec.dump data_) exp
        ∷ join_index (redis.user_id data_) session_id exp)
    pure session_id

  unfoldable pub decode : Option Bytes → Option T
  decode none = none
  decode (some text) = redis.codec.load text

  unfoldable pub get : ℕ → String → Exec Server (Option T)
  get t session_id = do found ← client.get t (get_key session_id); pure (decode found)

  abbrev set_and_renew : ℕ → String → T → ℕ → Exec Server Bool
  set_and_renew t session_id data_ exp = do
    client.execute t (
        set (get_key session_id) (redis.codec.dump data_) exp
        ∷ renew_index (redis.user_id data_) exp)
    pure true

  unfoldable pub keep_ttl : ℕ → String → T → ℕ → ℕ → Exec Server Bool
  keep_ttl t session_id data_ exp ttl =
      if ltb 0 ttl
      then (do
        client.execute t (set (get_key session_id) (redis.codec.dump data_) ttl ∷ [])
        pure true)
      else set_and_renew t session_id data_ exp

  unfoldable pub overwrite : ℕ → String → T → Bool → ℕ → Exec Server Bool
  overwrite t session_id data_ true exp = set_and_renew t session_id data_ exp
  overwrite t session_id data_ false exp = do
    ttl ← client.ttl t (get_key session_id)
    keep_ttl t session_id data_ exp ttl

  unfoldable pub update : ℕ → String → T → Bool → Option ℕ → Exec Server Bool
  update t session_id data_ reset_expiration expiration = do
    there ← client.exists t (get_key session_id)
    (if eqb there 0
        then pure false
        else overwrite t session_id data_ reset_expiration (or_default expiration redis.expiration))

  unfoldable pub delete_found : ℕ → String → Option Bytes → Exec Server Bool
  delete_found t session_id none = pure false
  delete_found t session_id (some text) = do
    result ←
        client.execute t
          (delete (get_key session_id) ∷ leave_index (redis.stored_user_id text) session_id)
    n ← first result
    pure (ltb 0 n)

  unfoldable pub delete_session : ℕ → String → Exec Server Bool
  delete_session t session_id = do
    found ← client.get t (get_key session_id)
    delete_found t session_id found

  unfoldable pub extend_found : ℕ → String → ℕ → Option Bytes → Exec Server Bool
  extend_found t session_id exp none = pure false
  extend_found t session_id exp (some text) = do
    results ←
        client.execute t
          (expire (get_key session_id) exp ∷ renew_index (redis.stored_user_id text) exp)
    n ← first results
    pure (not (eqb n 0))

  unfoldable pub extend : ℕ → String → Option ℕ → Exec Server Bool
  extend t session_id expiration = do
    found ← client.get t (get_key session_id)
    extend_found t session_id (or_default expiration redis.expiration) found

  unfoldable pub exists : ℕ → String → Exec Server Bool
  exists t session_id = do
    exists_result ← client.exists t (get_key session_id)
    pure (not (eqb exists_result 0))

  unfoldable pub get_user_sessions : ℕ → ℕ → Exec Server (List String)
  get_user_sessions t user_id = client.smembers t (get_user_sessions_key user_id)

  unfoldable pub delete_matched : ℕ → List String → Exec Server ℕ
  delete_matched t [] = pure 0
  delete_matched t (key ∷ keys) = do
    results ← client.execute t (delete_commands (key ∷ keys))
    pure (count_positive results)

  unfoldable pub delete_pattern : ℕ → String → Exec Server ℕ
  delete_pattern t pattern_ = do
    matched_keys ← client.scan_iter t pattern_
    delete_matched t matched_keys
