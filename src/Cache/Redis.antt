-- ===== src/Cache/Redis.antt =====
-- app/core/cache/backends/redis.py over its client, a parameter, as are JSON and the encoding of texts. The settings
-- of the connection only reach the constructor of the client.
use fastapi_hyperf.Common.{
  ℕ, String, Bool, false, Option, none, some, List, [], ◌∷◌, Result, ok, err, Exec, pure, ◌>>=◌,
  ◌>>◌, ◌≡◌, refl, arith, All, concat, if◌then◌else◌, ltb, done, resume,
}
use fastapi_hyperf.Cache.{Backend}
use fastapi_hyperf.Cache.Invalidation.{Forgets}

-- `delete` takes several keys and gives the number of those that were there, `scan` gives the keys of one batch from a
-- cursor, with the next cursor
pub record Client (Server Bytes : Type 0) : Type 0 where
  pub get : String → Exec Server (Option Bytes)
  pub set : String → Bytes → ℕ → Exec Server (Unit {0})
  pub delete : List String → Exec Server ℕ
  pub scan : ℕ → String → ℕ → Exec Server (ℕ × List String)
  pub exists : String → Exec Server ℕ
  pub flushdb : Exec Server (Unit {0})
  pub ping : Exec Server Bool

-- What is stored: bytes, a text, a number or a truth value as `str` writes it, or anything else, for JSON.
pub data Value (Bytes Json : Type 0) : Type 0 where
  of_bytes : Bytes → Value Bytes Json
  of_text : String → Value Bytes Json
  of_number : String → Value Bytes Json
  of_json : Json → Value Bytes Json

-- `loads` takes the bytes of a text in UTF-8, and gives none where it raises; `is_truthy` says what Python's `if` makes
-- of a value.
pub record Format (Bytes Json : Type 0) : Type 0 where
  pub encode : String → Bytes
  pub dumps : Json → String
  pub loads : Bytes → Option (Value Bytes Json)
  pub is_truthy : Value Bytes Json → Bool

module _ {Server Bytes Json : Type 0} (format : Format Bytes Json)
    (client : Client Server Bytes) where
  unfoldable pub loaded : Bytes → Value Bytes Json
  loaded result = elim (format.loads result) [ none ↦ of_bytes result | some value ↦ value ]

  unfoldable pub found : Option Bytes → Option (Value Bytes Json)
  found none = none
  found (some result) = some (loaded result)

  unfoldable pub get : String → Exec Server (Option (Value Bytes Json))
  get key = do result ← client.get key; pure (found result)

  unfoldable pub value_bytes : Value Bytes Json → Bytes
  value_bytes (of_bytes value) = value
  value_bytes (of_text value) = format.encode value
  value_bytes (of_number value) = format.encode value
  value_bytes (of_json value) = format.encode (format.dumps value)

  unfoldable pub set : String → Value Bytes Json → ℕ → Exec Server (Unit {0})
  set key value expiration = client.set key (value_bytes value) expiration

  unfoldable pub delete : String → Exec Server (Unit {0})
  delete key = do client.delete (key ∷ []); done

  unfoldable pub delete_scanned : List String → Exec Server (Unit {0})
  delete_scanned [] = done
  delete_scanned (key ∷ keys) = do client.delete (key ∷ keys); done

  unfoldable pub delete_pattern : String → Exec Server (Unit {0})
  delete_pattern pattern_ = do
    (cursor_response, keys) ← client.scan 0 (concat pattern_ "*") 100
    delete_scanned keys

  unfoldable pub exists : String → Exec Server Bool
  exists key = do result ← client.exists key; pure (ltb 0 result)

  unfoldable clear : Exec Server (Unit {0})
  clear = client.flushdb

  -- `except Exception: return False`
  unfoldable pub or_false : Result Bool × Server → Result Bool × Server
  or_false (ok up, s) = (ok up, s)
  or_false (err e, s) = (ok false, s)

  unfoldable pub ping : Exec Server Bool
  ping s = or_false (client.ping s)

  -- what the decorator takes for a value: what counts as true
  unfoldable pub truthy_one : Option (Value Bytes Json) → Option (Value Bytes Json)
  truthy_one none = none
  truthy_one (some value) = if format.is_truthy value then some value else none

  abbrev pub redis_backend : Backend Server (Value Bytes Json)
  redis_backend = record {
    get = λ key. (do cached_data ← get key; pure (truthy_one cached_data));
    set = set;
    delete = delete;
    delete_pattern = delete_pattern;
  }

-- A client of a server in which DEL removes its keys when it returns and brings none back, and reads leave what is
-- there; GET gives nothing for a key that is not there.
pub record Deletes {Server Bytes : Type 0} (client : Client Server Bytes) : Type 1 where
  pub Missing : String → Server → Type 0
  pub delete-Missing :
      (keys : List String) (s : Server) (n : ℕ)
      → (client.delete keys s).0 ≡ ok n
      → All (λ key. Missing key (client.delete keys s).1) keys
  pub delete_keeps :
      (keys : List String) (other : String) (s : Server)
      → Missing other s
      → Missing other (client.delete keys s).1
  pub scan_keeps :
      (cursor : ℕ) (match : String) (count : ℕ) (other : String) (s : Server)
      → Missing other s
      → Missing other (client.scan cursor match count s).1
  pub get-Missing : (key : String) (s : Server) → Missing key s → client.get key s ≡ (ok none, s)

module _ {Server Bytes Json : Type 0} (format : Format Bytes Json) (client : Client Server Bytes)
    (law : Deletes client) where
  ignored : {A : Type 0} (r : Result A × Server) → (resume (λ _. done) r).1 ≡ r.1
  ignored (ok a, s) = refl
  ignored (err e, s) = refl

  delete_scanned_keeps :
      (keys : List String) (other : String) (s : Server)
      → law.Missing other s
      → law.Missing other (delete_scanned format client keys s).1
  unfolding delete_scanned
  delete_scanned_keeps [] other s m = m
  delete_scanned_keeps (key ∷ keys) other s m =
      rw (ignored (client.delete (key ∷ keys) s)) (law.delete_keeps (key ∷ keys) other s m)

  scanned_keeps :
      (r : Result (ℕ × List String) × Server) (other : String)
      → law.Missing other r.1
      → law.Missing other (resume (λ batch. delete_scanned format client batch.1) r).1
  scanned_keeps (ok (cursor, keys), s) other m = delete_scanned_keeps keys other s m
  scanned_keeps (err e, s) other m = m

  returned :
      {A : Type 0} (r : Result A × Server) (u : Unit {0})
      → (resume (λ _. done) r).0 ≡ ok u
      → (a : A) × (r.0 ≡ ok a)
  returned (ok a, s) u h = (a, refl)
  returned (err e, s) u h = absurd (ground (arith, h))

  -- The backend forgets what is deleted.
  pub redis_backend-Forgets : Forgets (redis_backend format client)
  unfolding get delete delete_pattern found truthy_one
  redis_backend-Forgets = record {
    Missing = law.Missing;
    delete-Missing = λ key s u h.
        let (n, e) = returned (client.delete (key ∷ []) s) u h in
        rw (ignored (client.delete (key ∷ []) s)) (law.delete-Missing (key ∷ []) s n e).0;
    delete_keeps = λ key other s m.
        rw (ignored (client.delete (key ∷ []) s)) (law.delete_keeps (key ∷ []) other s m);
    delete_pattern_keeps = λ pattern_ other s m.
        scanned_keeps (client.scan 0 (concat pattern_ "*") 100 s) other
          (law.scan_keeps 0 (concat pattern_ "*") 100 other s m);
    get-Missing = λ key s m. ground (arith, law.get-Missing key s m);
  }
