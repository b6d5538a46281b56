-- ===== src/Session/Redis/Laws.antt =====
-- A Redis server as it is documented, seen through the client of app/core/auth/session/backends/redis.py.
use fastapi_hyperf.Common.{
  ℕ, ◌+◌, ◌≤◌, String, Bool, true, false, ◌&&◌, Option, none, some, List, [], ◌∷◌, Result, ok, err,
  client_error, ◌≡◌, ◌==◌, if◌then◌else◌, ltb,
}
use fastapi_hyperf.Common.Dict.{is_some}
use fastapi_hyperf.Session.Redis.{
  Command, Client, Redis, set, sadd, srem, expire, delete, get_user_sessions_key,
}

-- What a key may hold: a text, or a set of texts, whose members are not looked at here.
pub data Value (Bytes : Type 0) : Type 0 where
  text : Bytes → Value Bytes
  members : Value Bytes

abbrev pub is_text : {Bytes : Type 0} → Option (Value Bytes) → Bool
is_text none = false
is_text (some (text v)) = true
is_text (some members) = false

-- the reply to GET: an error where the key holds a set
abbrev pub text_of : {Bytes : Type 0} → Option (Value Bytes) → Result (Option Bytes)
text_of none = ok none
text_of (some (text v)) = ok (some v)
text_of (some members) = err client_error

abbrev pub joined : Result ℕ → Result (List ℕ) → Result (List ℕ)
joined (err e) replies = err e
joined (ok n) (ok replies) = ok (n ∷ replies)
joined (ok n) (err e) = err e

-- A transaction runs every command, and its client raises the first error among the replies.
abbrev pub run_all :
    {Server Bytes : Type 0}
    → (Command Bytes → Server → Result ℕ × Server)
    → List (Command Bytes)
    → Server
    → Result (List ℕ) × Server
run_all run [] s = (ok [], s)
run_all run (c ∷ cs) s =
    (joined (run c s).0 (run_all run cs (run c s).1).0, (run_all run cs (run c s).1).1)

-- A server whose pipelines are transactions, and what it shows under each key and for how long: SET writes a text for a
-- time and is refused for no time, EXPIRE gives a key another time, DEL removes it, SADD and SREM are refused on a
-- key that holds a text, GET on one that holds a set; commands on another key leave a key as it is, reads leave the
-- server, and a key that has gone does not come back by itself.
pub record Keeps {Server Bytes : Type 0} (client : Client Server Bytes) : Type 0 where
  pub run : ℕ → Command Bytes → Server → Result ℕ × Server
  pub shown : ℕ → String → Server → Option (Value Bytes)
  pub left : ℕ → String → Server → ℕ
  pub execute_all :
      (t : ℕ) (cs : List (Command Bytes)) (s : Server)
      → client.execute t cs s ≡ run_all (run t) cs s
  pub get_shown :
      (t : ℕ) (key : String) (s : Server) → client.get t key s ≡ (text_of (shown t key s), s)
  pub exists_shown :
      (t : ℕ) (key : String) (s : Server)
      → client.exists t key s ≡ (ok (if is_some (shown t key s) then 1 else 0), s)
  pub ttl_left : (t : ℕ) (key : String) (s : Server) → client.ttl t key s ≡ (ok (left t key s), s)
  pub gone_stays :
      (t u : ℕ) (key : String) (s : Server) → t ≤ u → shown t key s ≡ none → shown u key s ≡ none
  pub set_replies :
      (t : ℕ) (key : String) (v : Bytes) (ex : ℕ) (s : Server)
      → (run t (set key v ex) s).0 ≡ (if ltb 0 ex then ok 1 else err client_error)
  pub set_shows :
      (t u : ℕ) (key other : String) (v : Bytes) (ex : ℕ) (s : Server)
      → t ≤ u
      → shown u other (run t (set key v ex) s).1 ≡ (
          if ltb 0 ex && (key == other)
          then (if ltb u (t + ex) then some (text v) else none)
          else shown u other s)
  pub expire_replies :
      (t : ℕ) (key : String) (ex : ℕ) (s : Server)
      → (run t (expire key ex) s).0 ≡ ok (if is_some (shown t key s) then 1 else 0)
  pub expire_shows :
      (t u : ℕ) (key other : String) (ex : ℕ) (s : Server)
      → t ≤ u
      → shown u other (run t (expire key ex) s).1 ≡ (
          if key == other
          then (if ltb u (t + ex) then shown t key s else none)
          else shown u other s)
  pub delete_replies :
      (t : ℕ) (key : String) (s : Server)
      → (run t (delete key) s).0 ≡ ok (if is_some (shown t key s) then 1 else 0)
  pub delete_shows :
      (t u : ℕ) (key other : String) (s : Server)
      → t ≤ u
      → shown u other (run t (delete key) s).1 ≡ (if key == other then none else shown u other s)
  pub sadd_replies :
      (t : ℕ) (key member : String) (s : Server)
      → is_text (shown t key s) ≡ false
      → (n : ℕ) × ((run t (sadd key member) s).0 ≡ ok n)
  pub sadd_refused :
      (t : ℕ) (key member : String) (s : Server)
      → is_text (shown t key s) ≡ true
      → run t (sadd key member) s ≡ (err client_error, s)
  pub sadd_leaves :
      (t u : ℕ) (key member other : String) (s : Server)
      → (key == other) ≡ false
      → shown u other (run t (sadd key member) s).1 ≡ shown u other s
  pub srem_replies :
      (t : ℕ) (key member : String) (s : Server)
      → is_text (shown t key s) ≡ false
      → (n : ℕ) × ((run t (srem key member) s).0 ≡ ok n)
  pub srem_refused :
      (t : ℕ) (key member : String) (s : Server)
      → is_text (shown t key s) ≡ true
      → run t (srem key member) s ≡ (err client_error, s)
  pub srem_leaves :
      (t u : ℕ) (key member other : String) (s : Server)
      → (key == other) ≡ false
      → shown u other (run t (srem key member) s).1 ≡ shown u other s

module _ {T Bytes Server : Type 0} (redis : Redis T Bytes) (client : Client Server Bytes)
    (law : Keeps client) where
  -- a key that is the index of no user
  abbrev pub NoIndex : String → Type 0
  NoIndex key = (user : ℕ) → (get_user_sessions_key redis client user == key) ≡ false

  -- no index holds a text
  abbrev pub HasIndexes : ℕ → Server → Type 0
  HasIndexes t s =
      (user : ℕ) → is_text (law.shown t (get_user_sessions_key redis client user) s) ≡ false
