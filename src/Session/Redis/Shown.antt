-- ===== src/Session/Redis/Shown.antt =====
-- What the storage in Redis shows of the sessions, over a server that keeps keys as Redis documents it.
use fastapi_hyperf.Common.{
  ℕ, ◌+◌, ◌≤◌, String, Bool, true, false, not, ◌&&◌, Option, none, some, List, [], ◌∷◌, Result, ok,
  err, client_error, ◌≡◌, refl, ◌∙◌, arith, ◌==◌, eq_iff, if◌then◌else◌, ltb, Option-cases,
  Bool-cases, inl, inr,
}
use fastapi_hyperf.Common.Dict.{is_some}
use fastapi_hyperf.Session.Storage.{or_default}
use fastapi_hyperf.Session.Redis as Session
use fastapi_hyperf.Session.Redis.{
  Command, Client, Redis, set, sadd, srem, expire, delete, first, get_key, get_user_sessions_key,
  join_index, renew_index, leave_index,
}
use fastapi_hyperf.Session.Redis.Laws.{Keeps, NoIndex, HasIndexes, text, members, is_text, text_of}

-- an answer of the server, or its refusal of a time of 0
abbrev granted : {A : Type 0} → ℕ → A → Result A
granted time a = if ltb 0 time then ok a else err client_error

module _ {T Bytes Server : Type 0} (redis : Redis T Bytes) (client : Client Server Bytes)
    (law : Keeps client) where
  unfoldable pub decoded : Result (Option Bytes) → Result (Option T)
  decoded (ok found) = ok (Session.decode redis client found)
  decoded (err e) = err e

  -- what `get` answers
  abbrev pub view : ℕ → String → Server → Result (Option T)
  view u session_id s = decoded (text_of (law.shown u (get_key redis client session_id) s))

  get-view_in_redis :
      (u : ℕ) (session_id : String) (s : Server)
      → Session.get redis client u session_id s ≡ (view u session_id s, s)
  unfolding Session.get decoded
  get-view_in_redis u session_id s =
      ground (arith, law.get_shown u (get_key redis client session_id) s)

  module _ (session_id other : String)
      (own : NoIndex redis client law (get_key redis client session_id))
      (free : NoIndex redis client law (get_key redis client other)) where
    abbrev key : String
    key = get_key redis client session_id

    abbrev other_key : String
    other_key = get_key redis client other

    created :
        (t u : ℕ) (d : T) (user : Option ℕ) (exp : ℕ) (s : Server)
        → t ≤ u
        → HasIndexes redis client law t s
        → (replies : List ℕ) × (later : Server) × (client.execute t
              (set key (redis.codec.dump d) exp ∷ join_index redis client user session_id exp)
              s
            ≡ (granted exp replies, later))
          × (law.shown u other_key later ≡ (
              if ltb 0 exp && (key == other_key)
              then (if ltb u (t + exp) then some (text (redis.codec.dump d)) else none)
              else law.shown u other_key s))
    unfolding join_index
    created t u d none exp s le index_ =
        let c = set key (redis.codec.dump d) exp in
        (
          1 ∷ [],
          (law.run t c s).1,
          ground (
            arith,
            law.execute_all t (c ∷ []) s,
            law.set_replies t key (redis.codec.dump d) exp s,
          ),
          law.set_shows t u key other_key (redis.codec.dump d) exp s le,
        )
    created t u d (some user) exp s le indexes =
        let index = get_user_sessions_key redis client user in
        let dump = redis.codec.dump d in
        let c = set key dump exp in
        let s1 = (law.run t c s).1 in
        let s2 = (law.run t (sadd index session_id) s1).1 in
        let no_text : is_text (law.shown t index s1) ≡ false =
          rw (law.set_shows t t key index dump exp s (omega arith))
            (ground (arith, indexes user, own user, eq_iff key index, eq_iff index key)) in
        let (n, added) = law.sadd_replies t index session_id s1 no_text in
        (
          1 ∷ (n ∷ ((if is_some (law.shown t index s2) then 1 else 0) ∷ [])),
          (law.run t (expire index (exp + 3600)) s2).1,
          law.execute_all t (c ∷ (sadd index session_id ∷ (expire index (exp + 3600) ∷ []))) s
              ∙ rw
                  (
                    law.set_replies t key dump exp s,
                    added,
                    law.expire_replies t index (exp + 3600) s2,
                  )
                  (ground arith),
          ground (
            arith,
            law.set_shows t u key other_key dump exp s le,
            law.sadd_leaves t u index session_id other_key s1 (free user),
            law.expire_shows t u index other_key (exp + 3600) s2 le,
            free user,
          ),
        )

    renewed :
        (t u : ℕ) (d : T) (user : Option ℕ) (exp : ℕ) (s : Server)
        → t ≤ u
        → (replies : List ℕ) × (later : Server) × (client.execute t
              (set key (redis.codec.dump d) exp ∷ renew_index redis client user exp)
              s
            ≡ (granted exp replies, later))
          × (law.shown u other_key later ≡ (
              if ltb 0 exp && (key == other_key)
              then (if ltb u (t + exp) then some (text (redis.codec.dump d)) else none)
              else law.shown u other_key s))
    unfolding renew_index
    renewed t u d none exp s le =
        let c = set key (redis.codec.dump d) exp in
        (
          1 ∷ [],
          (law.run t c s).1,
          ground (
            arith,
            law.execute_all t (c ∷ []) s,
            law.set_replies t key (redis.codec.dump d) exp s,
          ),
          law.set_shows t u key other_key (redis.codec.dump d) exp s le,
        )
    renewed t u d (some user) exp s le =
        let index = get_user_sessions_key redis client user in
        let dump = redis.codec.dump d in
        let c = set key dump exp in
        let s1 = (law.run t c s).1 in
        (
          1 ∷ ((if is_some (law.shown t index s1) then 1 else 0) ∷ []),
          (law.run t (expire index (exp + 3600)) s1).1,
          law.execute_all t (c ∷ (expire index (exp + 3600) ∷ [])) s
              ∙ rw (law.set_replies t key dump exp s, law.expire_replies t index (exp + 3600) s1)
                  (ground arith),
          ground (
            arith,
            law.set_shows t u key other_key dump exp s le,
            law.expire_shows t u index other_key (exp + 3600) s1 le,
            free user,
          ),
        )

    removed :
        (t u : ℕ) (user : Option ℕ) (s : Server)
        → t ≤ u
        → HasIndexes redis client law t s
        → (rest : List ℕ) × (later : Server) × (client.execute t
              (delete key ∷ leave_index redis client user session_id)
              s
            ≡ (ok ((if is_some (law.shown t key s) then 1 else 0) ∷ rest), later))
          × (law.shown u other_key later
              ≡ (if key == other_key then none else law.shown u other_key s))
    unfolding leave_index
    removed t u none s le indexes = (
      [],
      (law.run t (delete key) s).1,
      law.execute_all t (delete key ∷ []) s ∙ rw (law.delete_replies t key s) refl,
      law.delete_shows t u key other_key s le,
    )
    removed t u (some user) s le indexes =
        let index = get_user_sessions_key redis client user in
        let s1 = (law.run t (delete key) s).1 in
        let no_text : is_text (law.shown t index s1) ≡ false =
          rw (law.delete_shows t t key index s (omega arith))
            (ground (arith, indexes user, own user, eq_iff key index, eq_iff index key)) in
        let (n, taken) = law.srem_replies t index session_id s1 no_text in
        (
          n ∷ [],
          (law.run t (srem index session_id) s1).1,
          law.execute_all t (delete key ∷ (srem index session_id ∷ [])) s
              ∙ rw (law.delete_replies t key s, taken) refl,
          ground (
            arith,
            law.srem_leaves t u index session_id other_key s1 (free user),
            law.delete_shows t u key other_key s le,
          ),
        )

    -- Over a server as Redis documents it, in which no index of a user holds a text, and for keys that are the
    -- index of no user: `create` gives the identifier back, and from then on `get` gives, under the same key, what
    -- the encoding of the data decodes to, as long as its time has not passed, and nothing later; under every
    -- other key it answers as before. For a time of 0 `create` raises, and `get` answers as before under each key.
    pub create-view_in_redis :
        (t u : ℕ) (d : T) (expiration : Option ℕ) (s : Server)
        → t ≤ u
        → HasIndexes redis client law t s
        → let r = Session.create redis client t d session_id expiration s in
          let exp = or_default expiration redis.expiration in
          (r.0 ≡ (if ltb 0 exp then ok session_id else err client_error))
          × ((Session.get redis client u other r.1).0 ≡ (
              if ltb 0 exp && (key == other_key)
              then ok (if ltb u (t + exp) then redis.codec.load (redis.codec.dump d) else none)
              else view u other s))
    unfolding Session.create Session.decode decoded
    create-view_in_redis t u d expiration s le indexes =
        let exp = or_default expiration redis.expiration in
        let (replies, later, run, shows) = created t u d (redis.user_id d) exp s le indexes in
        let whole : Session.create redis client t d session_id expiration s
            ≡ (granted exp session_id, later) =
          ground (arith, run) in
        rw whole (refl, ground (arith, get-view_in_redis u other later, shows))

    -- Over a server as Redis documents it, in which no index of a user holds a text, and for keys that are the
    -- index of no user: `delete` answers whether the server showed a text under the key, and raises where it
    -- shows a set. Where it showed a text, `get` gives nothing under the key from then on, and under every other
    -- key it answers as before; otherwise it answers as before under each key.
    pub delete_session-view_in_redis :
        (t u : ℕ) (s : Server)
        → t ≤ u
        → HasIndexes redis client law t s
        → let r = Session.delete_session redis client t session_id s in
          (r.0 ≡ elim (law.shown t key s) [
            | none ↦ ok false
            | some (text v) ↦ ok true
            | some members ↦ err client_error
          ])
          × ((Session.get redis client u other r.1).0 ≡ (
              if is_text (law.shown t key s) && (key == other_key)
              then ok none
              else view u other s))
    unfolding Session.delete_session Session.delete_found Session.decode first decoded
    delete_session-view_in_redis t u s le indexes = elim (Option-cases (law.shown t key s)) [
      | inl missing ↦
          let whole : Session.delete_session redis client t session_id s ≡ (ok false, s) =
            ground (arith, law.get_shown t key s, missing) in
          rw (whole, missing) (refl, ground (arith, get-view_in_redis u other s))
      | inr (members, there) ↦
          let whole : Session.delete_session redis client t session_id s ≡ (err client_error, s) =
            ground (arith, law.get_shown t key s, there) in
          rw (whole, there) (refl, ground (arith, get-view_in_redis u other s))
      | inr (text v, there) ↦
          let (rest, later, run, shows) = removed t u (redis.stored_user_id v) s le indexes in
          let whole : Session.delete_session redis client t session_id s ≡ (ok true, later) =
            ground (arith, law.get_shown t key s, there, run) in
          rw (whole, there) (refl, ground (arith, get-view_in_redis u other later, shows))
    ]

    overwritten :
        (t u : ℕ) (d : T) (reset : Bool) (exp : ℕ) (s : Server)
        → t ≤ u
        → let time = if not reset && ltb 0 (law.left t key s) then law.left t key s else exp in
          (later : Server) × (Session.overwrite redis client t session_id d reset exp s
            ≡ (granted time true, later))
          × (law.shown u other_key later ≡ (
              if ltb 0 time && (key == other_key)
              then (if ltb u (t + time) then some (text (redis.codec.dump d)) else none)
              else law.shown u other_key s))
    unfolding Session.overwrite Session.keep_ttl
    overwritten t u d reset exp s le =
        let dump = redis.codec.dump d in
        let kept = law.left t key s in
        let ttl = law.ttl_left t key s in
        elim (Bool-cases (not reset && ltb 0 kept)) [
          | inl keeps ↦ (
            (law.run t (set key dump kept) s).1,
            ground (
              arith,
              keeps,
              ttl,
              law.execute_all t (set key dump kept ∷ []) s,
              law.set_replies t key dump kept s,
            ),
            rw keeps (law.set_shows t u key other_key dump kept s le),
          )
          | inr resets ↦
              let (replies, later, run, shows) = renewed t u d (redis.user_id d) exp s le in
              (later, ground (arith, resets, ttl, run), rw resets shows)
        ]

    -- Over a server as Redis documents it, and for keys that are the index of no user: `update` answers `False` and
    -- changes nothing where the server shows nothing under the key. Otherwise it answers `True`, and from then on
    -- `get` gives under the key what the encoding of the new data decodes to, for the time that was left where
    -- the expiration is not to be reset and some was left, and for the given or default time otherwise; under
    -- every other key it answers as before. Where that time is 0 it raises, and `get` answers as before.
    pub update-view_in_redis :
        (t u : ℕ) (d : T) (reset : Bool) (expiration : Option ℕ) (s : Server)
        → t ≤ u
        → let r = Session.update redis client t session_id d reset expiration s in
          let time =
            if not reset && ltb 0 (law.left t key s)
            then law.left t key s
            else or_default expiration redis.expiration in
          let there = is_some (law.shown t key s) in
          (r.0 ≡ (if not there then ok false else if ltb 0 time then ok true else err client_error))
          × ((Session.get redis client u other r.1).0 ≡ (
              if there && (ltb 0 time && (key == other_key))
              then ok (if ltb u (t + time) then redis.codec.load (redis.codec.dump d) else none)
              else view u other s))
    unfolding Session.update Session.decode decoded
    update-view_in_redis t u d reset expiration s le = elim (Option-cases (law.shown t key s)) [
      | inl missing ↦
          let whole : Session.update redis client t session_id d reset expiration s
              ≡ (ok false, s) =
            ground (arith, law.exists_shown t key s, missing) in
          rw (whole, missing) (refl, ground (arith, get-view_in_redis u other s))
      | inr (v, there) ↦
          let (later, run, shows) =
            overwritten t u d reset (or_default expiration redis.expiration) s le in
          let whole : Session.update redis client t session_id d reset expiration s
              ≡ Session.overwrite redis client t session_id d reset
                  (or_default expiration redis.expiration) s =
            ground (arith, law.exists_shown t key s, there) in
          rw (whole, run, there) (refl, ground (arith, get-view_in_redis u other later, shows))
    ]
