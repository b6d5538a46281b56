-- ===== src/Session/RedisTests.antt =====
-- Test data and witnesses for the storage of sessions in Redis: a server that keeps texts and sets, each with the
-- instant until which it lasts, if there is one. The members of a set are left out.
use fastapi_hyperf.Common.{
  ℕ, ◌+◌, ◌-◌, ◌≤◌, String, true, false, not, ◌&&◌, Option, none, some, [], ◌∷◌, ok, err, Result,
  ◌≡◌, refl, arith, if◌then◌else◌, ◌==◌, eq_iff, ltb, concat, str, Option-cases, inl, inr,
  client_error,
}
use fastapi_hyperf.Common.Dict
use fastapi_hyperf.Common.Dict.{Dict, get-put, get-remove, is_some}
use package.text.Mathlib.TextLemmas.{append_assoc}
use fastapi_hyperf.Common.Slices.{size, until, until-concat}
use fastapi_hyperf.Session.Schemas.{SessionData}
use fastapi_hyperf.Session.Storage.{or_default}
use fastapi_hyperf.Session.Redis as Session
use fastapi_hyperf.Session.Redis.{Command, Client, Redis, set, sadd, srem, expire, delete}
use fastapi_hyperf.Session.Redis.Laws.{
  Keeps, NoIndex, HasIndexes, Value, text, members, is_text, text_of, run_all,
}
use fastapi_hyperf.Session.Redis.Shown.{
  view, create-view_in_redis, delete_session-view_in_redis, update-view_in_redis,
}
use fastapi_hyperf.Session.Tests.{Stored, session_codec, session_of, sample}

abbrev Server : Type 0
Server = Dict (Value Stored × Option ℕ)

abbrev lasting : ℕ → Option (Value Stored × Option ℕ) → Option (Value Stored)
lasting t none = none
lasting t (some (v, none)) = some v
lasting t (some (v, some until)) = if ltb t until then some v else none

abbrev shown_at : ℕ → String → Server → Option (Value Stored)
shown_at t key s = lasting t (Dict.get key s)

abbrev remaining : ℕ → Option (Value Stored × Option ℕ) → ℕ
remaining t none = 0
remaining t (some (v, none)) = 0
remaining t (some (v, some until)) = until - t

abbrev expired : ℕ → String → ℕ → Option (Value Stored) → Server → Result ℕ × Server
expired t key ex none s = (ok 0, s)
expired t key ex (some v) s = (ok 1, Dict.put key (v, some (t + ex)) s)

abbrev added : String → Option (Value Stored) → Server → Result ℕ × Server
added key none s = (ok 1, Dict.put key (members, none) s)
added key (some (text v)) s = (err client_error, s)
added key (some members) s = (ok 1, s)

abbrev taken : Option (Value Stored) → Server → Result ℕ × Server
taken none s = (ok 0, s)
taken (some (text v)) s = (err client_error, s)
taken (some members) s = (ok 1, s)

abbrev run : ℕ → Command Stored → Server → Result ℕ × Server
run t (set key v ex) s =
    if ltb 0 ex then (ok 1, Dict.put key (text v, some (t + ex)) s) else (err client_error, s)
run t (sadd key member) s = added key (shown_at t key s) s
run t (srem key member) s = taken (shown_at t key s) s
run t (expire key ex) s = expired t key ex (shown_at t key s) s
run t (delete key) s = (ok (if is_some (shown_at t key s) then 1 else 0), Dict.remove key s)

abbrev client : Client Server Stored
client = record {
  execute = λ t cs s. run_all (run t) cs s;
  get = λ t key s. (text_of (shown_at t key s), s);
  exists = λ t key s. (ok (if is_some (shown_at t key s) then 1 else 0), s);
  ttl = λ t key s. (ok (remaining t (Dict.get key s)), s);
  smembers = λ t key s. (ok [], s);
  scan_iter = λ t pattern_ s. (ok [], s);
}

gone_stays :
    (t u : ℕ) (found : Option (Value Stored × Option ℕ))
    → t ≤ u
    → lasting t found ≡ none
    → lasting u found ≡ none
gone_stays t u none le gone = refl
gone_stays t u (some (v, none)) le gone = gone
gone_stays t u (some (v, some until)) le gone = ground (arith, gone)

expired-shown :
    (t u : ℕ) (key other : String) (ex : ℕ) (s : Server)
    → t ≤ u
    → shown_at u other (run t (expire key ex) s).1 ≡ (
        if key == other
        then (if ltb u (t + ex) then shown_at t key s else none)
        else shown_at u other s)
expired-shown t u key other ex s le = elim (Option-cases (shown_at t key s)) [
  | inl gone ↦ ground (arith, gone, gone_stays t u (Dict.get key s) le gone, eq_iff key other)
  | inr (v, there) ↦ ground (arith, there, get-put key other (v, some (t + ex)) s)
]

added-shown :
    (t u : ℕ) (key other : String) (found : Option (Value Stored)) (s : Server)
    → (key == other) ≡ false
    → shown_at u other (added key found s).1 ≡ shown_at u other s
added-shown t u key other none s apart = ground (arith, apart, get-put key other (members, none) s)
added-shown t u key other (some (text v)) s apart = refl
added-shown t u key other (some members) s apart = refl

taken-same : (found : Option (Value Stored)) (s : Server) → (taken found s).1 ≡ s
taken-same none s = refl
taken-same (some (text v)) s = refl
taken-same (some members) s = refl

added-replies :
    (key : String) (found : Option (Value Stored)) (s : Server)
    → is_text found ≡ false
    → (n : ℕ) × ((added key found s).0 ≡ ok n)
added-replies key none s h = (1, refl)
added-replies key (some (text v)) s h = absurd (ground (arith, h))
added-replies key (some members) s h = (1, refl)

taken-replies :
    (found : Option (Value Stored)) (s : Server)
    → is_text found ≡ false
    → (n : ℕ) × ((taken found s).0 ≡ ok n)
taken-replies none s h = (0, refl)
taken-replies (some (text v)) s h = absurd (ground (arith, h))
taken-replies (some members) s h = (1, refl)

refused :
    (key : String) (found : Option (Value Stored)) (s : Server)
    → is_text found ≡ true
    → (added key found s ≡ (err client_error, s)) × (taken found s ≡ (err client_error, s))
refused key none s h = absurd (ground (arith, h))
refused key (some (text v)) s h = (refl, refl)
refused key (some members) s h = absurd (ground (arith, h))

expired-replies :
    (t ex : ℕ) (key : String) (found : Option (Value Stored)) (s : Server)
    → (expired t key ex found s).0 ≡ ok (if is_some found then 1 else 0)
expired-replies t ex key none s = refl
expired-replies t ex key (some v) s = refl

client-Keeps : Keeps client
client-Keeps = record {
  run = run;
  shown = shown_at;
  left = λ t key s. remaining t (Dict.get key s);
  execute_all = λ t cs s. refl;
  get_shown = λ t key s. refl;
  exists_shown = λ t key s. refl;
  ttl_left = λ t key s. refl;
  gone_stays = λ t u key s le gone. gone_stays t u (Dict.get key s) le gone;
  set_replies = λ t key v ex s. ground arith;
  set_shows =
      λ t u key other v ex s le. ground (arith, get-put key other (text v, some (t + ex)) s);
  expire_replies = λ t key ex s. expired-replies t ex key (shown_at t key s) s;
  expire_shows = expired-shown;
  delete_replies = λ t key s. refl;
  delete_shows = λ t u key other s le. ground (arith, get-remove key other s);
  sadd_replies = λ t key member s h. added-replies key (shown_at t key s) s h;
  sadd_refused = λ t key member s h. (refused key (shown_at t key s) s h).0;
  sadd_leaves =
      λ t u key member other s apart. added-shown t u key other (shown_at t key s) s apart;
  srem_replies = λ t key member s h. taken-replies (shown_at t key s) s h;
  srem_refused = λ t key member s h. (refused key (shown_at t key s) s h).1;
  srem_leaves = λ t u key member other s apart. rw (taken-same (shown_at t key s) s) refl;
}

abbrev redis : Redis SessionData Stored
redis = record {
  prefix = "session:";
  expiration = 1800;
  codec = session_codec;
  user_id = λ d. some d.user_id;
  stored_user_id = λ v. elim (session_of v) [ none ↦ none | some d ↦ some d.user_id ];
}

apart : NoIndex redis client client-Keeps "session:s1"
unfolding size
apart user =
    let whole = concat "session:user:" (str user) in
    let by_index : until 9 whole ≡ "session:u" =
      rw (append_assoc "session:u" "ser:" (str user))
        (until-concat "session:u" (concat "ser:" (str user))) in
    let by_key : until 9 "session:s1" ≡ "session:s" = until-concat "session:s" "1" in
    let differ : ("session:u" == "session:s") ≡ false = refl in
    ground
      (arith, by_index, by_key, differ, eq_iff whole "session:s1", eq_iff "session:u" "session:s")

abbrev none_yet : Server
none_yet = []

create-view_in_redis_example :
    let r = Session.create redis client 5 sample "s1" none none_yet in
    let exp = or_default none 1800 in
    (r.0 ≡ (if ltb 0 exp then ok "s1" else err client_error))
    × ((Session.get redis client 6 "s1" r.1).0 ≡ (
        if ltb 0 exp && ("session:s1" == "session:s1")
        then ok (if ltb 6 (5 + exp) then some sample else none)
        else view redis client client-Keeps 6 "s1" none_yet))
unfolding client-Keeps Dict.get
create-view_in_redis_example =
    create-view_in_redis redis client client-Keeps "s1" "s1" apart apart 5 6 sample none none_yet
      (omega arith) (λ user. refl)

abbrev one_session : Server
one_session =
    ("session:s1", (text (Stored.session sample), some 1805))
    ∷ (("session:user:7", (members, some 5405)) ∷ [])

one_session-HasIndexes : HasIndexes redis client client-Keeps 7 one_session
unfolding client-Keeps Dict.get
one_session-HasIndexes user =
    let index = concat "session:user:" (str user) in
    ground (arith, apart user, eq_iff "session:s1" index, eq_iff index "session:s1")

delete_session-view_in_redis_example :
    let r = Session.delete_session redis client 7 "s1" one_session in
    let found = client-Keeps.shown 7 "session:s1" one_session in
    (r.0
      ≡ elim found [ none ↦ ok false | some (text v) ↦ ok true | some members ↦ err client_error ])
    × ((Session.get redis client 8 "s1" r.1).0 ≡ (
        if is_text found && ("session:s1" == "session:s1")
        then ok none
        else view redis client client-Keeps 8 "s1" one_session))
delete_session-view_in_redis_example =
    delete_session-view_in_redis redis client client-Keeps "s1" "s1" apart apart 7 8 one_session
      (omega arith) one_session-HasIndexes

update-view_in_redis_example :
    let r = Session.update redis client 7 "s1" sample false none one_session in
    let left = client-Keeps.left 7 "session:s1" one_session in
    let time = if not false && ltb 0 left then left else or_default none 1800 in
    let there = is_some (client-Keeps.shown 7 "session:s1" one_session) in
    (r.0 ≡ (if not there then ok false else if ltb 0 time then ok true else err client_error))
    × ((Session.get redis client 8 "s1" r.1).0 ≡ (
        if there && (ltb 0 time && ("session:s1" == "session:s1"))
        then ok (if ltb 8 (7 + time) then some sample else none)
        else view redis client client-Keeps 8 "s1" one_session))
update-view_in_redis_example =
    update-view_in_redis redis client client-Keeps "s1" "s1" apart apart 7 8 sample false none
      one_session (omega arith)
