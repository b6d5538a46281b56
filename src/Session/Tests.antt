-- ===== src/Session/Tests.antt =====
-- Runs of the session code on a storage with one session and a storage with one token.
use fastapi_hyperf.Common.{
  ℕ, ◌+◌, ◌*◌, String, true, false, ◌&&◌, Option, none, some, [], ◌∷◌, ◌≡◌, refl, arith, leb, ok,
  truthy, ◌==◌, if◌then◌else◌,
}
use fastapi_hyperf.Common.Dict
use fastapi_hyperf.Common.Dict.{is_some, keys}
use fastapi_hyperf.Session.Schemas.{SessionData, CsrfToken}
use fastapi_hyperf.Session.Storage.{
  Codec, Storage, empty, get_key, write, decode, seconds, or_default, create, get, delete_pattern,
}
use fastapi_hyperf.Session.Storage.Pattern.{matches, is_plain}
use fastapi_hyperf.Session.Storage.Consistent.{IsConsistent, IsSafe, write-IsConsistent}
use fastapi_hyperf.Session.Storage.Calls.{
  create_call, get_call, delete_pattern_call, perform_all, perform_all-IsSafe,
}
use fastapi_hyperf.Session.Storage.View.{view, get-create}
use fastapi_hyperf.Session.Storage.Wiped.{view-delete_pattern}
use fastapi_hyperf.Session.Manager.{
  Config, Manager, minutes, validate_found, validate_active, storage_get, refresh, validate_session,
  terminate_session, generate_csrf_token, validate_csrf_token,
}
use fastapi_hyperf.Session.Manager.Access.{RoundTrips, session_at}
use fastapi_hyperf.Session.Manager.Keeps.{IsMonotone}
use fastapi_hyperf.Session.Manager.Validation.{admitted, validate_session-admitted}
use fastapi_hyperf.Session.Manager.Csrf.{
  accepts, validate_csrf_token-accepts, validate_csrf_token-generate,
}
use fastapi_hyperf.Session.Lifecycle.{Request}
use fastapi_hyperf.Session.Lifecycle.History.{
  validate_action, cleanup_action, act_all, validate_session-terminate_session,
}

pub data Stored : Type 0 where
  session : SessionData → Stored
  csrf : CsrfToken → Stored

abbrev pub session_of : Stored → Option SessionData
session_of (session d) = some d
session_of (csrf d) = none

abbrev csrf_of : Stored → Option CsrfToken
csrf_of (session d) = none
csrf_of (csrf d) = some d

abbrev pub session_codec : Codec SessionData Stored
session_codec = record { dump = session; load = session_of }

abbrev pub config : Config Stored
config = record {
  codec = session_codec;
  csrf_codec = record { dump = csrf; load = csrf_of };
  isoformat = λ t. "1970-01-01";
  max_sessions = 5;
  timeout_minutes = 30;
  cleanup_minutes = 15;
}

-- one second from a reading to the next
abbrev pub clock : ℕ → ℕ
clock i = i * 1000000

abbrev pub sample : SessionData
sample = record {
  user_id = 7;
  session_id = "s1";
  ip_address = "127.0.0.1";
  user_agent = "curl";
  device_info = [];
  created_at = 0;
  last_activity = 0;
  is_active = true;
  metadata = [];
}

abbrev pub one_session : Storage Stored
one_session = write 0 "session:s1" (session sample) none (empty "session:" 1800)

abbrev pub manager : Manager Stored
manager = record {
  storage = one_session;
  csrf_storage = empty "csrf:" 1800;
  last_cleanup = 0;
  readings = 1;
}

empty-IsConsistent : (prefix : String) → IsConsistent (empty {Bytes = Stored} prefix 1800)
unfolding Dict.get
empty-IsConsistent prefix = record { same = λ k. refl }

one_session-IsConsistent : IsConsistent one_session
one_session-IsConsistent =
    write-IsConsistent 0 "session:s1" (session sample) none (empty "session:" 1800)
      (empty-IsConsistent "session:")

clock-IsMonotone : IsMonotone clock
clock-IsMonotone i j h = omega arith

config-RoundTrips : RoundTrips config.codec
config-RoundTrips d = refl

-- the session is accepted as long as it was not terminated
accepted : (validate_session config clock "s1" false manager).0 ≡ ok (some sample)
unfolding validate_session validate_found validate_active storage_get refresh get write Dict.get
    Dict.put
accepted = refl

validate_session-terminate_session_example :
    (validate_session config clock "s1" true (
      act_all config clock
        (validate_action "s1" true ∷ (cleanup_action ∷ []))
        (terminate_session config clock "s1" manager).1)).0
    ≡ ok none
validate_session-terminate_session_example =
    validate_session-terminate_session config clock clock-IsMonotone config-RoundTrips "s1"
      (validate_action "s1" true ∷ (cleanup_action ∷ [])) true manager one_session-IsConsistent tt

validate_session-admitted_example :
    (validate_session config clock "s1" true manager).0
    ≡ ok (
        admitted
          (minutes 30)
          true
          (clock 2)
          (if truthy "s1" then session_at config (clock 1) "s1" manager else none))
validate_session-admitted_example =
    validate_session-admitted config clock clock-IsMonotone config-RoundTrips "s1" true manager
      one_session-IsConsistent

abbrev with_token : Manager Stored
with_token = (generate_csrf_token config clock "token" 7 "s1" manager).1

validate_csrf_token-generate_example :
    (validate_csrf_token config clock "s1" "token" with_token).0
    ≡ ok (
        truthy "s1"
        && truthy "token"
        && (leb (clock with_token.readings) (clock 2 + seconds 1800)
            && ("s1" == "s1" && leb (clock (with_token.readings + 1)) (clock 1 + minutes 30))))
validate_csrf_token-generate_example =
    validate_csrf_token-generate config clock "token" "s1" "s1" 7 manager with_token (λ d. refl)
      (empty-IsConsistent "csrf:") refl

validate_csrf_token-accepts_example :
    (validate_csrf_token config clock "s1" "unknown" manager).0
    ≡ ok (
        truthy "s1"
        && truthy "unknown"
        && accepts "s1" (clock 2) (
            decode config.csrf_codec
              (view (clock 1) (get_key manager.csrf_storage "unknown") manager.csrf_storage)))
validate_csrf_token-accepts_example =
    validate_csrf_token-accepts config clock "s1" "unknown" manager (empty-IsConsistent "csrf:")

perform_all-IsSafe_example : IsSafe (
    perform_all session_codec
      (create_call 0 "s1" sample none none
        ∷ (get_call 9999999999 "s1" ∷ (delete_pattern_call clock "session:*" ∷ [])))
      (empty "session:" 1800))
unfolding or_default is_plain
perform_all-IsSafe_example =
    perform_all-IsSafe session_codec
      (create_call 0 "s1" sample none none
        ∷ (get_call 9999999999 "s1" ∷ (delete_pattern_call clock "session:*" ∷ [])))
      "session:" 1800 (omega arith, (tt, (refl, tt)))

get-create_example :
    (get session_codec 5 "s2" (create session_codec 3 "s2" sample none (some 60) one_session).1).0
    ≡ ok (if leb 5 (3 + seconds (or_default (some 60) 1800)) then some sample else none)
unfolding write
get-create_example =
    get-create session_codec 3 5 "s2" sample none (some 60) one_session refl
      one_session-IsConsistent

view-delete_pattern_example :
    view 5 "session:s1" (delete_pattern (λ i. 5) "session:*" one_session).1
    ≡ (if matches (some "session:*") "session:s1" then none else view 5 "session:s1" one_session)
unfolding is_plain
view-delete_pattern_example =
    view-delete_pattern (λ i. 5) "session:*" 5 "session:s1" one_session refl (λ i _. omega arith)
      one_session-IsConsistent

abbrev request : Request
request = record { headers = ("user-agent", "curl") ∷ []; client = some "127.0.0.1" }
