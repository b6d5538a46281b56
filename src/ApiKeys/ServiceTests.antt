-- ===== src/ApiKeys/ServiceTests.antt =====
-- Test data and witnesses for the service of API keys, over tables held in lists, with a derivation that only
-- the empty key fails.
use fastapi_hyperf.Common.{
  ℕ, String, Bool, true, false, Option, none, some, List, [], ◌∷◌, Result, ok, err, ◌≡◌, ◌≢◌, ◌↔◌,
  refl, subst, ap, arith, any, All, eqb, str, int, int-str, lacks-str, value_error, if◌then◌else◌,
  ◌==◌, Bool-cases, inl, inr,
}
use fastapi_hyperf.Common.Slices.{size, until, from}
use fastapi_hyperf.Database.{Crud, Found}
use fastapi_hyperf.Database.Memory.{memory, memory-IsLawful}
use fastapi_hyperf.ApiKeys.Secret.{
  Crypto, IsCrypto, api_key_of, prefix_of, parse_prefix, hash_api_key, verify_api_key,
  verify_api_key-hash_api_key, hash_text,
}
use fastapi_hyperf.ApiKeys.Permission.{
  Resource, Action, check_permission, specific, any_resource, any_action, anything, resource_of,
  action_of,
}
use fastapi_hyperf.ApiKeys.Schemas.{
  ApiKey, ApiKeyCreate, ApiKeyCreateInternal, ApiKeyUpdate, KeyUsage, KeyUsageCreate, Analytics,
  accepted, api_key_model, has_key_id, has_prefix,
}
use fastapi_hyperf.ApiKeys.Service
use fastapi_hyperf.ApiKeys.Service.{first_match, has_expired}
use fastapi_hyperf.ApiKeys.Validation.{IsQuery, selected, Admits, validate_api_key-Admits}
use fastapi_hyperf.ApiKeys.Ownership.{get_api_key-owner, validate_api_key-delete_api_key}
use fastapi_hyperf.ApiKeys.Issue.{validate_api_key-create_api_key}

-- bytes are told apart by their number alone
abbrev crypto : Crypto ℕ
crypto = record {
  scrypt = λ key salt n r p dklen. if key == "" then err value_error else ok dklen;
  b64encode = str;
  b64decode = int;
  length = λ n. n;
  compare_digest = eqb;
}

crypto-IsCrypto : IsCrypto crypto
crypto-IsCrypto = record {
  decode-encode = int-str;
  encode-lacks = lacks-str;
  scrypt-length = λ key salt n r p dklen d h. ground (arith, h);
  compare_digest-iff = λ a b. (λ h. ground (arith, h), λ h. ground (arith, h));
}

verify_api_key-hash_api_key_example :
    ((verify_api_key crypto "" (hash_text crypto 7 32) ≡ ok true)
      ↔ (crypto.scrypt "" 7 16384 8 1 32 ≡ crypto.scrypt "fai_abcdefgh_ij" 7 16384 8 1 32))
    × (verify_api_key crypto "fai_abcdefgh_ij" (hash_text crypto 7 32) ≡ ok true)
unfolding hash_api_key
verify_api_key-hash_api_key_example =
    verify_api_key-hash_api_key crypto crypto-IsCrypto "fai_abcdefgh_ij" "" (hash_text crypto 7 32)
      7 refl

abbrev table : Crud (List ApiKey) ApiKey ApiKeyCreateInternal
table = memory api_key_model

abbrev candidates : String → List ApiKey → Result (List ApiKey)
candidates prefix ks = ok (selected prefix ks)

later :
    (p : ApiKey → Bool) (x : ApiKey) (ks found : List ApiKey)
    → All (λ k. Found p k ks) found
    → All (λ k. Found p k (x ∷ ks)) found
later p x ks [] all = tt
later p x ks (k ∷ found) ((hit, (before, after, e)), rest) =
    ((hit, (x ∷ before, after, ap (◌∷◌ x) e)), later p x ks found rest)

selected-Found :
    (prefix : String) (ks : List ApiKey)
    → All (λ k. Found (has_prefix prefix) k ks) (selected prefix ks)
selected-Found prefix [] = tt
selected-Found prefix (k ∷ ks) = elim (Bool-cases (k.key_prefix == prefix)) [
  | inl hit ↦ rw hit (
    (hit, ([], ks, refl)),
    later (has_prefix prefix) k ks (selected prefix ks) (selected-Found prefix ks),
  )
  | inr miss ↦
      rw miss (later (has_prefix prefix) k ks (selected prefix ks) (selected-Found prefix ks))
]

candidates-IsQuery : IsQuery table candidates
candidates-IsQuery = record {
  candidates-Found = λ prefix db found h.
      let same : selected prefix db ≡ found = ground (arith, h) in
      subst (λ f. All (λ k. Found (has_prefix prefix) k db) f) same (selected-Found prefix db);
  candidates-one = λ prefix db found k h one. ground (arith, h, one);
}

abbrev permit_all : List ApiKey → ℕ → Resource → Action → Option Bool
permit_all ks key Resource.wildcard Action.wildcard = some true
permit_all ks key r a = none

abbrev new_key : ApiKeyCreate
new_key = record { name = "ci"; permissions = []; usage_limits = []; expires_at = some 90 }

abbrev stored : ℕ → ApiKey
stored user = record {
  id = 1;
  user_id = user;
  name = "ci";
  key_hash = hash_text crypto 7 32;
  key_prefix = "abcdefgh";
  permissions = [];
  usage_limits = [];
  last_used_at = none;
  is_active = true;
  expires_at = some 90;
}

validate_api_key-create_api_key_example :
    let after = (Service.create_api_key table crypto "abcdefghij" 7 5 new_key []).1 in
    (k : ApiKey) × (Service.validate_api_key table crypto candidates permit_all 10 11
        "fai_abcdefgh_ij" "credits" "read" after
      ≡ Service.validate_matched table crypto candidates permit_all 10 11 "credits" "read"
          (some k)
          after)
    × (any (has_key_id k.id) [] ≡ false)
    × (k.user_id ≡ 5)
    × (k.is_active ≡ true)
    × (k.expires_at ≡ some 90)
unfolding Service.create_api_key hash_api_key api_key_of prefix_of until from size
validate_api_key-create_api_key_example =
    validate_api_key-create_api_key table (memory-IsLawful api_key_model) crypto crypto-IsCrypto
      candidates candidates-IsQuery permit_all "abcdefghij" 7 5 new_key [] (stored 5)
      "fai_abcdefgh_ij" 10 11 "credits" "read" (stored 5 ∷ []) refl refl refl refl

validate_api_key-Admits_example :
    Admits table crypto candidates permit_all 10 "fai_abcdefgh_ij" "credits" "read"
      (stored 5 ∷ [])
      1
      5
unfolding Service.validate_api_key Service.validate_prefix Service.validate_matched
    Service.validate_active_key first_match has_expired check_permission specific any_resource
    any_action anything resource_of action_of parse_prefix until from size
validate_api_key-Admits_example =
    validate_api_key-Admits table crypto candidates permit_all candidates-IsQuery 10 11
      "fai_abcdefgh_ij" "credits" "read" (stored 5 ∷ []) 1 5 [] []
      (ground (arith, verify_api_key-hash_api_key_example.1))

abbrev usage_table : Crud (List ApiKey) KeyUsage KeyUsageCreate
usage_table = record {
  rows = λ db. [];
  exists = λ p db. ok false;
  get = λ p db. ok none;
  get_multi = λ offset limit p db. ok [];
  create = λ new db. (err value_error, db);
  update = λ p f db. (err value_error, db);
  delete = λ p db. (err value_error, db);
  db_delete = λ p db. (err value_error, db);
}

abbrev unset : ApiKeyUpdate
unset = record {
  name = none;
  permissions = none;
  usage_limits = none;
  is_active = some false;
  expires_at = none;
}

abbrev no_analytics : Analytics
no_analytics = record {
  api_key_id = 1;
  metrics = record {
    total_requests = 0;
    successful_requests = 0;
    failed_requests = 0;
    total_tokens = 0;
    total_cost = 0;
  };
  average_response_time = none;
  most_used_endpoints = [];
  error_breakdown = [];
  usage_by_day = [];
}

get_api_key-owner_example :
    let db = stored 5 ∷ [] in
    ((Service.update_api_key table 1 6 unset db).0 ≢ ok (stored 6))
    × ((Service.update_api_key table 1 6 unset db).1 ≡ db)
    × ((Service.delete_api_key table 1 6 db).0 ≢ ok tt)
    × ((Service.delete_api_key table 1 6 db).1 ≡ db)
    × ((Service.get_key_usage table usage_table 1 6 100 0 db).0 ≢ ok [])
    × ((Service.get_usage_analytics table usage_table 9 1 6 30 db).0 ≢ ok no_analytics)
get_api_key-owner_example =
    get_api_key-owner table (memory-IsLawful api_key_model) usage_table 1 6 9 100 0 30 unset
      (stored 5 ∷ []) (stored 6) tt [] no_analytics refl

validate_api_key-delete_api_key_example :
    (Service.validate_api_key table crypto candidates permit_all 10 11 "fai_abcdefgh_ij" "credits"
      "read"
      (Service.delete_api_key table 1 5 (stored 5 ∷ [])).1).0
    ≢ ok (accepted 1 5 [] [])
unfolding Service.delete_api_key Service.get_api_key
validate_api_key-delete_api_key_example =
    validate_api_key-delete_api_key table (memory-IsLawful api_key_model) crypto candidates
      permit_all candidates-IsQuery 1 5 (stored 5 ∷ []) tt 10 11 "fai_abcdefgh_ij" "credits" "read"
      5 [] [] refl
