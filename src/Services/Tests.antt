-- ===== src/Services/Tests.antt =====
-- Test data and witnesses for the services, over tables held in lists.
use fastapi_hyperf.Common.{
  ℕ, String, true, false, Option, none, some, List, [], ◌∷◌, ok, err, Result, ◌≡◌, ◌≢◌, refl,
  value_error, Result,
}
use fastapi_hyperf.Database.{Crud, count, updated}
use fastapi_hyperf.Database.Distinct.{Distinct}
use fastapi_hyperf.Database.Memory.{memory, memory-IsLawful}
use fastapi_hyperf.Services.Tier.{Tier, TierCreate, tier_model, tier_name}
use fastapi_hyperf.Services.Tier.Names
use fastapi_hyperf.Services.RateLimits.{rate_limit_model, rate_limit_name}
use fastapi_hyperf.Services.RateLimits.Names as LimitNames
use fastapi_hyperf.Services.User.{
  User, UserCreate, UserUpdate, user_model, user_email, user_username, anonymized, has_id,
}
use fastapi_hyperf.Services.User.Service
use fastapi_hyperf.Services.User.Calls
use fastapi_hyperf.Services.User.Calls.{emails-Distinct, usernames-Distinct}
use fastapi_hyperf.Services.User.Anonymize.{nobody, anonymize_user-rows, anonymize_user-final}

abbrev free_tier : Tier
free_tier = record { id = 1; name = "free"; description = none; is_deleted = false }

-- a table of tiers beside another table, with the free tier alone
abbrev tiers_beside : {Db : Type 0} → Crud Db Tier TierCreate
tiers_beside = record {
  rows = λ db. free_tier ∷ [];
  exists = λ p db. ok (p free_tier);
  get = λ p db. ok none;
  get_multi = λ offset limit p db. ok [];
  create = λ new db. (err value_error, db);
  update = λ p f db. (err value_error, db);
  delete = λ p db. (err value_error, db);
  db_delete = λ p db. (err value_error, db);
}

abbrev user_to_create : String → String → UserCreate
user_to_create username email = record {
  name = "Ann";
  username = username;
  email = email;
  password = "secret12";
  google_id = none;
  github_id = none;
  oauth_provider = none;
  email_verified = false;
  oauth_created_at = none;
  oauth_updated_at = none;
}

abbrev unset : UserUpdate
unset = record {
  name = none;
  username = none;
  email = none;
  profile_image_url = none;
  google_id = none;
  github_id = none;
  oauth_provider = none;
  email_verified = none;
  oauth_updated_at = none;
}

abbrev stored : ℕ → String → String → User
stored id username email = record {
  id = id;
  name = "Ann";
  username = username;
  email = email;
  hashed_password = "hash";
  profile_image_url = "https://profileimageurl.com";
  tier_id = some 1;
  is_superuser = true;
  google_id = none;
  github_id = none;
  oauth_provider = none;
  email_verified = true;
  oauth_created_at = none;
  oauth_updated_at = none;
  is_deleted = false;
}

abbrev two_users : List User
two_users = stored 1 "ann" "a@x" ∷ (stored 2 "bob" "b@x" ∷ [])

abbrev rename_bob : UserUpdate
rename_bob = record unset { username = some "ann"; email = some "c@x" }

abbrev calls : List Calls.Call
calls =
    Calls.create (user_to_create "cy" "a@x")
    ∷ (Calls.update 2 rename_bob ∷ (Calls.delete 1 ∷ (Calls.update_tier 2 1 ∷ [])))

emails-Distinct_example : Distinct user_email (
    Calls.after_calls
      (memory user_model)
      tiers_beside
      (λ p. p)
      (Calls.anonymize_user 5 1 ∷ calls)
      two_users)
emails-Distinct_example =
    emails-Distinct (memory user_model) tiers_beside (λ p. p) (memory-IsLawful user_model)
      (Calls.anonymize_user 5 1 ∷ calls) two_users (refl, (refl, tt))

usernames-Distinct_example :
    Distinct user_username
      (Calls.after_calls (memory user_model) tiers_beside (λ p. p) calls two_users)
usernames-Distinct_example =
    usernames-Distinct (memory user_model) tiers_beside (λ p. p) (memory-IsLawful user_model) calls
      two_users refl (refl, (refl, tt))

anonymize_user-rows_example :
    (count (has_id 1) two_users ≡ 1)
    × ((Service.anonymize_user (memory user_model) 5 1 two_users).1
        ≡ updated (has_id 1) (nobody 5 1) two_users)
unfolding Service.anonymize_user Service.with_errors anonymized
anonymize_user-rows_example =
    anonymize_user-rows (memory user_model) (memory-IsLawful user_model) 5 1 two_users tt refl

abbrev joined : ℕ → List User → Result (Option Service.UserWithRateLimits)
joined n us = ok none

anonymize_user-final_example :
    let after = (Service.anonymize_user (memory user_model) 5 1 two_users).1 in
    ((Service.update (memory user_model) 1 rename_bob after).0 ≢ ok (stored 1 "ann" "c@x"))
    × ((Service.update_tier (memory user_model) tiers_beside 1 1 after).0
        ≢ ok (stored 1 "ann" "c@x"))
    × ((Service.get_rate_limits (memory user_model) joined 1 after).0
        ≢ ok (record { user = stored 1 "ann" "c@x"; rate_limits = [] }))
unfolding Service.anonymize_user Service.with_errors anonymized
anonymize_user-final_example =
    anonymize_user-final (memory user_model) (memory-IsLawful user_model) tiers_beside joined 5 1 1
      rename_bob two_users tt (stored 1 "ann" "c@x")
      (record { user = stored 1 "ann" "c@x"; rate_limits = [] }) refl

abbrev two_tiers : List Tier
two_tiers =
    free_tier ∷ (record { id = 2; name = "pro"; description = none; is_deleted = false } ∷ [])

abbrev tier_calls : List Names.Call
tier_calls =
    Names.create (record { name = "free"; description = none })
    ∷ (Names.update "pro" (record { name = some "free"; description = none })
        ∷ (Names.update "pro" (record { name = some "max"; description = none })
            ∷ (Names.delete "free" ∷ [])))

after_calls-Distinct_example :
    Distinct tier_name (Names.after_calls (memory tier_model) tier_calls two_tiers)
after_calls-Distinct_example =
    Names.after_calls-Distinct (memory tier_model) (memory-IsLawful tier_model) tier_calls two_tiers
      (refl, (refl, tt))

abbrev limit_calls : List LimitNames.Call
limit_calls =
    LimitNames.create (record { path = "/a"; limit = 5; period = 60; name = none }) 1 "0a1b2c"
    ∷ (LimitNames.create (record { path = "/b"; limit = 5; period = 60; name = some "" }) 1 "0a1b2c"
        ∷ (LimitNames.update "rate_limit_0a1b2c"
              (record { path = none; limit = none; period = none; name = some "a" })
            ∷ []))

names-Distinct_example :
    Distinct rate_limit_name
      (LimitNames.after_calls (memory rate_limit_model) tiers_beside limit_calls [])
names-Distinct_example =
    LimitNames.names-Distinct (memory rate_limit_model) (memory-IsLawful rate_limit_model)
      tiers_beside limit_calls [] tt
