-- ===== src/OAuth/Tests.antt =====
-- Test data and witnesses for the accounts of OAuth, over a list of users.
use fastapi_hyperf.Common.{true, none, some, List, [], ok, err, ◌≢◌, arith, value_error}
use fastapi_hyperf.Database.Distinct.{used}
use fastapi_hyperf.Database.Memory.{memory}
use fastapi_hyperf.Services.User.{User, user_model, user_username}
use fastapi_hyperf.Common.Text.{replace, strip, is_space}
use fastapi_hyperf.Common.Slices.{size}
use fastapi_hyperf.OAuth.{
  OAuthUserInfo, Filtered, create_user_from_oauth, given, create_named, choose_username,
  free_username, base_of, or_empty, or_else, create_valid, is_valid, new_user, name_of,
}

abbrev users : List User
users = []

abbrev filtered : Filtered (List User)
filtered = record {
  get_by = λ column value us. ok none;
  exists_by = λ username us. ok (used user_username username us);
  update_object = λ id change us. (err value_error, us);
}

abbrev identity : OAuthUserInfo
identity = record {
  provider = "github";
  provider_user_id = "42";
  email = some "ann@y";
  email_verified = true;
  name = none;
  given_name = some "ann";
  family_name = none;
  username = none;
}

-- the first user gets the name itself
first_user :
    (create_user_from_oauth filtered
      (memory user_model)
      (λ s. s)
      (λ email. true)
      "hash"
      5
      4
      identity
      users)
    ≢ some (err value_error, users)
unfolding create_user_from_oauth given create_named choose_username free_username base_of replace
    or_empty or_else create_valid is_valid size new_user name_of strip is_space
first_user = λ h. ground (arith, h)
