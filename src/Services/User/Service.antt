-- ===== src/Services/User/Service.antt =====
-- `UserService` of app/services/user.py. The hash of a password and the instant are arguments; the joins of
-- FastCRUD are parameters.
use fastapi_hyperf.Common.{
  ℕ, String, Bool, true, false, not, ◌&&◌, ◌==◌, Option, none, some, List, [], Result, Exec, Error,
  concat, str, pure, or_old, read, require, refuse, done, ◌>>=◌, ◌>>◌, eqb, if◌then◌else◌,
  user_exists_error, user_not_found_error, tier_not_found_error, permission_denied_error,
  validation_error, no_result_found, multiple_results_found, ok, err,
}
use fastapi_hyperf.Database.{Crud}
use fastapi_hyperf.Services.Tier.{Tier, TierCreate}
use fastapi_hyperf.Services.RateLimits.{RateLimit}
use fastapi_hyperf.Services.User.{
  User, UserCreate, UserCreateInternal, UserUpdate, to_internal, patch_user, anonymized, has_id,
  has_live_id, has_email, has_username,
}

pub record UserWithRateLimits : Type 0 where
  pub user : User
  pub rate_limits : List RateLimit

pub record UserWithTier : Type 0 where
  pub user : User
  pub tier : Option Tier

unfoldable pub no_user_with_id : ℕ → Error
no_user_with_id user_id =
    user_not_found_error (concat "User with ID " (concat (str user_id) " not found"))

unfoldable no_user_named : String → Error
no_user_named username =
    user_not_found_error (concat "User with username '" (concat username "' not found"))

-- `except NoResultFound` and `except MultipleResultsFound`
unfoldable pub translate : ℕ → Error → Error
translate user_id no_result_found = no_user_with_id user_id
translate user_id multiple_results_found = validation_error "Multiple users found with same ID"
translate user_id e = e

-- `except NoResultFound` alone
unfoldable pub translate_missing : ℕ → Error → Error
translate_missing user_id no_result_found = no_user_with_id user_id
translate_missing user_id e = e

unfoldable pub with_errors : {S A : Type 0} → (Error → Error) → Exec S A → Exec S A
with_errors f m s = let (r, t) = m s in elim r [ ok a ↦ (ok a, t) | err e ↦ (err (f e), t) ]

unfoldable check_update_permission : Option Bool → Option String → String → Bool
check_update_permission is_superuser username target_username =
    if or_old false is_superuser
    then true
    else (elim username [ none ↦ false | some own ↦ own == target_username ])

unfoldable verify_user_permission :
    {S : Type 0} → Option Bool → Option String → String → String → Exec S (Unit {0})
verify_user_permission is_superuser username target_username action =
    refuse (not (check_update_permission is_superuser username target_username)) (
      permission_denied_error
        (concat "You don't have permission to " (concat action " on this user")))

module _ {Db : Type 0} (crud_users : Crud Db User UserCreateInternal) where
  unfoldable pub create : (String → String) → UserCreate → Exec Db User
  create get_password_hash user = do
    email_exists ← read (crud_users.exists (has_email user.email))
    refuse email_exists (user_exists_error "Email already registered")
    username_exists ← read (crud_users.exists (has_username user.username))
    refuse username_exists (user_exists_error "Username already taken")
    created_user ← crud_users.create (to_internal user (get_password_hash user.password))
    require created_user (user_exists_error "Failed to create user")

  unfoldable get_paginated : ℕ → ℕ → Exec Db (List User)
  get_paginated skip limit = read (crud_users.get_multi skip limit (λ u. not u.is_deleted))

  unfoldable get_by_username : String → Exec Db User
  get_by_username username = do
    user ← read (crud_users.get (λ u. (u.username == username) && not u.is_deleted))
    require user (no_user_named username)

  unfoldable get_active_and_inactive_by_username : String → Exec Db User
  get_active_and_inactive_by_username username = do
    user ← read (crud_users.get (has_username username))
    require user (no_user_named username)

  unfoldable get_by_email : String → Exec Db User
  get_by_email email = do
    user ← read (crud_users.get (λ u. (u.email == email) && not u.is_deleted))
    require user (user_not_found_error (concat "User with email '" (concat email "' not found")))

  -- a value that is set and differs from the present one may not be taken
  unfoldable pub check_new :
      (String → User → Bool) → String → Option String → String → Exec Db (Unit {0})
  check_new has message none old = done
  check_new has message (some new) old = if new == old then done else (do
    exists ← read (crud_users.exists (has new))
    refuse exists (user_exists_error message))

  unfoldable pub update : ℕ → UserUpdate → Exec Db User
  update user_id user_update = do
    found ← read (crud_users.get (has_live_id user_id))
    existing_user ← require found (no_user_with_id user_id)
    check_new has_email "Email already registered" user_update.email existing_user.email
    check_new has_username "Username already taken" user_update.username existing_user.username
    updated_user ← crud_users.update (has_id user_id) (patch_user user_update)
    require updated_user (no_user_with_id user_id)

  unfoldable pub delete : ℕ → Exec Db (Unit {0})
  delete user_id = with_errors (translate user_id) (crud_users.delete (has_id user_id))

  unfoldable pub permanent_delete : ℕ → Exec Db (Unit {0})
  permanent_delete user_id = with_errors (translate user_id) (crud_users.db_delete (has_id user_id))

  unfoldable pub anonymize_user : ℕ → ℕ → Exec Db (Unit {0})
  anonymize_user timestamp user_id = with_errors (translate_missing user_id) (do
    existing_user ← read (crud_users.get (has_id user_id))
    require existing_user (no_user_with_id user_id)
    crud_users.update (has_id user_id) (anonymized user_id timestamp)
    crud_users.delete (has_id user_id))

  unfoldable pub update_tier : Crud Db Tier TierCreate → ℕ → ℕ → Exec Db User
  update_tier crud_tiers user_id tier_id = do
    existing_user ← read (crud_users.get (has_live_id user_id))
    require existing_user (no_user_with_id user_id)
    tier_exists ← read (crud_tiers.exists (λ t. eqb t.id tier_id))
    refuse (not tier_exists)
        (tier_not_found_error (concat "Tier with ID " (concat (str tier_id) " not found")))
    updated_user ← crud_users.update (has_id user_id) (λ u. record u { tier_id = some tier_id })
    require updated_user (no_user_with_id user_id)

  -- the join with the tier's rate limits, where the user has a tier
  unfoldable pub limits_of :
      (ℕ → Db → Result (Option UserWithRateLimits))
      → ℕ
      → User
      → Option ℕ
      → Exec Db UserWithRateLimits
  limits_of get_joined user_id user none = pure (record { user = user; rate_limits = [] })
  limits_of get_joined user_id user (some tier_id) = do
    result ← read (get_joined user_id)
    require result (no_user_with_id user_id)

  unfoldable pub get_rate_limits :
      (ℕ → Db → Result (Option UserWithRateLimits)) → ℕ → Exec Db UserWithRateLimits
  get_rate_limits get_joined user_id = do
    found ← read (crud_users.get (has_live_id user_id))
    user ← require found (no_user_with_id user_id)
    limits_of get_joined user_id user user.tier_id

  -- the join with the tier, where it is there
  unfoldable tier_of :
      Crud Db Tier TierCreate
      → (ℕ → Db → Result (Option UserWithTier))
      → ℕ
      → User
      → Option ℕ
      → Exec Db (Option UserWithTier)
  tier_of crud_tiers get_joined user_id user none =
      pure (some (record { user = user; tier = none }))
  tier_of crud_tiers get_joined user_id user (some tier_id) = do
    tier_exists ← read (crud_tiers.exists (λ t. eqb t.id tier_id))
    if not tier_exists
        then pure (some (record { user = user; tier = none }))
        else read (get_joined user_id)

  unfoldable get_user_with_tier :
      Crud Db Tier TierCreate
      → (ℕ → Db → Result (Option UserWithTier))
      → ℕ
      → Exec Db (Option UserWithTier)
  get_user_with_tier crud_tiers get_joined user_id = do
    found ← read (crud_users.get (has_live_id user_id))
    user ← require found (no_user_with_id user_id)
    tier_of crud_tiers get_joined user_id user user.tier_id
