-- ===== src/Services/RateLimits.antt =====
-- app/services/rate_limit.py with the columns of app/models/rate_limit.py. The six hex digits of `uuid.uuid4()`
-- are an argument of `create`. A field of an update is none where the caller has not set it.
pub mod Names
use fastapi_hyperf.Common.{
  ℕ, String, Bool, true, false, not, ◌&&◌, Option, none, some, List, Result, Exec, Error, concat,
  str, pure, or_old, read, require, refuse, done, ◌>>=◌, ◌>>◌, ◌==◌, eqb, if◌then◌else◌, truthy,
  resource_exists_error, resource_not_found_error, tier_not_found_error, permission_denied_error,
}
use fastapi_hyperf.Database.{Crud, Model}
use fastapi_hyperf.Services.Tier.{Tier, TierCreate}

pub record RateLimit : Type 0 where
  pub id : ℕ
  pub tier_id : ℕ
  pub name : String
  pub path : String
  pub limit : ℕ
  pub period : ℕ
  pub is_deleted : Bool

pub record RateLimitCreate : Type 0 where
  pub path : String
  pub limit : ℕ
  pub period : ℕ
  pub name : Option String

pub record RateLimitCreateInternal : Type 0 where
  pub path : String
  pub limit : ℕ
  pub period : ℕ
  pub name : String
  pub tier_id : ℕ

pub record RateLimitUpdate : Type 0 where
  pub path : Option String
  pub limit : Option ℕ
  pub period : Option ℕ
  pub name : Option String

abbrev pub rate_limit_model : Model RateLimit RateLimitCreateInternal
rate_limit_model = record {
  id = λ r. r.id;
  made = λ n new. record {
    id = n;
    tier_id = new.tier_id;
    name = new.name;
    path = new.path;
    limit = new.limit;
    period = new.period;
    is_deleted = false;
  };
  marked = λ r. record r { is_deleted = true };
}

unfoldable pub patch_rate_limit : RateLimitUpdate → RateLimit → RateLimit
patch_rate_limit u r = record r {
  name = or_old r.name u.name;
  path = or_old r.path u.path;
  limit = or_old r.limit u.limit;
  period = or_old r.period u.period;
}

abbrev pub rate_limit_name : RateLimit → String
rate_limit_name r = r.name

abbrev pub is_named : String → RateLimit → Bool
is_named name r = r.name == name

unfoldable pub rate_limit_exists_message : String → String
rate_limit_exists_message name = concat "Rate limit with name '" (concat name "' already exists")

unfoldable pub no_rate_limit_named : String → Error
no_rate_limit_named name =
    resource_not_found_error (concat "Rate limit with name '" (concat name "' not found"))

-- the name of the new rate limit: `rate_limit_{unique_id}` where none is given
unfoldable pub name_or_default : Option String → String → String
name_or_default none unique_id = concat "rate_limit_" unique_id
name_or_default (some name) unique_id = if truthy name then name else concat "rate_limit_" unique_id

unfoldable pub to_internal : RateLimitCreate → String → ℕ → RateLimitCreateInternal
to_internal new name tier_id = record {
  path = new.path;
  limit = new.limit;
  period = new.period;
  name = name;
  tier_id = tier_id;
}

module _ {Db : Type 0} (crud_rate_limits : Crud Db RateLimit RateLimitCreateInternal) where
  unfoldable pub create : Crud Db Tier TierCreate → RateLimitCreate → ℕ → String → Exec Db RateLimit
  create crud_tiers rate_limit tier_id unique_id = do
    tier_exists ← read (crud_tiers.exists (λ t. eqb t.id tier_id))
    refuse (not tier_exists)
        (tier_not_found_error (concat "Tier with ID " (concat (str tier_id) " not found")))
    let name = name_or_default rate_limit.name unique_id
    name_exists ← read (crud_rate_limits.exists (is_named name))
    refuse name_exists (resource_exists_error (rate_limit_exists_message name))
    created_rate_limit ← crud_rate_limits.create (to_internal rate_limit name tier_id)
    require created_rate_limit (resource_exists_error "Failed to create rate limit")

  unfoldable pub get_all : ℕ → ℕ → Exec Db (List RateLimit)
  get_all skip limit = read (crud_rate_limits.get_multi skip limit (λ r. not r.is_deleted))

  unfoldable pub get_by_id : ℕ → Exec Db RateLimit
  get_by_id rate_limit_id = do
    rate_limit ← read (crud_rate_limits.get (λ r. eqb r.id rate_limit_id && not r.is_deleted))
    require rate_limit (
        resource_not_found_error
          (concat "Rate limit with ID " (concat (str rate_limit_id) " not found")))

  unfoldable pub get_by_name : String → Exec Db RateLimit
  get_by_name name = do
    rate_limit ← read (crud_rate_limits.get (λ r. (r.name == name) && not r.is_deleted))
    require rate_limit (no_rate_limit_named name)

  unfoldable get_active_and_inactive_by_name : String → Exec Db RateLimit
  get_active_and_inactive_by_name name = do
    rate_limit ← read (crud_rate_limits.get (is_named name))
    require rate_limit (no_rate_limit_named name)

  -- 'name' in update_data and update_data['name'] != name, and the new name is taken
  unfoldable pub check_rename : Option String → String → Exec Db (Unit {0})
  check_rename none name = done
  check_rename (some new) name = if new == name then done else (do
    name_exists ← read (crud_rate_limits.exists (is_named new))
    refuse name_exists (resource_exists_error (rate_limit_exists_message new)))

  unfoldable pub update : String → RateLimitUpdate → Exec Db (Unit {0})
  update name rate_limit_update = do
    existing_rate_limit ← read (crud_rate_limits.get (is_named name))
    require existing_rate_limit (no_rate_limit_named name)
    check_rename rate_limit_update.name name
    crud_rate_limits.update (is_named name) (patch_rate_limit rate_limit_update)
    done

  unfoldable pub delete : String → Exec Db (Unit {0})
  delete name = do
    existing_rate_limit ← read (crud_rate_limits.get (is_named name))
    require existing_rate_limit (no_rate_limit_named name)
    crud_rate_limits.db_delete (is_named name)

-- user.get('is_superuser', False)
unfoldable pub verify_superuser : {S : Type 0} → Option Bool → String → Exec S (Unit {0})
verify_superuser is_superuser action =
    refuse (not (or_old false is_superuser))
      (permission_denied_error (concat "Only superusers can " action))
