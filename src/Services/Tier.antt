-- ===== src/Services/Tier.antt =====
-- app/services/tier.py with the columns of app/models/tier.py. A field of an update is none where the caller
-- has not set it.
pub mod Names
use fastapi_hyperf.Common.{
  or_old, ℕ, String, Bool, true, false, not, ◌&&◌, Option, none, some, List, Result, Exec, Error,
  concat, str, pure, read, require, refuse, done, ◌>>=◌, ◌>>◌, ◌==◌, eqb, if◌then◌else◌,
  resource_exists_error, tier_not_found_error, permission_denied_error,
}
use fastapi_hyperf.Database.{Crud, Model}

pub record Tier : Type 0 where
  pub id : ℕ
  pub name : String
  pub description : Option String
  pub is_deleted : Bool

pub record TierCreate : Type 0 where
  pub name : String
  pub description : Option String

pub record TierUpdate : Type 0 where
  pub name : Option String
  pub description : Option (Option String)

abbrev pub tier_model : Model Tier TierCreate
tier_model = record {
  id = λ t. t.id;
  made = λ n new. record {
    id = n;
    name = new.name;
    description = new.description;
    is_deleted = false;
  };
  marked = λ t. record t { is_deleted = true };
}

unfoldable pub patch_tier : TierUpdate → Tier → Tier
patch_tier u t = record t {
  name = or_old t.name u.name;
  description = or_old t.description u.description;
}

unfoldable pub tier_exists_message : String → String
tier_exists_message name = concat "Tier with name '" (concat name "' already exists")

unfoldable pub no_tier_named : String → Error
no_tier_named name = tier_not_found_error (concat "Tier with name '" (concat name "' not found"))

abbrev pub tier_name : Tier → String
tier_name t = t.name

abbrev pub is_named : String → Tier → Bool
is_named name t = t.name == name

abbrev pub is_live_named : String → Tier → Bool
is_live_named name t = (t.name == name) && not t.is_deleted

module _ {Db : Type 0} (crud_tiers : Crud Db Tier TierCreate) where
  unfoldable pub create : TierCreate → Exec Db Tier
  create tier = do
    taken ← read (crud_tiers.exists (is_named tier.name))
    refuse taken (resource_exists_error (tier_exists_message tier.name))
    created_tier ← crud_tiers.create tier
    require created_tier (resource_exists_error "Failed to create tier")

  unfoldable pub get_all : ℕ → ℕ → Exec Db (List Tier)
  get_all skip limit = read (crud_tiers.get_multi skip limit (λ t. not t.is_deleted))

  unfoldable pub get_by_id : ℕ → Exec Db Tier
  get_by_id tier_id = do
    tier ← read (crud_tiers.get (λ t. eqb t.id tier_id && not t.is_deleted))
    require tier (tier_not_found_error (concat "Tier with ID " (concat (str tier_id) " not found")))

  unfoldable pub get_by_name : String → Exec Db Tier
  get_by_name name = do
    tier ← read (crud_tiers.get (is_live_named name))
    require tier (no_tier_named name)

  -- 'name' in update_data and update_data['name'] != name, and the new name is taken
  unfoldable pub check_rename : Option String → String → Exec Db (Unit {0})
  check_rename none name = done
  check_rename (some new) name = if new == name then done else (do
    taken ← read (crud_tiers.exists (is_named new))
    refuse taken (resource_exists_error (tier_exists_message new)))

  unfoldable pub update : String → TierUpdate → Exec Db (Unit {0})
  update name tier_update = do
    existing_tier ← read (crud_tiers.get (is_named name))
    require existing_tier (no_tier_named name)
    check_rename tier_update.name name
    crud_tiers.update (is_named name) (patch_tier tier_update)
    done

  unfoldable pub delete : String → Exec Db (Unit {0})
  delete name = do
    existing_tier ← read (crud_tiers.get (is_live_named name))
    require existing_tier (no_tier_named name)
    crud_tiers.delete (is_named name)

  unfoldable pub permanent_delete : String → Exec Db (Unit {0})
  permanent_delete name = do
    existing_tier ← read (crud_tiers.get (is_named name))
    require existing_tier (no_tier_named name)
    crud_tiers.db_delete (is_named name)

-- user.get('is_superuser', False)
unfoldable pub verify_superuser : {S : Type 0} → Option Bool → String → Exec S (Unit {0})
verify_superuser is_superuser action =
    refuse (not (or_old false is_superuser))
      (permission_denied_error (concat "Only superusers can " action))
