-- ===== src/Services/User.antt =====
-- The columns and schemas of app/models/user.py. Instants are numbers. A field of an update is none where the
-- caller has not set it; the database refuses a null for a column that has none, so only columns that may be
-- null can be set to none.
pub mod Service
pub mod Change
pub mod Calls
pub mod Anonymize
use fastapi_hyperf.Common.{
  ℕ, ◌%◌, String, Bool, true, false, not, ◌&&◌, Option, none, some, ◌==◌, concat, str, or_old, eqb,
}
use fastapi_hyperf.Database.{Model}

pub record User : Type 0 where
  pub id : ℕ
  pub name : String
  pub username : String
  pub email : String
  pub hashed_password : String
  pub profile_image_url : String
  pub tier_id : Option ℕ
  pub is_superuser : Bool
  pub google_id : Option String
  pub github_id : Option String
  pub oauth_provider : Option String
  pub email_verified : Bool
  pub oauth_created_at : Option ℕ
  pub oauth_updated_at : Option ℕ
  pub is_deleted : Bool

-- `UserCreate`, and `UserCreateInternal` with the hash in place of the password
pub record UserCreate : Type 0 where
  pub name : String
  pub username : String
  pub email : String
  pub password : String
  pub google_id : Option String
  pub github_id : Option String
  pub oauth_provider : Option String
  pub email_verified : Bool
  pub oauth_created_at : Option ℕ
  pub oauth_updated_at : Option ℕ

pub record UserCreateInternal : Type 0 where
  pub name : String
  pub username : String
  pub email : String
  pub hashed_password : String
  pub google_id : Option String
  pub github_id : Option String
  pub oauth_provider : Option String
  pub email_verified : Bool
  pub oauth_created_at : Option ℕ
  pub oauth_updated_at : Option ℕ

pub record UserUpdate : Type 0 where
  pub name : Option String
  pub username : Option String
  pub email : Option String
  pub profile_image_url : Option String
  pub google_id : Option (Option String)
  pub github_id : Option (Option String)
  pub oauth_provider : Option (Option String)
  pub email_verified : Option Bool
  pub oauth_updated_at : Option (Option ℕ)

abbrev pub user_model : Model User UserCreateInternal
user_model = record {
  id = λ u. u.id;
  made = λ n new. record {
    id = n;
    name = new.name;
    username = new.username;
    email = new.email;
    hashed_password = new.hashed_password;
    profile_image_url = "https://profileimageurl.com";
    tier_id = none;
    is_superuser = false;
    google_id = new.google_id;
    github_id = new.github_id;
    oauth_provider = new.oauth_provider;
    email_verified = new.email_verified;
    oauth_created_at = new.oauth_created_at;
    oauth_updated_at = new.oauth_updated_at;
    is_deleted = false;
  };
  marked = λ u. record u { is_deleted = true };
}

-- the object that `create` stores: the password gives way to its hash
unfoldable pub to_internal : UserCreate → String → UserCreateInternal
to_internal user hashed_password = record {
  name = user.name;
  username = user.username;
  email = user.email;
  hashed_password = hashed_password;
  google_id = user.google_id;
  github_id = user.github_id;
  oauth_provider = user.oauth_provider;
  email_verified = user.email_verified;
  oauth_created_at = user.oauth_created_at;
  oauth_updated_at = user.oauth_updated_at;
}

unfoldable pub patch_user : UserUpdate → User → User
patch_user c u = record u {
  name = or_old u.name c.name;
  username = or_old u.username c.username;
  email = or_old u.email c.email;
  profile_image_url = or_old u.profile_image_url c.profile_image_url;
  google_id = or_old u.google_id c.google_id;
  github_id = or_old u.github_id c.github_id;
  oauth_provider = or_old u.oauth_provider c.oauth_provider;
  email_verified = or_old u.email_verified c.email_verified;
  oauth_updated_at = or_old u.oauth_updated_at c.oauth_updated_at;
}

-- the row under `UserAnonymize(...)`
unfoldable pub anonymized : ℕ → ℕ → User → User
anonymized user_id timestamp u = record u {
  name = "[DELETED]";
  username = concat "del_" (concat (str user_id) (concat "_" (str (timestamp % 10000))));
  hashed_password = "DELETED_INVALID_HASH";
  profile_image_url = "https://deleted.com/deleted.jpg";
  tier_id = none;
  is_superuser = false;
  google_id = none;
  github_id = none;
  oauth_provider = none;
  email_verified = false;
  oauth_created_at = none;
  oauth_updated_at = none;
}

abbrev pub user_email : User → String
user_email u = u.email

abbrev pub user_username : User → String
user_username u = u.username

abbrev pub has_id : ℕ → User → Bool
has_id n u = eqb u.id n

abbrev pub has_live_id : ℕ → User → Bool
has_live_id n u = eqb u.id n && not u.is_deleted

abbrev pub has_email : String → User → Bool
has_email email u = u.email == email

abbrev pub has_username : String → User → Bool
has_username username u = u.username == username
