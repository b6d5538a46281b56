-- ===== src/OAuth.antt =====
-- app/core/auth/oauth/services.py: the account that an identity of a provider gets. The calls of FastCRUD with
-- `filter_by=` and `object_id=` are parameters, apart from the table that the other services use; so are
-- `str.lower`, the check of an email, the hash of a password and the values of `secrets`. The loops that look for a username run on
-- fuel.
pub mod Accounts
mod Tests
use Prim.Native.Char.{Char, code}
use fastapi_hyperf.Common.Slices.{size}
use fastapi_hyperf.Common.{
  leb, ◌||◌, ℕ, zero, suc, ◌+◌, String, Bool, true, false, not, ◌&&◌, Option, none, some, List,
  Result, ok, err, Exec, Error, concat, str, ◌==◌, pure, raise, read, require, refuse, resume,
  ◌>>=◌, ◌>>◌, truthy, if◌then◌else◌, value_error,
}
use fastapi_hyperf.Common.Text.{strip, is_space, before, replace}
use fastapi_hyperf.Database.{Crud}
use fastapi_hyperf.Services.User.{User, UserCreateInternal}

pub record OAuthUserInfo : Type 0 where
  pub provider : String
  pub provider_user_id : String
  pub email : Option String
  pub email_verified : Bool
  pub name : Option String
  pub given_name : Option String
  pub family_name : Option String
  pub username : Option String

-- crud_users.get(filter_by={column: value}), exists(filter_by={"username": username}) and
-- update(object_id=, object=)
pub record Filtered (Db : Type 0) : Type 0 where
  pub get_by : String → String → Db → Result (Option User)
  pub exists_by : String → Db → Result Bool
  pub update_object : ℕ → (User → User) → Exec Db (Option User)

-- a text that is absent or empty
unfoldable pub given : Option String → Option String
given none = none
given (some s) = if truthy s then some s else none

-- a or b
unfoldable pub or_else : Option String → Option String → Option String
or_else a b = elim (given a) [ none ↦ b | some s ↦ some s ]

unfoldable pub or_empty : Option String → String
or_empty none = ""
or_empty (some s) = s

-- oauth_user_info.name, or the two other names, or what stands before the "@" of the email
unfoldable pub name_of : OAuthUserInfo → String → String
name_of info email = elim (given info.name) [
  | some name ↦ name
  | none ↦
      let name = strip is_space (
        concat (or_empty (given info.given_name))
          (concat " " (or_empty (given info.family_name)))) in
      if truthy name then name else before 64 email
]

-- username_base where no username is given
unfoldable pub base_of : (String → String) → OAuthUserInfo → String → String
base_of lower info email =
    replace 32 "_"
      (lower (or_empty (or_else info.given_name (or_else info.name (some (before 64 email))))))

-- ^[a-z0-9]+$
unfoldable pub is_lower_or_digit : Char → Bool
is_lower_or_digit c =
    (leb b'0' (code c) && leb (code c) b'9') || (leb b'a' (code c) && leb (code c) b'z')

unfoldable pub all_lower_or_digits : String → Bool
all_lower_or_digits String.[] = true
all_lower_or_digits (String.◌∷◌ c s) = is_lower_or_digit c && all_lower_or_digits s

-- What the fields of `UserBase` ask for, where `is_email` is the check of pydantic's `EmailStr`. An object that does not
-- have it is refused with a ValidationError, which is a ValueError.
unfoldable pub is_valid : (String → Bool) → UserCreateInternal → Bool
unfolding all_lower_or_digits is_lower_or_digit
is_valid is_email user =
    (leb 2 (size user.name) && leb (size user.name) 30)
    && ((leb 2 (size user.username) && leb (size user.username) 20)
        && (all_lower_or_digits user.username && is_email user.email))

-- the field `{provider}_id` of the identity
unfoldable link : ℕ → String → String → User → User
link t provider value u =
    if provider == "google"
    then record u { google_id = some value; oauth_updated_at = some t }
    else if provider == "github"
    then record u { github_id = some value; oauth_updated_at = some t }
    else record u { oauth_updated_at = some t }

module _ {Db : Type 0} (filtered : Filtered Db) where
  -- `while await crud_users.exists(...)`: none where the fuel is spent
  unfoldable pub free_username : ℕ → String → String → ℕ → Db → Option (Result String)
  free_username zero base username i db = none
  free_username (suc fuel) base username i db =
      let rest = free_username fuel base (concat base (str i)) (i + 1) db in
      elim (filtered.exists_by username db) [
        | err e ↦ some (err e)
        | ok taken ↦ if taken then rest else some (ok username)
      ]

  -- both branches begin the loop with the name itself
  unfoldable pub choose_username :
      ℕ → (String → String) → OAuthUserInfo → String → Db → Option (Result String)
  choose_username fuel lower info email db = elim (given info.username) [
    | some username ↦ free_username fuel username username 1 db
    | none ↦ let base = base_of lower info email in free_username fuel base base 1 db
  ]

  unfoldable pub new_user : OAuthUserInfo → ℕ → String → String → String → UserCreateInternal
  new_user info t username email hashed_password = record {
    name = name_of info email;
    username = username;
    email = email;
    hashed_password = hashed_password;
    google_id = if info.provider == "google" then some info.provider_user_id else none;
    github_id = if info.provider == "github" then some info.provider_user_id else none;
    oauth_provider = some info.provider;
    email_verified = info.email_verified;
    oauth_created_at = some t;
    oauth_updated_at = some t;
  }

  module _ (crud_users : Crud Db User UserCreateInternal) (lower : String → String)
      (is_email : String → Bool) (hashed_password : String) (t : ℕ) where
    -- UserCreateInternal(...) and the insertion
    unfoldable pub create_valid : UserCreateInternal → Exec Db (Option User × Bool)
    create_valid new =
        if not (is_valid is_email new)
        then raise value_error
        else (do user ← crud_users.create new; pure (user, true))

    -- with the username that the loop chose; a run that spends the fuel gives none
    unfoldable pub create_named :
        OAuthUserInfo
        → String
        → Option (Result String)
        → Db
        → Option (Result (Option User × Bool) × Db)
    create_named info email none db = none
    create_named info email (some (err e)) db = some (err e, db)
    create_named info email (some (ok username)) db =
        some (create_valid (new_user info t username email hashed_password) db)

    unfoldable pub create_user_from_oauth :
        ℕ → OAuthUserInfo → Db → Option (Result (Option User × Bool) × Db)
    create_user_from_oauth fuel info db = elim (given info.email) [
      | none ↦ some (err value_error, db)
      | some email ↦ create_named info email (choose_username fuel lower info email db) db
    ]

    -- the user with the email, whose identity is linked
    unfoldable link_existing : OAuthUserInfo → User → Exec Db (Option User × Bool)
    link_existing info user = do
      updated ← filtered.update_object user.id (link t info.provider info.provider_user_id)
      pure (updated, false)

    unfoldable by_email :
        ℕ → OAuthUserInfo → Result (Option User) → Db → Option (Result (Option User × Bool) × Db)
    by_email fuel info (err e) db = some (err e, db)
    by_email fuel info (ok (some user)) db = some (link_existing info user db)
    by_email fuel info (ok none) db = create_user_from_oauth fuel info db

    unfoldable by_provider :
        ℕ → OAuthUserInfo → Result (Option User) → Db → Option (Result (Option User × Bool) × Db)
    by_provider fuel info (err e) db = some (err e, db)
    by_provider fuel info (ok (some user)) db = some (ok (some user, false), db)
    by_provider fuel info (ok none) db = elim (given info.email) [
      | none ↦ create_user_from_oauth fuel info db
      | some email ↦ by_email fuel info (filtered.get_by "email" email db) db
    ]

    unfoldable get_or_create_user :
        ℕ → OAuthUserInfo → Db → Option (Result (Option User × Bool) × Db)
    get_or_create_user fuel info db =
        by_provider fuel info
          (filtered.get_by (concat info.provider "_id") info.provider_user_id db) db
