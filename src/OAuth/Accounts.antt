-- ===== src/OAuth/Accounts.antt =====
-- What `_create_user_from_oauth` does to the table of users.
use fastapi_hyperf.Common.{
  ℕ, zero, suc, ◌+◌, ◌≤◌, ◌⊎◌, String, Bool, true, false, Option, none, some, [], ◌∷◌, ◌++◌, Result,
  ok, err, ◌≡◌, refl, arith, concat, str, ◌==◌, if◌then◌else◌,
}
use Prim.Native.Char.{code}
use fastapi_hyperf.Common.Slices.{size}
use fastapi_hyperf.Database.{Crud, IsLawful}
use fastapi_hyperf.Services.User.{User, UserCreateInternal, user_model}
use fastapi_hyperf.OAuth.{OAuthUserInfo, Filtered, free_username, given}

-- only the letters from a to z and digits
abbrev pub IsPlainName : String → Type 0
IsPlainName String.[] = Unit
IsPlainName (String.◌∷◌ c s) =
    (((48 ≤ code c) × (code c ≤ 57)) ⊎ ((97 ≤ code c) × (code c ≤ 122))) × IsPlainName s

-- What is asked of the fields of a user, written out.
abbrev pub Fits : (String → Bool) → String → String → String → Type 0
Fits is_email name username email =
    (2 ≤ size name)
    × (size name ≤ 30)
    × (2 ≤ size username)
    × (size username ≤ 20)
    × IsPlainName username
    × (is_email email ≡ true)

module _ {Db : Type 0} (filtered : Filtered Db) (users : Crud Db User UserCreateInternal) where
  -- Where `exists` answers yes whatever the username, as it does if the filter is not applied and there is a
  -- user, the loop does not end.
  free_username-endless :
      (fuel : ℕ) (base username : String) (i : ℕ) (db : Db)
      → ((name : String) → filtered.exists_by name db ≡ ok true)
      → free_username filtered fuel base username i db ≡ none
  unfolding free_username
  free_username-endless zero base username i db always = refl
  free_username-endless (suc fuel) base username i db always = ground (
    arith,
    always username,
    free_username-endless fuel base (concat base (str i)) (i + 1) db always,
  )

  -- One row is added, as the identity has it and as `UserBase` wants it, with a user that is new; or an error leaves the
  -- rows as they are.
  abbrev pub Adds : (String → Bool) → OAuthUserInfo → Result (Option User × Bool) → Db → Db → Type 0
  Adds is_email info (err e) db later = users.rows later ≡ users.rows db
  Adds is_email info (ok (user, is_new)) db later =
      (is_new ≡ true)
      × (row : User) × (users.rows later ≡ users.rows db ++ (row ∷ []))
      × (given info.email ≡ some row.email)
      × Fits is_email row.name row.username row.email
      × (row.google_id ≡ (if info.provider == "google" then some info.provider_user_id else none))
      × (row.github_id ≡ (if info.provider == "github" then some info.provider_user_id else none))
      × (row.oauth_provider ≡ some info.provider)
      × (row.email_verified ≡ info.email_verified)
      × (row.is_deleted ≡ false)

  module _ (law : IsLawful user_model users) (lower : String → String) (is_email : String → Bool)
      (hashed_password : String) (t : ℕ) where
    Ends : OAuthUserInfo → Db → Option (Result (Option User × Bool) × Db) → Type 0
    Ends info db none = Unit
    Ends info db (some (r, later)) = Adds is_email info r db later
